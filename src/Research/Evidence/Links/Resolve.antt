-- ===== src/Research/Evidence/Links/Resolve.antt =====
-- Every link of a claim is to an artifact that is stored, and every citation has its link.
use synaptica_web.Prelude.{ℕ, true, List, [], ◌∷◌, ◌==◌, ◌≡◌, any, All, length, Unique, ◌+◌}
use synaptica_web.Research.Evidence.{EvidenceArtifact}
use synaptica_web.Research.Evidence.Upsert.{keys}
use synaptica_web.Research.Evidence.Links.{Claim, ClaimLink, Linked}

-- the artifact of a link is there
abbrev pub Resolves : List EvidenceArtifact → ClaimLink → Type 0
Resolves artifacts l = any (λ a. a.artifact_key == l.artifact_key) artifacts ≡ true

-- what linking keeps
record IsLinked (l : Linked) : Type 0 where
  resolves : All (Resolves l.artifacts) l.links
  unique : Unique (keys l.artifacts)

-- the number of links that a list of claims needs
abbrev pub citations_of : List Claim → ℕ
citations_of [] = 0
citations_of (c ∷ claims) = length c.supporting_citation_ids + citations_of claims
