-- ===== src/Research/Evidence/Links.antt =====
-- shared/research_runs/service.py, `_persist_phase2_claims_and_links`: the claims of the final answer
-- and their links to artifacts. A claim comes with its id, which the code makes distinct, and with the
-- citations that support it, in the order of the answer.
pub mod Resolve
use synaptica_web.Prelude.{
  ℕ, suc, String, Bool, true, Option, none, some, List, [], ◌∷◌, ◌++◌, ◌==◌, any, if◌then◌else◌,
}
use synaptica_web.Research.Finish.{or_else}
use synaptica_web.Research.Evidence.{
  EvidenceArtifact, CurationStatus, with_key, same_text, Library, Source, opened,
}
use synaptica_web.Research.Evidence.Upsert.{new_artifact, upsert_all, flush}

-- a member of `claims`, with its id
pub record AnswerClaim : Type 0 where
  pub claim_id : String
  pub claim : String
  pub confidence : Option String
  pub supporting_citation_ids : List String

-- `Claim`; the citations are that key of its column `meta`
pub record Claim : Type 0 where
  pub claim_id : String
  pub claim_order : ℕ
  pub claim : String
  pub confidence : Option String
  pub supporting_citation_ids : List String

-- `ClaimLink`, whose relation is always `supports`
pub record ClaimLink : Type 0 where
  pub claim_id : String
  pub artifact_key : String
  pub link_order : ℕ
  pub citation_id : String

-- the citations without those seen before
unfoldable pub distinct : List String → List String → List String
distinct seen [] = []
distinct seen (c ∷ cs) =
    let rest = distinct (c ∷ seen) cs in
    if any (λ s. s == c) seen then distinct seen cs else c ∷ rest

-- `_ensure_placeholder_artifact`, where no artifact has the key
unfoldable pub placeholder_artifact : String → ℕ → EvidenceArtifact
unfolding new_artifact
placeholder_artifact citation_id order = record (new_artifact citation_id "revise_final_answer") {
  citation_id = some citation_id;
  order_index = order;
  curation_status = some CurationStatus.cited;
  placeholder = true;
}

-- the last row that passes a test
abbrev pub find_last : (EvidenceArtifact → Bool) → List EvidenceArtifact → Option EvidenceArtifact
find_last p [] = none
find_last p (x ∷ xs) = or_else (find_last p xs) (if p x then some x else none)

-- `artifacts_by_key.get(c) or artifacts_by_citation.get(c)`: the last artifact of a citation counts
unfoldable pub resolve_citation : String → List EvidenceArtifact → Option EvidenceArtifact
resolve_citation c artifacts =
    or_else (with_key c artifacts) (find_last (λ a. same_text a.citation_id c) artifacts)

-- the rows of artifacts and links while the citations of a claim are linked
pub record Linked : Type 0 where
  pub artifacts : List EvidenceArtifact
  pub links : List ClaimLink

unfoldable pub link_to : String → ℕ → String → Linked → Option EvidenceArtifact → Linked
unfolding placeholder_artifact
link_to claim_id order c l (some a) = record l {
  links =
      l.links
      ++ (record {
        claim_id = claim_id;
        artifact_key = a.artifact_key;
        link_order = order;
        citation_id = c;
      }
          ∷ []);
}
link_to claim_id order c l none = record {
  artifacts = l.artifacts ++ (placeholder_artifact c order ∷ []);
  links =
      l.links
      ++ (record { claim_id = claim_id; artifact_key = c; link_order = order; citation_id = c }
          ∷ []);
}

-- the loop over the citations of a claim
unfoldable pub link_citations : String → ℕ → List String → Linked → Linked
unfolding link_to resolve_citation
link_citations claim_id order [] l = l
link_citations claim_id order (c ∷ cs) l =
    link_citations claim_id (suc order) cs
      (link_to claim_id order c l (resolve_citation c l.artifacts))

-- the rows of the claims, and the loop over them
unfoldable pub claim_row : ℕ → AnswerClaim → Claim
unfolding distinct
claim_row order item = record {
  claim_id = item.claim_id;
  claim_order = order;
  claim = item.claim;
  confidence = item.confidence;
  supporting_citation_ids = distinct [] item.supporting_citation_ids;
}

unfoldable pub claim_rows : ℕ → List AnswerClaim → List Claim
unfolding claim_row
claim_rows order [] = []
claim_rows order (item ∷ items) = claim_row order item ∷ claim_rows (suc order) items

unfoldable pub link_claims : List Claim → Linked → Linked
unfolding link_citations
link_claims [] l = l
link_claims (c ∷ claims) l =
    link_claims claims (link_citations c.claim_id 1 c.supporting_citation_ids l)

-- the graph of a run
pub record Graph : Type 0 where
  pub claims : List Claim
  pub linked : Linked

-- `_persist_phase2_claims_and_links`, with the citations of the answer: the claims and links of
-- before are deleted
unfoldable pub persist_claims_and_links :
    Library → List Source → List AnswerClaim → List EvidenceArtifact → Option Graph
unfolding upsert_all flush claim_rows link_claims
persist_claims_and_links lib citations items artifacts =
    elim (upsert_all lib "revise_final_answer" CurationStatus.cited 1 citations
      (opened artifacts)) [
        | none ↦ none
        | some s ↦ elim (flush lib s) [
          | none ↦ none
          | some cited ↦ some (record {
            claims = claim_rows 1 items;
            linked = link_claims (claim_rows 1 items) (record { artifacts = cited; links = [] });
          })
        ]
      ]
