-- ===== src/Research/Steps/Owned/Reached.antt =====
-- Every step keeps the owner of what is running.
use synaptica_web.Prelude.{ℕ, String, Option, none, ◌≡◌, refl, arith, sym, ◌∙◌, subst}
use synaptica_web.Research.{Store, is_idle}
use synaptica_web.Research.Requests.{
  request_resume, cancel_pending_nodes, cancel_node, wait_for_control_state, mark_paused, Poll,
}
use synaptica_web.Research.Executor.{
  mark_started, mark_completed, mark_failed, mark_cancelled, block_pending_descendants, is_pending,
}
use synaptica_web.Research.Steps.{Owner, Stage, Working, IsWait, Step, Reach}
use synaptica_web.Research.Steps.Updates.{slept}
use synaptica_web.Research.Steps.Owned.{
  pause-IsOwned, cancel-IsOwned, create-IsOwned, finalize-IsOwned, failure-IsOwned, retry-IsOwned,
  quiet_nodes, owner, IsOwned,
}

-- the rows of nodes and attempts are the same
same-IsOwned :
    (o : Option Owner) (s u : Store)
    → u.nodes ≡ s.nodes
    → u.attempts ≡ s.attempts
    → IsOwned o s
    → IsOwned o u
same-IsOwned o s u ns xs h = record { nodes = rw ns h.nodes; attempts = rw xs h.attempts }

owner-IsOwned : {s : Store} {o o' : Option Owner} → o ≡ o' → IsOwned o s → IsOwned o' s
owner-IsOwned {s = s} e h = subst (λ o. IsOwned o s) e h

resume-IsOwned : (o : Option Owner) (s : Store) → IsOwned o s → IsOwned o (request_resume s)
unfolding request_resume
resume-IsOwned o s h = same-IsOwned o s (request_resume s) (ground arith) (ground arith) h

start-IsOwned : (o : Option Owner) (s : Store) → IsOwned o s → IsOwned o (mark_started s)
unfolding mark_started
start-IsOwned o s h = same-IsOwned o s (mark_started s) (ground arith) (ground arith) h

wait-owner : {st st' : Stage} → IsWait st st' → (owner st ≡ none) × (owner st' ≡ none)
wait-owner IsWait.wait_of_run = (refl, refl)
wait-owner IsWait.wait_of_node = (refl, refl)

crash-owner : {st : Stage} {o : Option Owner} → Working st o → owner st ≡ o
crash-owner Working.at_start = refl
crash-owner Working.between = refl
crash-owner Working.at_node_start = refl
crash-owner Working.at_loop_head = refl
crash-owner Working.in_attempt = refl
crash-owner Working.after_attempt = refl

mark_paused-IsOwned : (o : Option Owner) (s : Store) → IsOwned o s → IsOwned o (mark_paused s)
unfolding mark_paused
mark_paused-IsOwned o s h = same-IsOwned o s (mark_paused s) (ground arith) (ground arith) h

sleep-IsOwned :
    (o : Option Owner) (s u : Store)
    → wait_for_control_state s ≡ Poll.sleep u
    → IsOwned o s
    → IsOwned o u
sleep-IsOwned o s u e h = rw (slept s u e) (mark_paused-IsOwned o s h)

Step-IsOwned :
    {m : String → ℕ} {s u : Store} {at to : Stage}
    → Step m s at u to
    → IsOwned (owner at) s
    → IsOwned (owner to) u
unfolding mark_completed mark_failed mark_cancelled block_pending_descendants cancel_pending_nodes
    cancel_node
Step-IsOwned (Step.pause e) h = pause-IsOwned _ _ _ e h
Step-IsOwned Step.resume h = resume-IsOwned _ _ h
Step-IsOwned Step.cancel h = cancel-IsOwned _ _ h
Step-IsOwned Step.start h = start-IsOwned _ _ h
Step-IsOwned (Step.proceed w e) h = let (f, t) = wait-owner w in owner-IsOwned (f ∙ sym t) h
Step-IsOwned (Step.sleep st' w e) h = sleep-IsOwned _ _ _ e h
Step-IsOwned (Step.stop st' w e) h = owner-IsOwned (wait-owner w).0 h
Step-IsOwned (Step.visit e p) h = h
Step-IsOwned (Step.skip e p) h = h
Step-IsOwned (Step.visit_cancelled e p) h = h
Step-IsOwned (Step.create fresh e) h = create-IsOwned _ _ _ _ _ e h
Step-IsOwned (Step.work f) h = same-IsOwned _ _ _ refl refl h
Step-IsOwned (Step.succeed result snapshot b e) h = finalize-IsOwned _ _ _ _ _ _ _ _ e h
Step-IsOwned (Step.end_cancelled result snapshot b c e) h = finalize-IsOwned _ _ _ _ _ _ _ _ e h
Step-IsOwned (Step.fail) h = failure-IsOwned _ _ _ _ _ _ _ h
Step-IsOwned (Step.retry b e) h = retry-IsOwned _ _ _ _ e h
Step-IsOwned (Step.give_up b) h = h
Step-IsOwned (Step.crash error w) h = owner-IsOwned (crash-owner w) h
Step-IsOwned Step.complete h = same-IsOwned _ _ _ refl refl h
Step-IsOwned Step.overrun h = same-IsOwned _ _ _ refl refl h
Step-IsOwned Step.fail_run h = same-IsOwned _ _ _ refl refl h
Step-IsOwned Step.block h = record {
  nodes = quiet_nodes _ is_pending _ (λ x. refl) _ h.nodes;
  attempts = h.attempts;
}
Step-IsOwned Step.cancel_run h = same-IsOwned _ _ _ refl refl h
Step-IsOwned Step.sweep h = record {
  nodes = quiet_nodes none is_idle _ (λ x. refl) _ h.nodes;
  attempts = h.attempts;
}

pub Reach-IsOwned :
    {m : String → ℕ} {s : Store} {at to : Stage} {u : Store}
    → IsOwned (owner at) s
    → Reach m s at u to
    → IsOwned (owner to) u
Reach-IsOwned h Reach.here = h
Reach-IsOwned h (Reach.next r st) = Step-IsOwned st (Reach-IsOwned h r)
