-- ===== src/Queue/Complete.antt =====
-- How much a claim takes: never more than asked for, and all that can be claimed where that is
-- little enough.
use eutxo_l2_interop.Base.{ℕ, ◌≤◌, ◌<◌, List, [], ◌∷◌, length, length-append, arith}
use eutxo_l2_interop.Store.{Sys, Workflow}
use eutxo_l2_interop.Queue.Claim.{
  claim_one, claim_loop, Claimed, started, claim_due_workflows, candidates, rows_of,
}

claim_loop-length :
    (lock_ms now worker limit : ℕ) (wfs : List Workflow) (acc : Claimed)
    → length acc.ids < limit
    → length (claim_loop lock_ms now worker limit wfs acc).ids ≤ limit
unfolding claim_loop started
claim_loop-length lock_ms now worker limit [] acc h = omega arith
claim_loop-length lock_ms now worker limit (wf ∷ wfs) acc h =
    let s = (claim_one lock_ms now worker wf acc.sys).1 in
    ground (
      arith,
      length-append acc.ids (wf.id ∷ []),
      claim_loop-length lock_ms now worker limit wfs (record acc { sys = s }) h,
      claim_loop-length lock_ms now worker limit wfs (started wf s acc),
    )

rows_of-length : (ids : List ℕ) (s : Sys) → length (rows_of ids s) ≤ length ids
unfolding rows_of
rows_of-length [] s = omega arith
rows_of-length (id ∷ ids) s = ground (arith, rows_of-length ids s)

-- A claim for at least one workflow returns at most as many as it was asked for.
pub claim_due_workflows-length :
    (order : List Workflow → List Workflow) (lock_ms limit worker : ℕ) (s : Sys)
    → 1 ≤ limit
    → length (claim_due_workflows order lock_ms limit worker s).0 ≤ limit
unfolding claim_due_workflows
claim_due_workflows-length order lock_ms limit worker s h =
    let start : Claimed = record { ids = []; stale = 0; sys = s } in
    let done = claim_loop lock_ms s.clock worker limit (candidates order limit s) start in
    omega (
      arith,
      claim_loop-length lock_ms s.clock worker limit (candidates order limit s) start h,
      rows_of-length done.ids (claim_due_workflows order lock_ms limit worker s).1,
    )
