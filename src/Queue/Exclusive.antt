-- ===== src/Queue/Exclusive.antt =====
-- What a claim hands out is locked for the claiming worker, and for nobody else until the lock
-- expires.
use eutxo_l2_interop.Base.{
  ℕ, ◌+◌, ◌≤◌, ◌<◌, ◌≡◌, refl, true, false, List, [], ◌∷◌, ◌++◌, some, All, All-pair, All-map, any,
  any-append, find, count_where, All-of_count_both, arith, ◌==◌, ==_iff, leb, length, sym, if_rule,
  All-always, count_where_none, Option-cases, Bool-cases, inl, inr,
}
use mathlib.Core.Path.{subst}
use eutxo_l2_interop.Store.{
  Sys, Workflow, is_running, All-update_cases, count-update_where, update_where-eq_of_count_zero,
  All-find,
}
use eutxo_l2_interop.Queue.Metrics.{is_claimable, record_claims, record_stale_lock_recovery}
use eutxo_l2_interop.Queue.Claim.{
  claim_one, claim_data, claims, claim_loop, started, Claimed, rows_of, WorkflowWithSteps,
  claim_due_workflows, candidates,
}

abbrev pub HasUniqueIds : List Workflow → Type 0
HasUniqueIds ws = (id : ℕ) → count_where (λ w. w.id == id) ws ≤ 1

module _ (lock_ms now worker : ℕ) where
  -- A row that is among the given ids runs under the worker's lock.
  abbrev pub IsLocked : List ℕ → Workflow → Type 0
  IsLocked ids w =
      any (λ id. w.id == id) ids ≡ true
      → (is_running w.status ≡ true)
        × (w.locked_by ≡ some worker)
        × (w.lock_expires_at ≡ some (now + lock_ms))

  claim_one-HasUniqueIds :
      (wf : Workflow) (s : Sys)
      → HasUniqueIds s.workflows
      → HasUniqueIds ((claim_one lock_ms now worker wf s).1).workflows
  unfolding claim_one
  claim_one-HasUniqueIds wf s h id = omega (
    arith,
    count-update_where (λ w. w.id == id) (claims now wf.id) (claim_data lock_ms now worker wf)
        (λ w. refl) s.workflows,
    h id,
  )

  claim_one-keeps_IsLocked :
      (wf : Workflow) (s : Sys) (ids : List ℕ)
      → All (IsLocked ids) s.workflows
      → All (IsLocked ids) ((claim_one lock_ms now worker wf s).1).workflows
  unfolding claim_one
  claim_one-keeps_IsLocked wf s ids h =
      All-update_cases (IsLocked ids) (IsLocked ids) (claims now wf.id)
        (claim_data lock_ms now worker wf) (λ w _ _ _. (refl, refl, refl)) (λ w _ k. k) s.workflows
        h

  claim_one-locks :
      (wf : Workflow) (s : Sys) (ids : List ℕ)
      → HasUniqueIds s.workflows
      → (claim_one lock_ms now worker wf s).0 ≡ 1
      → All (IsLocked ids) s.workflows
      → All (IsLocked (ids ++ (wf.id ∷ []))) ((claim_one lock_ms now worker wf s).1).workflows
  unfolding claim_one
  claim_one-locks wf s ids unique one h =
      let claimable =
        All-of_count_both (λ w. w.id == wf.id) (is_claimable now) s.workflows
          (omega (arith, one, unique wf.id)) in
      All-update_cases (λ w. IsLocked ids w × ((w.id == wf.id) ≡ true → is_claimable now w ≡ true))
        (IsLocked (ids ++ (wf.id ∷ []))) (claims now wf.id) (claim_data lock_ms now worker wf)
        (λ w _ _ _. (refl, refl, refl))
        (λ w missed k listed. ground (arith, any-append (λ id. w.id == id) ids wf.id)) s.workflows
        (All-pair (IsLocked ids) (λ w. (w.id == wf.id) ≡ true → is_claimable now w ≡ true)
          s.workflows h claimable)

  pub claim_loop-locks :
      (limit : ℕ) (wfs : List Workflow) (acc : Claimed)
      → HasUniqueIds acc.sys.workflows
      → All (IsLocked acc.ids) acc.sys.workflows
      → let done = claim_loop lock_ms now worker limit wfs acc in
        All (IsLocked done.ids) done.sys.workflows
  unfolding claim_loop
  claim_loop-locks limit [] acc unique h = h
  claim_loop-locks limit (wf ∷ wfs) acc unique h =
      let s = (claim_one lock_ms now worker wf acc.sys).1 in
      let acc' = started wf s acc in
      let count = (claim_one lock_ms now worker wf acc.sys).0 in
      let kept = claim_one-HasUniqueIds wf acc.sys unique in
      let Good : Claimed → Type 0 = λ done. All (IsLocked done.ids) done.sys.workflows in
      elim (Bool-cases (count == 1)) [
        | inl one ↦
            let own = claim_one-locks wf acc.sys acc.ids unique ((==_iff count 1).0 one) h in
            rw one (
              if_rule Good (leb limit (length acc'.ids)) own
                (claim_loop-locks limit wfs acc' kept own))
        | inr other ↦ rw other (
            claim_loop-locks limit wfs (record acc { sys = s }) kept
              (claim_one-keeps_IsLocked wf acc.sys acc.ids h))
      ]

  -- No other claim takes a row with the given id before the lock expires.
  claim_one-refused :
      (id : ℕ) (ids : List ℕ) (wf : Workflow) (s : Sys)
      → (wf.id == id) ≡ true
      → All (IsLocked (id ∷ ids)) s.workflows
      → (lock_ms' now' other : ℕ) → now' < now + lock_ms
      → claim_one lock_ms' now' other wf s ≡ (0, s)
  unfolding claim_one is_claimable
  claim_one-refused id ids wf s found h lock_ms' now' other early =
      let none_left = count_where_none (claims now' wf.id) s.workflows (
        All-map (IsLocked (id ∷ ids)) (λ w. claims now' wf.id w ≡ false) (λ w k. ground arith)
          s.workflows h) in
      rw
        (
          none_left,
          update_where-eq_of_count_zero (claims now' wf.id) (claim_data lock_ms' now' other wf)
              s.workflows none_left,
        )
        refl

  -- A returned row is locked for the worker, and no claim takes it before the lock expires.
  abbrev pub IsOwn : Sys → WorkflowWithSteps → Type 0
  IsOwn s c =
      ((is_running c.row.status ≡ true)
        × (c.row.locked_by ≡ some worker)
        × (c.row.lock_expires_at ≡ some (now + lock_ms)))
      × ((lock_ms' now' other : ℕ)
          → now' < now + lock_ms
          → claim_one lock_ms' now' other c.row s ≡ (0, s))

  pub rows_of-IsOwn :
      (ids : List ℕ) (s : Sys) → All (IsLocked ids) s.workflows → All (IsOwn s) (rows_of ids s)
  unfolding rows_of
  rows_of-IsOwn [] s h = tt
  rows_of-IsOwn (id ∷ ids) s h =
      let rest =
        rows_of-IsOwn ids s (
          All-map (IsLocked (id ∷ ids)) (IsLocked ids) (λ w k e. k (ground arith)) s.workflows h) in
      elim (Option-cases (find (λ w. w.id == id) s.workflows)) [
        | inl e ↦ rw (e, rows_of) rest
        | inr (w, e) ↦
            let (locked, found) =
              All-find (IsLocked (id ∷ ids)) (λ w. w.id == id) s.workflows e h in
            rw (e, rows_of) ((locked (ground arith), claim_one-refused id ids w s found h), rest)
      ]

counted-workflows :
    (stale count : ℕ) (s : Sys)
    → ((record_stale_lock_recovery stale (record_claims count s)).workflows) ≡ s.workflows
unfolding record_claims record_stale_lock_recovery
counted-workflows stale count s = ground arith

-- What claimDueWorkflows hands out belongs to the claiming worker until the lock expires: where
-- the ids of the table are unique, each workflow that a claim returns is running, is locked for
-- the worker that claimed and expires `lock_ms` later, and, at every time before that, a claim of
-- it by any worker counts no row and changes nothing.
pub claim_due_workflows-IsOwn :
    (order : List Workflow → List Workflow) (lock_ms limit worker : ℕ) (s : Sys)
    → HasUniqueIds s.workflows
    → let (claimed, s') = claim_due_workflows order lock_ms limit worker s in
      All (IsOwn lock_ms s.clock worker s') claimed
unfolding claim_due_workflows
claim_due_workflows-IsOwn order lock_ms limit worker s unique =
    let start : Claimed = record { ids = []; stale = 0; sys = s } in
    let done = claim_loop lock_ms s.clock worker limit (candidates order limit s) start in
    let Good : List Workflow → Type 0 = λ ws. All (IsLocked lock_ms s.clock worker done.ids) ws in
    rows_of-IsOwn lock_ms s.clock worker done.ids
      ((claim_due_workflows order lock_ms limit worker s).1)
      (subst Good (sym (counted-workflows done.stale (length done.ids) done.sys)) (
        claim_loop-locks lock_ms s.clock worker limit (candidates order limit s) start unique
          (All-always (IsLocked lock_ms s.clock worker []) (λ w e. ground arith) s.workflows)))
