-- ===== src/Admin/Single.antt =====
-- How many payouts can be in flight after a request for one.
use eutxo_l2_interop.Admin.{
  check_role, AdminOutside, RequestHeaders, FinalDemoRole, role_text, admin, AdminResponse,
  api_error, queued, guarded, require_role, is_in_flight, fits_key, Guard, granted, denied,
  check_password, Passwords, read_request_role, required_password_for_role, trimmed, user, charlie,
}
use eutxo_l2_interop.Base.{
  Bool-cases, ◌≤◌, sym, ◌∙◌, str_eq, is_empty, ℕ, ◌≡◌, refl, Bool, true, false, List, [], ◌∷◌,
  Option, none, some, inl, inr, ◌⊎◌, arith, find, filter, count_where, length, Option-cases,
  if_rule, String, or_else,
}
use eutxo_l2_interop.Store.{Sys, Workflow, WorkflowType, WorkflowStatus}
use eutxo_l2_interop.Queue.Create.{create_workflow, find_workflow_by_idempotency, insert_workflow}
use eutxo_l2_interop.Queue.CreateOnce.{create_workflow-new}
use eutxo_l2_interop.Queue.Steps.{append_event}
use eutxo_l2_interop.Admin.Payout.{
  PayoutBody, fields, misshapen, find_in_flight, create_payout, pay_out, pay_out_body,
  pay_random_winner,
}

abbrev pub payouts_in_flight : Sys → ℕ
payouts_in_flight s = count_where (is_in_flight WorkflowType.pay_random_winner) s.workflows

-- Nobody else uses the store during the request.
abbrev pub undisturbed : AdminOutside → AdminOutside
undisturbed o = record o { between = λ s. s; others = λ s. s }

-- What a request with this key, its own or made up, does behind the checks: it shows a payout that
-- waits or runs, or a workflow that the key has already, or it makes the only payout in flight.
abbrev pub Queues : String → Sys → AdminResponse × Sys → Type 0
Queues key s (response, s') =
    (s' ≡ s) × (1 ≤ payouts_in_flight s) × ((w : Workflow) × (response ≡ queued w.id w.status true))
    ⊎ (s' ≡ s)
      × (payouts_in_flight s ≡ 0)
      × ((w : Workflow) × (find_workflow_by_idempotency WorkflowType.pay_random_winner key s
            ≡ some w)
          × (response ≡ queued w.id w.status false))
    ⊎ (payouts_in_flight s ≡ 0)
      × (payouts_in_flight s' ≡ 1)
      × ((id : ℕ) × (response ≡ queued id WorkflowStatus.pending false))

-- What a request may do, by the guard's verdict and its body.
abbrev pub IsPayout : Guard → String → PayoutBody → Sys → AdminResponse × Sys → Type 0
IsPayout (denied status error_code) random body s out = out ≡ (api_error status error_code, s)
IsPayout (granted role) random misshapen s out =
    (role ≡ admin) × (out ≡ (api_error 400 "REQUEST_VALIDATION_FAILED", s))
IsPayout (granted role) random (fields key) s out =
    (role ≡ admin)
    × ((fits_key key ≡ false) × (out ≡ (api_error 400 "REQUEST_VALIDATION_FAILED", s))
        ⊎ (fits_key key ≡ true) × Queues (or_else key random) s out)

first_of-some : (ws : List Workflow) (w : Workflow) → find (λ w. true) ws ≡ some w → 1 ≤ length ws
first_of-some [] w e = cc
first_of-some (v ∷ ws) w e = omega arith

first_of-none : (ws : List Workflow) → find (λ w. true) ws ≡ none → length ws ≡ 0
first_of-none [] e = refl
first_of-none (w ∷ ws) e = cc

length-filter : (p : Workflow → Bool) (ws : List Workflow) → length (filter p ws) ≡ count_where p ws
length-filter p [] = refl
length-filter p (w ∷ ws) = ground (arith, length-filter p ws)

no_candidate :
    (o : AdminOutside) (s : Sys)
    → ((ws : List Workflow) → length (o.newest_first ws) ≡ length ws)
    → find_in_flight o WorkflowType.pay_random_winner s ≡ none
    → payouts_in_flight s ≡ 0
unfolding find_in_flight
no_candidate o s keeps e =
    let p = is_in_flight WorkflowType.pay_random_winner in
    sym (length-filter p s.workflows)
    ∙ sym (keeps (filter p s.workflows))
    ∙ first_of-none (o.newest_first (filter p s.workflows)) e

some_candidate :
    (o : AdminOutside) (s : Sys) (w : Workflow)
    → ((ws : List Workflow) → length (o.newest_first ws) ≡ length ws)
    → find_in_flight o WorkflowType.pay_random_winner s ≡ some w
    → 1 ≤ payouts_in_flight s
unfolding find_in_flight
some_candidate o s w keeps e =
    let p = is_in_flight WorkflowType.pay_random_winner in
    let one = first_of-some (o.newest_first (filter p s.workflows)) w e in
    let same = keeps (filter p s.workflows) in
    let counted = length-filter p s.workflows in omega arith

created :
    (o : AdminOutside) (key : Option String) (s : Sys)
    → payouts_in_flight s ≡ 0
    → Queues (or_else key o.random_key) s (create_payout (undisturbed o) admin key s)
unfolding create_payout create_workflow insert_workflow append_event
created o key s free =
    let t = WorkflowType.pay_random_winner in
    let k = or_else key o.random_key in
    elim (Option-cases (find_workflow_by_idempotency t k s)) [
      | inr (w, e) ↦ rw (e, create_workflow) (inr (inl (refl, free, (w, refl, refl))))
      | inl e ↦
          rw (create_workflow-new o.fresh_id t (role_text admin) k [] s e)
            (inr (inr (free, ground arith, (_, refl))))
    ]

pay_out-IsPayout :
    (o : AdminOutside) (body : PayoutBody) (s : Sys)
    → ((ws : List Workflow) → length (o.newest_first ws) ≡ length ws)
    → IsPayout (granted admin) o.random_key body s (pay_out_body (undisturbed o) body admin s)
unfolding pay_out
pay_out-IsPayout o misshapen s keeps = (refl, refl)
pay_out-IsPayout o (fields key) s keeps = elim (Bool-cases (fits_key key)) [
  | inr bad ↦ (refl, inl (bad, rw bad refl))
  | inl good ↦
      elim (Option-cases (find_in_flight (undisturbed o) WorkflowType.pay_random_winner s)) [
        | inr (w, e) ↦
            (refl, inr (good, rw (good, e) (inl (refl, some_candidate o s w keeps e, (w, refl)))))
        | inl e ↦ (refl, inr (good, rw (good, e) (created o key s (no_candidate o s keeps e))))
      ]
]

-- What the guard grants.
abbrev OnlyAdmin : Guard → Type 0
OnlyAdmin (granted role) = role ≡ admin
OnlyAdmin (denied status error_code) = Unit

check_password-OnlyAdmin :
    (required : Option String) (provided : String)
    → OnlyAdmin (check_password admin required provided)
unfolding check_password
check_password-OnlyAdmin none provided = refl
check_password-OnlyAdmin (some required) provided =
    if_rule OnlyAdmin (is_empty provided) tt (if_rule OnlyAdmin (str_eq provided required) refl tt)

check_role-OnlyAdmin :
    (passwords : Passwords) (headers : RequestHeaders) (found : Option FinalDemoRole)
    → OnlyAdmin (check_role passwords headers (admin ∷ []) found)
unfolding check_role
check_role-OnlyAdmin passwords headers none = tt
check_role-OnlyAdmin passwords headers (some user) = tt
check_role-OnlyAdmin passwords headers (some charlie) = tt
check_role-OnlyAdmin passwords headers (some admin) =
    check_password-OnlyAdmin (required_password_for_role passwords admin) (trimmed headers.password)

require_role-OnlyAdmin :
    (passwords : Passwords) (headers : RequestHeaders)
    → OnlyAdmin (require_role passwords headers (admin ∷ []))
unfolding require_role
require_role-OnlyAdmin passwords headers =
    check_role-OnlyAdmin passwords headers (read_request_role headers)

guarded-IsPayout :
    (guard : Guard) (random : String) (body : PayoutBody)
    (handler : FinalDemoRole → Sys → AdminResponse × Sys) (s : Sys)
    → OnlyAdmin guard
    → IsPayout (granted admin) random body s (handler admin s)
    → IsPayout guard random body s (guarded guard handler s)
unfolding guarded
guarded-IsPayout (denied status error_code) random body handler s only p = refl
guarded-IsPayout (granted role) random body handler s only p = rw only p

-- While nobody else uses the store, and if the database's ordering leaves out no row: a request for
-- a payout that the guard denies, or that does not fit the schema, is refused and changes nothing.
-- Any other comes from an administrator. If a payout waits or runs, the answer shows a workflow as
-- a duplicate and nothing changes; otherwise the answer is the workflow that has the key, or a new
-- one, and with it exactly one payout waits or runs.
pub pay_random_winner-IsPayout :
    (o : AdminOutside) (headers : RequestHeaders) (body : PayoutBody) (s : Sys)
    → ((ws : List Workflow) → length (o.newest_first ws) ≡ length ws)
    → IsPayout
        (require_role o.passwords headers (admin ∷ []))
        o.random_key
        body
        s
        (pay_random_winner (undisturbed o) headers body s)
unfolding pay_random_winner
pay_random_winner-IsPayout o headers body s keeps =
    guarded-IsPayout (require_role o.passwords headers (admin ∷ [])) o.random_key body
      (pay_out_body (undisturbed o) body) s (require_role-OnlyAdmin o.passwords headers)
      (pay_out-IsPayout o body s keeps)
