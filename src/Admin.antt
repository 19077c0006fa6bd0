-- ===== src/Admin.antt =====
-- app/api/admin of src/final-demo, with lib/auth/role-guard.ts: who an administrator is, and what
-- the handlers share.
pub mod Payout
pub mod Single
pub mod Heads
pub mod Upkeep
use eutxo_l2_interop.Base.{
  ℕ, String, Bool, true, false, ◌&&◌, ◌||◌, not, List, [], ◌∷◌, Option, none, some, if◌then◌else◌,
  leb, str_eq, is_empty, trim, to_lower, utf16_length, any,
}
use eutxo_l2_interop.Store.{
  Sys, Workflow, WorkflowType, WorkflowStatus, LotteryInstance, same_type, is_pending, is_running,
}
use eutxo_l2_interop.Queue.Reconcile.{Reconciliation}
use eutxo_l2_interop.Routes.Payload.{trimmed_or_null}

pub data FinalDemoRole : Type 0 where
  user charlie admin : FinalDemoRole

abbrev pub role_text : FinalDemoRole → String
role_text user = "user"
role_text charlie = "charlie"
role_text admin = "admin"

abbrev pub same_role : FinalDemoRole → FinalDemoRole → Bool
same_role r q = str_eq (role_text r) (role_text q)

-- The two headers that the guard reads.
pub record RequestHeaders : Type 0 where
  pub role : Option String
  pub password : Option String

-- The environment's two passwords.
pub record Passwords : Type 0 where
  pub admin_password : Option String
  pub charlie_password : Option String

-- `(value ?? "").trim()`.
abbrev pub trimmed : Option String → String
trimmed none = ""
trimmed (some text) = trim text

unfoldable pub required_password_for_role : Passwords → FinalDemoRole → Option String
unfolding trim
required_password_for_role passwords admin = trimmed_or_null passwords.admin_password
required_password_for_role passwords charlie = trimmed_or_null passwords.charlie_password
required_password_for_role passwords user = none

unfoldable pub is_role : String → Option FinalDemoRole
is_role value =
    if str_eq value "user"
    then some user
    else if str_eq value "charlie"
    then some charlie
    else if str_eq value "admin"
    then some admin
    else none

unfoldable pub read_request_role : RequestHeaders → Option FinalDemoRole
unfolding is_role trim to_lower
read_request_role headers = elim headers.role [
  | none ↦ none
  | some raw ↦ is_role (to_lower (trim raw))
]

pub data Guard : Type 0 where
  granted : (role : FinalDemoRole) → Guard
  denied : (status : ℕ) (error_code : String) → Guard

-- The check of a password, where the role has one.
unfoldable pub check_password : FinalDemoRole → Option String → (provided : String) → Guard
check_password role none provided = granted role
check_password role (some required) provided =
    if is_empty provided
    then denied 401 "PASSWORD_REQUIRED"
    else if str_eq provided required
    then granted role
    else denied 403 "INVALID_PASSWORD"

-- The checks behind the reading of the role.
unfoldable pub check_role :
    Passwords → RequestHeaders → List FinalDemoRole → Option FinalDemoRole → Guard
unfolding required_password_for_role check_password trim
check_role passwords headers allowed none = denied 401 "ROLE_REQUIRED"
check_role passwords headers allowed (some role) =
    if any (same_role role) allowed
    then check_password role (required_password_for_role passwords role) (trimmed headers.password)
    else denied 403 "ROLE_FORBIDDEN"

unfoldable pub require_role : Passwords → RequestHeaders → List FinalDemoRole → Guard
unfolding read_request_role check_role
require_role passwords headers allowed =
    check_role passwords headers allowed (read_request_role headers)

-- What the handlers answer. `queued` has the workflow, and whether it was there already.
pub data AdminResponse : Type 0 where
  api_error : (status : ℕ) (error_code : String) → AdminResponse
  queued : (workflow_id : ℕ) (status : WorkflowStatus) (deduplicated : Bool) → AdminResponse
  retried : (workflow_id : ℕ) (force : Bool) → AdminResponse
  registered : LotteryInstance → AdminResponse
  reconciled : (pending_workflows : ℕ) → Reconciliation → AdminResponse

-- What the handlers take from outside: the passwords, the order of a table by its creation dates,
-- the newest first, the key that is made up for a request without one, the id of a new row, and
-- what other requests do after the handler's own lookup and after createWorkflow's.
pub record AdminOutside : Type 0 where
  pub passwords : Passwords
  pub newest_first : List Workflow → List Workflow
  pub random_key : String
  pub fresh_id : ℕ
  pub between : Sys → Sys
  pub others : Sys → Sys

-- A workflow that waits or runs.
abbrev pub is_in_flight : WorkflowType → Workflow → Bool
is_in_flight type w = same_type w.type type && (is_pending w.status || is_running w.status)

-- `idempotencyKey: z.string().min(8).optional()`.
abbrev pub fits_key : Option String → Bool
fits_key none = true
fits_key (some key) = leb 8 (utf16_length key)

-- The handlers do nothing for a request that the guard denies.
unfoldable pub guarded :
    Guard → (FinalDemoRole → Sys → AdminResponse × Sys) → Sys → AdminResponse × Sys
guarded (granted role) handler s = handler role s
guarded (denied status error_code) handler s = (api_error status error_code, s)
