-- ===== src/Admin/Heads.antt =====
-- app/api/admin/heads/open/route.ts: POST.
use Prim.Native.String.{◌++◌}
use eutxo_l2_interop.Base.{
  String, Bool, true, false, ◌&&◌, not, [], ◌∷◌, Option, none, some, if◌then◌else◌, find, filter,
  take, or_else, utf16_length, str_eq,
}
use eutxo_l2_interop.Store.{Sys, Workflow, WorkflowType, get, str}
use eutxo_l2_interop.Queue.Create.{create_workflow}
use eutxo_l2_interop.Routes.Payload.{payload_of, differs}
use eutxo_l2_interop.Executor.Workflows.{HeadOperation, commit_head_c_charlie}
use eutxo_l2_interop.Executor.HeadOps.{operation_text}
use eutxo_l2_interop.Admin.{
  AdminOutside, RequestHeaders, FinalDemoRole, role_text, same_role, admin, charlie, AdminResponse,
  api_error, queued, guarded, require_role, is_in_flight, fits_key,
}

pub data HeadsBody : Type 0 where
  fields : (operation : HeadOperation) (idempotency_key : Option String) → HeadsBody
  misshapen : HeadsBody
  not_json : HeadsBody

abbrev pub is_for : HeadOperation → Workflow → Bool
is_for operation w = not (differs (get "operation" (payload_of w)) (operation_text operation))

-- The newest 50 workflows in flight are looked at.
unfoldable pub find_in_flight_head_operation : AdminOutside → HeadOperation → Sys → Option Workflow
unfolding get
find_in_flight_head_operation o operation s =
    find (is_for operation) (
      take 50
        (o.newest_first (filter (is_in_flight WorkflowType.admin_head_operation) s.workflows)))

unfoldable pub queue_head_operation :
    AdminOutside → HeadOperation → Option String → FinalDemoRole → Sys → AdminResponse × Sys
unfolding find_in_flight_head_operation create_workflow
queue_head_operation o operation key role s = elim (find_in_flight_head_operation o operation s) [
  | some existing ↦ (queued existing.id existing.status true, s)
  | none ↦
      let (wf, s') =
        create_workflow o.others o.fresh_id WorkflowType.admin_head_operation (role_text role)
          (or_else key
            (role_text role ++ ":head_op:" ++ operation_text operation ++ ":" ++ o.random_key))
          (("operation", str (operation_text operation)) ∷ []) (o.between s) in
      (queued wf.id wf.status false, s')
]

-- Charlie may only commit to his own head.
abbrev pub is_forbidden : FinalDemoRole → HeadOperation → Bool
is_forbidden role operation =
    same_role role charlie
    && not (str_eq (operation_text operation) (operation_text commit_head_c_charlie))

unfoldable pub run_head_request :
    AdminOutside → HeadsBody → FinalDemoRole → Sys → AdminResponse × Sys
unfolding queue_head_operation utf16_length
run_head_request o not_json role s = (api_error 400 "INVALID_JSON_BODY", s)
run_head_request o misshapen role s = (api_error 400 "REQUEST_VALIDATION_FAILED", s)
run_head_request o (fields operation key) role s =
    if not (fits_key key)
    then (api_error 400 "REQUEST_VALIDATION_FAILED", s)
    else if is_forbidden role operation
    then (api_error 403 "ROLE_FORBIDDEN_OPERATION", s)
    else queue_head_operation o operation key role s

unfoldable pub open_heads : AdminOutside → RequestHeaders → HeadsBody → Sys → AdminResponse × Sys
unfolding guarded require_role run_head_request
open_heads o headers body s =
    guarded (require_role o.passwords headers (admin ∷ charlie ∷ [])) (run_head_request o body) s
