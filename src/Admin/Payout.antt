-- ===== src/Admin/Payout.antt =====
-- app/api/admin/lottery/pay-random-winner/route.ts: POST.
use eutxo_l2_interop.Base.{
  String, true, false, [], ◌∷◌, Option, none, some, if◌then◌else◌, find, filter, or_else,
  utf16_length,
}
use eutxo_l2_interop.Store.{Sys, Workflow, WorkflowType}
use eutxo_l2_interop.Queue.Create.{create_workflow}
use eutxo_l2_interop.Admin.{
  AdminOutside, RequestHeaders, FinalDemoRole, role_text, admin, AdminResponse, api_error, queued,
  guarded, require_role, is_in_flight, fits_key,
}

-- The body of a request: the key of an object, which a body that is no JSON counts as without one,
-- or something that does not fit the schema.
pub data PayoutBody : Type 0 where
  fields : (idempotency_key : Option String) → PayoutBody
  misshapen : PayoutBody

-- `prisma.workflow.findFirst`.
unfoldable pub find_in_flight : AdminOutside → WorkflowType → Sys → Option Workflow
find_in_flight o type s = find (λ w. true) (o.newest_first (filter (is_in_flight type) s.workflows))

-- A new payout, under the request's key or one that is made up.
unfoldable pub create_payout :
    AdminOutside → FinalDemoRole → Option String → Sys → AdminResponse × Sys
unfolding create_workflow
create_payout o role key s =
    let (wf, s') =
      create_workflow o.others o.fresh_id WorkflowType.pay_random_winner (role_text role)
        (or_else key o.random_key) [] s in
    (queued wf.id wf.status false, s')

unfoldable pub pay_out : AdminOutside → Option String → FinalDemoRole → Sys → AdminResponse × Sys
unfolding find_in_flight create_payout utf16_length
pay_out o key role s =
    if fits_key key
    then elim (find_in_flight o WorkflowType.pay_random_winner s) [
      | some in_flight ↦ (queued in_flight.id in_flight.status true, s)
      | none ↦ create_payout o role key (o.between s)
    ]
    else (api_error 400 "REQUEST_VALIDATION_FAILED", s)

abbrev pub pay_out_body : AdminOutside → PayoutBody → FinalDemoRole → Sys → AdminResponse × Sys
pay_out_body o (fields key) role s = pay_out o key role s
pay_out_body o misshapen role s = (api_error 400 "REQUEST_VALIDATION_FAILED", s)

unfoldable pub pay_random_winner :
    AdminOutside → RequestHeaders → PayoutBody → Sys → AdminResponse × Sys
unfolding guarded require_role pay_out
pay_random_winner o headers body s =
    guarded (require_role o.passwords headers (admin ∷ [])) (pay_out_body o body) s
