-- ===== src/Store/Tables.antt =====
-- prisma/schema.prisma: a table is the list of its rows, a text that is only compared is a number
-- (row ids, worker ids), a time is a number of milliseconds.
use eutxo_l2_interop.Base.{
  ℕ, String, Bool, true, false, List, [], ◌∷◌, Option, none, some, if◌then◌else◌, leb, ◌==◌,
}
use eutxo_l2_interop.Store.Json.{JsonObj, JsonText}

pub data WorkflowType : Type 0 where
  request_funds buy_ticket admin_head_operation pay_random_winner : WorkflowType

pub data WorkflowStatus : Type 0 where
  pending running succeeded failed cancelled : WorkflowStatus

pub data StepName : Type 0 where
  prepare submit confirm : StepName

pub data Level : Type 0 where
  info warn error : Level

pub data HeadName : Type 0 where
  head_a head_b head_c : HeadName

pub record Workflow : Type 0 where
  pub id : ℕ
  pub type : WorkflowType
  pub status : WorkflowStatus
  pub max_attempts : ℕ
  pub actor : String
  pub correlation_id : ℕ
  pub idempotency_key : String
  pub locked_by : Option ℕ
  pub lock_expires_at : Option ℕ
  pub started_at : Option ℕ
  pub completed_at : Option ℕ
  pub last_error_code : Option String
  pub payload_json : JsonText
  pub result_json : Option JsonText
  pub error_message : Option String
  pub attempt_count : ℕ
  pub next_retry_at : Option ℕ

pub record WorkflowStep : Type 0 where
  pub workflow_id : ℕ
  pub name : StepName
  pub status : WorkflowStatus
  pub attempt : ℕ
  pub started_at : Option ℕ
  pub finished_at : Option ℕ
  pub error_detail : Option String

pub record WorkflowEvent : Type 0 where
  pub workflow_id : ℕ
  pub level : Level
  pub message : String
  pub meta_json : Option JsonObj

pub record HeadSnapshot : Type 0 where
  pub head_name : HeadName
  pub status : String
  pub detail : Option String
  pub updated_at : ℕ

-- `QueueCounters` of lib/queue-metrics.ts.
pub record QueueCounters : Type 0 where
  pub claims : ℕ
  pub retries_scheduled : ℕ
  pub terminal_failures : ℕ
  pub stale_lock_recoveries : ℕ
  pub manual_retries : ℕ
  pub manual_force_retries : ℕ

-- The columns that lib/lottery-instances.ts reads; `head_name` and `status` are texts there.
pub record LotteryInstance : Type 0 where
  pub id : ℕ
  pub head_name : String
  pub policy_id : String
  pub token_name_hex : String
  pub mint_tx_hash : String
  pub contract_address : String
  pub status : String
  pub created_at : ℕ

pub record Sys : Type 0 where
  pub workflows : List Workflow
  pub steps : List WorkflowStep
  pub events : List WorkflowEvent
  pub heads : List HeadSnapshot
  pub lotteries : List LotteryInstance
  pub totals : QueueCounters
  pub since_last : QueueCounters
  pub clock : ℕ

abbrev pub is_pending : WorkflowStatus → Bool
is_pending pending = true
is_pending _ = false

abbrev pub is_running : WorkflowStatus → Bool
is_running running = true
is_running _ = false

abbrev pub is_succeeded : WorkflowStatus → Bool
is_succeeded succeeded = true
is_succeeded _ = false

abbrev pub is_failed : WorkflowStatus → Bool
is_failed failed = true
is_failed _ = false

abbrev pub is_cancelled : WorkflowStatus → Bool
is_cancelled cancelled = true
is_cancelled _ = false

abbrev pub same_step : StepName → StepName → Bool
same_step prepare prepare = true
same_step submit submit = true
same_step confirm confirm = true
same_step _ _ = false

abbrev pub same_type : WorkflowType → WorkflowType → Bool
same_type request_funds request_funds = true
same_type buy_ticket buy_ticket = true
same_type admin_head_operation admin_head_operation = true
same_type pay_random_winner pay_random_winner = true
same_type _ _ = false

abbrev pub same_head : HeadName → HeadName → Bool
same_head head_a head_a = true
same_head head_b head_b = true
same_head head_c head_c = true
same_head _ _ = false

-- `{ lte: now }` on a nullable column: a null never matches.
abbrev pub is_due : ℕ → Option ℕ → Bool
is_due now none = false
is_due now (some t) = leb t now

-- `{ column: value }` on a nullable column.
abbrev pub is_value : ℕ → Option ℕ → Bool
is_value v none = false
is_value v (some w) = w == v

-- `updateMany({ where, data })` on a table: `data` is put into every row that `where` selects.
unfoldable pub update_where : {R : Type 0} → (R → Bool) → (R → R) → List R → List R
update_where p f [] = []
update_where p f (r ∷ rs) = (if p r then f r else r) ∷ update_where p f rs
