-- ===== src/Client/Payment.antt =====
-- lib/use-payment-orchestration.ts of src/client: the state of a payment over several heads, the
-- world that it talks to, and what the hook changes in its state.
pub mod Polls
pub mod Attempts
pub mod Execute
pub mod Sights
pub mod Order
pub mod Ordered
pub mod Counts
pub mod Bounds
pub mod Keeps
pub mod Complete
use eutxo_l2_interop.Base.{
  ℕ, zero, suc, ◌+◌, String, Bool, true, false, List, [], ◌∷◌, Option, none, some, is_empty,
}
use eutxo_l2_interop.Client.Users.{UserName}
use eutxo_l2_interop.Client.Topologies.{PaymentStep}

pub data StepStatus : Type 0 where
  pending in_progress completed failed retrying : StepStatus

pub record PaymentStepState : Type 0 where
  pub step : PaymentStep
  pub step_index : ℕ
  pub status : StepStatus
  pub tx_hash : Option String
  pub error : Option String
  pub retry_count : ℕ

pub record PaymentState : Type 0 where
  pub steps : List PaymentStepState
  pub is_executing : Bool
  pub current_step_index : Option ℕ

pub record PaymentConfig : Type 0 where
  pub amount_ada : String
  pub htlc_hash : String
  pub timeout_minutes : String
  pub final_receiver : UserName
  pub preimage : Option String

-- What the hook holds between its calls. `aborted` is the signal of the abort controller, `none`
-- while there is none.
pub record Hook : Type 0 where
  pub payment_state : Option PaymentState
  pub aborted : Option Bool
  pub is_executing : Bool
  pub current_steps : List PaymentStepState

-- The body of a request to lock an HTLC, and the head in whose route it is sent.
pub record LockBody : Type 0 where
  pub head : String
  pub sender_name : UserName
  pub recipient_name : UserName
  pub amount_ada : String
  pub htlc_hash : String
  pub timeout_minutes : String
  pub receiver : UserName

-- The answer to a request for a lock. `refused_json` has the fields of the body's JSON;
-- `refused_other` the status text of a refusal whose body is no JSON.
pub data LockAnswer : Type 0 where
  locked : (tx_hash : String) → LockAnswer
  refused_json : (error details : Option String) → LockAnswer
  refused_other : (status_text : String) → LockAnswer
  unreachable : (message : String) → LockAnswer

-- An item of the answer of `/utxos`; `lovelace` is `BigInt(Math.floor(amountAda * 1_000_000))`, or
-- `none` where that throws.
pub record UtxoItem : Type 0 where
  pub id : String
  pub kind : String
  pub hash : Option String
  pub to : Option String
  pub lovelace : Option ℕ

pub data PollAnswer : Type 0 where
  utxos : List UtxoItem → PollAnswer
  not_ok : PollAnswer
  poll_failed : PollAnswer

-- A payment's exchange with the server: a request for a step, the answer to it and the answer to a
-- poll of a head's outputs. `seen` is the end of a wait for the HTLC of a step that has not timed
-- out, as the code takes it.
pub data Event : Type 0 where
  sent : (step_index : ℕ) → LockBody → Event
  replied : (step_index : ℕ) → LockAnswer → Event
  polled : (head_route : String) → PollAnswer → Event
  seen : (step_index : ℕ) → Event

-- A payment under way: the hook, what was exchanged, the newest first, and the number of awaits.
pub record Run : Type 0 where
  pub hook : Hook
  pub log : List Event
  pub awaits : ℕ

-- What the code meets at its awaits, by their number: the server's answers, and what others do to
-- the hook meanwhile: cancelling, resetting, another payment. `lovelace_of` is
-- `BigInt(Math.floor(parseFloat(a) * 1_000_000))`, `none` where that throws, and `step_timeout`
-- the floating-point arithmetic of `calculateStepTimeout`.
pub record World : Type 0 where
  pub lock_answer : ℕ → LockBody → LockAnswer
  pub poll_answer : ℕ → String → PollAnswer
  pub during : ℕ → Hook → Hook
  pub lovelace_of : String → Option ℕ
  pub step_timeout : String → ℕ → String

-- An await that has no answer.
unfoldable pub pause : World → Run → Run
pause world r = record r { hook = world.during r.awaits r.hook; awaits = r.awaits + 1 }

abbrev pub record_event : Event → Run → Run
record_event event r = record r { log = event ∷ r.log }

-- The entry at an index. The steps of a payment have every index that its loop uses; for an index
-- past the end, which only the state of another payment can have, nothing changes here, where the
-- source adds an entry with the changed fields alone.
unfoldable pub modify_at :
    ℕ → (PaymentStepState → PaymentStepState) → List PaymentStepState → List PaymentStepState
modify_at i f [] = []
modify_at zero f (s ∷ states) = f s ∷ states
modify_at (suc i) f (s ∷ states) = s ∷ modify_at i f states

-- `setPaymentState(prev => ...)` with a change of one step; the reference to the steps is kept in
-- step. The updater is taken to run at once.
unfoldable pub set_step : ℕ → (PaymentStepState → PaymentStepState) → Run → Run
unfolding modify_at
set_step i f r = elim r.hook.payment_state [
  | none ↦ r
  | some prev ↦ record r {
    hook = record r.hook {
      payment_state = some (record prev { steps = modify_at i f prev.steps });
      current_steps = modify_at i f prev.steps;
    };
  }
]

unfoldable pub set_current_index : ℕ → Run → Run
set_current_index i r = elim r.hook.payment_state [
  | none ↦ r
  | some prev ↦ record r {
    hook = record r.hook { payment_state = some (record prev { current_step_index = some i }) };
  }
]

-- `isExecutingRef.current = false`, and the flag of the state.
unfoldable pub stop_executing : Hook → Hook
stop_executing h = elim h.payment_state [
  | none ↦ record h { is_executing = false }
  | some prev ↦ record h {
    is_executing = false;
    payment_state = some (record prev { is_executing = false });
  }
]

unfoldable pub cancel_payment : Hook → Hook
unfolding stop_executing
cancel_payment h = elim h.aborted [
  | none ↦ stop_executing h
  | some signal ↦ stop_executing (record h { aborted = some true })
]

unfoldable pub reset_payment : Hook → Hook
reset_payment h = record {
  payment_state = none;
  aborted = none;
  is_executing = false;
  current_steps = [];
}

-- `abortControllerRef.current?.signal.aborted`.
abbrev pub is_aborted : Hook → Bool
is_aborted h = elim h.aborted [ none ↦ false | some signal ↦ signal ]
