-- ===== src/Client/Payment/Attempts.antt =====
-- executeStep and the retries of executePayment: the lock of one step.
use Prim.Native.String.{◌++◌}
use eutxo_l2_interop.Base.{ℕ, zero, suc, String, Bool, Option, none, some, if◌then◌else◌, ltb}
use eutxo_l2_interop.Client.Topologies.{PaymentStep}
use eutxo_l2_interop.Client.Payment.{
  PaymentConfig, in_progress, completed, retrying, sent, replied, Run, World, LockBody, LockAnswer,
  locked, refused_json, refused_other, unreachable, pause, record_event, set_step, is_aborted,
}

-- The body of the request. The last step's output goes to the final receiver, every other step's to
-- its own.
unfoldable pub lock_body : World → PaymentConfig → (is_last : Bool) → ℕ → PaymentStep → LockBody
lock_body world config is_last i step = record {
  head = step.from.head;
  sender_name = step.from.name;
  recipient_name = step.to.name;
  amount_ada = config.amount_ada;
  htlc_hash = config.htlc_hash;
  timeout_minutes = world.step_timeout config.timeout_minutes i;
  receiver = if is_last then config.final_receiver else step.to.name;
}

-- `text || other`, for a text that may be missing.
abbrev pub text_or : Option String → String → String
text_or none other = other
text_or (some String.[]) other = other
text_or (some (String.◌∷◌ ch rest)) other = String.◌∷◌ ch rest

-- The message of a refusal with a JSON body.
unfoldable pub refusal_message : Option String → Option String → String
refusal_message error none = text_or error "Failed to lock HTLC"
refusal_message error (some String.[]) = text_or error "Failed to lock HTLC"
refusal_message error (some (String.◌∷◌ ch rest)) =
    text_or error "Failed to lock HTLC" ++ ": " ++ String.◌∷◌ ch rest

-- A transaction hash, or the message of what executeStep throws.
pub data StepResult : Type 0 where
  tx : (tx_hash : String) → StepResult
  error : (message : String) → StepResult

unfoldable pub step_result : LockAnswer → StepResult
unfolding refusal_message
step_result (locked String.[]) = error "Response missing transaction hash"
step_result (locked (String.◌∷◌ ch rest)) = tx (String.◌∷◌ ch rest)
step_result (refused_json err details) = error (refusal_message err details)
step_result (refused_other status_text) = error ("Server error: " ++ status_text)
step_result (unreachable message) = error message

-- The answer to the request of an attempt.
unfoldable pub answer_to : World → LockBody → Run → StepResult
unfolding step_result
answer_to world body r = step_result (world.lock_answer r.awaits body)

-- The change of the step's state when an attempt begins, the request and the await of its answer.
unfoldable pub begin_attempt : World → ℕ → LockBody → (retry : ℕ) → Run → Run
unfolding set_step pause
begin_attempt world i body retry r = record_event (replied i (world.lock_answer r.awaits body)) (
    pause world (
      record_event (sent i body) (
        set_step i
          (λ s. record s {
            status = if ltb 0 retry then retrying else in_progress;
            retry_count = retry;
            error = if ltb 0 retry then some "Retrying..." else none;
          })
          r)))

unfoldable pub accept : ℕ → String → Run → Run
unfolding set_step
accept i tx_hash r =
    set_step i (λ s. record s { status = completed; tx_hash = some tx_hash; error = none }) r

-- How the attempts end: with a transaction, or with the message of the last error, if there is one.
pub data Attempted : Type 0 where
  done : Attempted
  gave_up : (last_error : Option String) → Attempted

-- What follows the answer to an attempt: the success of the step, or what comes after an error.
unfoldable pub after_answer : ℕ → Run → (String → Attempted × Run) → StepResult → Attempted × Run
after_answer i begun again (tx tx_hash) = (done, accept i tx_hash begun)
after_answer i begun again (error message) = again message

-- At most `left` more attempts, of which the first is number `retry`. Between two there is a pause.
unfoldable pub attempts :
    World → ℕ → LockBody → (left retry : ℕ) → (last_error : Option String) → Run → Attempted × Run
unfolding answer_to begin_attempt after_answer accept pause
attempts world i body zero retry last_error r = (gave_up last_error, r)
attempts world i body (suc left) retry last_error r =
    let begun = begin_attempt world i body retry r in
    let again = λ (message : String).
      attempts world i body left (suc retry) (some message)
        (if ltb 0 left then pause world begun else begun) in
    if is_aborted r.hook
    then (gave_up last_error, r)
    else after_answer i begun again (answer_to world body r)

-- `MAX_RETRIES + 1`.
abbrev pub max_attempts : ℕ
max_attempts = 4
