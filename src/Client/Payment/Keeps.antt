-- ===== src/Client/Payment/Keeps.antt =====
-- What a payment keeps while nobody aborts it: it stays so, and what was accepted stays accepted.
use eutxo_l2_interop.Client.Payment.{
  Event, retrying, PaymentConfig, PaymentStepState, sent, seen, Hook, Run, World, LockBody, pause,
  record_event, set_step, set_current_index, is_aborted, in_progress, LockAnswer, replied, locked,
  refused_json, refused_other, unreachable,
}
use eutxo_l2_interop.Client.Payment.Polls.{
  look, Sight, poll, wait_for_step_confirmation, shows, poll_max_attempts, ask,
}
use eutxo_l2_interop.Base.{
  ℕ, zero, suc, String, ◌≡◌, Bool, true, false, List, [], ◌∷◌, Option, none, some, if◌then◌else◌,
  any, arith, ltb, if_rule,
}
use eutxo_l2_interop.Client.Topologies.{PaymentStep}
use eutxo_l2_interop.Client.Paths.{is_automated_step}
use eutxo_l2_interop.Client.Payment.Attempts.{
  attempts, Attempted, done, gave_up, begin_attempt, accept, after_answer, answer_to, step_result,
}
use eutxo_l2_interop.Client.Payment.Execute.{
  Ending, confirm, confirm_amount, confirmed_or, await_previous, before_step, after_step, has_hash,
  tx_hash_at,
}
use eutxo_l2_interop.Client.Payment.Order.{is_accepted, or_true}
use eutxo_l2_interop.Client.Payment.Ordered.{begin_attempt-log, any_accepted}

-- From one state of a run to a later one: no abort comes in, and what was accepted stays accepted.
abbrev pub Keeps : Run → Run → Type 0
Keeps r r' =
    (is_aborted r.hook ≡ false → is_aborted r'.hook ≡ false)
    × ((j : ℕ) → any (is_accepted j) r.log ≡ true → any (is_accepted j) r'.log ≡ true)

pub Keeps-refl : (r : Run) → Keeps r r
Keeps-refl r = (λ h. h, λ j h. h)

pub Keeps-trans : (r s t : Run) → Keeps r s → Keeps s t → Keeps r t
Keeps-trans r s t (a, b) (c, d) = (λ h. c (a h), λ j h. d j (b j h))

set_step-Keeps :
    (i : ℕ) (f : PaymentStepState → PaymentStepState) (r : Run) → Keeps r (set_step i f r)
unfolding set_step
set_step-Keeps i f r = (λ h. ground arith, λ j h. ground arith)

pub set_current_index-Keeps : (i : ℕ) (r : Run) → Keeps r (set_current_index i r)
unfolding set_current_index
set_current_index-Keeps i r = (λ h. ground arith, λ j h. ground arith)

seen-Keeps : (i : ℕ) (r : Run) → Keeps r (record_event (seen i) r)
seen-Keeps i r = (λ h. h, λ j h. h)

-- Attempts that are done have kept all this, and their step is accepted.
abbrev pub Gains : ℕ → Run → Attempted × Run → Type 0
Gains i r (done, r') = Keeps r r' × (any (is_accepted i) r'.log ≡ true)
Gains i r (gave_up last_error, r') = Unit

pub Gains-after :
    (i : ℕ) (r s : Run) (out : Attempted × Run) → Keeps r s → Gains i s out → Gains i r out
Gains-after i r s (done, r') k (l, a) = (Keeps-trans r s r' k l, a)
Gains-after i r s (gave_up last_error, r') k g = tt

-- Nobody aborts while the payment waits.
abbrev pub NoAbort : World → Type 0
NoAbort world = (n : ℕ) (h : Hook) → is_aborted h ≡ false → is_aborted (world.during n h) ≡ false

module _ (world : World) (quiet : NoAbort world) where
  pause-Keeps : (r : Run) → Keeps r (pause world r)
  unfolding pause
  pause-Keeps r = (λ h. quiet r.awaits r.hook h, λ j h. h)

  ask-Keeps : (step : PaymentStep) (r : Run) → Keeps r (ask world step r)
  unfolding ask pause
  ask-Keeps step r = (λ h. quiet r.awaits r.hook h, λ j h. h)

  poll-Keeps :
      (test : Sight → Bool) (step : PaymentStep) (hash : String) (expected n : ℕ) (r : Run)
      → Keeps r (poll world test step hash expected n r).1
  unfolding poll
  poll-Keeps test step hash expected zero r = Keeps-refl r
  poll-Keeps test step hash expected (suc n) r =
      let once = ask world step r in
      let twice = pause world once in
      let later = (poll world test step hash expected n twice).1 in
      if_rule (λ (out : Bool × Run). Keeps r out.1) (test (look world step hash expected r.awaits))
        (ask-Keeps step r)
        (Keeps-trans r twice later (Keeps-trans r once twice (ask-Keeps step r) (pause-Keeps once))
          (poll-Keeps test step hash expected n twice))

  confirm_amount-Keeps :
      (config : PaymentConfig) (message : String) (i : ℕ) (step : PaymentStep) (amount : Option ℕ)
      (r : Run)
      → Keeps r (confirm_amount world config message i step amount r).1
  unfolding confirm_amount wait_for_step_confirmation
  confirm_amount-Keeps config message i step none r = Keeps-refl r
  confirm_amount-Keeps config message i step (some expected) r =
      by_answer (poll world shows step config.htlc_hash expected poll_max_attempts r)
        (poll-Keeps shows step config.htlc_hash expected poll_max_attempts r)
    where
      by_answer :
          (answer : Bool × Run) → Keeps r answer.1 → Keeps r (confirmed_or message i answer).1
      by_answer (true, r') k = Keeps-trans r r' (record_event (seen i) r') k (seen-Keeps i r')
      by_answer (false, r') k = k

  confirm-Keeps :
      (config : PaymentConfig) (message : String) (i : ℕ) (step : PaymentStep) (r : Run)
      → Keeps r (confirm world config message i step r).1
  unfolding confirm
  confirm-Keeps config message i step r =
      confirm_amount-Keeps config message i step (world.lovelace_of config.amount_ada) r

  pub before_step-Keeps :
      (config : PaymentConfig) (i : ℕ) (previous : Option PaymentStep) (step : PaymentStep)
      (r : Run)
      → Keeps r (before_step world config i previous step r).1
  unfolding before_step await_previous
  before_step-Keeps config zero previous step r = Keeps-refl r
  before_step-Keeps config (suc i) none step r = Keeps-refl r
  before_step-Keeps config (suc i) (some previous) step r =
      let f = λ (s : PaymentStepState). record s { status = in_progress } in
      let set = set_step (suc i) f r in
      let message : String = "Previous step was not confirmed in time" in
      let K = λ (out : Ending × Run). Keeps r out.1 in
      if_rule K (is_automated_step step)
        (if_rule K (has_hash (tx_hash_at i r.hook.current_steps))
          (Keeps-trans r set (confirm world config message i previous set).1
            (set_step-Keeps (suc i) f r) (confirm-Keeps config message i previous set))
          (Keeps-refl r))
        (Keeps-refl r)

  pub after_step-Keeps :
      (config : PaymentConfig) (i : ℕ) (step : PaymentStep) (rest : List PaymentStep) (r : Run)
      → Keeps r (after_step world config i step rest r).1
  unfolding after_step
  after_step-Keeps config i step [] r = Keeps-refl r
  after_step-Keeps config i step (next ∷ rest) r =
      confirm-Keeps config "Step was not confirmed in time" i step r

  replied-Keeps :
      (i : ℕ) (answer : LockAnswer) (r : Run) → Keeps r (record_event (replied i answer) r)
  replied-Keeps i answer r = (λ h. h, λ j h. or_true _ _ h)

  begin_attempt-Keeps :
      (i : ℕ) (body : LockBody) (retry : ℕ) (r : Run) → Keeps r (begin_attempt world i body retry r)
  unfolding begin_attempt
  begin_attempt-Keeps i body retry r =
      let f = λ (s : PaymentStepState). record s {
        status = if ltb 0 retry then retrying else in_progress;
        retry_count = retry;
        error = if ltb 0 retry then some "Retrying..." else none;
      } in
      let set = set_step i f r in
      let answered = pause world (record_event (sent i body) set) in
      let answer = world.lock_answer r.awaits body in
      let k =
        Keeps-trans r set answered (set_step-Keeps i f r)
          (pause-Keeps (record_event (sent i body) set)) in
      Keeps-trans r answered (record_event (replied i answer) answered) k
        (replied-Keeps i answer answered)

  accept-Keeps : (i : ℕ) (tx_hash : String) (r : Run) → Keeps r (accept i tx_hash r)
  unfolding accept set_step
  accept-Keeps i tx_hash r = (λ h. ground arith, λ j h. ground arith)

  after_answer-Gains :
      (i : ℕ) (r begun : Run) (log : List Event) (again : String → Attempted × Run)
      (answer : LockAnswer)
      → begun.log ≡ (replied i answer ∷ log)
      → Keeps r begun
      → ((message : String) → Gains i r (again message))
      → Gains i r (after_answer i begun again (step_result answer))
  unfolding after_answer step_result
  after_answer-Gains i r begun log again (locked String.[]) same k ih = ih _
  after_answer-Gains i r begun log again (locked (String.◌∷◌ ch rest)) same k ih =
      let a = accept-Keeps i (String.◌∷◌ ch rest) begun in
      (
        Keeps-trans r begun (accept i (String.◌∷◌ ch rest) begun) k a,
        a.1 i (rw same (any_accepted i ch rest log)),
      )
  after_answer-Gains i r begun log again (refused_json err details) same k ih = ih _
  after_answer-Gains i r begun log again (refused_other status_text) same k ih = ih _
  after_answer-Gains i r begun log again (unreachable message) same k ih = ih _

  pub attempts-Gains :
      (i : ℕ) (body : LockBody) (left retry : ℕ) (last_error : Option String) (r : Run)
      → Gains i r (attempts world i body left retry last_error r)
  unfolding attempts answer_to
  attempts-Gains i body zero retry last_error r = tt
  attempts-Gains i body (suc left) retry last_error r =
      let begun = begin_attempt world i body retry r in
      let k = begin_attempt-Keeps i body retry r in
      let later = if ltb 0 left then pause world begun else begun in
      let l =
        if_rule (Keeps r) (ltb 0 left)
          (Keeps-trans r begun (pause world begun) k (pause-Keeps begun)) k in
      let next =
        λ (message : String). attempts world i body left (suc retry) (some message) later in
      if_rule (Gains i r) (is_aborted r.hook) tt (
        after_answer-Gains i r begun (sent i body ∷ r.log) next (world.lock_answer r.awaits body)
          (begin_attempt-log world i body retry r) k
          (λ message.
            Gains-after i r later (next message) l
              (attempts-Gains i body left (suc retry) (some message) later)))
