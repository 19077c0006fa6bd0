-- ===== src/Client/Payment/Order.antt =====
-- The order of a payment's requests, whatever the server answers and whatever happens meanwhile.
use eutxo_l2_interop.Client.Paths.{is_automated_step}
use eutxo_l2_interop.Client.Payment.{
  in_progress, PaymentConfig, PaymentStepState, Event, sent, replied, polled, seen, locked, Run,
  World, LockBody, pause, set_step, set_current_index,
}
use eutxo_l2_interop.Client.Payment.Execute.{
  tx_hash_at, has_hash, confirm_amount, Ending, finished, thrown, then_run, confirmed_or, confirm,
  await_previous, before_step,
}
use eutxo_l2_interop.Client.Payment.Polls.{poll_max_attempts, wait_for_step_confirmation}
use eutxo_l2_interop.Base.{
  if_rule, ◌||◌, ℕ, zero, suc, ◌==◌, String, ◌≡◌, refl, Bool, true, false, List, [], ◌∷◌, Option,
  none, some, any, arith,
}
use eutxo_l2_interop.Client.Topologies.{PaymentStep}
use eutxo_l2_interop.Client.Payment.Sights.{Newest, ShowsStep, PollEnds, poll-PollEnds}

abbrev pub is_seen : ℕ → Event → Bool
is_seen i (seen j) = i == j
is_seen i _ = false

-- The server accepts a lock by answering with the hash of its transaction.
abbrev pub is_accepted : ℕ → Event → Bool
is_accepted i (replied j (locked (String.◌∷◌ ch rest))) = i == j
is_accepted i _ = false

abbrev pub is_sent : ℕ → Event → Bool
is_sent i (sent j body) = i == j
is_sent i _ = false

-- The step before has been seen.
abbrev pub ready : ℕ → List Event → Bool
ready zero log = true
ready (suc i) log = any (is_seen i) log

-- In a log with the newest event first, every request is for the body that belongs to its step and
-- comes after the sight of the step before; an answer comes after a request for its step; and a step
-- counts as seen only after the server accepted it, and right after an answer that shows it.
abbrev pub InOrder : (ℕ → LockBody → Type 0) → (ℕ → Event → Type 0) → List Event → Type 0
InOrder Body Shown [] = Unit
InOrder Body Shown (sent i body ∷ log) = Body i body × (ready i log ≡ true) × InOrder Body Shown log
InOrder Body Shown (replied i answer ∷ log) = (any (is_sent i) log ≡ true) × InOrder Body Shown log
InOrder Body Shown (polled route answer ∷ log) = InOrder Body Shown log
InOrder Body Shown (seen i ∷ log) =
    (any (is_accepted i) log ≡ true) × Newest (Shown i) log × InOrder Body Shown log

pub set_step-log :
    (i : ℕ) (f : PaymentStepState → PaymentStepState) (r : Run) → (set_step i f r).log ≡ r.log
unfolding set_step
set_step-log i f r = ground arith

pub set_current_index-log : (i : ℕ) (r : Run) → (set_current_index i r).log ≡ r.log
unfolding set_current_index
set_current_index-log i r = ground arith

pub pause-log : (world : World) (r : Run) → (pause world r).log ≡ r.log
unfolding pause
pause-log world r = refl

pub or_true : (p q : Bool) → q ≡ true → (p || q) ≡ true
or_true p q h = ground arith

any_here : (i : ℕ) (log : List Event) → ready (suc i) (seen i ∷ log) ≡ true
any_here i log = ground arith

module _ (Body : ℕ → LockBody → Type 0) (Shown : ℕ → Event → Type 0) where
  seen-accepted :
      (i : ℕ) (log : List Event)
      → InOrder Body Shown log
      → any (is_seen i) log ≡ true
      → any (is_accepted i) log ≡ true
  seen-accepted i [] order h = cc
  seen-accepted i (sent j body ∷ log) (_, _, order) h = seen-accepted i log order h
  seen-accepted i (replied j answer ∷ log) (_, order) h = or_true _ _ (seen-accepted i log order h)
  seen-accepted i (polled route answer ∷ log) order h = seen-accepted i log order h
  seen-accepted i (seen j ∷ log) (was, _, order) h = ground (arith, was, seen-accepted i log order)

-- A part ends in order, and if it did not throw its log has the property.
abbrev pub Ends :
    (ℕ → LockBody → Type 0) → (ℕ → Event → Type 0) → (List Event → Type 0) → Ending × Run → Type 0
Ends Body Shown P (finished, r) = InOrder Body Shown r.log × P r.log
Ends Body Shown P (thrown message, r) = InOrder Body Shown r.log

module _ (Body : ℕ → LockBody → Type 0) (Shown : ℕ → Event → Type 0) where
  pub then_run-Ends :
      (P Q : List Event → Type 0) (out : Ending × Run) (next : Run → Ending × Run)
      → Ends Body Shown P out
      → ((r : Run) → InOrder Body Shown r.log → P r.log → Ends Body Shown Q (next r))
      → Ends Body Shown Q (then_run out next)
  then_run-Ends P Q (finished, r) next (order, p) rule = rule r order p
  then_run-Ends P Q (thrown message, r) next order rule = order

  -- What is known while a step is awaited: it is accepted, and all is in order.
  abbrev Awaiting : ℕ → List Event → Type 0
  Awaiting i log = InOrder Body Shown log × (any (is_accepted i) log ≡ true)

  confirmed_or-Ends :
      (message : String) (i : ℕ) (answer : Bool × Run)
      → PollEnds (Awaiting i) (Shown i) answer
      → Ends Body Shown (λ later. ready (suc i) later ≡ true) (confirmed_or message i answer)
  confirmed_or-Ends message i (true, r) ((order, acc), shown) =
      ((acc, shown, order), any_here i r.log)
  confirmed_or-Ends message i (false, r) (order, acc) = order

  confirm_amount-Ends :
      (world : World) (config : PaymentConfig) (message : String) (i : ℕ) (step : PaymentStep)
      (amount : Option ℕ) (r : Run)
      → world.lovelace_of config.amount_ada ≡ amount
      → ((event : Event) → ShowsStep world config step event → Shown i event)
      → InOrder Body Shown r.log
      → any (is_accepted i) r.log ≡ true
      → Ends Body Shown
          (λ later. ready (suc i) later ≡ true)
          (confirm_amount world config message i step amount r)
  unfolding confirm_amount wait_for_step_confirmation
  confirm_amount-Ends world config message i step none r e shown order acc = order
  confirm_amount-Ends world config message i step (some expected) r e shown order acc =
      confirmed_or-Ends message i _ (
        poll-PollEnds world config step expected e (Awaiting i) (λ route answer log h. h) (Shown i)
          shown poll_max_attempts r (order, acc))

  pub confirm-Ends :
      (world : World) (config : PaymentConfig) (message : String) (i : ℕ) (step : PaymentStep)
      (r : Run)
      → ((event : Event) → ShowsStep world config step event → Shown i event)
      → InOrder Body Shown r.log
      → any (is_accepted i) r.log ≡ true
      → Ends Body Shown
          (λ later. ready (suc i) later ≡ true)
          (confirm world config message i step r)
  unfolding confirm
  confirm-Ends world config message i step r =
      confirm_amount-Ends world config message i step (world.lovelace_of config.amount_ada) r refl

  await_previous-Ends :
      (world : World) (config : PaymentConfig) (i : ℕ) (previous : PaymentStep) (r : Run)
      → ((event : Event) → ShowsStep world config previous event → Shown i event)
      → InOrder Body Shown r.log
      → ready (suc i) r.log ≡ true
      → Ends Body Shown
          (λ later. ready (suc i) later ≡ true)
          (await_previous world config i previous r)
  unfolding await_previous
  await_previous-Ends world config i previous r shown order h =
      let acc = seen-accepted Body Shown i r.log order h in
      if_rule (Ends Body Shown (λ later. ready (suc i) later ≡ true))
        (has_hash (tx_hash_at i r.hook.current_steps))
        (let f = λ (s : PaymentStepState). record s { status = in_progress } in
          confirm-Ends world config "Previous step was not confirmed in time" i previous
            (set_step (suc i) f r) shown (rw (set_step-log (suc i) f r) order)
            (rw (set_step-log (suc i) f r) acc))
        order

  -- What shows the step before, if there is one, shows the step with its number.
  abbrev pub Preceded : World → PaymentConfig → ℕ → Option PaymentStep → Type 0
  Preceded world config zero previous = Unit
  Preceded world config (suc i) none = Unit
  Preceded world config (suc i) (some previous) =
      (event : Event) → ShowsStep world config previous event → Shown i event

  pub before_step-Ends :
      (world : World) (config : PaymentConfig) (i : ℕ) (previous : Option PaymentStep)
      (step : PaymentStep) (r : Run)
      → Preceded world config i previous
      → InOrder Body Shown r.log
      → ready i r.log ≡ true
      → Ends Body Shown (λ later. ready i later ≡ true) (before_step world config i previous step r)
  unfolding before_step
  before_step-Ends world config zero previous step r shown order h = (order, h)
  before_step-Ends world config (suc i) none step r shown order h = (order, h)
  before_step-Ends world config (suc i) (some previous) step r shown order h =
      if_rule (Ends Body Shown (λ later. ready (suc i) later ≡ true)) (is_automated_step step)
        (await_previous-Ends world config i previous r shown order h) (order, h)
