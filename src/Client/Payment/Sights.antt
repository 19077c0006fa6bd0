-- ===== src/Client/Payment/Sights.antt =====
-- What the answers to the polls of a payment show, described without the code that reads them.
use eutxo_l2_interop.Base.{
  ℕ, zero, suc, ◌≤◌, String, ◌≡◌, refl, ◌⊎◌, inl, inr, Bool, true, false, ◌&&◌, List, [], ◌∷◌,
  Option, none, some, if◌then◌else◌, arith, leb, str_eq, eq_iff, Bool-cases,
}
use Prim.Native.String.{◌++◌}
use eutxo_l2_interop.Client.Users.{get_user}
use eutxo_l2_interop.Client.Topologies.{PaymentStep}
use eutxo_l2_interop.Client.Payment.{
  PaymentConfig, Event, polled, Run, World, UtxoItem, PollAnswer, utxos, not_ok, poll_failed, pause,
}
use eutxo_l2_interop.Client.Payment.Polls.{
  Sight, present, unclear, equals, is_htlc_for, find_htlc, sight, shows, look, ask, poll,
  head_route,
}

-- The HTLC of a step: under the payment's hash, for the step's receiver and with enough lovelace.
abbrev pub IsHtlcOf : PaymentStep → (hash : String) → (expected : ℕ) → UtxoItem → Type 0
IsHtlcOf step hash expected item =
    (item.kind ≡ "htlc")
    × (item.hash ≡ some hash)
    × (item.to ≡ some (get_user step.to.name).vk_hash)
    × ((lovelace : ℕ) × (item.lovelace ≡ some lovelace) × (expected ≤ lovelace))

abbrev pub Includes : (UtxoItem → Type 0) → List UtxoItem → Type 0
Includes P [] = ⊥
Includes P (item ∷ items) = P item ⊎ Includes P items

-- An answer of the step's head that lists the step's HTLC.
abbrev pub ShowsStep : World → PaymentConfig → PaymentStep → Event → Type 0
ShowsStep world config step (polled route (utxos items)) =
    (route ≡ "head-" ++ step.from.head)
    × ((expected : ℕ) × (world.lovelace_of config.amount_ada ≡ some expected)
        × Includes (IsHtlcOf step config.htlc_hash expected) items)
ShowsStep world config step _ = ⊥

equals-eq : (value : Option String) (text : String) → equals value text ≡ true → value ≡ some text
equals-eq none text h = cc
equals-eq (some value) text h = let e = (eq_iff value text).0 h in cc

all_three : (p q r : Bool) → (p && q && r) ≡ true → (p ≡ true) × (q ≡ true) × (r ≡ true)
all_three p q r h = ground arith

leb-le : (n m : ℕ) → leb n m ≡ true → n ≤ m
leb-le n m h = ground arith

-- What find_htlc makes of one candidate, by its amount.
shown_amount :
    (step : PaymentStep) (hash : String) (expected : ℕ) (item : UtxoItem) (rest : Sight)
    (amount : Option ℕ)
    → item.lovelace ≡ amount
    → is_htlc_for step hash item ≡ true
    → shows (elim amount [
      | none ↦ unclear
      | some lovelace ↦ if leb expected lovelace then present item else rest
    ])
      ≡ true
    → IsHtlcOf step hash expected item ⊎ (shows rest ≡ true)
shown_amount step hash expected item rest none e for h = cc
shown_amount step hash expected item rest (some lovelace) e for h =
    let (kind, same_hash, to) =
      all_three (str_eq item.kind "htlc") (equals item.hash hash)
        (equals item.to (get_user step.to.name).vk_hash) for in
    elim (Bool-cases (leb expected lovelace)) [
      | inl enough ↦ inl (
        (eq_iff item.kind "htlc").0 kind,
        equals-eq item.hash hash same_hash,
        equals-eq item.to (get_user step.to.name).vk_hash to,
        (lovelace, e, leb-le expected lovelace enough),
      )
      | inr little ↦ inr (ground (arith, h, little))
    ]

shown_if :
    (step : PaymentStep) (hash : String) (item : UtxoItem) (a b : Sight)
    → is_htlc_for step hash item ≡ true
    → shows (if is_htlc_for step hash item then a else b) ≡ true
    → shows a ≡ true
shown_if step hash item a b for h = rw for at h

shown_else :
    (step : PaymentStep) (hash : String) (item : UtxoItem) (a b : Sight)
    → is_htlc_for step hash item ≡ false
    → shows (if is_htlc_for step hash item then a else b) ≡ true
    → shows b ≡ true
shown_else step hash item a b other h = rw other at h

find_htlc-Includes :
    (step : PaymentStep) (hash : String) (expected : ℕ) (items : List UtxoItem)
    → shows (find_htlc step hash expected items) ≡ true
    → Includes (IsHtlcOf step hash expected) items
unfolding find_htlc
find_htlc-Includes step hash expected [] h = cc
find_htlc-Includes step hash expected (item ∷ items) h =
    let later = find_htlc-Includes step hash expected items in
    elim (Bool-cases (is_htlc_for step hash item)) [
      | inl for ↦
          elim (shown_amount step hash expected item (find_htlc step hash expected items)
            item.lovelace refl for (shown_if step hash item _ _ for h)) [
              | inl found ↦ inl found
              | inr rest ↦ inr (later rest)
            ]
      | inr other ↦ inr (later (shown_else step hash item _ _ other h))
    ]

abbrev pub Newest : (Event → Type 0) → List Event → Type 0
Newest P [] = ⊥
Newest P (event ∷ log) = P event

-- How a poll ends, if what it starts from is a property that answers to polls keep.
abbrev pub PollEnds : (List Event → Type 0) → (Event → Type 0) → Bool × Run → Type 0
PollEnds P Shown (true, r) = P r.log × Newest Shown r.log
PollEnds P Shown (false, r) = P r.log

sight-ShowsStep :
    (world : World) (config : PaymentConfig) (step : PaymentStep) (expected : ℕ)
    (answer : PollAnswer)
    → world.lovelace_of config.amount_ada ≡ some expected
    → shows (sight step config.htlc_hash expected answer) ≡ true
    → ShowsStep world config step (polled (head_route step) answer)
unfolding sight
sight-ShowsStep world config step expected (utxos items) e h =
    (refl, (expected, e, find_htlc-Includes step config.htlc_hash expected items h))
sight-ShowsStep world config step expected not_ok e h = cc
sight-ShowsStep world config step expected poll_failed e h = cc

module _ (world : World) (config : PaymentConfig) (step : PaymentStep) (expected : ℕ)
    (amount : world.lovelace_of config.amount_ada ≡ some expected) (P : List Event → Type 0)
    (kept : (route : String) (answer : PollAnswer) (log : List Event)
      → P log
      → P (polled route answer ∷ log))
    (Shown : Event → Type 0)
    (shown : (event : Event) → ShowsStep world config step event → Shown event) where
  -- A wait that does not time out ends right after an answer that shows the HTLC.
  pub poll-PollEnds :
      (n : ℕ) (r : Run)
      → P r.log
      → PollEnds P Shown (poll world shows step config.htlc_hash expected n r)
  unfolding poll ask pause look
  poll-PollEnds zero r p = p
  poll-PollEnds (suc n) r p =
      let route = head_route step in
      let answer = world.poll_answer r.awaits route in
      let asked = kept route answer r.log p in
      elim (Bool-cases (shows (look world step config.htlc_hash expected r.awaits))) [
        | inl e ↦ rw e (
          asked,
          shown (polled route answer) (sight-ShowsStep world config step expected answer amount e),
        )
        | inr e ↦ rw e (poll-PollEnds n (pause world (ask world step r)) asked)
      ]
