-- ===== src/Client/Payment/Polls.antt =====
-- waitForStepConfirmation and waitForHtlcClaimed, with lib/claim-intermediary-htlc.ts: polling the
-- outputs of a head for the HTLC of a step.
use Prim.Native.String.{◌++◌}
use eutxo_l2_interop.Base.{
  ℕ, zero, suc, String, Bool, true, false, ◌&&◌, List, [], ◌∷◌, Option, none, some, if◌then◌else◌,
  str_eq, leb, filter, map,
}
use eutxo_l2_interop.Client.Users.{UserName, get_user}
use eutxo_l2_interop.Client.Topologies.{PaymentStep}
use eutxo_l2_interop.Client.Paths.{is_intermediary_receiver}
use eutxo_l2_interop.Client.Payment.{
  Run, World, UtxoItem, PollAnswer, utxos, not_ok, poll_failed, pause, polled, record_event,
}

-- What a look at the outputs says of a step's HTLC; it cannot be said if the answer is not usable.
pub data Sight : Type 0 where
  present : UtxoItem → Sight
  absent : Sight
  unclear : Sight

abbrev pub equals : Option String → String → Bool
equals none text = false
equals (some value) text = str_eq value text

abbrev pub is_htlc_for : PaymentStep → String → UtxoItem → Bool
is_htlc_for step hash item =
    str_eq item.kind "htlc"
    && equals item.hash hash
    && equals item.to (get_user step.to.name).vk_hash

-- `utxos.find(...)`, which throws at a candidate whose amount is no number.
unfoldable pub find_htlc : PaymentStep → String → ℕ → List UtxoItem → Sight
unfolding get_user
find_htlc step hash expected [] = absent
find_htlc step hash expected (item ∷ items) =
    let rest = find_htlc step hash expected items in
    if is_htlc_for step hash item
    then elim item.lovelace [
      | none ↦ unclear
      | some lovelace ↦ if leb expected lovelace then present item else rest
    ]
    else rest

unfoldable pub sight : PaymentStep → String → ℕ → PollAnswer → Sight
unfolding find_htlc
sight step hash expected (utxos items) = find_htlc step hash expected items
sight step hash expected not_ok = unclear
sight step hash expected poll_failed = unclear

abbrev pub shows : Sight → Bool
shows (present item) = true
shows _ = false

abbrev pub shows_none : Sight → Bool
shows_none absent = true
shows_none _ = false

-- `/api/hydra/head-.../utxos`.
abbrev pub head_route : PaymentStep → String
head_route step = "head-" ++ step.from.head

-- The answer at the await with this number.
unfoldable pub look : World → PaymentStep → String → ℕ → ℕ → Sight
unfolding sight
look world step hash expected n = sight step hash expected (world.poll_answer n (head_route step))

-- The await of that answer.
unfoldable pub ask : World → PaymentStep → Run → Run
unfolding pause
ask world step r =
    record_event (polled (head_route step) (world.poll_answer r.awaits (head_route step)))
      (pause world r)

-- The loop polls until a look passes the test, and waits after each that does not.
unfoldable pub poll :
    World → (Sight → Bool) → PaymentStep → String → ℕ → (attempts : ℕ) → Run → Bool × Run
unfolding look ask pause
poll world test step hash expected zero r = (false, r)
poll world test step hash expected (suc n) r =
    let rest = poll world test step hash expected n (pause world (ask world step r)) in
    if test (look world step hash expected r.awaits) then (true, ask world step r) else rest

abbrev pub poll_max_attempts : ℕ
poll_max_attempts = 30

unfoldable pub wait_for_step_confirmation : World → PaymentStep → String → ℕ → Run → Bool × Run
unfolding poll
wait_for_step_confirmation world step hash expected r =
    poll world shows step hash expected poll_max_attempts r

-- The HTLC counts as claimed as soon as an answer does not show it.
unfoldable pub wait_for_htlc_claimed : World → PaymentStep → String → ℕ → Run → Bool × Run
unfolding poll pause
wait_for_htlc_claimed world step hash expected r =
    poll world shows_none step hash expected 60 (pause world r)

-- The request that claims an HTLC: the head, the output, the preimage and who claims.
pub record ClaimBody : Type 0 where
  pub head : String
  pub utxo_id : String
  pub preimage : String
  pub claimer_name : UserName

-- The claim of one step, if its HTLC is found, from the answer to one poll.
unfoldable pub claim_intermediary_htlc :
    PaymentStep → String → String → ℕ → PollAnswer → Option ClaimBody
unfolding sight
claim_intermediary_htlc step hash preimage expected answer =
    elim (sight step hash expected answer) [
      | present item ↦ some (record {
        head = step.from.head;
        utxo_id = item.id;
        preimage = preimage;
        claimer_name = step.to.name;
      })
      | absent ↦ none
      | unclear ↦ none
    ]

-- One claim for each step that an intermediary receives, each with an answer of its own.
unfoldable pub claim_intermediary_htlcs :
    List PaymentStep → String → String → ℕ → (PaymentStep → PollAnswer) → List (Option ClaimBody)
unfolding claim_intermediary_htlc is_intermediary_receiver
claim_intermediary_htlcs steps hash preimage expected answers =
    map (λ step. claim_intermediary_htlc step hash preimage expected (answers step))
      (filter is_intermediary_receiver steps)
