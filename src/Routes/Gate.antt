-- ===== src/Routes/Gate.antt =====
-- What a ticket request has shown when it passes the handler's checks.
use eutxo_l2_interop.Base.{
  ℕ, ◌≡◌, sym, ◌∙◌, true, false, ◌||◌, not, some, Option-cases, Bool-cases, inl, inr, if_rule, leb,
  ltb, number_of_digits, all, and_parts,
}
use mathlib.Core.Path.{subst}
use eutxo_l2_interop.Store.{Sys, head_b}
use eutxo_l2_interop.Policy.{
  DemoActor, ida, user, charlie, derive_source_head, required_heads_for_buy_ticket,
  validate_buy_ticket_actor, get_closed_required_heads, resolve_actor_by_address,
}
use eutxo_l2_interop.Policy.Gate.{is_head_open, get_closed_required_heads-is_nil}
use eutxo_l2_interop.Lottery.{get_active_lottery_for_head}
use eutxo_l2_interop.Routes.RequestFunds.{Outside, is_mismatch, is_nil}
use eutxo_l2_interop.Routes.BuyTicket.{
  BuyTicketRequest, Checked, refused, passed, check, check_actor, fits_schema, max_amount_lovelace,
  has_lottery, is_positive_finite,
}

abbrev HasOpenPath : ℕ → Sys → DemoActor → Type 0
HasOpenPath stale s actor =
    (is_head_open stale s (derive_source_head actor) ≡ true) × (is_head_open stale s head_b ≡ true)

required-HasOpenPath :
    (stale : ℕ) (s : Sys) (actor : DemoActor)
    → all (is_head_open stale s) (required_heads_for_buy_ticket actor) ≡ true
    → HasOpenPath stale s actor
unfolding required_heads_for_buy_ticket derive_source_head
required-HasOpenPath stale s ida h = let (a, rest) = and_parts _ _ h in (a, (and_parts _ _ rest).0)
required-HasOpenPath stale s user h = let (a, rest) = and_parts _ _ h in (a, (and_parts _ _ rest).0)
required-HasOpenPath stale s charlie h =
    let (b, rest) = and_parts _ _ h in ((and_parts _ _ rest).0, b)

abbrev IfPassed : (DemoActor → Type 0) → Checked → Type 0
IfPassed P (refused response) = Unit
IfPassed P (passed actor) = P actor

module _ (o : Outside) (r : BuyTicketRequest) (s : Sys) where
  abbrev Shown : DemoActor → Type 0
  Shown actor =
      (validate_buy_ticket_actor r.actor ≡ some actor)
      × (is_mismatch (resolve_actor_by_address r.address) r.actor ≡ false)
      × (has_lottery (get_active_lottery_for_head head_b s) ≡ true)
      × HasOpenPath o.stale_threshold_ms s actor

  check_actor-Shown :
      (actor : DemoActor)
      → validate_buy_ticket_actor r.actor ≡ some actor
      → has_lottery (get_active_lottery_for_head head_b s) ≡ true
      → IfPassed Shown (check_actor o r s (some actor))
  unfolding check_actor
  check_actor-Shown actor valid lottery =
      let heads = required_heads_for_buy_ticket actor in
      elim (Bool-cases (is_mismatch (resolve_actor_by_address r.address) r.actor)) [
        | inl e ↦ rw (e, check_actor) tt
        | inr same ↦
            elim (Bool-cases (is_nil (get_closed_required_heads o.stale_threshold_ms heads s))) [
              | inr e ↦ rw (same, e, check_actor) tt
              | inl e ↦
                  rw (same, e, check_actor)
                    (
                      valid,
                      same,
                      lottery,
                      required-HasOpenPath o.stale_threshold_ms s actor
                          (sym (get_closed_required_heads-is_nil o.stale_threshold_ms heads s) ∙ e),
                    )
            ]
      ]

  check-Shown : IfPassed Shown (check o r s)
  unfolding check check_actor
  check-Shown =
      let amount = number_of_digits r.amount_lovelace in
      if_rule (IfPassed Shown) (not (fits_schema r)) tt (
        if_rule (IfPassed Shown) (leb amount 0 || ltb max_amount_lovelace amount) tt
          (elim (Bool-cases (has_lottery (get_active_lottery_for_head head_b s))) [
            | inr e ↦ rw e tt
            | inl lottery ↦ rw lottery (
                if_rule (IfPassed Shown)
                  (not (is_positive_finite (number_of_digits r.timeout_minutes))) tt
                  (elim (Option-cases (validate_buy_ticket_actor r.actor)) [
                    | inl e ↦ rw (e, check_actor) tt
                    | inr (actor, e) ↦ rw e (check_actor-Shown actor e lottery)
                  ]))
          ]))

-- A ticket request that passes the checks can start: the request's actor is one that may buy, its
-- address belongs to no other known actor, a lottery is active on head B, and both the head where
-- this actor's purchase starts and head B are open.
pub check-passed :
    (o : Outside) (r : BuyTicketRequest) (s : Sys) (actor : DemoActor)
    → check o r s ≡ passed actor
    → (validate_buy_ticket_actor r.actor ≡ some actor)
      × (is_mismatch (resolve_actor_by_address r.address) r.actor ≡ false)
      × (has_lottery (get_active_lottery_for_head head_b s) ≡ true)
      × ((is_head_open o.stale_threshold_ms s (derive_source_head actor) ≡ true)
          × (is_head_open o.stale_threshold_ms s head_b ≡ true))
check-passed o r s actor h = subst (IfPassed (Shown o r s)) h (check-Shown o r s)
