-- ===== src/Lottery/Race.antt =====
-- registerActiveLotteryForHead: how many lotteries can be active at a time.
use eutxo_l2_interop.Base.{
  ℕ, String, ◌≡◌, ◌≤◌, refl, sym, ap, ◌∙◌, ◌≢◌, Bool, true, false, not, if◌then◌else◌, ltb, arith,
  count_where, Bool-cases, inl, inr, ◌==◌, utf16_length, ◌⊎◌, if_rule, suc,
}
use eutxo_l2_interop.Store.{Sys, LotteryInstance, Result, ok, throw}
use eutxo_l2_interop.Lottery.{
  register_active_lottery_for_head, insert_if_none_active, LotteryInput, is_active, normalize_hex,
  with_hex, Normalized, hex, rejected, new_lottery, is_head_b,
}

abbrev pub active_count : Sys → ℕ
active_count s = count_where is_active s.lotteries

abbrev pub is_ok {ℓ} : {A : Type ℓ} → Result A → Bool
is_ok (ok _) = true
is_ok (throw _) = false

-- A registration is refused with the state as it was, or it inserts an active row after what the
-- others did.
abbrev IsOutcome : (others : Sys → Sys) → Sys → Result LotteryInstance × Sys → Type 0
IsOutcome others s (r, s') =
    (is_ok r ≡ false) × (s' ≡ s)
    ⊎ (is_ok r ≡ true) × (active_count s ≡ 0) × (active_count s' ≡ suc (active_count (others s)))

with_hex-IsOutcome :
    (others : Sys → Sys) (s : Sys) (n : Normalized) (k : String → Result LotteryInstance × Sys)
    → ((t : String) → IsOutcome others s (k t))
    → IsOutcome others s (with_hex n k s)
with_hex-IsOutcome others s (hex t) k h = h t
with_hex-IsOutcome others s (rejected e) k h = inl (refl, refl)

insert_if_none_active-IsOutcome :
    (others : Sys → Sys) (row : LotteryInstance) (s : Sys)
    → is_active row ≡ true
    → IsOutcome others s (insert_if_none_active others row s)
unfolding insert_if_none_active
insert_if_none_active-IsOutcome others row s active = elim (Bool-cases (ltb 0 (active_count s))) [
  | inl e ↦ rw (e, insert_if_none_active) (inl (refl, refl))
  | inr e ↦ rw (e, insert_if_none_active, active) (inr (refl, ground arith, refl))
]

register-IsOutcome :
    (others : Sys → Sys) (id : ℕ) (input : LotteryInput) (s : Sys)
    → IsOutcome others s (register_active_lottery_for_head others id input s)
unfolding register_active_lottery_for_head
register-IsOutcome others id input s =
    let Goal : Result LotteryInstance × Sys → Type 0 = IsOutcome others s in
    if_rule Goal (not (is_head_b input.head_name)) (inl (refl, refl)) (
      with_hex-IsOutcome others s (normalize_hex "policyId must be lowercase hex" input.policy_id) _
        (λ policy_id. if_rule Goal (not (utf16_length policy_id == 56)) (inl (refl, refl)) (
          with_hex-IsOutcome others s
            (normalize_hex "tokenNameHex must be lowercase hex" input.token_name_hex) _
            (λ token.
              with_hex-IsOutcome others s
                (normalize_hex "mintTxHash must be lowercase hex" input.mint_tx_hash) _
                (λ mint.
                  insert_if_none_active-IsOutcome others
                    (new_lottery id s.clock policy_id token mint input.contract_address) s refl)))))

-- One active lottery at a time: while no other request comes between its count and its insertion,
-- a registration keeps at most one lottery active, and it is refused where one is.
pub register_active_lottery_for_head-one :
    (id : ℕ) (input : LotteryInput) (s : Sys)
    → active_count s ≤ 1
    → let (r, s') = register_active_lottery_for_head (λ t. t) id input s in
      (active_count s' ≤ 1) × (active_count s ≡ 1 → is_ok r ≡ false)
register_active_lottery_for_head-one id input s h = elim (register-IsOutcome (λ t. t) id input s) [
  | inl (refused, same) ↦ (omega (arith, h, ap active_count same), λ _. refused)
  | inr (_, empty, more) ↦ (omega (arith, empty, more), λ one. absurd (omega (arith, empty, one)))
]

true_not_false : true ≢ false
true_not_false h = cc

if-same :
    (b : Bool) (x y y' : Result LotteryInstance × Sys)
    → y.0 ≡ y'.0
    → (if b then x else y).0 ≡ (if b then x else y').0
if-same true x y y' h = refl
if-same false x y y' h = h

with_hex-same :
    (s : Sys) (n : Normalized) (k k' : String → Result LotteryInstance × Sys)
    → ((t : String) → (k t).0 ≡ (k' t).0)
    → (with_hex n k s).0 ≡ (with_hex n k' s).0
with_hex-same s (hex t) k k' h = h t
with_hex-same s (rejected e) k k' h = refl

-- The answer does not depend on what the others do.
register-same :
    (others others' : Sys → Sys) (id : ℕ) (input : LotteryInput) (s : Sys)
    → (register_active_lottery_for_head others id input s).0
      ≡ (register_active_lottery_for_head others' id input s).0
unfolding register_active_lottery_for_head insert_if_none_active
register-same others others' id input s = if-same (not (is_head_b input.head_name)) _ _ _ (
    with_hex-same s (normalize_hex "policyId must be lowercase hex" input.policy_id) _ _
      (λ policy_id. if-same (not (utf16_length policy_id == 56)) _ _ _ (
        with_hex-same s (normalize_hex "tokenNameHex must be lowercase hex" input.token_name_hex) _
          _
          (λ token.
            with_hex-same s (normalize_hex "mintTxHash must be lowercase hex" input.mint_tx_hash) _
              _ (λ mint. if-same (ltb 0 (active_count s)) _ _ _ refl)))))

-- Two registrations can interleave: if each of two requests succeeds on its own, then with the
-- second run between the count and the insertion of the first both succeed, and two lotteries are
-- active.
pub register_active_lottery_for_head-race :
    (id id' : ℕ) (input input' : LotteryInput) (s : Sys)
    → is_ok (register_active_lottery_for_head (λ t. t) id input s).0 ≡ true
    → is_ok (register_active_lottery_for_head (λ t. t) id' input' s).0 ≡ true
    → let other : Sys → Sys = λ t. (register_active_lottery_for_head (λ u. u) id' input' t).1 in
      let (r, s') = register_active_lottery_for_head other id input s in
      (is_ok r ≡ true) × (active_count s' ≡ 2)
register_active_lottery_for_head-race id id' input input' s first second =
    let other : Sys → Sys = λ t. (register_active_lottery_for_head (λ u. u) id' input' t).1 in
    let accepted = ap is_ok (register-same other (λ t. t) id input s) ∙ first in
    elim (register-IsOutcome other id input s) [
      | inl (refused, _) ↦ absurd (true_not_false (sym accepted ∙ refused))
      | inr (_, empty, more) ↦ elim (register-IsOutcome (λ u. u) id' input' s) [
        | inl (refused, _) ↦ absurd (true_not_false (sym second ∙ refused))
        | inr (_, _, one) ↦ (accepted, omega (arith, empty, more, one))
      ]
    ]
