-- ===== src/Policy/Gate.antt =====
-- The gate on the heads that a request needs: getClosedRequiredHeads.
use eutxo_l2_interop.Base.{ℕ, ◌≡◌, refl, Bool, List, [], ◌∷◌, not, arith, all, filter}
use eutxo_l2_interop.Store.{Sys, HeadName}
use eutxo_l2_interop.Heads.{get_heads_state}
use eutxo_l2_interop.Policy.{get_closed_required_heads, is_opened, read_model_of}
use eutxo_l2_interop.Routes.RequestFunds.{is_nil}

abbrev pub is_head_open : ℕ → Sys → HeadName → Bool
is_head_open stale s name = is_opened (read_model_of name (get_heads_state stale s)).status

is_nil-filter {ℓ} :
    {A : Type ℓ} (p : A → Bool) (xs : List A) → is_nil (filter (λ x. not (p x)) xs) ≡ all p xs
is_nil-filter p [] = refl
is_nil-filter p (x ∷ xs) = ground (arith, is_nil-filter p xs)

-- The gate lets a request through exactly when every head that it needs is open.
pub get_closed_required_heads-is_nil :
    (stale : ℕ) (required : List HeadName) (s : Sys)
    → is_nil (get_closed_required_heads stale required s) ≡ all (is_head_open stale s) required
unfolding get_closed_required_heads
get_closed_required_heads-is_nil stale required s = is_nil-filter (is_head_open stale s) required
