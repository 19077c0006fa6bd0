-- ===== src/Client/Api/Validity.antt =====
-- The arithmetic of the end of a claim's validity, in Numbers.
use eutxo_l2_interop.Client.Api.{ℤ}
use eutxo_l2_interop.Base.{
  ℕ, ◌+◌, ◌<◌, ◌≡◌, refl, true, some, arith, ltb, zero, suc, false, ap, sym, ◌∙◌, ◌-◌, Bool,
  if◌then◌else◌, ◌≤◌, ◌≢◌, ◌⊎◌, inl, inr, Bool-cases, ◌^◌,
}
use eutxo_l2_interop.Client.Api.Claim.{valid_to_of, positive_of}
use mathlib.Core.Option.{some-injective}
use eutxo_l2_interop.Client.Numbers.{
  pos, negsuc, Number, nan, infinity, finite, exact_bound, number_of, plus, signed, ◌+ℤ◌,
  to_number-exact, to_number, rounded,
}

pub positive_of-some :
    (x : Number) {n : ℕ} → positive_of x ≡ some n → (0 < n) × (x ≡ finite false n)
positive_of-some nan e = cc
positive_of-some (infinity negative) e = cc
positive_of-some (finite true n) e = cc
positive_of-some (finite false zero) e = cc
positive_of-some (finite false (suc n)) e =
    let same = some-injective _ _ e in (omega arith, ap (finite false) same)

ltb-lt : (n m : ℕ) → ltb n m ≡ true → n < m
ltb-lt n m h = ground arith

ltb-ge : (n m : ℕ) → ltb n m ≡ false → m ≤ n
ltb-ge n m h = ground arith

finite_parts : {a b : Bool} {n m : ℕ} → finite a n ≡ finite b m → (a ≡ b) × (n ≡ m)
finite_parts e = (cc, cc)

difference :
    (flag : Bool) (timeout n : ℕ)
    → ltb 1199999 timeout ≡ flag
    → timeout < exact_bound
    → number_of (if flag then pos (timeout - 1200000) else negsuc (1199999 - timeout))
      ≡ finite false n
    → n + 1200000 ≡ timeout
unfolding number_of
difference true timeout n late small e =
    let enough = ltb-lt 1199999 timeout late in
    let (_, same) =
      finite_parts (sym (to_number-exact false (timeout - 1200000) (omega arith)) ∙ e) in
    omega arith
difference false timeout n late small e =
    let (sign, _) =
      finite_parts (sym (to_number-exact true (suc (1199999 - timeout)) (omega arith)) ∙ e) in
    cc

-- Below 2 ^ 53 the subtraction is exact.
valid_to_of-exact :
    (timeout n : ℕ)
    → timeout < exact_bound
    → valid_to_of (pos timeout) ≡ finite false n
    → n + 1200000 ≡ timeout
unfolding valid_to_of number_of plus ◌+ℤ◌ signed
valid_to_of-exact timeout n small e =
    difference (ltb 1199999 timeout) timeout n refl small
      (sym (ap (λ x. plus x (negsuc 1199999)) (to_number-exact false timeout small)) ∙ e)

one_sign :
    (exact fits sign b : Bool) (n r m : ℕ)
    → (if exact then finite sign n else if fits then finite sign r else infinity sign) ≡ finite b m
    → b ≡ sign
one_sign true fits sign b n r m e = sym (finite_parts e).0
one_sign false true sign b n r m e = sym (finite_parts e).0
one_sign false false sign b n r m e = cc

-- A Number has the sign that it is made with.
to_number-sign : (sign b : Bool) (n m : ℕ) → to_number sign n ≡ finite b m → b ≡ sign
unfolding to_number
to_number-sign sign b n m e =
    one_sign (ltb n exact_bound) (ltb (rounded n) (2 ^ 1024)) sign b n (rounded n) m e

less_than_negative :
    (x : Number) (n : ℕ)
    → ((b : Bool) (m : ℕ) → x ≡ finite b m → b ≡ true)
    → plus x (negsuc 1199999) ≢ finite false n
unfolding plus signed ◌+ℤ◌ number_of
less_than_negative nan n negative e = cc
less_than_negative (infinity sign) n negative e = cc
less_than_negative (finite false m) n negative e = let bad = negative false m refl in cc
less_than_negative (finite true zero) n negative e =
    let bad = to_number-sign true false 1200000 n e in cc
less_than_negative (finite true (suc m)) n negative e =
    let bad = to_number-sign true false (suc (suc (m + 1199999))) n e in cc

-- A negative timeout has no positive end.
negative_timeout : (k n : ℕ) → valid_to_of (negsuc k) ≢ finite false n
unfolding valid_to_of number_of
negative_timeout k n e =
    less_than_negative (to_number true (suc k)) n (λ b m. to_number-sign true b (suc k) m) e

pub in_time_of :
    (timeout : ℤ) (n : ℕ)
    → valid_to_of timeout ≡ finite false n
    → (t : ℕ) × (timeout ≡ pos t) × ((n + 1200000 ≡ t) ⊎ (exact_bound ≤ t))
in_time_of (pos t) n e = elim (Bool-cases (ltb t exact_bound)) [
  | inl small ↦ (t, refl, inl (valid_to_of-exact t n (ltb-lt t exact_bound small) e))
  | inr big ↦ (t, refl, inr (ltb-ge t exact_bound big))
]
in_time_of (negsuc k) n e = absurd (negative_timeout k n e)
