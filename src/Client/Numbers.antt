-- ===== src/Client/Numbers.antt =====
-- The numbers that the handlers of src/client compute deadlines with: integers, and ECMAScript's
-- Numbers as far as these are integers, rounded to 53 bits, not a number or infinite.
use eutxo_l2_interop.Base.{
  ℕ, zero, suc, ◌+◌, ◌*◌, ◌-◌, ◌/◌, ◌%◌, ◌^◌, ◌<◌, ◌==◌, ◌≡◌, refl, ap, Bool, true, false, Option,
  none, some, if◌then◌else◌, ltb, arith, if_rule,
}

pub data ℤ : Type 0 where
  pos : ℕ → ℤ
  negsuc : ℕ → ℤ

unfoldable pub signed : (negative : Bool) → ℕ → ℤ
signed false n = pos n
signed true zero = pos zero
signed true (suc n) = negsuc n

infixl 65 ◌+ℤ◌
unfoldable pub ◌+ℤ◌ : ℤ → ℤ → ℤ
pos m +ℤ pos n = pos (m + n)
pos m +ℤ negsuc n = if ltb n m then pos (m - suc n) else negsuc (n - m)
negsuc m +ℤ pos n = if ltb m n then pos (n - suc m) else negsuc (m - n)
negsuc m +ℤ negsuc n = negsuc (suc (m + n))

pub data Number : Type 0 where
  nan : Number
  infinity : (negative : Bool) → Number
  finite : (negative : Bool) (magnitude : ℕ) → Number

-- 2 ^ 53.
abbrev pub exact_bound : ℕ
exact_bound = 9007199254740992

-- The multiple of `unit` that is nearest, and the even one of two.
abbrev pub nearest : (unit n : ℕ) → ℕ
nearest unit n =
    let q = n / unit in
    let twice = n % unit * 2 in
    if ltb twice unit
    then q * unit
    else if ltb unit twice
    then (q + 1) * unit
    else if q % 2 == 0
    then q * unit
    else (q + 1) * unit

-- The unit in the last of 53 places doubles until the number has at most 53 bits above it.
unfoldable pub round_at : (fuel unit n : ℕ) → ℕ
round_at zero unit n = n
round_at (suc fuel) unit n =
    let more = round_at fuel (unit * 2) n in
    if ltb n (exact_bound * unit) then nearest unit n else more

-- With this fuel everything below 2 ^ 1076 is rounded, and what is above is infinite.
unfoldable pub rounded : ℕ → ℕ
unfolding round_at
rounded n = if ltb n exact_bound then n else round_at 1023 2 n

unfoldable pub to_number : (negative : Bool) → ℕ → Number
to_number negative n =
    if ltb n exact_bound
    then finite negative n
    else if ltb (rounded n) (2 ^ 1024)
    then finite negative (rounded n)
    else infinity negative

-- `Number(n)` of a BigInt.
unfoldable pub number_of : ℤ → Number
unfolding to_number
number_of (pos n) = to_number false n
number_of (negsuc n) = to_number true (suc n)

-- `BigInt(x)`, which throws if `x` is no integer.
unfoldable pub to_bigint : Number → Option ℤ
unfolding signed
to_bigint nan = none
to_bigint (infinity negative) = none
to_bigint (finite negative n) = some (signed negative n)

-- `x * k`, for a positive `k`.
unfoldable pub times : Number → ℕ → Number
unfolding to_number
times nan k = nan
times (infinity negative) k = infinity negative
times (finite negative n) k = to_number negative (n * k)

-- `x + k`, for an integer `k` that is small enough to be a Number.
unfoldable pub plus : Number → ℤ → Number
unfolding number_of ◌+ℤ◌ signed
plus nan k = nan
plus (infinity negative) k = infinity negative
plus (finite negative n) k = number_of (signed negative n +ℤ k)

ltb-true : (n m : ℕ) → n < m → ltb n m ≡ true
ltb-true n m h = ground arith

chosen : (flag : Bool) (x y : Number) → flag ≡ true → (if flag then x else y) ≡ x
chosen true x y h = refl
chosen false x y h = cc

pub to_number-exact :
    (negative : Bool) (n : ℕ) → n < exact_bound → to_number negative n ≡ finite negative n
unfolding to_number
to_number-exact negative n h =
    chosen (ltb n exact_bound) (finite negative n) _ (ltb-true n exact_bound h)

-- Exact arithmetic stays exact below 2 ^ 53.
pub times-exact :
    (negative : Bool) (n k : ℕ)
    → n * k < exact_bound
    → times (finite negative n) k ≡ finite negative (n * k)
unfolding times
times-exact negative n k h = to_number-exact negative (n * k) h

-- Integers that are Numbers.
abbrev pub IsExact : ℤ → Type 0
IsExact (pos n) = n < exact_bound
IsExact (negsuc n) = suc n < exact_bound

pub to_bigint-number_of : (z : ℤ) → IsExact z → to_bigint (number_of z) ≡ some z
unfolding number_of to_bigint signed
to_bigint-number_of (pos n) h = ap to_bigint (to_number-exact false n h)
to_bigint-number_of (negsuc n) h = ap to_bigint (to_number-exact true (suc n) h)

signed-IsExact :
    (negative : Bool) (n now : ℕ) → n + now < exact_bound → IsExact (signed negative n +ℤ pos now)
unfolding signed ◌+ℤ◌
signed-IsExact false n now h = h
signed-IsExact true zero now h = h
signed-IsExact true (suc n) now h = if_rule IsExact (ltb n now) (omega arith) (omega arith)

pub to_bigint-plus :
    (negative : Bool) (n now : ℕ)
    → n + now < exact_bound
    → to_bigint (plus (finite negative n) (pos now)) ≡ some (signed negative n +ℤ pos now)
unfolding plus
to_bigint-plus negative n now h =
    to_bigint-number_of (signed negative n +ℤ pos now) (signed-IsExact negative n now h)

number_tests :
    (to_number false 9007199254740993 ≡ finite false 9007199254740992)
    × (to_number true 9007199254740995 ≡ finite true 9007199254740996)
    × (to_number false (2 ^ 1024) ≡ infinity false)
    × (to_number false (2 ^ 1024 - 1) ≡ infinity false)
unfolding to_number rounded
number_tests = (refl, refl, refl, refl)
