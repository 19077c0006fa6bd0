-- ===== src/Client/Api/Digits.antt =====
-- Identifiers of outputs, written by the list of outputs and taken apart by the handlers.
use eutxo_l2_interop.Base.{
  is_space, trim_start, sym, ◌≤◌, ◌∙◌, ap, ℕ, zero, suc, ◌+◌, ◌*◌, ◌/◌, ◌%◌, ◌<◌, ◌==◌, ◌≡◌, refl,
  ltb, String, Bool, true, false, Option, none, some, if◌then◌else◌, arith, is_digit, Bool-cases,
  inl, inr,
}
use eutxo_l2_interop.Client.Api.Ids.{
  parsed, signed_from, digits_read, int_from, parse_int_10, before_hash, after_hash,
}
use Prim.Native.String.{◌++◌}
use Prim.Native.String.append
use Prim.Native.Char.{code}
use eutxo_l2_interop.Client.Api.Listing.{digit, digits_before, number_text}

number_text_tests : (number_text 0 ≡ "0") × (number_text 1205 ≡ "1205")
unfolding number_text
number_text_tests = (refl, refl)

digit-code : (d : ℕ) → d < 10 → (is_digit (digit d) ≡ true) × (code (digit d) ≡ 48 + d)
digit-code zero h = (refl, refl)
digit-code (suc zero) h = (refl, refl)
digit-code (suc (suc zero)) h = (refl, refl)
digit-code (suc (suc (suc zero))) h = (refl, refl)
digit-code (suc (suc (suc (suc zero)))) h = (refl, refl)
digit-code (suc (suc (suc (suc (suc zero))))) h = (refl, refl)
digit-code (suc (suc (suc (suc (suc (suc zero)))))) h = (refl, refl)
digit-code (suc (suc (suc (suc (suc (suc (suc zero))))))) h = (refl, refl)
digit-code (suc (suc (suc (suc (suc (suc (suc (suc zero)))))))) h = (refl, refl)
digit-code (suc (suc (suc (suc (suc (suc (suc (suc (suc zero))))))))) h = (refl, refl)
digit-code (suc (suc (suc (suc (suc (suc (suc (suc (suc (suc d)))))))))) h = absurd (omega arith)

digit-is_space : (d : ℕ) → d < 10 → is_space (digit d) ≡ false
unfolding is_space
digit-is_space zero h = refl
digit-is_space (suc zero) h = refl
digit-is_space (suc (suc zero)) h = refl
digit-is_space (suc (suc (suc zero))) h = refl
digit-is_space (suc (suc (suc (suc zero)))) h = refl
digit-is_space (suc (suc (suc (suc (suc zero))))) h = refl
digit-is_space (suc (suc (suc (suc (suc (suc zero)))))) h = refl
digit-is_space (suc (suc (suc (suc (suc (suc (suc zero))))))) h = refl
digit-is_space (suc (suc (suc (suc (suc (suc (suc (suc zero)))))))) h = refl
digit-is_space (suc (suc (suc (suc (suc (suc (suc (suc (suc zero))))))))) h = refl
digit-is_space (suc (suc (suc (suc (suc (suc (suc (suc (suc (suc d)))))))))) h =
    absurd (omega arith)

digits_read-digit :
    (n d m : ℕ) (rest : String)
    → d < 10
    → m ≡ n * 10 + d
    → digits_read n (String.◌∷◌ (digit d) rest) ≡ digits_read m rest
unfolding digits_read
digits_read-digit n d m rest h e =
    let (is, value) = digit-code d h in
    rw is (rw value (ap (λ k. digits_read k rest) (omega arith)))

ltb-lt : (n m : ℕ) → ltb n m ≡ true → n < m
ltb-lt n m h = ground arith

ltb-ge : (n m : ℕ) → ltb n m ≡ false → m ≤ n
ltb-ge n m h = ground arith

shrinks : (fuel n : ℕ) → n < suc fuel → ltb n 10 ≡ false → n / 10 < fuel
shrinks fuel n h big = let ten = ltb-ge n 10 big in omega arith

digits_read-digits_before :
    (fuel n : ℕ) (rest : String)
    → n < fuel
    → digits_read 0 (digits_before fuel n rest) ≡ digits_read n rest
unfolding digits_before
digits_read-digits_before zero n rest h = absurd (omega arith)
digits_read-digits_before (suc fuel) n rest h = elim (Bool-cases (ltb n 10)) [
  | inl small ↦ rw small (digits_read-digit 0 n n rest (ltb-lt n 10 small) (omega arith))
  | inr big ↦ rw big (
      digits_read-digits_before fuel (n / 10) (String.◌∷◌ (digit (n % 10)) rest)
        (shrinks fuel n h big)
      ∙ digits_read-digit (n / 10) (n % 10) n rest (omega arith) (omega arith))
]

digits_read-number_text : (n : ℕ) → digits_read 0 (number_text n) ≡ n
unfolding number_text digits_read
digits_read-number_text n = digits_read-digits_before (suc n) n "" (omega arith)

-- A text that begins with a digit.
abbrev Begins : String → Type 0
Begins text = (d : ℕ) × (more : String) × (d < 10) × (text ≡ String.◌∷◌ (digit d) more)

digits_before-Begins :
    (fuel n : ℕ) (rest : String) → Begins rest → Begins (digits_before fuel n rest)
unfolding digits_before
digits_before-Begins zero n rest b = b
digits_before-Begins (suc fuel) n rest b = elim (Bool-cases (ltb n 10)) [
  | inl small ↦ rw small (n, rest, ltb-lt n 10 small, refl)
  | inr big ↦ rw big (
      digits_before-Begins fuel (n / 10) (String.◌∷◌ (digit (n % 10)) rest)
        (n % 10, rest, omega arith, refl))
]

number_text-Begins : (n : ℕ) → Begins (number_text n)
unfolding number_text digits_before
number_text-Begins n = elim (Bool-cases (ltb n 10)) [
  | inl small ↦ rw small (n, "", ltb-lt n 10 small, refl)
  | inr big ↦ rw big (
      digits_before-Begins n (n / 10) (String.◌∷◌ (digit (n % 10)) "")
        (n % 10, "", omega arith, refl))
]

pub separated : (rest : String) → "#" ++ rest ≡ String.◌∷◌ "#" rest
separated rest = append.cons "#" "" rest ∙ ap (String.◌∷◌ "#") (append.nil rest)

no_hash :
    (flag : Bool) (a : String) (b : Option String)
    → (if flag then some a else b) ≡ none
    → (flag ≡ false) × (b ≡ none)
no_hash true a b h = cc
no_hash false a b h = (refl, h)

pub split-append :
    (text rest : String)
    → after_hash text ≡ none
    → (before_hash (text ++ String.◌∷◌ "#" rest) ≡ text)
      × (after_hash (text ++ String.◌∷◌ "#" rest) ≡ some (before_hash rest))
unfolding before_hash after_hash
split-append String.[] rest h = rw (append.nil (String.◌∷◌ "#" rest)) (refl, refl)
split-append (String.◌∷◌ c text) rest h =
    let (other, left) = no_hash (code c == b'#') (before_hash text) (after_hash text) h in
    let (before, after) = split-append text rest left in
    rw (append.cons c text (String.◌∷◌ "#" rest), other) (ap (String.◌∷◌ c) before, after)

not_hash : (k d : ℕ) → k ≡ 48 + d → (k == b'#') ≡ false
not_hash k d e = ground arith

before_hash-digit :
    (d : ℕ) (rest : String)
    → d < 10
    → before_hash rest ≡ rest
    → before_hash (String.◌∷◌ (digit d) rest) ≡ String.◌∷◌ (digit d) rest
unfolding before_hash
before_hash-digit d rest h e =
    rw (not_hash (code (digit d)) d (digit-code d h).1) (ap (String.◌∷◌ (digit d)) e)

before_hash-digits_before :
    (fuel n : ℕ) (rest : String)
    → before_hash rest ≡ rest
    → before_hash (digits_before fuel n rest) ≡ digits_before fuel n rest
unfolding digits_before
before_hash-digits_before zero n rest e = e
before_hash-digits_before (suc fuel) n rest e = elim (Bool-cases (ltb n 10)) [
  | inl small ↦ rw small (before_hash-digit n rest (ltb-lt n 10 small) e)
  | inr big ↦ rw big (
      before_hash-digits_before fuel (n / 10) (String.◌∷◌ (digit (n % 10)) rest)
        (before_hash-digit (n % 10) rest (omega arith) e))
]

no_sign : (k d : ℕ) → k ≡ 48 + d → ((k == b'-') ≡ false) × ((k == b'+') ≡ false)
no_sign k d e = (ground arith, ground arith)

parse_int_10-digit :
    (d : ℕ) (more : String)
    → d < 10
    → parse_int_10 (String.◌∷◌ (digit d) more)
      ≡ parsed false (digits_read 0 (String.◌∷◌ (digit d) more))
unfolding parse_int_10 signed_from int_from trim_start
parse_int_10-digit d more h =
    let (is, value) = digit-code d h in
    let (minus, plus) = no_sign (code (digit d)) d value in
    rw (digit-is_space d h) (rw (minus, plus) (rw is refl))

pub parse_int_10-number_text : (n : ℕ) → parse_int_10 (number_text n) ≡ parsed false n
parse_int_10-number_text n =
    let (d, more, h, e) = number_text-Begins n in
    ap parse_int_10 e
    ∙ parse_int_10-digit d more h
    ∙ ap (λ t. parsed false (digits_read 0 t)) (sym e)
    ∙ ap (parsed false) (digits_read-number_text n)

pub before_hash-number_text : (n : ℕ) → before_hash (number_text n) ≡ number_text n
unfolding number_text before_hash
before_hash-number_text n = before_hash-digits_before (suc n) n "" refl
