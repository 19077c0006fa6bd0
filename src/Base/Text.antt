-- ===== src/Base/Text.antt =====
-- The parts of ECMAScript's `String` that the source uses.
use Prim.Native.Nat.{ℕ, ◌+◌, ◌*◌, ◌-◌}
use Prim.Native.Char.{Char, code}
use Prim.Native.String.{String}
use mathlib.Core.Bool.{Bool, true, false, ◌&&◌, ◌||◌, not}
use mathlib.Core.Path.{◌≡◌, refl}
use eutxo_l2_interop.Base.Tests.{if◌then◌else◌, leb, ◌==◌, str_eq}

-- White space and line terminators, as `trim` removes them.
unfoldable pub is_space : Char → Bool
is_space c =
    (leb 9 (code c) && leb (code c) 13)
    || code c == 32
    || code c == 0xA0
    || code c == 0x1680
    || (leb 0x2000 (code c) && leb (code c) 0x200A)
    || code c == 0x2028
    || code c == 0x2029
    || code c == 0x202F
    || code c == 0x205F
    || code c == 0x3000
    || code c == 0xFEFF

unfoldable pub trim_start : String → String
trim_start String.[] = String.[]
trim_start (String.◌∷◌ c s) = if is_space c then trim_start s else String.◌∷◌ c s

-- A character is kept if it, or one behind it, is not white space.
unfoldable pub trim_end : String → String
trim_end String.[] = String.[]
trim_end (String.◌∷◌ c s) =
    let rest = trim_end s in if is_space c && str_eq rest "" then "" else String.◌∷◌ c rest

unfoldable pub trim : String → String
unfolding is_space trim_start trim_end
trim s = trim_end (trim_start s)

-- A text is falsy exactly when it is empty.
abbrev pub is_empty : String → Bool
is_empty String.[] = true
is_empty (String.◌∷◌ c s) = false

-- The character that stands in the second text where the first has this one.
swap_in : String → String → Char → Char
swap_in String.[] to c = c
swap_in (String.◌∷◌ u us) String.[] c = c
swap_in (String.◌∷◌ u us) (String.◌∷◌ l ls) c = if code u == code c then l else swap_in us ls c

lower_all : String → String
unfolding swap_in
lower_all String.[] = String.[]
lower_all (String.◌∷◌ c s) =
    String.◌∷◌ (swap_in "ABCDEFGHIJKLMNOPQRSTUVWXYZ" "abcdefghijklmnopqrstuvwxyz" c) (lower_all s)

-- `toLowerCase` on the ASCII letters; other letters are left alone. The texts that the source
-- lowers are hex digits, addresses and role names.
unfoldable pub to_lower : String → String
unfolding lower_all
to_lower s = lower_all s

abbrev pub all_chars : (Char → Bool) → String → Bool
all_chars p String.[] = true
all_chars p (String.◌∷◌ c s) = p c && all_chars p s

abbrev pub is_digit : Char → Bool
is_digit c = leb b'0' (code c) && leb (code c) b'9'

abbrev pub is_lower_hex : Char → Bool
is_lower_hex c = is_digit c || (leb b'a' (code c) && leb (code c) b'f')

abbrev pub is_hex : Char → Bool
is_hex c = is_lower_hex c || (leb b'A' (code c) && leb (code c) b'F')

-- `/^[…]+$/` for a class of characters.
unfoldable pub matches_all : (Char → Bool) → String → Bool
matches_all p s = not (is_empty s) && all_chars p s

-- `length`, in UTF-16 code units.
unfoldable pub utf16_length : String → ℕ
utf16_length String.[] = 0
utf16_length (String.◌∷◌ c s) = (if leb 0x10000 (code c) then 2 else 1) + utf16_length s

unfoldable pub digits_from : ℕ → String → ℕ
digits_from n String.[] = n
digits_from n (String.◌∷◌ c s) = digits_from (n * 10 + (code c - b'0')) s

-- The number of a text of decimal digits.
unfoldable pub number_of_digits : String → ℕ
unfolding digits_from
number_of_digits s = digits_from 0 s

text_tests :
    (trim "  ab c\n " ≡ "ab c")
    × (to_lower "0xAbZ-é" ≡ "0xabz-é")
    × (number_of_digits "0120" ≡ 120)
    × (matches_all is_lower_hex "09af" ≡ true)
    × (matches_all is_lower_hex "09aF" ≡ false)
unfolding trim to_lower number_of_digits matches_all
text_tests = (refl, refl, refl, refl, refl)
