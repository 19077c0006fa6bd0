-- ===== src/Client/Api/Ids.antt =====
-- Texts that the handlers of src/client take apart: numbers, hex digits and the identifiers of outputs.
use Prim.Native.Char.{Char, code}
use eutxo_l2_interop.Base.{
  ℕ, ◌+◌, ◌*◌, ◌-◌, ◌==◌, zero, suc, ◌||◌, true, is_hex, leb, String, Bool, false, ◌&&◌, List,
  Option, none, some, if◌then◌else◌, str_eq, find, is_digit, is_space, trim_start,
}
use eutxo_l2_interop.Client.Api.{Utxo}

-- What `parseInt` reads: an integer, before it is rounded to a Number.
pub data ParsedInt : Type 0 where
  not_a_number : ParsedInt
  parsed : (negative : Bool) (magnitude : ℕ) → ParsedInt

-- The number that the first digits write.
unfoldable pub digits_read : ℕ → String → ℕ
digits_read n String.[] = n
digits_read n (String.◌∷◌ ch rest) =
    let more = digits_read (n * 10 + (code ch - b'0')) rest in if is_digit ch then more else n

-- The value of a hexadecimal digit.
abbrev pub hex_value : Char → ℕ
hex_value ch =
    if is_digit ch
    then code ch - b'0'
    else if leb b'a' (code ch)
    then code ch - b'a' + 10
    else code ch - b'A' + 10

unfoldable pub hex_digits_read : ℕ → String → ℕ
hex_digits_read n String.[] = n
hex_digits_read n (String.◌∷◌ ch rest) =
    let more = hex_digits_read (n * 16 + hex_value ch) rest in if is_hex ch then more else n

unfoldable pub int_from : (negative : Bool) → String → ParsedInt
unfolding digits_read
int_from negative String.[] = not_a_number
int_from negative (String.◌∷◌ ch rest) =
    if is_digit ch then parsed negative (digits_read 0 (String.◌∷◌ ch rest)) else not_a_number

unfoldable pub hex_from : (negative : Bool) → String → ParsedInt
unfolding hex_digits_read
hex_from negative String.[] = not_a_number
hex_from negative (String.◌∷◌ ch rest) =
    if is_hex ch then parsed negative (hex_digits_read 0 (String.◌∷◌ ch rest)) else not_a_number

-- Without a radix, "0x" or "0X" makes the digits behind it hexadecimal.
unfoldable pub prefixed_from : (negative : Bool) → String → ParsedInt
unfolding int_from hex_from
prefixed_from negative (String.◌∷◌ z (String.◌∷◌ x rest)) =
    if code z == b'0' && (code x == b'x' || code x == b'X')
    then hex_from negative rest
    else int_from negative (String.◌∷◌ z (String.◌∷◌ x rest))
prefixed_from negative text = int_from negative text

-- A sign, and what `from` reads behind it.
unfoldable pub signed_from : (from : Bool → String → ParsedInt) → String → ParsedInt
signed_from from String.[] = from false ""
signed_from from (String.◌∷◌ ch rest) =
    if code ch == b'-'
    then from true rest
    else if code ch == b'+'
    then from false rest
    else from false (String.◌∷◌ ch rest)

-- `parseInt(text)`.
unfoldable pub parse_int : String → ParsedInt
unfolding signed_from prefixed_from trim_start is_space
parse_int text = signed_from prefixed_from (trim_start text)

-- `parseInt(text, 10)`.
unfoldable pub parse_int_10 : String → ParsedInt
unfolding signed_from int_from trim_start is_space
parse_int_10 text = signed_from int_from (trim_start text)

-- `text.startsWith("0x") ? text.slice(2) : text`.
unfoldable pub without_0x : String → String
without_0x (String.◌∷◌ z (String.◌∷◌ x rest)) =
    if code z == b'0' && code x == b'x' then rest else String.◌∷◌ z (String.◌∷◌ x rest)
without_0x text = text

-- The text up to the first "#".
unfoldable pub before_hash : String → String
before_hash String.[] = String.[]
before_hash (String.◌∷◌ ch rest) =
    let more = before_hash rest in if code ch == b'#' then String.[] else String.◌∷◌ ch more

-- `id.split("#")[1]`.
unfoldable pub after_hash : String → Option String
unfolding before_hash
after_hash String.[] = none
after_hash (String.◌∷◌ ch rest) =
    let more = after_hash rest in if code ch == b'#' then some (before_hash rest) else more

-- An index is not negative, and `-0` is 0. Indices of outputs are far below 2 ^ 53, from where on
-- the source rounds.
abbrev pub as_index : ParsedInt → Option ℕ
as_index not_a_number = none
as_index (parsed false n) = some n
as_index (parsed true zero) = some 0
as_index (parsed true (suc n)) = none

abbrev pub index_of : Option String → Option ℕ
index_of none = none
index_of (some text) = as_index (parse_int_10 text)

abbrev pub has_index : Option ℕ → ℕ → Bool
has_index none i = false
has_index (some j) i = i == j

-- The output that an identifier of the form `txHash#outputIndex` names.
unfoldable pub utxo_with_id : String → List Utxo → Option Utxo
unfolding before_hash after_hash parse_int_10
utxo_with_id id utxos =
    find
      (λ utxo.
        str_eq utxo.tx_hash (before_hash id)
        && has_index (index_of (after_hash id)) utxo.output_index)
      utxos
