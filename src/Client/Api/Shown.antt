-- ===== src/Client/Api/Shown.antt =====
-- The identifiers that the list of outputs shows, read back by the handlers that spend outputs.
use eutxo_l2_interop.Base.{
  All, All-map, Option-cases, eq_iff, ◌&&◌, any, find, List, [], ◌∷◌, str_eq, eq_refl, sym, ◌∙◌, ap,
  ℕ, ◌==◌, ◌≡◌, refl, String, Bool, true, Option, none, some, arith, if_rule, Bool-cases, inl, inr,
}
use eutxo_l2_interop.Client.Api.Ids.{
  has_index, index_of, utxo_with_id, index_of, parse_int_10, as_index, before_hash, after_hash,
}
use Prim.Native.String.{◌++◌}
use mathlib.Core.Option.{some-injective}
use mathlib.Core.Path.{subst}
use eutxo_l2_interop.Client.Api.{Utxo, Lucid, text_or_empty, is_given}
use eutxo_l2_interop.Client.Api.Listing.{
  ContractItem, vesting_item, htlc_item, utxo_to_contract_item, contract_items, number_text,
  utxo_id,
}
use eutxo_l2_interop.Client.Api.Digits.{
  separated, split-append, parse_int_10-number_text, before_hash-number_text,
}

-- The test of utxo_with_id.
abbrev names : String → Utxo → Bool
names id utxo =
    str_eq utxo.tx_hash (before_hash id) && has_index (index_of (after_hash id)) utxo.output_index

utxo_id-parts :
    (utxo : Utxo)
    → after_hash utxo.tx_hash ≡ none
    → (before_hash (utxo_id utxo) ≡ utxo.tx_hash)
      × (index_of (after_hash (utxo_id utxo)) ≡ some utxo.output_index)
unfolding utxo_id
utxo_id-parts utxo h =
    let n = number_text utxo.output_index in
    let (before, after) = split-append utxo.tx_hash n h in
    (
      ap (λ t. before_hash (utxo.tx_hash ++ t)) (separated n) ∙ before,
      ap (λ t. index_of (after_hash (utxo.tx_hash ++ t))) (separated n)
          ∙ ap index_of after
          ∙ ap (λ t. as_index (parse_int_10 t)) (before_hash-number_text utxo.output_index)
          ∙ ap as_index (parse_int_10-number_text utxo.output_index),
    )

equal_parts :
    (a b : String) (x : Option ℕ) (i : ℕ)
    → b ≡ a
    → x ≡ some i
    → (str_eq a b && has_index x i) ≡ true
equal_parts a b x i e index = rw e (rw index (ground (arith, eq_refl a)))

both_true : (p q : Bool) → (p && q) ≡ true → (p ≡ true) × (q ≡ true)
both_true p q h = ground arith

number_eq : (i j : ℕ) → (i == j) ≡ true → i ≡ j
number_eq i j h = ground arith

same_parts :
    (a b c : String) (x : Option ℕ) (i j : ℕ)
    → b ≡ c
    → x ≡ some j
    → (str_eq a b && has_index x i) ≡ true
    → (a ≡ c) × (i ≡ j)
same_parts a b c none i j e index h = cc
same_parts a b c (some k) i j e index h =
    let (tx, at_index) = both_true (str_eq a b) (has_index (some k) i) h in
    ((eq_iff a b).0 tx ∙ e, number_eq i k at_index ∙ some-injective _ _ index)

names-itself : (utxo : Utxo) → after_hash utxo.tx_hash ≡ none → names (utxo_id utxo) utxo ≡ true
names-itself utxo h =
    let (before, index) = utxo_id-parts utxo h in
    equal_parts utxo.tx_hash (before_hash (utxo_id utxo)) (index_of (after_hash (utxo_id utxo)))
      utxo.output_index before index

names-utxo_id :
    (utxo v : Utxo)
    → after_hash utxo.tx_hash ≡ none
    → names (utxo_id utxo) v ≡ true
    → utxo_id v ≡ utxo_id utxo
unfolding utxo_id
names-utxo_id utxo v h e =
    let (before, index) = utxo_id-parts utxo h in
    let (tx, i) =
      same_parts v.tx_hash (before_hash (utxo_id utxo)) utxo.tx_hash
        (index_of (after_hash (utxo_id utxo))) v.output_index utxo.output_index before index e in
    ap (λ t. t ++ ("#" ++ number_text v.output_index)) tx
    ∙ ap (λ k. utxo.tx_hash ++ ("#" ++ number_text k)) i

find-some :
    (p : Utxo → Bool) (utxos : List Utxo)
    → any p utxos ≡ true
    → (v : Utxo) × (find p utxos ≡ some v) × (p v ≡ true)
find-some p [] h = cc
find-some p (u ∷ utxos) h = elim (Bool-cases (p u)) [
  | inl e ↦ rw e (u, refl, e)
  | inr e ↦ rw e (find-some p utxos (ground arith))
]

-- An identifier under which the spending handlers find an output that is listed under it.
abbrev pub IsFound : List Utxo → String → Type 0
IsFound utxos id = (v : Utxo) × (utxo_with_id id utxos ≡ some v) × (utxo_id v ≡ id)

utxo_with_id-utxo_id :
    (utxos : List Utxo) (utxo : Utxo)
    → after_hash utxo.tx_hash ≡ none
    → any (names (utxo_id utxo)) utxos ≡ true
    → IsFound utxos (utxo_id utxo)
unfolding utxo_with_id
utxo_with_id-utxo_id utxos utxo h e =
    let (v, found, is) = find-some (names (utxo_id utxo)) utxos e in
    (v, found, names-utxo_id utxo v h is)

abbrev HasId : Utxo → Option ContractItem → Type 0
HasId utxo none = Unit
HasId utxo (some item) = item.id ≡ utxo_id utxo

vesting_item-HasId :
    (lucid : Lucid) (address : String) (utxo : Utxo) (datum : String)
    → HasId utxo (vesting_item lucid address utxo datum)
unfolding vesting_item
vesting_item-HasId lucid address utxo datum = elim (Option-cases (lucid.vesting_from_data datum)) [
  | inl e ↦ rw (vesting_item, e) tt
  | inr (vested, e) ↦ rw (vesting_item, e) refl
]

htlc_item-HasId :
    (lucid : Lucid) (address : String) (utxo : Utxo) (datum : String)
    → HasId utxo (htlc_item lucid address utxo datum)
unfolding htlc_item
htlc_item-HasId lucid address utxo datum = elim (Option-cases (lucid.htlc_from_data datum)) [
  | inl e ↦ rw (htlc_item, e) tt
  | inr (locked, e) ↦ rw (htlc_item, e) refl
]

utxo_to_contract_item-HasId :
    (lucid : Lucid) (is_vesting : Bool) (address : String) (utxo : Utxo)
    → HasId utxo (utxo_to_contract_item lucid is_vesting address utxo)
unfolding utxo_to_contract_item
utxo_to_contract_item-HasId lucid is_vesting address utxo =
    let datum = text_or_empty utxo.datum in
    if_rule (HasId utxo) (is_given utxo.datum)
      (if_rule (HasId utxo) is_vesting (vesting_item-HasId lucid address utxo datum)
        (htlc_item-HasId lucid address utxo datum))
      tt

-- An output of these is found under its own identifier.
abbrev Findable : List Utxo → Utxo → Type 0
Findable utxos utxo = IsFound utxos (utxo_id utxo)

contract_items-each :
    (lucid : Lucid) (is_vesting : Bool) (address : String) (all utxos : List Utxo)
    → All (Findable all) utxos
    → All (λ item. IsFound all item.id) (contract_items lucid is_vesting address utxos)
unfolding contract_items
contract_items-each lucid is_vesting address all [] h = tt
contract_items-each lucid is_vesting address all (utxo ∷ utxos) (f, h) =
    let rest = contract_items lucid is_vesting address utxos in
    let later = contract_items-each lucid is_vesting address all utxos h in
    added (utxo_to_contract_item lucid is_vesting address utxo) rest
      (utxo_to_contract_item-HasId lucid is_vesting address utxo) later
  where
    added :
        (made : Option ContractItem) (rest : List ContractItem)
        → HasId utxo made
        → All (λ item. IsFound all item.id) rest
        → All (λ item. IsFound all item.id) (elim made [ none ↦ rest | some item ↦ item ∷ rest ])
    added none rest e later = later
    added (some item) rest e later = (subst (IsFound all) (sym e) f, later)

any_named :
    (utxos : List Utxo)
    → All (λ utxo. after_hash utxo.tx_hash ≡ none) utxos
    → All (λ utxo. any (names (utxo_id utxo)) utxos ≡ true) utxos
any_named [] h = tt
any_named (u ∷ utxos) (e, h) = (
  rw (names-itself u e) refl,
  All-map (λ v. any (names (utxo_id v)) utxos ≡ true)
      (λ v. any (names (utxo_id v)) (u ∷ utxos) ≡ true) (λ v here. ground arith) utxos
      (any_named utxos h),
)

each_named :
    (all utxos : List Utxo)
    → All (λ utxo. after_hash utxo.tx_hash ≡ none) utxos
    → All (λ utxo. any (names (utxo_id utxo)) all ≡ true) utxos
    → All (Findable all) utxos
each_named all [] h k = tt
each_named all (u ∷ utxos) (e, h) (a, k) =
    (utxo_with_id-utxo_id all u e a, each_named all utxos h k)

-- Of outputs whose transaction hashes have no "#": every item that the list of outputs shows of a
-- contract has an identifier under which the handlers that spend outputs find, among the same
-- outputs, one with that identifier.
pub contract_items-IsFound :
    (lucid : Lucid) (is_vesting : Bool) (address : String) (utxos : List Utxo)
    → All (λ utxo. after_hash utxo.tx_hash ≡ none) utxos
    → All (λ item. IsFound utxos item.id) (contract_items lucid is_vesting address utxos)
contract_items-IsFound lucid is_vesting address utxos h =
    contract_items-each lucid is_vesting address utxos utxos
      (each_named utxos utxos h (any_named utxos h))
