-- ===== src/Client/Assets.antt =====
-- lib/hydra-utils.ts of src/client: values as Lucid's `Assets` and as the nested maps of a datum.
-- Lucid's `fromUnit` is a parameter; the quantities are any type.
use Prim.Native.String.{◌++◌}
pub mod RoundTrip
use eutxo_l2_interop.Base.{
  String, ◌≡◌, ◌≢◌, refl, Bool, true, false, List, [], ◌∷◌, Option, none, some, if◌then◌else◌,
  str_eq, or_else, arith, eq_iff, All, ◌||◌, any,
}
use eutxo_l2_interop.Base.Maps.{lookup, insert, lookup-insert}

-- The parts of a unit: a policy, and the name of an asset if there is one.
abbrev pub FromUnit : Type 0
FromUnit = String → String × Option String

-- `policyId === "lovelace" ? "" : policyId` and its inverse.
abbrev pub datum_policy : String → String
datum_policy policy = if str_eq policy "lovelace" then "" else policy

abbrev pub unit_policy : String → String
unit_policy policy = if str_eq policy "" then "lovelace" else policy

abbrev pub Assets : Type 0 → Type 0
Assets Q = List (String × Q)

abbrev pub DataPairs : Type 0 → Type 0
DataPairs Q = List (String × List (String × Q))

-- `tokens` is what the outer map has under the policy.
abbrev pub set_token : {Q : Type 0} → Option (List (String × Q)) → String → Q → List (String × Q)
set_token none name quantity = (name, quantity) ∷ []
set_token (some tokens) name quantity = insert name quantity tokens

-- `policiesToAssets.set(...)`: the inner map is changed in place, or a new one is set.
unfoldable pub add_pair : {Q : Type 0} → String → String → Q → DataPairs Q → DataPairs Q
unfolding lookup insert
add_pair policy name quantity pairs =
    insert policy (set_token (lookup policy pairs) name quantity) pairs

module _ (from_unit : FromUnit) where
  unfoldable pub add_asset : {Q : Type 0} → String × Q → DataPairs Q → DataPairs Q
  unfolding add_pair
  add_asset (unit, quantity) pairs =
      let (policy, name) = from_unit unit in
      add_pair (datum_policy policy) (or_else name "") quantity pairs

  unfoldable pub add_assets : {Q : Type 0} → Assets Q → DataPairs Q → DataPairs Q
  unfolding add_asset
  add_assets [] pairs = pairs
  add_assets (asset ∷ assets) pairs = add_assets assets (add_asset asset pairs)

  unfoldable pub assets_to_data_pairs : {Q : Type 0} → Assets Q → DataPairs Q
  unfolding add_assets
  assets_to_data_pairs assets = add_assets assets []

unfoldable pub add_tokens : {Q : Type 0} → String → List (String × Q) → Assets Q → Assets Q
unfolding insert
add_tokens policy [] assets = assets
add_tokens policy ((name, quantity) ∷ tokens) assets =
    add_tokens policy tokens (insert (unit_policy policy ++ name) quantity assets)

unfoldable pub add_policies : {Q : Type 0} → DataPairs Q → Assets Q → Assets Q
unfolding add_tokens
add_policies [] assets = assets
add_policies ((policy, tokens) ∷ pairs) assets =
    add_policies pairs (add_tokens policy tokens assets)

unfoldable pub data_pairs_to_assets : {Q : Type 0} → DataPairs Q → Assets Q
unfolding add_policies
data_pairs_to_assets pairs = add_policies pairs []
