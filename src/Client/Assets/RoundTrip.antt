-- ===== src/Client/Assets/RoundTrip.antt =====
-- Converting a value to the maps of a datum and back.
use Prim.Native.String.{◌++◌}
use eutxo_l2_interop.Base.{
  String, ◌≡◌, ◌≢◌, refl, ◌∙◌, inl, inr, Bool, true, List, [], ◌∷◌, Option, none, some, if_rule,
  if◌then◌else◌, str_eq, or_else, arith, eq_iff, All, any, Bool-cases, Option-cases,
}
use eutxo_l2_interop.Base.Maps.{
  lookup, insert, lookup-insert, All-insert, All-lookup, any-insert_new, any-insert_old,
}
use eutxo_l2_interop.Client.Assets.{
  FromUnit, datum_policy, unit_policy, Assets, DataPairs, set_token, add_pair, add_asset,
  add_assets, assets_to_data_pairs, add_tokens, add_policies, data_pairs_to_assets,
}

-- The unit that an entry of the nested maps stands for.
abbrev unit_of : String → String → String
unit_of policy name = unit_policy policy ++ name

module _ {Q : Type 0} (value_of : String → Option Q) where
  -- Every entry of the nested maps has the quantity of its unit.
  abbrev TokenFits : String → String × Q → Type 0
  TokenFits policy token = value_of (unit_of policy token.0) ≡ some token.1

  abbrev PolicyFits : String × List (String × Q) → Type 0
  PolicyFits entry = All (TokenFits entry.0) entry.1

  abbrev Fits : DataPairs Q → Type 0
  Fits pairs = All PolicyFits pairs

  abbrev names_unit : String → String → String × Q → Bool
  names_unit u policy token = str_eq (unit_of policy token.0) u

  abbrev has_unit : String → String × List (String × Q) → Bool
  has_unit u entry = any (names_unit u entry.0) entry.1

  set_token-fits :
      (policy name : String) (quantity : Q) (tokens : Option (List (String × Q)))
      → TokenFits policy (name, quantity)
      → ((old : List (String × Q)) → tokens ≡ some old → PolicyFits (policy, old))
      → PolicyFits (policy, set_token tokens name quantity)
  set_token-fits policy name quantity none h fits = (h, tt)
  set_token-fits policy name quantity (some tokens) h fits =
      All-insert (TokenFits policy) name quantity tokens h (fits tokens refl)

  add_pair-Fits :
      (policy name : String) (quantity : Q) (pairs : DataPairs Q)
      → TokenFits policy (name, quantity)
      → Fits pairs
      → Fits (add_pair policy name quantity pairs)
  unfolding add_pair
  add_pair-Fits policy name quantity pairs h fits =
      All-insert PolicyFits policy _ pairs
        (set_token-fits policy name quantity (lookup policy pairs) h
          (λ old found. All-lookup PolicyFits policy pairs found fits))
        fits

  set_token-has :
      (u policy name : String) (quantity : Q) (tokens : Option (List (String × Q)))
      → str_eq (unit_of policy name) u ≡ true
      → has_unit u (policy, set_token tokens name quantity) ≡ true
  set_token-has u policy name quantity none h = ground arith
  set_token-has u policy name quantity (some tokens) h =
      any-insert_new (names_unit u policy) name quantity tokens h

  set_token-keeps_any :
      (u policy name : String) (quantity : Q) (tokens : List (String × Q))
      → has_unit u (policy, tokens) ≡ true
      → has_unit u (policy, insert name quantity tokens) ≡ true
  set_token-keeps_any u policy name quantity tokens =
      any-insert_old (names_unit u policy) name quantity tokens (λ old _ h. h)

  add_pair-any :
      (u policy name : String) (quantity : Q) (pairs : DataPairs Q)
      → (str_eq (unit_of policy name) u ≡ true
          → any (has_unit u) (add_pair policy name quantity pairs) ≡ true)
        × (any (has_unit u) pairs ≡ true
            → any (has_unit u) (add_pair policy name quantity pairs) ≡ true)
  unfolding add_pair
  add_pair-any u policy name quantity pairs = (
    λ h.
        any-insert_new (has_unit u) policy _ pairs
          (set_token-has u policy name quantity (lookup policy pairs) h),
    any-insert_old (has_unit u) policy _ pairs
        (λ old found h. rw (found, set_token) (set_token-keeps_any u policy name quantity old h)),
  )

  -- What the assets that are made have at a unit.
  lookup-add_tokens :
      (u policy : String) (tokens : List (String × Q)) (assets : Assets Q)
      → PolicyFits (policy, tokens)
      → lookup u (add_tokens policy tokens assets)
        ≡ (if has_unit u (policy, tokens) then value_of u else lookup u assets)
  unfolding add_tokens
  lookup-add_tokens u policy [] assets fits = refl
  lookup-add_tokens u policy ((name, quantity) ∷ tokens) assets (fit, fits) =
      let ih =
        lookup-add_tokens u policy tokens (insert (unit_of policy name) quantity assets) fits in
      ground (
        arith,
        ih,
        lookup-insert (unit_of policy name) u quantity assets,
        eq_iff (unit_of policy name) u,
      )

  lookup-add_policies :
      (u : String) (pairs : DataPairs Q) (assets : Assets Q)
      → Fits pairs
      → lookup u (add_policies pairs assets)
        ≡ (if any (has_unit u) pairs then value_of u else lookup u assets)
  unfolding add_policies
  lookup-add_policies u [] assets fits = refl
  lookup-add_policies u ((policy, tokens) ∷ pairs) assets (fit, fits) = ground (
    arith,
    lookup-add_policies u pairs (add_tokens policy tokens assets) fits,
    lookup-add_tokens u policy tokens assets fit,
  )

-- What is documented of `fromUnit`: it cuts a unit that is not empty in two, and the policy is not
-- empty.
abbrev pub CutsUnit : FromUnit → String → Type 0
CutsUnit from_unit unit =
    ((from_unit unit).0 ≢ "") × ((from_unit unit).0 ++ or_else (from_unit unit).1 "" ≡ unit)

-- The keys of an object are different: each entry is the one that its key finds.
abbrev pub IsObject : {Q : Type 0} → Assets Q → Type 0
IsObject assets = All (λ asset. lookup asset.0 assets ≡ some asset.1) assets

unit_of-datum_policy :
    (policy name : String) → policy ≢ "" → unit_of (datum_policy policy) name ≡ policy ++ name
unit_of-datum_policy policy name h = elim (Bool-cases (str_eq policy "lovelace")) [
  | inl e ↦ rw (e, (eq_iff policy "lovelace").0 e)
  | inr e ↦ elim (Bool-cases (str_eq policy "")) [
    | inl f ↦ absurd (h ((eq_iff policy "").0 f))
    | inr f ↦ rw (e, f)
  ]
]

add_asset-unit :
    (from_unit : FromUnit) (unit : String)
    → CutsUnit from_unit unit
    → unit_of (datum_policy (from_unit unit).0) (or_else (from_unit unit).1 "") ≡ unit
add_asset-unit from_unit unit (h, e) =
    unit_of-datum_policy (from_unit unit).0 (or_else (from_unit unit).1 "") h ∙ e

module _ {Q : Type 0} (from_unit : FromUnit) where
  add_assets-Fits :
      (value_of : String → Option Q) (assets : Assets Q) (pairs : DataPairs Q)
      → All (λ asset. CutsUnit from_unit asset.0) assets
      → All (λ asset. value_of asset.0 ≡ some asset.1) assets
      → Fits value_of pairs
      → Fits value_of (add_assets from_unit assets pairs)
  unfolding add_assets add_asset
  add_assets-Fits value_of [] pairs cuts found fits = fits
  add_assets-Fits value_of ((unit, quantity) ∷ assets) pairs (cut, cuts) (e, found) fits =
      add_assets-Fits value_of assets _ cuts found
        (add_pair-Fits value_of _ _ quantity pairs (rw (add_asset-unit from_unit unit cut) e) fits)

  add_assets-any :
      (value_of : String → Option Q) (u : String) (assets : Assets Q) (pairs : DataPairs Q)
      → any (has_unit value_of u) pairs ≡ true
      → any (has_unit value_of u) (add_assets from_unit assets pairs) ≡ true
  unfolding add_assets add_asset
  add_assets-any value_of u [] pairs h = h
  add_assets-any value_of u ((unit, quantity) ∷ assets) pairs h =
      add_assets-any value_of u assets _ ((add_pair-any value_of u _ _ quantity pairs).1 h)

  -- Every unit of the assets is among the pairs.
  add_assets-covers :
      (value_of : String → Option Q) (u : String) (assets : Assets Q) (pairs : DataPairs Q) {q : Q}
      → All (λ asset. CutsUnit from_unit asset.0) assets
      → lookup u assets ≡ some q
      → any (has_unit value_of u) (add_assets from_unit assets pairs) ≡ true
  unfolding add_assets add_asset lookup
  add_assets-covers value_of u [] pairs cuts h = cc
  add_assets-covers value_of u ((unit, quantity) ∷ assets) pairs (cut, cuts) h =
      elim (Bool-cases (str_eq unit u)) [
        | inl e ↦ add_assets-any value_of u assets _ (
            (add_pair-any value_of u _ _ quantity pairs).0
              (rw (add_asset-unit from_unit unit cut) e))
        | inr e ↦ add_assets-covers value_of u assets _ cuts (rw e at h)
      ]

  -- A value that is written as the nested maps of a datum, policy by policy with "" for lovelace, and
  -- read back has the same quantity of every unit, and no unit that it did not have. The units of
  -- the value are different, as an object's keys are, and `fromUnit` cuts each of them in two.
  pub data_pairs_to_assets-assets_to_data_pairs :
      (assets : Assets Q)
      → IsObject assets
      → All (λ asset. CutsUnit from_unit asset.0) assets
      → (u : String)
      → lookup u (data_pairs_to_assets (assets_to_data_pairs from_unit assets)) ≡ lookup u assets
  unfolding data_pairs_to_assets assets_to_data_pairs
  data_pairs_to_assets-assets_to_data_pairs assets object cuts u =
      let value_of = λ (unit : String). lookup unit assets in
      let pairs = add_assets from_unit assets [] in
      lookup-add_policies value_of u pairs [] (add_assets-Fits value_of assets [] cuts object tt)
      ∙ elim (Option-cases (lookup u assets)) [
        | inl missing ↦ rw missing (if_rule (λ x. x ≡ none) _ refl refl)
        | inr (q, found) ↦ rw (add_assets-covers value_of u assets [] cuts found)
      ]
