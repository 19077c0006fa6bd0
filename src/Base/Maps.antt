-- ===== src/Base/Maps.antt =====
-- Objects and `Map`s of the source, keyed by texts: lists of entries in their order of insertion.
use Prim.Native.String.{String}
use mathlib.Core.Path.{◌≡◌, refl, subst}
use mathlib.Core.Logic.{inl, inr}
use mathlib.Core.Option.{some-injective, Option, none, some}
use mathlib.Core.Bool.{Bool, true}
use mathlib.Core.List.{List, [], ◌∷◌}
use native.Mathlib.Omega.{arith}
use eutxo_l2_interop.Base.Tests.{if◌then◌else◌, str_eq, eq_iff, Bool-cases}
use eutxo_l2_interop.Base.Lists.{All, any}

module _ {ℓ} {V : Type ℓ} where
  -- `m[key]` or `m.get(key)`.
  unfoldable pub lookup : String → List (String × V) → Option V
  lookup key [] = none
  lookup key ((k, v) ∷ m) = if str_eq k key then some v else lookup key m

  -- `m[key] = value` or `m.set(key, value)`: an entry that is there keeps its place.
  unfoldable pub insert : String → V → List (String × V) → List (String × V)
  insert key value [] = (key, value) ∷ []
  insert key value ((k, v) ∷ m) =
      if str_eq k key then (key, value) ∷ m else (k, v) ∷ insert key value m

  -- `m.delete(key)`.
  unfoldable pub remove : String → List (String × V) → List (String × V)
  remove key [] = []
  remove key ((k, v) ∷ m) = let rest = remove key m in if str_eq k key then rest else (k, v) ∷ rest

  pub lookup-insert :
      (key j : String) (value : V) (m : List (String × V))
      → lookup j (insert key value m) ≡ (if str_eq key j then some value else lookup j m)
  unfolding lookup insert
  lookup-insert key j value [] = refl
  lookup-insert key j value ((k, v) ∷ m) =
      ground (arith, eq_iff key j, eq_iff k key, eq_iff k j, lookup-insert key j value m)

  pub lookup-remove :
      (key j : String) (m : List (String × V))
      → lookup j (remove key m) ≡ (if str_eq key j then none else lookup j m)
  unfolding lookup remove
  lookup-remove key j [] = ground arith
  lookup-remove key j ((k, v) ∷ m) =
      ground (arith, eq_iff key j, eq_iff k key, eq_iff k j, lookup-remove key j m)

module _ {V : Type 0} where
  pub All-insert :
      (P : String × V → Type 0) (key : String) (value : V) (m : List (String × V))
      → P (key, value)
      → All P m
      → All P (insert key value m)
  unfolding insert
  All-insert P key value [] h a = (h, tt)
  All-insert P key value ((k, v) ∷ m) h (a, rest) = elim (Bool-cases (str_eq k key)) [
    | inl e ↦ rw e (h, rest)
    | inr e ↦ rw e (a, All-insert P key value m h rest)
  ]

  pub All-lookup :
      (P : String × V → Type 0) (key : String) (m : List (String × V)) {value : V}
      → lookup key m ≡ some value
      → All P m
      → P (key, value)
  unfolding lookup
  All-lookup P key [] e a = cc
  All-lookup P key ((k, v) ∷ m) {value} e (a, rest) = elim (Bool-cases (str_eq k key)) [
    | inl same ↦ subst P (cc ((eq_iff k key).0 same, some-injective _ _ (rw same at e))) a
    | inr other ↦ All-lookup P key m (rw other at e) rest
  ]

  pub any-insert_new :
      (p : String × V → Bool) (key : String) (value : V) (m : List (String × V))
      → p (key, value) ≡ true
      → any p (insert key value m) ≡ true
  unfolding insert
  any-insert_new p key value [] h = ground arith
  any-insert_new p key value ((k, v) ∷ m) h = ground (arith, any-insert_new p key value m h)

  -- An insertion keeps what passes, if the new value passes wherever the one it replaces did.
  pub any-insert_old :
      (p : String × V → Bool) (key : String) (value : V) (m : List (String × V))
      → ((old : V) → lookup key m ≡ some old → p (key, old) ≡ true → p (key, value) ≡ true)
      → any p m ≡ true
      → any p (insert key value m) ≡ true
  unfolding insert lookup
  any-insert_old p key value [] keep h = cc
  any-insert_old p key value ((k, v) ∷ m) keep h = elim (Bool-cases (str_eq k key)) [
    | inl same ↦ let e = (eq_iff k key).0 same in rw same (ground (arith, keep v (rw same)))
    | inr other ↦
        rw other (ground (arith, any-insert_old p key value m (λ old f. keep old (rw other f))))
  ]
