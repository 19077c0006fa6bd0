-- ===== src/Store/Updates.antt =====
-- What a conditional update of a table does to each of its rows.
use eutxo_l2_interop.Base.{
  ◌≡◌, refl, Bool, true, false, List, [], ◌∷◌, some, All, Bool-cases, inl, inr, map, find,
  count_where, arith,
}
use mathlib.Core.Path.{subst}
use mathlib.Core.Option.{some-injective}
use eutxo_l2_interop.Store.Tables.{update_where}

module _ {R : Type 0} where
  -- A property that the update keeps on the rows that it selects holds of every row again.
  pub All-update_where :
      (P : R → Type 0) (p : R → Bool) (f : R → R)
      → ((r : R) → p r ≡ true → P r → P (f r))
      → (rs : List R) → All P rs
      → All P (update_where p f rs)
  unfolding update_where
  All-update_where P p f keep [] h = tt
  All-update_where P p f keep (r ∷ rs) (h, hs) = elim (Bool-cases (p r)) [
    | inl e ↦ rw e (keep r e h, All-update_where P p f keep rs hs)
    | inr e ↦ rw e (h, All-update_where P p f keep rs hs)
  ]

  -- What the update leaves alone can be read off before or after it.
  pub map-update_where :
      {B : Type 0} (g : R → B) (p : R → Bool) (f : R → R)
      → ((r : R) → g (f r) ≡ g r)
      → (rs : List R) → map g (update_where p f rs) ≡ map g rs
  unfolding update_where
  map-update_where g p f same [] = refl
  map-update_where g p f same (r ∷ rs) = elim (Bool-cases (p r)) [
    | inl e ↦ rw (e, same r, map-update_where g p f same rs)
    | inr e ↦ rw (e, map-update_where g p f same rs)
  ]

  -- With no row selected nothing changes.
  pub update_where-eq_of_count_zero :
      (p : R → Bool) (f : R → R) (rs : List R) → count_where p rs ≡ 0 → update_where p f rs ≡ rs
  unfolding update_where
  update_where-eq_of_count_zero p f [] h = refl
  update_where-eq_of_count_zero p f (r ∷ rs) h =
      ground (arith, update_where-eq_of_count_zero p f rs)

  pub All-find :
      (P : R → Type 0) (p : R → Bool) (rs : List R) {r : R}
      → find p rs ≡ some r
      → All P rs
      → P r × (p r ≡ true)
  All-find P p [] h a = cc
  All-find P p (r ∷ rs) h (a, rest) = elim (Bool-cases (p r)) [
    | inl e ↦ subst (λ x. P x × (p x ≡ true)) (some-injective _ _ (rw e at h)) (a, e)
    | inr e ↦ All-find P p rs (rw e at h) rest
  ]

  -- From one property of the rows to another, by cases on whether the update selects the row.
  pub All-update_cases :
      (P Q : R → Type 0) (p : R → Bool) (f : R → R)
      → ((r : R) → p r ≡ true → P r → Q (f r))
      → ((r : R) → p r ≡ false → P r → Q r)
      → (rs : List R) → All P rs
      → All Q (update_where p f rs)
  unfolding update_where
  All-update_cases P Q p f hit miss [] h = tt
  All-update_cases P Q p f hit miss (r ∷ rs) (h, hs) = elim (Bool-cases (p r)) [
    | inl e ↦ rw e (hit r e h, All-update_cases P Q p f hit miss rs hs)
    | inr e ↦ rw e (miss r e h, All-update_cases P Q p f hit miss rs hs)
  ]

  -- A count by what the update leaves alone.
  pub count-update_where :
      (g : R → Bool) (p : R → Bool) (f : R → R)
      → ((r : R) → g (f r) ≡ g r)
      → (rs : List R) → count_where g (update_where p f rs) ≡ count_where g rs
  unfolding update_where
  count-update_where g p f same [] = refl
  count-update_where g p f same (r ∷ rs) = elim (Bool-cases (p r)) [
    | inl e ↦ rw (e, same r, count-update_where g p f same rs)
    | inr e ↦ rw (e, count-update_where g p f same rs)
  ]
