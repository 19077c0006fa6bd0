-- ===== src/Store/Monad.antt =====
-- Code that works on the store and may throw: what was written before a throw stays written.
use eutxo_l2_interop.Base.{refl, ◌⊎◌, inl, inr, ℕ, String, ◌≡◌, Bool, true, false, Option}
use eutxo_l2_interop.Store.Tables.{StepName, Sys}

-- The exceptions that the code tells apart by `instanceof`; `plain` is any other `Error`.
pub data Exception : Type 0 where
  lock_lost : Exception
  deferred : (message code : String) (base_retry_delay_sec : ℕ) (step_name : StepName) → Exception
  head_operation : (code message : String) (details : Option String) → Exception
  request_funds_error : (code message : String) (retryable : Bool) → Exception
  ticket_error : (code message : String) (retryable : Bool) → Exception
  plain : (message : String) → Exception

pub data Result {ℓ} (A : Type ℓ) : Type ℓ where
  ok : A → Result A
  throw : Exception → Result A

abbrev pub M : Type 0 → Type 0
M A = Sys → Result A × Sys

infixl 5 ◌>>=◌ ◌>>◌
unfoldable pub ◌>>=◌ : {A B : Type 0} → M A → (A → M B) → M B
◌>>=◌ m f s = let (r, s') = m s in elim r [ ok a ↦ f a s' | throw e ↦ (throw e, s') ]

unfoldable pub ◌>>◌ : {A B : Type 0} → M A → M B → M B
unfolding ◌>>=◌
m >> k = m >>= λ _. k

abbrev pub return : {A : Type 0} → A → M A
return a s = (ok a, s)

abbrev pub raise : {A : Type 0} → Exception → M A
raise e s = (throw e, s)

abbrev pub get_sys : M Sys
get_sys s = (ok s, s)

abbrev pub modify : (Sys → Sys) → M (Unit {0})
modify f s = (ok tt, f s)

-- `try { m } catch (e) { handler(e) }`.
unfoldable pub catch : {A : Type 0} → M A → (Exception → M A) → M A
catch m handler s = let (r, s') = m s in elim r [ ok a ↦ (ok a, s') | throw e ↦ handler e s' ]

abbrev pub when : Bool → M (Unit {0}) → M (Unit {0})
when true m = m
when false m = return tt

-- What follows a result goes on from it, and what follows a throw is not run.
pub bind-ok :
    {A B : Type 0} (m : M A) (f : A → M B) (s s' : Sys) (a : A)
    → m s ≡ (ok a, s')
    → (m >>= f) s ≡ f a s'
unfolding ◌>>=◌
bind-ok m f s s' a h = λ i. elim (h i).0 [ ok b ↦ f b (h i).1 | throw e ↦ (throw e, (h i).1) ]

pub bind-throw :
    {A B : Type 0} (m : M A) (f : A → M B) (s s' : Sys) (e : Exception)
    → m s ≡ (throw e, s')
    → (m >>= f) s ≡ (throw e, s')
unfolding ◌>>=◌
bind-throw m f s s' e h = λ i. elim (h i).0 [ ok a ↦ f a (h i).1 | throw x ↦ (throw x, (h i).1) ]

-- A run returns or throws.
pub answer-cases :
    {A : Type 0} (x : Result A × Sys)
    → ((a : A) × (x ≡ (ok a, x.1))) ⊎ ((e : Exception) × (x ≡ (throw e, x.1)))
answer-cases (ok a, s) = inl (a, refl)
answer-cases (throw e, s) = inr (e, refl)
