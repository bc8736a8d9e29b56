-- ===== src/Exec.antt =====
-- A method call of a service: it may raise a `MixApiError`, and it changes the state `S`. What was
-- written before a raise stays written.
pub mod Ends
use mixapi.Shared.{Bool, Result, ok, err, if◌then◌else◌}
use mixapi.Errors.{MixApiError}

abbrev pub Exec {ℓ} : Type 0 → Type ℓ → Type ℓ
Exec S A = S → Result MixApiError A × S

module _ {S : Type 0} where
  abbrev pub pure {ℓ} : {A : Type ℓ} → A → Exec S A
  pure a s = (ok a, s)

  abbrev pub raise {ℓ} : {A : Type ℓ} → MixApiError → Exec S A
  raise e s = (err e, s)

  infixl 5 ◌>>=◌ ◌>>◌
  abbrev pub ◌>>=◌ : {A B : Type 0} → Exec S A → (A → Exec S B) → Exec S B
  ◌>>=◌ m f s = let (r, s') = m s in elim r [ ok a ↦ f a s' | err e ↦ (err e, s') ]

  abbrev pub ◌>>◌ : {A B : Type 0} → Exec S A → Exec S B → Exec S B
  m >> k = m >>= λ _. k

  -- `if c: raise e`
  abbrev pub raise_if : Bool → MixApiError → Exec S (Unit {0})
  raise_if c e s = (if c then err e else ok tt, s)

  -- `try: m() except MixAPIError: h(); raise`
  abbrev pub on_error : {A : Type 0} → Exec S A → Exec S (Unit {0}) → Exec S A
  on_error m h s = let (r, s') = m s in elim r [ ok a ↦ (ok a, s') | err e ↦ (h >> raise e) s' ]
