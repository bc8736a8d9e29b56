-- ===== src/Exec/Ends.antt =====
-- How a call ends: one predicate for the value and the state of a return, one for a raise.
use mixapi.Shared.{Result, ok, err}
use mixapi.Errors.{MixApiError}
use mixapi.Exec.{Exec, on_error, ◌>>=◌}

abbrev pub Ends :
    {S A : Type 0}
    → (A → S → Type 0)
    → (MixApiError → S → Type 0)
    → Result MixApiError A × S
    → Type 0
Ends Good Bad (ok a, s) = Good a s
Ends Good Bad (err e, s) = Bad e s

module _ {S A : Type 0} where
  -- A weaker end.
  pub Ends-map :
      (Good Good' : A → S → Type 0) (Bad Bad' : MixApiError → S → Type 0)
      → ((a : A) (s : S) → Good a s → Good' a s)
      → ((e : MixApiError) (s : S) → Bad e s → Bad' e s)
      → (x : Result MixApiError A × S) → Ends Good Bad x
      → Ends Good' Bad' x
  Ends-map Good Good' Bad Bad' good bad (ok a, s) h = good a s h
  Ends-map Good Good' Bad Bad' good bad (err e, s) h = bad e s h

  -- What holds of the state alone holds of either end.
  pub Ends-state :
      (P : S → Type 0) (x : Result MixApiError A × S) → P x.1 → Ends (λ _. P) (λ _. P) x
  Ends-state P (ok a, s) h = h
  Ends-state P (err e, s) h = h

  pub >>=-Ends :
      {B : Type 0} (Good : A → S → Type 0) (Good' : B → S → Type 0) (Bad : MixApiError → S → Type 0)
      (m : Exec S A) (f : A → Exec S B) (s : S)
      → Ends Good Bad (m s)
      → ((a : A) (s' : S) → Good a s' → Ends Good' Bad (f a s'))
      → Ends Good' Bad ((m >>= f) s)
  >>=-Ends {B} Good Good' Bad m f s first rest = go (m s).0 (m s).1 first
    where
      go :
          (r : Result MixApiError A) (s' : S)
          → Ends Good Bad (r, s')
          → Ends Good' Bad (((λ _. (r, s')) >>= f) s)
      go (ok a) s' h = rest a s' h
      go (err e) s' h = h

  -- `try: m() except: h(); raise`: both ends of `h` are ends by an error.
  pub on_error-Ends :
      (Good : A → S → Type 0) (Failed Bad : MixApiError → S → Type 0) (m : Exec S A)
      (h : Exec S (Unit {0})) (s : S)
      → Ends Good Failed (m s)
      → ((e : MixApiError) (s' : S)
          → Failed e s'
          → Ends (λ (_ : Unit {0}) s''. Bad e s'') Bad (h s'))
      → Ends Good Bad (on_error m h s)
  on_error-Ends Good Failed Bad m h s first rest = go (m s).0 (m s).1 first
    where
      after :
          (e : MixApiError) (s0 : S) (r : Result MixApiError (Unit {0})) (s' : S)
          → Ends (λ (_ : Unit {0}) s''. Bad e s'') Bad (r, s')
          → Ends Good Bad (on_error {A = A} (λ _. (err e, s0)) (λ _. (r, s')) s)
      after e s0 (ok u) s' b = b
      after e s0 (err e') s' b = b

      go :
          (r : Result MixApiError A) (s' : S)
          → Ends Good Failed (r, s')
          → Ends Good Bad (on_error (λ _. (r, s')) h s)
      go (ok a) s' g = g
      go (err e) s' b = after e s' (h s').0 (h s').1 (rest e s' b)

  -- What holds of the state where the call returns, when nothing is asked of a raise.
  pub Ends-returned :
      (P : S → Type 0) (x : Result MixApiError A × S) → P x.1 → Ends (λ _. P) (λ _ _. Unit) x
  Ends-returned P (ok a, s) h = h
  Ends-returned P (err e, s) h = tt

  -- A call that does not raise.
  pub Ends-safe :
      (Good : A → S → Type 0) (Bad : MixApiError → S → Type 0) (x : Result MixApiError A × S)
      → Ends Good (λ _ _. ⊥) x
      → Ends Good Bad x
  Ends-safe Good Bad (ok a, s) h = h
  Ends-safe Good Bad (err e, s) h = absurd h

  -- What holds of the state beside.
  pub Ends-with :
      (F : S → Type 0) (Good : A → S → Type 0) (Bad : MixApiError → S → Type 0)
      (x : Result MixApiError A × S)
      → F x.1
      → Ends Good Bad x
      → Ends (λ a s. Good a s × F s) (λ e s. Bad e s × F s) x
  Ends-with F Good Bad (ok a, s) f h = (h, f)
  Ends-with F Good Bad (err e, s) f h = (h, f)
