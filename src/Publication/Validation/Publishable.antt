-- ===== src/Publication/Validation/Publishable.antt =====
-- What a configuration that `_validate` (mixapi/publication.py) accepts is like.
use mixapi.Shared.{
  Bool, true, false, some, List, [], ◌∷◌, any, map, String, ◌==◌, ok, err, ◌||◌, not, ◌⊎◌, ◌∙◌, ap,
  ◌≢◌, contains, ◌≡◌, refl, arith, Bool-cases, inl, inr, All, eq_iff, Option-cases, nat_eq,
}
use mixapi.Runtime.Snapshots.{SnapshotError}
use mixapi.Publication.Validation.{
  ProviderConnection, StoredModel, ModelCandidate, StoredConfiguration, Libraries, Validity, unless,
  same_dict, expected_aliases, count_candidates, is_safe_provider_url, protocols, validate_provider,
  validate_providers, validate_candidates, is_empty, validate,
}

-- The text is in the list.
abbrev IsMember : String → List String → Type 0
IsMember k [] = ⊥
IsMember k (x ∷ xs) = (x ≡ k) ⊎ IsMember k xs

-- A candidate serves the model.
abbrev IsServed : String → List ModelCandidate → Type 0
IsServed m [] = ⊥
IsServed m (c ∷ cs) = (c.logical_model_id ≡ m) ⊎ IsServed m cs

contains-IsMember : (k : String) (xs : List String) → contains k xs ≡ true → IsMember k xs
contains-IsMember k [] e = absurd (cc e)
contains-IsMember k (x ∷ xs) e = elim (Bool-cases (x == k)) [
  | inl same ↦ inl ((eq_iff x k).0 same)
  | inr other ↦ inr (contains-IsMember k xs (ground (arith, e, other)))
]

neither : (a b : Bool) → a || b ≡ false → (a ≡ false) × (b ≡ false)
neither false b e = (refl, e)
neither true b e = absurd (cc e)

missing-IsMember : (k : String) (xs : List String) → contains k xs ≡ false → IsMember k xs → ⊥
missing-IsMember k [] e i = elim i [ ]
missing-IsMember k (x ∷ xs) e (inl same) = ground (arith, e, (eq_iff x k).1 same)
missing-IsMember k (x ∷ xs) e (inr i) = missing-IsMember k xs (neither (x == k) _ e).1 i

no_alias-IsMember :
    (ids : List String) (aliases : List (String × String))
    → any (λ p. contains p.0 ids) aliases ≡ false
    → All (λ p. IsMember p.0 ids → ⊥) aliases
no_alias-IsMember ids [] e = tt
no_alias-IsMember ids (p ∷ ps) e =
    let (apart, rest) = neither (contains p.0 ids) _ e in
    (missing-IsMember p.0 ids apart, no_alias-IsMember ids ps rest)

not-false : (b : Bool) → not b ≡ false → b ≡ true
not-false true e = refl
not-false false e = absurd (cc e)

Validity-cases : (r : Validity) → (r ≡ ok tt) ⊎ ((e : SnapshotError) × (r ≡ err e))
Validity-cases (ok tt) = inl refl
Validity-cases (err e) = inr (e, refl)

-- A check that is passed.
unless_passed :
    (b : Bool) (code : String) (next : Validity)
    → unless b code next ≡ ok tt
    → (b ≡ false) × (next ≡ ok tt)
unless_passed true code next e = absurd (cc e)
unless_passed false code next e = (refl, e)

count_candidates-IsServed :
    (m : String) (cs : List ModelCandidate)
    → nat_eq (count_candidates m cs) 0 ≡ false
    → IsServed m cs
unfolding count_candidates
count_candidates-IsServed m [] e = absurd (cc e)
count_candidates-IsServed m (c ∷ cs) e = elim (Bool-cases (c.logical_model_id == m)) [
  | inl same ↦ inl ((eq_iff c.logical_model_id m).0 same)
  | inr other ↦ inr (count_candidates-IsServed m cs (ground (arith, e, other, count_candidates)))
]

every_model-IsServed :
    (cs : List ModelCandidate) (ms : List StoredModel)
    → any (λ m. nat_eq (count_candidates m cs) 0) (map (λ m. m.id) ms) ≡ false
    → All (λ m. IsServed m.id cs) ms
every_model-IsServed cs [] e = tt
every_model-IsServed cs (m ∷ ms) e =
    let (served, rest) = neither _ _ e in
    (count_candidates-IsServed m.id cs served, every_model-IsServed cs ms rest)

module _ (L : Libraries) where
  -- A candidate joins a model and a provider of the configuration.
  abbrev IsJoined : List String → List String → ModelCandidate → Type 0
  IsJoined ms ps c = IsMember c.logical_model_id ms × IsMember c.provider_connection_id ps

  -- A provider that can be called.
  abbrev IsUsable : ProviderConnection → Type 0
  IsUsable p =
      IsMember p.protocol (protocols L)
      × (is_safe_provider_url L p.base_url ≡ some true)
      × (L.decrypts p ≡ true)

  validate_candidates-IsJoined :
      (ms ps : List String) (cs : List ModelCandidate) (next : Validity)
      → validate_candidates L ms ps cs next ≡ ok tt
      → All (IsJoined ms ps) cs × (next ≡ ok tt)
  unfolding validate_candidates
  validate_candidates-IsJoined ms ps [] next e = (tt, e)
  validate_candidates-IsJoined ms ps (c ∷ cs) next e =
      let (model, e1) = unless_passed (not (contains c.logical_model_id ms)) _ _ e in
      let (provider, e2) = unless_passed (not (contains c.provider_connection_id ps)) _ _ e1 in
      let (rest, passed) = validate_candidates-IsJoined ms ps cs next e2 in
      (
        (
          (
            contains-IsMember c.logical_model_id ms (not-false _ model),
            contains-IsMember c.provider_connection_id ps (not-false _ provider),
          ),
          rest,
        ),
        passed,
      )

  validate_provider-IsUsable : (p : ProviderConnection) → validate_provider L p ≡ ok tt → IsUsable p
  unfolding validate_provider
  validate_provider-IsUsable p e =
      let (protocol, e1) = unless_passed (not (contains p.protocol (protocols L))) _ _ e in
      elim (Option-cases (is_safe_provider_url L p.base_url)) [
        | inl raised ↦ absurd (cc (e1, raised))
        | inr (safe, answered) ↦
            let (is_safe, e2) =
              unless_passed (not safe) "invalid_provider_url"
                (unless (not (L.decrypts p)) "invalid_provider_credential" (ok tt))
                (cc (e1, answered)) in
            let (decrypted, e3) = unless_passed (not (L.decrypts p)) _ _ e2 in
            (
              contains-IsMember p.protocol (protocols L) (not-false _ protocol),
              answered ∙ ap some (not-false safe is_safe),
              not-false _ decrypted,
            )
      ]

  validate_providers-IsUsable :
      (ps : List ProviderConnection) → validate_providers L ps ≡ ok tt → All IsUsable ps
  unfolding validate_providers
  validate_providers-IsUsable [] e = tt
  validate_providers-IsUsable (p ∷ ps) e = elim (Validity-cases (validate_provider L p)) [
    | inl accepted ↦
        (validate_provider-IsUsable p accepted, validate_providers-IsUsable ps (cc (e, accepted)))
    | inr (x, raised) ↦ absurd (cc (e, raised))
  ]

  pub record IsPublishable (c : StoredConfiguration) : Type 0 where
    pub has_providers : c.providers ≢ []
    pub has_models : c.logical_models ≢ []
    pub unambiguous : All (λ p. IsMember p.0 (map (λ m. m.id) c.logical_models) → ⊥) c.aliases
    pub joined :
        All (IsJoined (map (λ m. m.id) c.logical_models) (map (λ p. p.id) c.providers)) c.candidates
    pub served : All (λ m. IsServed m.id c.candidates) c.logical_models
    pub usable : All IsUsable c.providers

  -- In a configuration that is accepted there are providers and models, no alias is the id of a model,
  -- every candidate joins a model and a provider of it, every model has a candidate, and every provider has a known protocol, a safe
  -- address and a credential that is decrypted.
  pub validate-IsPublishable : (c : StoredConfiguration) → validate L c ≡ ok tt → IsPublishable c
  unfolding validate
  validate-IsPublishable c e =
      let ids = map (λ m. m.id) c.logical_models in
      let (complete, e1) =
        unless_passed (is_empty L c.providers || is_empty L c.logical_models) _ _ e in
      let (providers, models) = neither (is_empty L c.providers) _ complete in
      let (aliased, e2) =
        unless_passed
          (not (same_dict c.aliases (expected_aliases c.logical_models []))
            || any (λ p. contains p.0 ids) c.aliases)
          _ _ e1 in
      let (joined, e3) =
        validate_candidates-IsJoined ids (map (λ p. p.id) c.providers) c.candidates _ e2 in
      let (counted, e4) =
        unless_passed (any (λ m. nat_eq (count_candidates m c.candidates) 0) ids) _ _ e3 in
      record {
        has_providers = λ none_left. absurd (cc (providers, ap (is_empty L) none_left));
        has_models = λ none_left. absurd (cc (models, ap (is_empty L) none_left));
        unambiguous = no_alias-IsMember ids c.aliases (neither _ _ aliased).1;
        joined = joined;
        served = every_model-IsServed c.candidates c.logical_models counted;
        usable = validate_providers-IsUsable c.providers e4;
      }
