-- ===== src/Publication/Validation.antt =====
-- `_validate` of mixapi/publication.py: which configurations are published. What the URL library, the
-- address library and the decryption of a credential answer are parameters.
pub mod Publishable
use mixapi.Shared.{
  ℕ, zero, suc, Bool, true, false, Option, none, some, List, [], ◌∷◌, ◌++◌, any, all, map, String,
  ◌==◌, ltb, Result, ok, err, if◌then◌else◌, is_some, nat_eq, ◌||◌, ◌&&◌, not, contains, or_else,
}
use mixapi.Runtime.Snapshots.{SnapshotError, publication_error, invalid_argument}

-- `ProviderConnection`, `LogicalModel`, `ModelCandidate`, `StoredConfiguration`: what `_validate` reads.
pub record ProviderConnection : Type 0 where
  pub id : String
  pub protocol : String
  pub base_url : String

pub record StoredModel : Type 0 where
  pub id : String
  pub aliases : List String

pub record ModelCandidate : Type 0 where
  pub logical_model_id : String
  pub provider_connection_id : String

pub record StoredConfiguration : Type 0 where
  pub providers : List ProviderConnection
  pub logical_models : List StoredModel
  pub candidates : List ModelCandidate
  pub aliases : List (String × String)

-- A result of `urlsplit`.
pub record Url : Type 0 where
  pub scheme : String
  pub fragment : String
  pub hostname : Option String
  pub username : Option String
  pub password : Option String

pub record Libraries : Type 0 where
  pub len : String → ℕ
  -- None where `urlsplit` raises `ValueError`.
  pub urlsplit : String → Option Url
  -- `rstrip(".").lower()`
  pub bare : String → String
  -- `endswith(".localhost")`
  pub is_below_localhost : String → Bool
  -- `ip_address(…).is_global`, none where the text is no address.
  pub is_global : String → Option Bool
  pub decrypts : ProviderConnection → Bool

abbrev pub Validity : Type 0
Validity = Result SnapshotError (Unit {0})

-- A check that raises, or goes on.
abbrev pub unless : Bool → String → Validity → Validity
unless b code next = if b then err (publication_error code) else next

-- The value of a key in a dictionary, given as its insertions, the last one first.
abbrev pub value_of : List (String × String) → String → Option String
value_of [] k = none
value_of ((j, v) ∷ d) k = if j == k then some v else value_of d k

abbrev pub same_value : Option String → Option String → Bool
same_value none none = true
same_value (some v) (some w) = v == w
same_value none (some w) = false
same_value (some v) none = false

-- `==` of two dictionaries.
unfoldable pub same_dict : List (String × String) → List (String × String) → Bool
same_dict d e =
    all (λ p. same_value (value_of d p.0) (value_of e p.0)) d
    && all (λ p. same_value (value_of d p.0) (value_of e p.0)) e

-- `{alias: model.id for model in … for alias in model.aliases}`
abbrev pub expect : String → List String → List (String × String) → List (String × String)
expect m [] d = d
expect m (a ∷ as') d = expect m as' ((a, m) ∷ d)

abbrev pub expected_aliases : List StoredModel → List (String × String) → List (String × String)
expected_aliases [] d = d
expected_aliases (m ∷ ms) d = expected_aliases ms (expect m.id m.aliases d)

-- `candidates_by_model[m]`
unfoldable pub count_candidates : String → List ModelCandidate → ℕ
count_candidates m [] = 0
count_candidates m (c ∷ cs) =
    let rest = count_candidates m cs in if c.logical_model_id == m then suc rest else rest

module _ (L : Libraries) where
  abbrev pub is_public_host : String → Bool
  is_public_host hostname =
      if (hostname == "localhost") || L.is_below_localhost hostname
      then false
      else or_else (L.is_global hostname) true

  abbrev pub is_safe_url : Url → Bool
  is_safe_url u = elim u.hostname [
    | none ↦ false
    | some hostname ↦
        if not (u.scheme == "https")
          || hostname == ""
          || is_some u.username
          || is_some u.password
          || not (u.fragment == "")
        then false
        else is_public_host (L.bare hostname)
  ]

  -- `_is_safe_provider_url`; none is `ValueError`.
  abbrev pub is_safe_provider_url : String → Option Bool
  is_safe_provider_url value =
      if value == "" || ltb 2048 (L.len value)
      then some false
      else (elim (L.urlsplit value) [ none ↦ none | some u ↦ some (is_safe_url u) ])

  abbrev pub protocols : List String
  protocols = "openai-compatible" ∷ "anthropic" ∷ "gemini" ∷ "ollama" ∷ []

  unfoldable pub validate_provider : ProviderConnection → Validity
  validate_provider p =
      unless (not (contains p.protocol protocols)) "unsupported_provider_protocol"
        (elim (is_safe_provider_url p.base_url) [
          | none ↦ err invalid_argument
          | some safe ↦
              unless (not safe) "invalid_provider_url"
                (unless (not (L.decrypts p)) "invalid_provider_credential" (ok tt))
        ])

  unfoldable pub validate_providers : List ProviderConnection → Validity
  unfolding validate_provider
  validate_providers [] = ok tt
  validate_providers (p ∷ ps) =
      let rest = validate_providers ps in elim (validate_provider p) [ ok u ↦ rest | err e ↦ err e ]

  unfoldable pub validate_candidates :
      List String → List String → List ModelCandidate → Validity → Validity
  validate_candidates ms ps [] next = next
  validate_candidates ms ps (c ∷ cs) next =
      let rest = validate_candidates ms ps cs next in
      unless (not (contains c.logical_model_id ms)) "invalid_model_candidate"
        (unless (not (contains c.provider_connection_id ps)) "invalid_model_candidate" rest)

  abbrev pub is_empty : {A : Type 0} → List A → Bool
  is_empty [] = true
  is_empty (x ∷ xs) = false

  unfoldable pub validate : StoredConfiguration → Validity
  unfolding validate_providers validate_candidates same_dict count_candidates
  validate c =
      let model_ids = map (λ m. m.id) c.logical_models in
      unless (is_empty c.providers || is_empty c.logical_models) "incomplete_configuration" (
        unless
          (not (same_dict c.aliases (expected_aliases c.logical_models []))
            || any (λ p. contains p.0 model_ids) c.aliases)
          "invalid_alias"
          (validate_candidates model_ids (map (λ p. p.id) c.providers) c.candidates (
            unless (any (λ m. nat_eq (count_candidates m c.candidates) 0) model_ids)
              "missing_model_candidate" (validate_providers c.providers))))
