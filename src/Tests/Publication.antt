-- ===== src/Tests/Publication.antt =====
-- Configurations of mixapi/publication.py that are accepted and refused.
use mixapi.Shared.{
  if◌then◌else◌, true, false, none, some, [], ◌∷◌, String, ◌≡◌, refl, ok, err, ◌==◌,
}
use mixapi.Runtime.Snapshots.{publication_error, invalid_argument}
use mixapi.Publication.Validation.{StoredConfiguration, Url, Libraries, validate}
use mixapi.Publication.Validation.Publishable.{IsPublishable, validate-IsPublishable}

abbrev url : Url
url = record {
  scheme = "https";
  fragment = "";
  hostname = some "api.example.com";
  username = none;
  password = none;
}

abbrev libraries : Libraries
libraries = record {
  len = λ t. 23;
  urlsplit = λ t. if t == "https://[" then none else some url;
  bare = λ t. t;
  is_below_localhost = λ t. false;
  is_global = λ t. none;
  decrypts = λ p. true;
}

abbrev at_url : String → StoredConfiguration
at_url t = record {
  providers = (record { id = "p1"; protocol = "anthropic"; base_url = t }) ∷ [];
  logical_models = (record { id = "m1"; aliases = "fast" ∷ [] }) ∷ [];
  candidates = (record { logical_model_id = "m1"; provider_connection_id = "p1" }) ∷ [];
  aliases = ("fast", "m1") ∷ [];
}

abbrev accepted : StoredConfiguration
accepted = at_url "https://api.example.com"

accepted_is_ok : validate libraries accepted ≡ ok tt
unfolding validate
accepted_is_ok = refl

without_candidates :
    validate libraries (record accepted { candidates = [] })
    ≡ err (publication_error "missing_model_candidate")
unfolding validate
without_candidates = refl

wrong_alias :
    validate libraries (record accepted { aliases = ("fast", "m2") ∷ [] })
    ≡ err (publication_error "invalid_alias")
unfolding validate
wrong_alias = refl

-- `ValueError` of `urlsplit` passes by the checks.
broken_url : validate libraries (at_url "https://[") ≡ err invalid_argument
unfolding validate
broken_url = refl

validate-IsPublishable_example : IsPublishable libraries accepted
validate-IsPublishable_example = validate-IsPublishable libraries accepted accepted_is_ok
