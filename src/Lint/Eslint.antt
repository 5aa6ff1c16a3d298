-- ===== src/Lint/Eslint.antt =====
-- What ESLint does with a configuration array, as its documentation of configuration files states it, for the
-- files that it lints without being told to (**/*.js, **/*.cjs and **/*.mjs, unless they are
-- ignored): a configuration object applies to one if it has no `files`, or if one of its globs
-- matches the file's path; of the objects that apply, later ones win, key by key.
use ssi_rest_api.Lint.{ConfigObject, GlobalAccess, RuleSetting, SourceType}
use ssi_rest_api.Prelude.{
  ℕ, String, ◌≡◌, Bool, true, false, Option, none, some, List, [], ◌∷◌, ◌++◌, any_of, if◌then◌else◌,
}
use ssi_rest_api.Prelude.Dict.{Dict, lookup}

-- What a property that is not written binds.
abbrev pub entries {ℓ} : {V : Type ℓ} → Option (Dict V) → Dict V
entries none = []
entries (some d) = d

abbrev pub or_default {ℓ} : {A : Type ℓ} → A → Option A → A
or_default a none = a
or_default a (some b) = b

module _ {Plugin : Type 0} where
  abbrev pub source_type_in : ConfigObject Plugin → Option SourceType
  source_type_in c = c.language_options.source_type

  abbrev pub ecma_version_in : ConfigObject Plugin → Option ℕ
  ecma_version_in c = c.language_options.ecma_version

  abbrev pub rules_in : ConfigObject Plugin → Dict RuleSetting
  rules_in c = entries c.rules

  abbrev pub globals_in : ConfigObject Plugin → Dict GlobalAccess
  globals_in c = entries c.language_options.globals

-- ESLint as the configuration uses it: the glob matcher, the paths that its default patterns match and that it
-- does not ignore, and for the file at a path the source type, the
-- version of ECMAScript, the setting of a rule and what the configuration declares a global to be.
pub record Eslint (Plugin : Type 0) : Type 0 where
  pub glob_matches : String → String → Bool
  pub is_linted : String → Bool
  pub source_type_for : List (ConfigObject Plugin) → String → SourceType
  pub ecma_version_for : List (ConfigObject Plugin) → String → ℕ
  pub rule_for : List (ConfigObject Plugin) → String → String → Option RuleSetting
  pub global_for : List (ConfigObject Plugin) → String → String → Option GlobalAccess

abbrev pub files_match : (String → String → Bool) → Option (List String) → String → Bool
files_match glob_matches none path = true
files_match glob_matches (some globs) path = any_of (λ glob. glob_matches glob path) globs

abbrev pub applies :
    {Plugin : Type 0} → (String → String → Bool) → ConfigObject Plugin → String → Bool
applies glob_matches c path = files_match glob_matches c.files path

module _ {Plugin : Type 0} (e : Eslint Plugin) where
  -- A value that the last object that applies and has it decides.
  abbrev pub IsOverridden {ℓ} :
      {A : Type ℓ}
      → (ConfigObject Plugin → Option A)
      → (List (ConfigObject Plugin) → String → A)
      → Type ℓ
  IsOverridden pick value_for =
      (cs : _) (c : ConfigObject Plugin) (path : String)
      → e.is_linted path ≡ true
      → value_for (cs ++ c ∷ []) path ≡ (
          if applies e.glob_matches c path
          then or_default (value_for cs path) (pick c)
          else value_for cs path)

  -- A table that is merged key by key. What becomes of a key that two objects bind is left open: for a rule
  -- the options of the earlier object can stay.
  pub record IsMerged {A : Type 0} (table : ConfigObject Plugin → Dict A)
      (value_for : List (ConfigObject Plugin) → String → String → Option A) : Type 0 where
    pub empty : (path key : String) → value_for [] path key ≡ none
    pub added :
        (cs : List (ConfigObject Plugin)) (c : ConfigObject Plugin) (path key : String)
        → e.is_linted path ≡ true
        → applies e.glob_matches c path ≡ true
        → value_for cs path key ≡ none
        → value_for (cs ++ c ∷ []) path key ≡ lookup key (table c)
    pub kept :
        (cs : List (ConfigObject Plugin)) (c : ConfigObject Plugin) (path key : String)
        → e.is_linted path ≡ true
        → lookup key (table c) ≡ none
        → value_for (cs ++ c ∷ []) path key ≡ value_for cs path key
    pub skipped :
        (cs : List (ConfigObject Plugin)) (c : ConfigObject Plugin) (path key : String)
        → e.is_linted path ≡ true
        → applies e.glob_matches c path ≡ false
        → value_for (cs ++ c ∷ []) path key ≡ value_for cs path key

  -- The documented behaviour.
  pub record IsEslint : Type 0 where
    pub source_types : IsOverridden source_type_in e.source_type_for
    pub ecma_versions : IsOverridden ecma_version_in e.ecma_version_for
    pub rules : IsMerged rules_in e.rule_for
    pub globals : IsMerged globals_in e.global_for
