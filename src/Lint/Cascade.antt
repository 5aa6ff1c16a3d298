-- ===== src/Lint/Cascade.antt =====
-- eslint.config.cjs: what the two configuration objects come to for one file that ESLint lints.
use ssi_rest_api.Lint.{ConfigObject, GlobalAccess, script, module_code}
use ssi_rest_api.Lint.Config.{config, general_object, module_object, module_files, script_options}
use ssi_rest_api.Lint.Eslint.{
  Eslint, IsEslint, IsOverridden, IsMerged, applies, source_type_in, ecma_version_in, rules_in,
}
use ssi_rest_api.Lint.Table.{rules}
use ssi_rest_api.Prelude.{
  if_same, String, ◌≡◌, true, refl, ap, ◌∙◌, Bool, ◌||◌, Option, some, List, [], ◌∷◌, arith,
  if◌then◌else◌,
}
use ssi_rest_api.Prelude.Dict.{Dict, lookup}

module _ {Plugin : Type 0} (e : Eslint Plugin) (browser : Dict GlobalAccess) (jsdoc : Plugin)
    (path : String) where
  -- The files of the second object.
  abbrev pub is_module_file : Bool
  is_module_file = e.glob_matches "**/*.esm.js" path || e.glob_matches "**/*test.js" path

  pub applies-module_object :
      applies {Plugin = Plugin} e.glob_matches module_object path ≡ is_module_file
  unfolding module_object module_files
  applies-module_object = ground arith

  -- A value that both objects have is the one of the second object for its files.
  overridden_value :
      {A : Type 0} (pick : ConfigObject Plugin → Option A)
      (value_for : List (ConfigObject Plugin) → String → A)
      → IsOverridden e pick value_for
      → e.is_linted path ≡ true
      → (general special : A) → pick (general_object browser jsdoc) ≡ some general
      → pick module_object ≡ some special
      → value_for (config browser jsdoc) path ≡ (if is_module_file then special else general)
  unfolding config
  overridden_value pick value_for h linted general special from_first from_second =
      let first = general_object browser jsdoc in
      h (first ∷ []) module_object path linted
      ∙ (rw (applies-module_object)
          (rw from_second (rw (h [] first path linted) (rw from_first refl))))

  -- A table that only the first object has is the same for every file.
  pub merged_value :
      {A : Type 0} (table : ConfigObject Plugin → Dict A)
      (value_for : List (ConfigObject Plugin) → String → String → Option A)
      → IsMerged e table value_for
      → e.is_linted path ≡ true
      → (key : String) → table module_object ≡ []
      → value_for (config browser jsdoc) path key
        ≡ lookup key (table (general_object browser jsdoc))
  unfolding config general_object lookup
  merged_value table value_for h linted key none_later =
      h.kept (general_object browser jsdoc ∷ []) module_object path key linted
        (ap (lookup key) none_later)
      ∙ h.added [] (general_object browser jsdoc) path key linted refl (h.empty path key)

  -- If ESLint merges configuration objects as documented, it takes every file that it lints by
  -- its default patterns with ECMAScript 2024 and with the severity and options that the table of
  -- rules has for each rule, as a module if the path matches **/*.esm.js or **/*test.js, and as a
  -- script otherwise.
  pub config_for_file :
      IsEslint e
      → e.is_linted path ≡ true
      → (e.source_type_for (config browser jsdoc) path
          ≡ (if is_module_file then module_code else script))
        × (e.ecma_version_for (config browser jsdoc) path ≡ 2024)
        × ((rule : String) → e.rule_for (config browser jsdoc) path rule ≡ lookup rule rules)
  unfolding config general_object module_object script_options
  config_for_file h linted = (
    overridden_value source_type_in e.source_type_for h.source_types linted script module_code refl
        refl,
    overridden_value ecma_version_in e.ecma_version_for h.ecma_versions linted 2024 2024 refl refl
        ∙ if_same is_module_file,
    λ rule. merged_value rules_in e.rule_for h.rules linted rule refl,
  )
