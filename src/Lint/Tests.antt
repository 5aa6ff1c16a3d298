-- ===== src/Lint/Tests.antt =====
-- An ESLint that behaves as documented, and what the configuration comes to for some files.
use ssi_rest_api.Lint.{ConfigObject, GlobalAccess, script, module_code, writable, plain, error}
use ssi_rest_api.Lint.Eslint.{
  Eslint, IsEslint, IsMerged, applies, or_default, source_type_in, ecma_version_in, rules_in,
  globals_in,
}
use ssi_rest_api.Lint.Config.{config, plugins, general_object, module_object, script_options}
use ssi_rest_api.Lint.Cascade.{config_for_file}
use ssi_rest_api.Lint.Globals.{global_for_file}
use ssi_rest_api.Lint.Rules.{rule_for_file_iff, is_known}
use ssi_rest_api.Lint.Table.{rules}
use ssi_rest_api.AccessProfile.Glob.{fnmatchcase}
use ssi_rest_api.Prelude.{
  String, ◌≡◌, refl, Bool, true, false, Option, none, some, List, [], ◌∷◌, ◌++◌, if◌then◌else◌, ◌↔◌,
  ◌∙◌, ◌||◌, if_same,
}
use ssi_rest_api.Prelude.Dict.{Dict, lookup}
use ssi_rest_api.Prelude.Members.{Memᴰ}

abbrev jsdoc_plugin : String
jsdoc_plugin = "eslint-plugin-jsdoc"

abbrev glob_matches : String → String → Bool
glob_matches glob path = fnmatchcase path glob

module _ {A : Type 0} where
  abbrev overridden : (ConfigObject String → Option A) → List (ConfigObject String) → A → String → A
  overridden pick [] a path = a
  overridden pick (c ∷ cs) a path =
      overridden pick cs (if applies glob_matches c path then or_default a (pick c) else a) path

  overridden-append :
      (pick : ConfigObject String → Option A) (cs : List (ConfigObject String)) (a : A)
      (c : ConfigObject String) (path : String)
      → overridden pick (cs ++ c ∷ []) a path ≡ (
          if applies glob_matches c path
          then or_default (overridden pick cs a path) (pick c)
          else overridden pick cs a path)
  overridden-append pick [] a c path = refl
  overridden-append pick (d ∷ cs) a c path = overridden-append pick cs _ c path

module _ {A : Type 0} where
  abbrev rebind : Option A → Option (Option A)
  rebind none = none
  rebind (some v) = some (some v)

  or_default-rebind : (o : Option A) → or_default none (rebind o) ≡ o
  or_default-rebind none = refl
  or_default-rebind (some v) = refl

  -- The last object that applies and binds the key decides.
  abbrev merged :
      (ConfigObject String → Dict A) → List (ConfigObject String) → String → String → Option A
  merged table cs path key = overridden (λ c. rebind (lookup key (table c))) cs none path

abbrev toy : Eslint String
toy = record {
  glob_matches = glob_matches;
  is_linted =
      λ path. glob_matches "*.js" path || glob_matches "*.cjs" path || glob_matches "*.mjs" path;
  source_type_for = λ cs path. overridden source_type_in cs module_code path;
  ecma_version_for = λ cs path. overridden ecma_version_in cs 2026 path;
  rule_for = merged rules_in;
  global_for = merged globals_in;
}

merged-IsMerged :
    {A : Type 0} (table : ConfigObject String → Dict A) → IsMerged toy table (merged table)
merged-IsMerged table = record {
  empty = λ path key. refl;
  added = λ cs c path key linted applied unbound.
      overridden-append (λ d. rebind (lookup key (table d))) cs none c path
      ∙ rw applied (rw unbound (or_default-rebind (lookup key (table c))));
  kept = λ cs c path key linted unbound.
      overridden-append (λ d. rebind (lookup key (table d))) cs none c path
      ∙ rw unbound (if_same (applies glob_matches c path));
  skipped = λ cs c path key linted not_applied.
      overridden-append (λ d. rebind (lookup key (table d))) cs none c path ∙ rw not_applied refl;
}

toy-IsEslint : IsEslint toy
toy-IsEslint = record {
  source_types = λ cs c path linted. overridden-append source_type_in cs module_code c path;
  ecma_versions = λ cs c path linted. overridden-append ecma_version_in cs 2026 c path;
  rules = merged-IsMerged rules_in;
  globals = merged-IsMerged globals_in;
}

matching : Unit {0}
unfolding fnmatchcase
matching = tt

abbrev browser_globals : Dict GlobalAccess
browser_globals = ("window", writable false) ∷ ("name", writable true) ∷ []

abbrev module_path : String
module_path = "ssi_rest_api_doc/static/src/js/viewer.esm.js"

config_for_file_example :
    (toy.source_type_for (config browser_globals jsdoc_plugin) module_path ≡ module_code)
    × (toy.ecma_version_for (config browser_globals jsdoc_plugin) module_path ≡ 2024)
    × ((rule : String)
        → toy.rule_for (config browser_globals jsdoc_plugin) module_path rule ≡ lookup rule rules)
unfolding fnmatchcase
config_for_file_example =
    config_for_file toy browser_globals jsdoc_plugin module_path toy-IsEslint refl

script_test :
    toy.source_type_for (config browser_globals jsdoc_plugin) "static/src/js/swagger_ui_init.js"
    ≡ script
unfolding config general_object module_object script_options fnmatchcase
script_test = refl

undeclared_test : toy.global_for (config browser_globals jsdoc_plugin) module_path "Odoo" ≡ none
unfolding lookup fnmatchcase
undeclared_test =
    global_for_file toy browser_globals jsdoc_plugin module_path "Odoo" toy-IsEslint refl

rule_for_file_iff_example :
    ((toy.rule_for (config browser_globals jsdoc_plugin) module_path "no-eval" ≡ some (plain error))
      ↔ Memᴰ ("no-eval", plain error) rules)
    × (Memᴰ ("no-eval", plain error) rules → is_known (plugins jsdoc_plugin) "no-eval" ≡ true)
unfolding fnmatchcase
rule_for_file_iff_example =
    rule_for_file_iff toy browser_globals jsdoc_plugin module_path "no-eval" (plain error)
      toy-IsEslint refl
