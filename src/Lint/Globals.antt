-- ===== src/Lint/Globals.antt =====
-- eslint.config.cjs: the names that the configuration declares, which are the ones of browsers and ten of the
-- libraries that the repository's scripts find on a page.
use ssi_rest_api.Lint.{GlobalAccess, named}
use ssi_rest_api.Lint.Cascade.{merged_value}
use ssi_rest_api.Lint.Config.{
  config, general_object, module_object, script_options, all_globals, own_globals,
}
use ssi_rest_api.Lint.Eslint.{Eslint, IsEslint, globals_in}
use ssi_rest_api.Prelude.{
  String, ◌≡◌, true, refl, ap, ◌∙◌, none, some, List, [], ◌∷◌, map, any_of, if◌then◌else◌, arith,
  ◌==◌, Bool,
}
use ssi_rest_api.Prelude.Dict.{Dict, lookup, lookup-update, or_else}

abbrev pub own_names : List String
own_names =
    "_" ∷ "$" ∷ "fuzzy" ∷ "jQuery" ∷ "moment" ∷ "odoo" ∷ "openerp" ∷ "owl" ∷ "luxon" ∷ "QUnit" ∷ []

abbrev pub is_own_name : String → Bool
is_own_name name = any_of (λ own. own == name) own_names

abbrev read_only : List String → Dict GlobalAccess
read_only names = map (λ name. (name, named "readonly")) names

lookup-read_only :
    (names : List String) (name : String)
    → lookup name (read_only names)
      ≡ (if any_of (λ own. own == name) names then some (named "readonly") else none)
unfolding lookup
lookup-read_only [] name = refl
lookup-read_only (n ∷ names) name = ground (arith, lookup-read_only names name)

-- If ESLint merges configuration objects as documented, then in every file that ESLint lints by default a name is what the
-- package globals says of it among the globals of browsers; failing that it is "readonly" if it
-- is one of ten names of libraries, and is not declared if it is none of them.
pub global_for_file :
    {Plugin : Type 0} (e : Eslint Plugin) (browser : Dict GlobalAccess) (jsdoc : Plugin)
    (path name : String)
    → IsEslint e
    → e.is_linted path ≡ true
    → e.global_for (config browser jsdoc) path name
      ≡ or_else (lookup name browser) (if is_own_name name then some (named "readonly") else none)
unfolding general_object module_object script_options all_globals own_globals
global_for_file e browser jsdoc path name h linted =
    merged_value e browser jsdoc path globals_in e.global_for h.globals linted name refl
    ∙ lookup-update own_globals browser name
    ∙ ap (or_else (lookup name browser)) (lookup-read_only own_names name)
