-- ===== src/Lint/Config.antt =====
-- eslint.config.cjs: the array that the module exports, over the globals of browsers that the package
-- `globals` lists and over the plugin object of eslint-plugin-jsdoc.
use ssi_rest_api.Lint.{ConfigObject, GlobalAccess, named, LanguageOptions, script, module_code}
use ssi_rest_api.Lint.Table.{rules}
use ssi_rest_api.Prelude.{String, none, some, List, [], ◌∷◌}
use ssi_rest_api.Prelude.Dict.{Dict, update}

-- The names that the first object declares itself.
unfoldable pub own_globals : Dict GlobalAccess
own_globals =
    ("_", named "readonly")
    ∷ ("$", named "readonly")
    ∷ ("fuzzy", named "readonly")
    ∷ ("jQuery", named "readonly")
    ∷ ("moment", named "readonly")
    ∷ ("odoo", named "readonly")
    ∷ ("openerp", named "readonly")
    ∷ ("owl", named "readonly")
    ∷ ("luxon", named "readonly")
    ∷ ("QUnit", named "readonly")
    ∷ []

-- `{…, ...globals.browser}`: the names spread last win.
unfoldable pub all_globals : Dict GlobalAccess → Dict GlobalAccess
unfolding own_globals update
all_globals browser = update own_globals browser

unfoldable pub script_options : Dict GlobalAccess → LanguageOptions
unfolding all_globals
script_options browser = record {
  globals = some (all_globals browser);
  ecma_version = some 2024;
  source_type = some script;
}

unfoldable pub tag_name_preference : Dict String
tag_name_preference =
    ("arg", "param")
    ∷ ("argument", "param")
    ∷ ("augments", "extends")
    ∷ ("constructor", "class")
    ∷ ("exception", "throws")
    ∷ ("func", "function")
    ∷ ("method", "function")
    ∷ ("prop", "property")
    ∷ ("return", "returns")
    ∷ ("virtual", "abstract")
    ∷ ("yield", "yields")
    ∷ []

unfoldable pub preferred_types : Dict String
preferred_types =
    ("array", "Array")
    ∷ ("bool", "Boolean")
    ∷ ("boolean", "Boolean")
    ∷ ("number", "Number")
    ∷ ("object", "Object")
    ∷ ("str", "String")
    ∷ ("string", "String")
    ∷ []

unfoldable pub settings : Dict (Dict (Dict String))
unfolding tag_name_preference preferred_types
settings =
    ("jsdoc", ("tagNamePreference", tag_name_preference) ∷ ("preferredTypes", preferred_types) ∷ [])
    ∷ []

unfoldable pub plugins : {Plugin : Type 0} → Plugin → Dict Plugin
plugins jsdoc = ("jsdoc", jsdoc) ∷ []

module _ {Plugin : Type 0} (browser : Dict GlobalAccess) (jsdoc : Plugin) where
  -- The object without `files`.
  unfoldable pub general_object : ConfigObject Plugin
  unfolding plugins script_options rules settings
  general_object = record {
    files = none;
    plugins = some (plugins jsdoc);
    language_options = script_options browser;
    rules = some rules;
    settings = some settings;
  }

unfoldable pub module_files : List String
module_files = "**/*.esm.js" ∷ "**/*test.js" ∷ []

-- The object for the files that are modules.
unfoldable pub module_object : {Plugin : Type 0} → ConfigObject Plugin
unfolding module_files
module_object = record {
  files = some module_files;
  plugins = none;
  language_options = record {
    globals = none;
    ecma_version = some 2024;
    source_type = some module_code;
  };
  rules = none;
  settings = none;
}

-- `module.exports`
unfoldable pub config : {Plugin : Type 0} → Dict GlobalAccess → Plugin → List (ConfigObject Plugin)
unfolding general_object module_object
config browser jsdoc = general_object browser jsdoc ∷ module_object ∷ []
