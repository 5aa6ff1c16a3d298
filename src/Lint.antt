-- ===== src/Lint.antt =====
-- eslint.config.cjs: the configuration of ESLint for the repository's JavaScript, which is a program that
-- builds an array of two configuration objects. ESLint, the package `globals` and eslint-plugin-jsdoc
-- are not code of the repository: what the configuration takes from them are arguments, and what
-- ESLint does with the array is the interface of Lint/Eslint.
pub mod Cascade
pub mod Config
pub mod Eslint
pub mod Globals
pub mod Rules
pub mod Table
mod Tests
use ssi_rest_api.Prelude.{ℕ, String, Bool, Option, none, some, List, [], ◌∷◌}
use ssi_rest_api.Prelude.Dict.{Dict}

-- The severities that the configuration writes as texts.
pub data Severity : Type 0 where
  off warn error : Severity

pub data OptionValue : Type 0 where
  flag : Bool → OptionValue
  texts : List String → OptionValue

pub data RuleOption : Type 0 where
  text : String → RuleOption
  number : ℕ → RuleOption
  object : Dict OptionValue → RuleOption

-- `"warn"` is the setting without options, `["warn", …]` the setting with them.
pub record RuleSetting : Type 0 where
  pub severity : Severity
  pub options : List RuleOption

abbrev pub plain : Severity → RuleSetting
plain s = record { severity = s; options = [] }

abbrev pub with_options : Severity → List RuleOption → RuleSetting
with_options s os = record { severity = s; options = os }

-- The configuration writes `"readonly"`; the package `globals` writes `false` for it, and `true` for
-- `"writable"`.
pub data GlobalAccess : Type 0 where
  named : String → GlobalAccess
  writable : Bool → GlobalAccess

pub data SourceType : Type 0 where
  script module_code commonjs : SourceType

-- A property that an object literal does not mention is `none`.
pub record LanguageOptions : Type 0 where
  pub globals : Option (Dict GlobalAccess)
  pub ecma_version : Option ℕ
  pub source_type : Option SourceType

pub record ConfigObject (Plugin : Type 0) : Type 0 where
  pub files : Option (List String)
  pub plugins : Option (Dict Plugin)
  pub language_options : LanguageOptions
  pub rules : Option (Dict RuleSetting)
  pub settings : Option (Dict (Dict (Dict String)))
