-- ===== src/Lint/Rules.antt =====
-- eslint.config.cjs: the table of rules, read as a set of settings, and the plugins that its rules are of.
use ssi_rest_api.Lint.{GlobalAccess, RuleSetting}
use ssi_rest_api.Lint.Cascade.{config_for_file}
use ssi_rest_api.Lint.Config.{config, plugins}
use ssi_rest_api.Lint.Eslint.{Eslint, IsEslint}
use ssi_rest_api.Lint.Table.{rules}
use ssi_rest_api.Prelude.{
  String, ◌≡◌, ◌↔◌, refl, Bool, true, false, Option, none, some, not, any_of, ◌∙◌, Bool-cases, inl,
  inr, sym, ap,
}
use ssi_rest_api.Prelude.Dict.{Dict}
use ssi_rest_api.Prelude.Keys.{distinct_keys, has_key, mem_iff-lookup}
use ssi_rest_api.Prelude.Members.{Memᴰ, any_of-mem}
use ssi_rest_api.Prelude.Text.{partition}

rules-distinct : distinct_keys rules ≡ true
unfolding rules
rules-distinct = refl

abbrev is_plugin_known : {Plugin : Type 0} → Dict Plugin → Option (String × String) → Bool
is_plugin_known registered none = true
is_plugin_known registered (some (plugin, rule)) = has_key plugin registered

-- A rule of ESLint itself, whose name has no slash, or one of a registered plugin.
abbrev pub is_known : {Plugin : Type 0} → Dict Plugin → String → Bool
is_known registered name = is_plugin_known registered (partition b'/' name)

module _ {Plugin : Type 0} (jsdoc : Plugin) where
  rules-known : any_of (λ entry. not (is_known (plugins jsdoc) entry.0)) rules ≡ false
  unfolding rules plugins partition
  rules-known = refl

  rule-known :
      {name : String} {setting : RuleSetting}
      → Memᴰ (name, setting) rules
      → is_known (plugins jsdoc) name ≡ true
  rule-known {name} m = elim (Bool-cases (is_known (plugins jsdoc) name)) [
    | inl known ↦ known
    | inr unknown ↦
        let found : true ≡ false =
          sym (any_of-mem (λ entry. not (is_known (plugins jsdoc) entry.0)) m (ap not unknown))
          ∙ rules-known in
        cc
  ]

-- If ESLint merges configuration objects as documented, a rule has a setting in a file that
-- ESLint lints by its default patterns exactly when the table lists the rule with that setting,
-- so that no row of the table overrides another; and a rule of the table whose name has a slash
-- belongs to a plugin that is registered.
pub rule_for_file_iff :
    {Plugin : Type 0} (e : Eslint Plugin) (browser : Dict GlobalAccess) (jsdoc : Plugin)
    (path name : String) (setting : RuleSetting)
    → IsEslint e
    → e.is_linted path ≡ true
    → ((e.rule_for (config browser jsdoc) path name ≡ some setting) ↔ Memᴰ (name, setting) rules)
      × (Memᴰ (name, setting) rules → is_known (plugins jsdoc) name ≡ true)
rule_for_file_iff e browser jsdoc path name setting h linted =
    let (_, _, looked_up) = config_for_file e browser jsdoc path h linted in
    let (listed, found) = mem_iff-lookup rules name setting rules-distinct in
    ((λ k. listed (sym (looked_up name) ∙ k), λ m. looked_up name ∙ found m), rule-known jsdoc)
