-- ===== src/Lint/Table.antt =====
-- eslint.config.cjs: the property `rules` of the first configuration object, in the order of the source.

use ssi_rest_api.Lint.{
  RuleSetting, off, warn, error, plain, with_options, text, number, object, flag, texts,
}
use ssi_rest_api.Prelude.{true, [], ◌∷◌}
use ssi_rest_api.Prelude.Dict.{Dict}

unfoldable pub rules : Dict RuleSetting
rules =
    ("accessor-pairs", plain warn)
    ∷ ("array-callback-return", plain warn)
    ∷ ("callback-return", plain warn)
    ∷ (
      "capitalized-comments",
      with_options warn (
          text "always"
          ∷ object
              (("ignoreConsecutiveComments", flag true) ∷ ("ignoreInlineComments", flag true) ∷ [])
          ∷ []),
    )
    ∷ ("complexity", with_options warn (number 15 ∷ []))
    ∷ ("constructor-super", plain warn)
    ∷ ("dot-notation", plain warn)
    ∷ ("eqeqeq", plain warn)
    ∷ ("global-require", plain warn)
    ∷ ("handle-callback-err", plain warn)
    ∷ ("id-blacklist", plain warn)
    ∷ ("id-match", plain warn)
    ∷ ("init-declarations", plain error)
    ∷ ("max-depth", plain warn)
    ∷ ("max-nested-callbacks", plain warn)
    ∷ ("max-statements-per-line", plain warn)
    ∷ ("no-alert", plain warn)
    ∷ ("no-array-constructor", plain warn)
    ∷ ("no-caller", plain warn)
    ∷ ("no-case-declarations", plain warn)
    ∷ ("no-class-assign", plain warn)
    ∷ ("no-cond-assign", plain error)
    ∷ ("no-const-assign", plain error)
    ∷ ("no-constant-condition", plain warn)
    ∷ ("no-control-regex", plain warn)
    ∷ ("no-debugger", plain error)
    ∷ ("no-delete-var", plain warn)
    ∷ ("no-div-regex", plain warn)
    ∷ ("no-dupe-args", plain error)
    ∷ ("no-dupe-class-members", plain error)
    ∷ ("no-dupe-keys", plain error)
    ∷ ("no-duplicate-case", plain error)
    ∷ ("no-duplicate-imports", plain error)
    ∷ ("no-else-return", plain warn)
    ∷ ("no-empty-character-class", plain warn)
    ∷ ("no-empty-function", plain error)
    ∷ ("no-empty-pattern", plain error)
    ∷ ("no-empty", plain warn)
    ∷ ("no-eq-null", plain error)
    ∷ ("no-eval", plain error)
    ∷ ("no-ex-assign", plain error)
    ∷ ("no-extend-native", plain warn)
    ∷ ("no-extra-bind", plain warn)
    ∷ ("no-extra-boolean-cast", plain warn)
    ∷ ("no-extra-label", plain warn)
    ∷ ("no-fallthrough", plain warn)
    ∷ ("no-func-assign", plain error)
    ∷ ("no-global-assign", plain error)
    ∷ ("no-implicit-coercion", with_options warn (object (("allow", texts ("~" ∷ [])) ∷ []) ∷ []))
    ∷ ("no-implicit-globals", plain warn)
    ∷ ("no-implied-eval", plain warn)
    ∷ ("no-inline-comments", plain warn)
    ∷ ("no-inner-declarations", plain warn)
    ∷ ("no-invalid-regexp", plain warn)
    ∷ ("no-irregular-whitespace", plain warn)
    ∷ ("no-iterator", plain warn)
    ∷ ("no-label-var", plain warn)
    ∷ ("no-labels", plain warn)
    ∷ ("no-lone-blocks", plain warn)
    ∷ ("no-lonely-if", plain error)
    ∷ ("no-mixed-requires", plain error)
    ∷ ("no-multi-str", plain warn)
    ∷ ("no-native-reassign", plain error)
    ∷ ("no-negated-condition", plain warn)
    ∷ ("no-negated-in-lhs", plain error)
    ∷ ("no-new-func", plain warn)
    ∷ ("no-new-object", plain warn)
    ∷ ("no-new-require", plain warn)
    ∷ ("no-new-symbol", plain warn)
    ∷ ("no-new-wrappers", plain warn)
    ∷ ("no-new", plain warn)
    ∷ ("no-obj-calls", plain warn)
    ∷ ("no-octal-escape", plain warn)
    ∷ ("no-octal", plain warn)
    ∷ ("no-param-reassign", plain warn)
    ∷ ("no-path-concat", plain warn)
    ∷ ("no-process-env", plain warn)
    ∷ ("no-process-exit", plain warn)
    ∷ ("no-proto", plain warn)
    ∷ ("no-prototype-builtins", plain warn)
    ∷ ("no-redeclare", plain warn)
    ∷ ("no-regex-spaces", plain warn)
    ∷ ("no-restricted-globals", plain warn)
    ∷ ("no-restricted-imports", plain warn)
    ∷ ("no-restricted-modules", plain warn)
    ∷ ("no-restricted-syntax", plain warn)
    ∷ ("no-return-assign", plain error)
    ∷ ("no-script-url", plain warn)
    ∷ ("no-self-assign", plain warn)
    ∷ ("no-self-compare", plain warn)
    ∷ ("no-sequences", plain warn)
    ∷ ("no-shadow-restricted-names", plain warn)
    ∷ ("no-shadow", plain warn)
    ∷ ("no-sparse-arrays", plain warn)
    ∷ ("no-sync", plain warn)
    ∷ ("no-this-before-super", plain warn)
    ∷ ("no-throw-literal", plain warn)
    ∷ ("no-undef-init", plain warn)
    ∷ ("no-undef", plain error)
    ∷ ("no-unmodified-loop-condition", plain warn)
    ∷ ("no-unneeded-ternary", plain error)
    ∷ ("no-unreachable", plain error)
    ∷ ("no-unsafe-finally", plain error)
    ∷ ("no-unused-expressions", plain error)
    ∷ ("no-unused-labels", plain error)
    ∷ ("no-unused-vars", plain error)
    ∷ ("no-use-before-define", plain error)
    ∷ ("no-useless-call", plain warn)
    ∷ ("no-useless-computed-key", plain warn)
    ∷ ("no-useless-concat", plain warn)
    ∷ ("no-useless-constructor", plain warn)
    ∷ ("no-useless-escape", plain warn)
    ∷ ("no-useless-rename", plain warn)
    ∷ ("no-void", plain warn)
    ∷ ("no-with", plain warn)
    ∷ ("operator-assignment", with_options error (text "always" ∷ []))
    ∷ ("prefer-const", plain warn)
    ∷ ("radix", plain warn)
    ∷ ("require-yield", plain warn)
    ∷ ("sort-imports", plain warn)
    ∷ ("spaced-comment", with_options error (text "always" ∷ []))
    ∷ ("strict", with_options error (text "function" ∷ []))
    ∷ ("use-isnan", plain error)
    ∷ ("jsdoc/check-tag-names", plain warn)
    ∷ ("jsdoc/check-types", plain warn)
    ∷ ("jsdoc/require-param-description", plain off)
    ∷ ("jsdoc/require-return", plain off)
    ∷ ("jsdoc/require-return-description", plain off)
    ∷ ("jsdoc/require-return-type", plain off)
    ∷ ("valid-typeof", plain warn)
    ∷ ("yoda", plain warn)
    ∷ []
