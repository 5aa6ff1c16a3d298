-- ===== src/Serializer/Values.antt =====
-- ssi_rest_api/models/ssi_rest_serializer.py: the values of fields that are not relations.
use ssi_rest_api.Serializer.{
  Date, Datetime, entry, end, Failure, Json, Options, Orm, Result, ok, fails, bind, FieldType,
}
use ssi_rest_api.Prelude.{
  ℕ, String, Bool, false, Option, none, some, List, [], ◌∷◌, length, ◌==◌, if◌then◌else◌,
}
use ssi_rest_api.Prelude.Dict.{Dict, lookup}
use Prim.Native.Nat.{◌/◌, ◌%◌}
use Prim.Native.String.{char_at, ◌++◌}

-- Two digits with leading zeros, as `%m`.
abbrev two_digits : ℕ → String
two_digits n =
    String.◌∷◌ (char_at "0123456789" (n / 10)) (String.◌∷◌ (char_at "0123456789" (n % 10)) "")

-- `%Y` of the years from 1000 to 9999.
abbrev four_digits : ℕ → String
four_digits n = two_digits (n / 100) ++ two_digits (n % 100)

-- `value.strftime("%Y-%m-%d")`
unfoldable pub format_date : Date → String
format_date d = four_digits d.year ++ ("-" ++ (two_digits d.month ++ ("-" ++ two_digits d.day)))

-- `value.strftime("%Y-%m-%dT%H:%M:%S")`
unfoldable pub format_datetime : Datetime → String
unfolding format_date
format_datetime t =
    format_date t.date
    ++ ("T"
        ++ (two_digits t.hour ++ (":" ++ (two_digits t.minute ++ (":" ++ two_digits t.second)))))

module _ {Raw : Type 0} where
  unfoldable pub serialize_datetime : Option Datetime → Json Raw
  unfolding format_datetime
  serialize_datetime none = Json.false_value
  serialize_datetime (some t) = Json.text (format_datetime t ++ "Z")

  unfoldable pub serialize_date : Option Date → Json Raw
  unfolding format_date
  serialize_date none = Json.false_value
  serialize_date (some d) = Json.text (format_date d)

  -- The record `{"size", "checksum", "url"}`.
  abbrev pub summary : Json Raw → ℕ → Json Raw
  summary checksum size = Json.object (
      entry "size" (Json.number size)
        (entry "checksum" checksum (entry "url" Json.false_value end)))

  module _ (orm : Orm Raw) where
    abbrev summarize : Option (List ℕ) → Result (Json Raw)
    summarize none = fails Failure.bad_base64
    summarize (some decoded) = ok (summary (Json.text (orm.md5 decoded)) (length decoded))

    -- `value or False`
    abbrev pub inline_value : Option String → Json Raw
    inline_value none = Json.false_value
    inline_value (some value) = if value == "" then Json.false_value else Json.text value

    abbrev pub summarized_value : Option String → Result (Json Raw)
    summarized_value none = ok (summary Json.false_value 0)
    summarized_value (some value) =
        if value == "" then ok (summary Json.false_value 0) else summarize (orm.b64decode value)

    abbrev pub is_inline : Option String → Bool
    is_inline none = false
    is_inline (some mode) = mode == "inline"

    unfoldable pub serialize_binary : Options → Option String → Result (Json Raw)
    serialize_binary options value =
        if is_inline options.binary then ok (inline_value value) else summarized_value value

    -- A value that is stored, and a label.
    abbrev pub text_or_false : Option String → Json Raw
    text_or_false none = Json.false_value
    text_or_false (some value) = Json.text value

    abbrev pub text_or_null : Option String → Json Raw
    text_or_null none = Json.null
    text_or_null (some label) = Json.text label

    -- `selection.get(value)`, where `False` is no key.
    abbrev pub label_of : Dict String → Option String → Json Raw
    label_of labels none = Json.null
    label_of labels (some value) = text_or_null (lookup value labels)

    unfoldable pub serialize_selection : Options → (model name : String) → Option String → Json Raw
    serialize_selection options model name value =
        if options.labels
        then Json.object (
            entry "value" (text_or_false value)
              (entry "label" (label_of (orm.labels model name) value) end))
        else text_or_false value

    -- `record[currency_field] if currency_field else False`
    abbrev pub currency_ids : (model : String) (id : ℕ) → Option String → Result (List ℕ)
    currency_ids model id none = ok []
    currency_ids model id (some name) =
        bind (orm.read model id name FieldType.many2one) (λ currency. ok currency.ids)

    -- `currency.round(value) if currency else value`
    abbrev round_by_company : Option ℕ → Raw → Raw
    round_by_company none value = value
    round_by_company (some currency) value = orm.round_currency currency value

    -- `round` asks for one currency.
    abbrev pub round_by : List ℕ → Raw → Result (Json Raw)
    round_by [] value = ok (Json.raw (round_by_company orm.company_currency value))
    round_by (currency ∷ []) value = ok (Json.raw (orm.round_currency currency value))
    round_by (_ ∷ _ ∷ _) value = fails Failure.not_singleton

    unfoldable pub serialize_monetary :
        (model : String) (id : ℕ) (name : String) → Raw → Result (Json Raw)
    serialize_monetary model id name value =
        bind (currency_ids model id (orm.currency_field model name)) (λ ids. round_by ids value)

    abbrev round_float : Option (ℕ × ℕ) → Raw → Raw
    round_float none value = value
    round_float (some (_, decimals)) value = orm.round_digits decimals value

    unfoldable pub serialize_float : (model name : String) → Raw → Json Raw
    serialize_float model name value = Json.raw (round_float (orm.digits model name) value)
