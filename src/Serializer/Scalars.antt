-- ===== src/Serializer/Scalars.antt =====
-- ssi_rest_api/models/ssi_rest_serializer.py: what the serializer makes of other values keeps the contract of
-- their types.
use ssi_rest_api.Serializer.{Json, Options, Orm, ok, many2one}
use ssi_rest_api.Serializer.Outcomes.{Yields, Yields-bind, Yields-if, if-if}
use ssi_rest_api.Serializer.Reads.{AtMostOne, IsOrm, IsBase64}
use ssi_rest_api.Serializer.Shape.{IsFalseOr, IsText, IsSummary, IsLabelled, IsRaw}
use ssi_rest_api.Serializer.Values.{
  inline_value, summarized_value, summary, text_or_false, label_of, text_or_null, round_by,
  currency_ids, is_inline, serialize_datetime, serialize_date, serialize_binary,
  serialize_selection, serialize_monetary,
}
use ssi_rest_api.Prelude.Dict.{Dict, lookup}
use ssi_rest_api.Prelude.{
  length, ◌==◌, ℕ, String, ◌≡◌, refl, ◌⊎◌, inl, inr, Option, none, some, List, [], ◌∷◌,
  if◌then◌else◌, if_keeps,
}

module _ {Raw : Type 0} (Refused : String → Type 0) (orm : Orm Raw) (h : IsOrm Refused orm)
    (options : Options) where
  text_or_false-IsFalseOr :
      (value : Option String) → IsFalseOr {Raw = Raw} IsText (text_or_false orm value)
  text_or_false-IsFalseOr none = inl refl
  text_or_false-IsFalseOr (some value) = inr (value, refl)

  inline_value-IsFalseOr : (value : Option String) → IsFalseOr IsText (inline_value orm value)
  inline_value-IsFalseOr none = inl refl
  inline_value-IsFalseOr (some value) =
      if_keeps (IsFalseOr IsText) (value == "") (inl refl) (inr (value, refl))

  summary-IsSummary :
      (checksum : Json Raw) (size : ℕ)
      → IsFalseOr IsText checksum
      → IsSummary (summary checksum size)
  summary-IsSummary checksum size k = (size, checksum, k, refl)

  summarized_value-IsSummary :
      (value : Option String)
      → IsBase64 orm value
      → Yields Refused IsSummary (summarized_value orm value)
  summarized_value-IsSummary none k = summary-IsSummary Json.false_value 0 (inl refl)
  summarized_value-IsSummary (some value) (bytes, decoded) =
      if_keeps (Yields Refused IsSummary) (value == "")
        (summary-IsSummary Json.false_value 0 (inl refl))
        (rw decoded (
          summary-IsSummary (Json.text (orm.md5 bytes)) (length bytes) (inr (orm.md5 bytes, refl))))

  pub serialize_binary-HasType :
      (value : Option String)
      → IsBase64 orm value
      → Yields Refused
          (if is_inline orm options.binary then IsFalseOr IsText else IsSummary)
          (serialize_binary orm options value)
  unfolding serialize_binary
  serialize_binary-HasType value k =
      Yields-if Refused (is_inline orm options.binary) (IsFalseOr IsText) IsSummary
        (ok (inline_value orm value)) (summarized_value orm value) (inline_value-IsFalseOr value)
        (summarized_value-IsSummary value k)

  pub serialize_datetime-HasType :
      (value : _) → IsFalseOr {Raw = Raw} IsText (serialize_datetime value)
  unfolding serialize_datetime
  serialize_datetime-HasType none = inl refl
  serialize_datetime-HasType (some t) = inr (_, refl)

  pub serialize_date-HasType : (value : _) → IsFalseOr {Raw = Raw} IsText (serialize_date value)
  unfolding serialize_date
  serialize_date-HasType none = inl refl
  serialize_date-HasType (some d) = inr (_, refl)

  text_or_null-IsNullOrText :
      (label : Option String)
      → (text_or_null orm label ≡ Json.null) ⊎ IsText (text_or_null orm label)
  text_or_null-IsNullOrText none = inl refl
  text_or_null-IsNullOrText (some label) = inr (label, refl)

  label_of-IsNullOrText :
      (labels : Dict String) (value : Option String)
      → (label_of orm labels value ≡ Json.null) ⊎ IsText (label_of orm labels value)
  label_of-IsNullOrText labels none = inl refl
  label_of-IsNullOrText labels (some value) = text_or_null-IsNullOrText (lookup value labels)

  pub serialize_selection-HasType :
      (model name : String) (value : Option String)
      → (if options.labels then IsLabelled else IsFalseOr IsText)
          (serialize_selection orm options model name value)
  unfolding serialize_selection
  serialize_selection-HasType model name value =
      if-if options.labels IsLabelled (IsFalseOr IsText)
        (
          text_or_false orm value,
          label_of orm (orm.labels model name) value,
          text_or_false-IsFalseOr value,
          label_of-IsNullOrText (orm.labels model name) value,
          refl,
        )
        (text_or_false-IsFalseOr value)

  round_by-IsRaw :
      (ids : List ℕ) (value : Raw) → AtMostOne ids → Yields Refused IsRaw (round_by orm ids value)
  round_by-IsRaw [] value k = (_, refl)
  round_by-IsRaw (id ∷ []) value k = (_, refl)
  round_by-IsRaw (_ ∷ _ ∷ _) value k = absurd k

  currency_ids-AtMostOne :
      (model : String) (id : ℕ) (name : String) (currency : Option String)
      → orm.currency_field model name ≡ currency
      → Yields Refused AtMostOne (currency_ids orm model id currency)
  currency_ids-AtMostOne model id name none e = tt
  currency_ids-AtMostOne model id name (some currency) e =
      Yields-bind Refused (λ value. AtMostOne value.ids) AtMostOne
        (orm.read model id currency many2one) (λ value. ok value.ids)
        (h.currencies model id name currency e) (λ value k. k)

  pub serialize_monetary-HasType :
      (model : String) (id : ℕ) (name : String) (value : Raw)
      → Yields Refused IsRaw (serialize_monetary orm model id name value)
  unfolding serialize_monetary
  serialize_monetary-HasType model id name value =
      Yields-bind Refused AtMostOne IsRaw
        (currency_ids orm model id (orm.currency_field model name)) (λ ids. round_by orm ids value)
        (currency_ids-AtMostOne model id name (orm.currency_field model name) refl)
        (λ ids k. round_by-IsRaw ids value k)
