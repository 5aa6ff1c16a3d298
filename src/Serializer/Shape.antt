-- ===== src/Serializer/Shape.antt =====
-- The JSON that a specification promises: what the documentation of ssi_rest_serializer.py calls the wire
-- contract, stated over the specification, the fields of the models and what Odoo reads of a record.
use ssi_rest_api.Serializer.{
  Entries, entry, end, ok, ValueOf, Field, FieldType, Items, nil, cons, Json, Options, Orm, Spec,
  empty, bare, nested, many2one, one2many, many2many, datetime, date, binary, selection, monetary,
  float, other,
}
use ssi_rest_api.Serializer.Records.{is_empty, as_id, reference, id_items}
use ssi_rest_api.Serializer.Values.{
  is_inline, serialize_datetime, serialize_date, serialize_binary, serialize_selection,
  serialize_monetary, serialize_float,
}
use ssi_rest_api.Prelude.{ℕ, String, ◌≡◌, ◌⊎◌, Option, none, some, List, [], ◌∷◌, if◌then◌else◌}

module _ {Raw : Type 0} where
  abbrev pub IsText : Json Raw → Type 0
  IsText v = (t : String) × (v ≡ Json.text t)

  abbrev pub IsFalseOr : (Json Raw → Type 0) → Json Raw → Type 0
  IsFalseOr P v = (v ≡ Json.false_value) ⊎ P v

  -- `{"size", "checksum", "url"}`
  abbrev pub IsSummary : Json Raw → Type 0
  IsSummary v =
      (size : ℕ) × (checksum : Json Raw) × IsFalseOr IsText checksum
      × (v
          ≡ Json.object (
              entry "size" (Json.number size)
                (entry "checksum" checksum (entry "url" Json.false_value end))))

  -- `{"value", "label"}`
  abbrev pub IsLabelled : Json Raw → Type 0
  IsLabelled v =
      (value label : Json Raw) × IsFalseOr IsText value
      × ((label ≡ Json.null) ⊎ IsText label)
      × (v ≡ Json.object (entry "value" value (entry "label" label end)))

  abbrev pub IsRaw : Json Raw → Type 0
  IsRaw v = (r : Raw) × (v ≡ Json.raw r)

  -- One item for each record, in order, that has what `P` says of the record.
  abbrev pub OneForEach : (ℕ → Json Raw → Type 0) → List ℕ → Items Raw → Type 0
  OneForEach P [] nil = Unit
  OneForEach P (id ∷ ids) (cons v vs) = P id v × OneForEach P ids vs
  OneForEach P [] (cons v vs) = ⊥
  OneForEach P (id ∷ ids) nil = ⊥

-- The contract of the nested specification, if there is one, for a record of each model.
abbrev pub Promise : Type 0 → Type 1
Promise Raw = Option (String → ℕ → Json Raw → Type 0)

module _ {Raw : Type 0} (orm : Orm Raw) (options : Options) where
  -- `{"id", "display_name"}`, or what the nested specification promises for the record.
  abbrev pub One : Promise Raw → String → ℕ → Json Raw → Type 0
  One none comodel id v =
      (name : String) × (orm.display_name comodel id ≡ ok name) × (v ≡ reference orm id name)
  One (some P) comodel id v = P comodel id v

  abbrev pub AtMost : Promise Raw → String → List ℕ → Json Raw → Type 0
  AtMost inner comodel [] v = v ≡ Json.false_value
  AtMost inner comodel (id ∷ ids) v =
      if as_id orm options.m2o then v ≡ Json.number id else One inner comodel id v

  abbrev pub Many : Promise Raw → String → List ℕ → Json Raw → Type 0
  Many none comodel ids v = v ≡ Json.array (id_items orm ids)
  Many (some P) comodel ids v =
      (items : Items Raw) × OneForEach (P comodel) ids items × (v ≡ Json.array items)

  -- What `v` is for the value that Odoo has of a field of the record.
  abbrev pub HasType :
      (model : String) (id : ℕ) (name : String) (t : FieldType)
      → String
      → Promise Raw
      → ValueOf Raw t
      → Json Raw
      → Type 0
  HasType model id name many2one comodel inner value v = AtMost inner comodel value.ids v
  HasType model id name one2many comodel inner value v = Many inner comodel value.ids v
  HasType model id name many2many comodel inner value v = Many inner comodel value.ids v
  HasType model id name datetime comodel inner value v =
      IsFalseOr IsText v × (v ≡ serialize_datetime value)
  HasType model id name date comodel inner value v = IsFalseOr IsText v × (v ≡ serialize_date value)
  HasType model id name binary comodel inner value v =
      (if is_inline orm options.binary then IsFalseOr IsText else IsSummary) v
      × (serialize_binary orm options value ≡ ok v)
  HasType model id name selection comodel inner value v =
      (if options.labels then IsLabelled else IsFalseOr IsText) v
      × (v ≡ serialize_selection orm options model name value)
  HasType model id name monetary comodel inner value v =
      IsRaw v × (serialize_monetary orm model id name value ≡ ok v)
  HasType model id name float comodel inner value v = v ≡ serialize_float orm model name value
  HasType model id name other comodel inner value v = v ≡ Json.raw value

  -- `v` is what the field of the record holds, read from the database.
  abbrev pub IsRead :
      (model : String) (id : ℕ) (name : String) → Field → Promise Raw → Json Raw → Type 0
  IsRead model id name field inner v =
      (value : ValueOf Raw field.type) × (orm.read model id name field.type ≡ ok value)
      × HasType model id name field.type field.comodel inner value v

  -- The next key is the field, and its value is that of the record.
  abbrev pub IsEntry :
      (model : String) (id : ℕ) (name : String)
      → Promise Raw
      → (Entries Raw → Type 0)
      → Entries Raw
      → Type 0
  IsEntry model id name inner Rest es =
      (field : Field) × (v : Json Raw) × (more : Entries Raw) × (orm.field model name ≡ some field)
      × IsRead model id name field inner v
      × Rest more
      × (es ≡ entry name v more)

  -- A field that the user cannot read does not occur.
  abbrev pub HasField :
      (model : String) (id : ℕ) (name : String)
      → Promise Raw
      → (Entries Raw → Type 0)
      → Entries Raw
      → Type 0
  HasField model id name inner Rest =
      if orm.is_readable model name then IsEntry model id name inner Rest else Rest

  abbrev pub IsRecordOf : (Entries Raw → Type 0) → Json Raw → Type 0
  IsRecordOf P v = (es : Entries Raw) × P es × (v ≡ Json.object es)

  -- The entries of a record of a model: the readable fields of the specification in its order, with the
  -- record's values, and no other.
  unfoldable pub HasFields : Spec → String → ℕ → Entries Raw → Type 0
  HasFields empty model id es = es ≡ end
  HasFields (bare name rest) model id es = HasField model id name none (HasFields rest model id) es
  HasFields (nested name inner rest) model id es =
      HasField model id name
        (if is_empty inner
          then none
          else some (λ comodel id'. IsRecordOf (HasFields inner comodel id')))
        (HasFields rest model id) es

  unfoldable pub IsRecord : Spec → String → ℕ → Json Raw → Type 0
  unfolding HasFields
  IsRecord spec model id v = IsRecordOf (HasFields spec model id) v
