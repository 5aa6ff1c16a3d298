-- ===== src/Serializer/Fields.antt =====
-- ssi_rest_api/models/ssi_rest_serializer.py, `_serialize_value`: the value of a field of each type is that of
-- the record and keeps the contract of its type.
use ssi_rest_api.Serializer.{
  FieldType, Json, Options, Orm, Result, ok, bind, ValueOf, many2one, one2many, many2many, datetime,
  date, binary, selection, monetary, float, other,
}
use ssi_rest_api.Serializer.Outcomes.{Yields, Yields-bind, Yields-map, Yields-returned}
use ssi_rest_api.Serializer.Reads.{IsStored, IsOrm, Keeps}
use ssi_rest_api.Serializer.Records.{Nested, serialize_value, serialize_many2one, serialize_x2many}
use ssi_rest_api.Serializer.Relations.{serialize_many2one-AtMost, serialize_x2many-Many}
use ssi_rest_api.Serializer.Scalars.{
  serialize_binary-HasType, serialize_datetime-HasType, serialize_date-HasType,
  serialize_selection-HasType, serialize_monetary-HasType,
}
use ssi_rest_api.Serializer.Shape.{HasType, IsRead, Promise, IsRaw}
use ssi_rest_api.Serializer.Values.{
  serialize_datetime, serialize_date, serialize_binary, serialize_selection, serialize_monetary,
  serialize_float,
}
use ssi_rest_api.Prelude.{ℕ, String, ◌≡◌, refl}

module _ {Raw : Type 0} (Refused : String → Type 0) (orm : Orm Raw) (h : IsOrm Refused orm)
    (options : Options) where
  -- A value that is made of what is read.
  read_then :
      (model : String) (id : ℕ) (name : String) (comodel : String) (P : Promise Raw) (t : FieldType)
      (f : ValueOf Raw t → Result (Json Raw))
      → Yields Refused (IsStored orm comodel t) (orm.read model id name t)
      → ((value : ValueOf Raw t)
          → IsStored orm comodel t value
          → Yields Refused (HasType orm options model id name t comodel P value) (f value))
      → Yields Refused
          (IsRead orm options model id name (record { type = t; comodel = comodel }) P)
          (bind (orm.read model id name t) f)
  read_then model id name comodel P t f stored k =
      Yields-bind Refused
        (λ value. IsStored orm comodel t value × (orm.read model id name t ≡ ok value))
        (IsRead orm options model id name (record { type = t; comodel = comodel }) P)
        (orm.read model id name t) f
        (Yields-returned Refused (IsStored orm comodel t) (orm.read model id name t) stored)
        (λ value (held, same).
          Yields-map Refused (HasType orm options model id name t comodel P value) _ (f value)
            (k value held) (λ v typed. (value, same, typed)))

  pub serialize_value-IsRead :
      (model : String) (id : ℕ) (name : String) (comodel : String) (inner : Nested orm)
      (P : Promise Raw)
      → Keeps Refused orm comodel inner P
      → (t : FieldType) → Yields Refused (IsStored orm comodel t) (orm.read model id name t)
      → Yields Refused
          (IsRead orm options model id name (record { type = t; comodel = comodel }) P)
          (serialize_value orm options model id name t inner)
  unfolding serialize_value
  serialize_value-IsRead model id name comodel inner P keeps many2one stored =
      read_then model id name comodel P many2one (serialize_many2one orm options inner) stored
        (λ value (same, single).
          serialize_many2one-AtMost Refused orm h options comodel inner P value keeps same single)
  serialize_value-IsRead model id name comodel inner P keeps one2many stored =
      read_then model id name comodel P one2many (serialize_x2many orm inner) stored
        (λ value same. serialize_x2many-Many Refused orm h options comodel inner P value keeps same)
  serialize_value-IsRead model id name comodel inner P keeps many2many stored =
      read_then model id name comodel P many2many (serialize_x2many orm inner) stored
        (λ value same. serialize_x2many-Many Refused orm h options comodel inner P value keeps same)
  serialize_value-IsRead model id name comodel inner P keeps datetime stored =
      read_then model id name comodel P datetime (λ value. ok (serialize_datetime value)) stored
        (λ value _. (serialize_datetime-HasType Refused orm h options value, refl))
  serialize_value-IsRead model id name comodel inner P keeps date stored =
      read_then model id name comodel P date (λ value. ok (serialize_date value)) stored
        (λ value _. (serialize_date-HasType Refused orm h options value, refl))
  serialize_value-IsRead model id name comodel inner P keeps binary stored =
      read_then model id name comodel P binary (serialize_binary orm options) stored (λ value held.
        Yields-returned Refused _ (serialize_binary orm options value)
          (serialize_binary-HasType Refused orm h options value held))
  serialize_value-IsRead model id name comodel inner P keeps selection stored =
      read_then model id name comodel P selection
        (λ value. ok (serialize_selection orm options model name value)) stored
        (λ value _. (serialize_selection-HasType Refused orm h options model name value, refl))
  serialize_value-IsRead model id name comodel inner P keeps monetary stored =
      read_then model id name comodel P monetary (serialize_monetary orm model id name) stored
        (λ value _.
          Yields-returned Refused IsRaw (serialize_monetary orm model id name value)
            (serialize_monetary-HasType Refused orm h options model id name value))
  serialize_value-IsRead model id name comodel inner P keeps float stored =
      read_then model id name comodel P float (λ value. ok (serialize_float orm model name value))
        stored (λ value _. refl)
  serialize_value-IsRead model id name comodel inner P keeps other stored =
      read_then model id name comodel P other (λ value. ok (Json.raw value)) stored
        (λ value _. refl)
