-- ===== src/Serializer/Reads.antt =====
-- What the serializer relies on of Odoo's ORM, and of the call for a nested specification.
use ssi_rest_api.Serializer.{
  Field, FieldType, Orm, Recordset, many2one, one2many, many2many, datetime, date, binary,
  selection, monetary, float, other, ValueOf,
}
use ssi_rest_api.Serializer.Outcomes.{Yields}
use ssi_rest_api.Serializer.Records.{Nested}
use ssi_rest_api.Serializer.Shape.{Promise, OneForEach}
use ssi_rest_api.Prelude.{ℕ, String, ◌≡◌, Option, none, some, List, [], ◌∷◌}

abbrev pub AtMostOne : List ℕ → Type 0
AtMostOne [] = Unit
AtMostOne (id ∷ []) = Unit
AtMostOne (_ ∷ _ ∷ _) = ⊥

module _ {Raw : Type 0} (orm : Orm Raw) where
  abbrev pub IsBase64 : Option String → Type 0
  IsBase64 none = Unit
  IsBase64 (some value) = (bytes : List ℕ) × (orm.b64decode value ≡ some bytes)

  -- What a field of each type can hold.
  abbrev pub IsStored : (comodel : String) (t : FieldType) → ValueOf Raw t → Type 0
  IsStored comodel many2one value = (value.model ≡ comodel) × AtMostOne value.ids
  IsStored comodel one2many value = value.model ≡ comodel
  IsStored comodel many2many value = value.model ≡ comodel
  IsStored comodel binary value = IsBase64 value
  IsStored comodel datetime value = Unit
  IsStored comodel date value = Unit
  IsStored comodel selection value = Unit
  IsStored comodel monetary value = Unit
  IsStored comodel float value = Unit
  IsStored comodel other value = Unit

module _ (Refused : String → Type 0) {Raw : Type 0} (orm : Orm Raw) where
  -- Odoo's fields: a relation holds records of its comodel, a many2one at most one, a binary base64; a
  -- read can be refused, and raises nothing else.
  pub record IsOrm : Type 0 where
    pub reads :
        (model : String) (id : ℕ) (name : String) (field : Field)
        → orm.field model name ≡ some field
        → Yields Refused (IsStored orm field.comodel field.type) (orm.read model id name field.type)
    pub currencies :
        (model : String) (id : ℕ) (name currency : String)
        → orm.currency_field model name ≡ some currency
        → Yields Refused (λ value. AtMostOne value.ids) (orm.read model id currency many2one)
    pub display_names :
        (model : String) (id : ℕ) → Yields Refused (λ name. Unit) (orm.display_name model id)

  -- The nested call, if there is one, keeps the contract of the nested specification.
  abbrev pub Keeps : String → Nested orm → Promise Raw → Type 0
  Keeps comodel none none = Unit
  Keeps comodel (some serialize) (some P) =
      (value : Recordset)
      → value.model ≡ comodel
      → Yields Refused (OneForEach (P comodel) value.ids) (serialize value)
  Keeps comodel none (some P) = ⊥
  Keeps comodel (some serialize) none = ⊥
