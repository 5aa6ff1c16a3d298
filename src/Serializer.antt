-- ===== src/Serializer.antt =====
-- ssi_rest_api/models/ssi_rest_serializer.py: the data of the serializer that the endpoint modules share,
-- which turns records into JSON by a specification of fields. Odoo's ORM is the interface Orm: what
-- the serializer reads of models, fields and records.
pub mod Fields
pub mod Outcomes
pub mod Records
pub mod Paths
pub mod Query
pub mod Reads
pub mod Relations
pub mod Scalars
pub mod Shape
pub mod Soundness
pub mod Validation
pub mod Values
mod Tests
use ssi_rest_api.Prelude.{
  ℕ, String, ◌≡◌, Bool, true, false, Option, none, some, List, [], ◌∷◌, length, ◌≤◌, ◌≢◌,
}
use ssi_rest_api.Prelude.Dict.{Dict}

-- `field.type`; the types that the serializer treats alike are `other`.
pub data FieldType : Type 0 where
  many2one one2many many2many datetime date binary selection monetary float other : FieldType

pub record Field : Type 0 where
  pub type : FieldType
  pub comodel : String

-- A specification: a dictionary in its order, whose entries have a truthy `"fields"` (`nested`, with
-- another specification) or are `None`, empty or without `"fields"` (`bare`). The dictionary that is
-- empty is falsy, also as `"fields"`.
pub data Spec : Type 0 where
  empty : Spec
  bare : String → Spec → Spec
  nested : String → Spec → Spec → Spec

-- The global options; a missing key is `none`.
pub record Options : Type 0 where
  pub m2o : Option String
  pub binary : Option String
  pub labels : Bool

-- A naive value in UTC, as Odoo reads it.
pub record Date : Type 0 where
  pub year : ℕ
  pub month : ℕ
  pub day : ℕ

pub record Datetime : Type 0 where
  pub date : Date
  pub hour : ℕ
  pub minute : ℕ
  pub second : ℕ

-- Records of one model, by their ids.
pub record Recordset : Type 0 where
  pub model : String
  pub ids : List ℕ

-- `raw` is a value that the serializer passes on as it is, or rounded.
mutual
  pub data Json (Raw : Type 0) : Type 0 where
    null false_value : Json Raw
    raw : Raw → Json Raw
    number : ℕ → Json Raw
    text : String → Json Raw
    array : Items Raw → Json Raw
    object : Entries Raw → Json Raw

  pub data Items (Raw : Type 0) : Type 0 where
    nil : Items Raw
    cons : Json Raw → Items Raw → Items Raw

  pub data Entries (Raw : Type 0) : Type 0 where
    end : Entries Raw
    entry : String → Json Raw → Entries Raw → Entries Raw

-- The two messages of the `ValidationError`s, with the names in them.
pub data ValidationError : Type 0 where
  unknown_field : (field model : String) → ValidationError
  not_relational : (field model : String) → ValidationError

-- What a call can raise: the serializer's own exception, one of the ORM's (`AccessError`), and what
-- Python raises for `_fields[name]`, for `.id` of several records, for `[0]` of an empty list, and for
-- the base64 of an invalid text.
pub data Failure : Type 0 where
  invalid : ValidationError → Failure
  refused : String → Failure
  key_error : String → Failure
  not_singleton : Failure
  index_error : Failure
  bad_base64 : Failure

pub data Result (A : Type 0) : Type 0 where
  ok : A → Result A
  fails : Failure → Result A

abbrev pub bind : {A B : Type 0} → Result A → (A → Result B) → Result B
bind (ok a) f = f a
bind (fails e) f = fails e

-- `record[name]` of a field of each type; `none` is `False`.
abbrev pub ValueOf : Type 0 → FieldType → Type 0
ValueOf Raw many2one = Recordset
ValueOf Raw one2many = Recordset
ValueOf Raw many2many = Recordset
ValueOf Raw datetime = Option Datetime
ValueOf Raw date = Option Date
ValueOf Raw binary = Option String
ValueOf Raw selection = Option String
ValueOf Raw monetary = Raw
ValueOf Raw float = Raw
ValueOf Raw other = Raw

-- `model._fields`, `fields_get` for the current user, `record[name]`, `display_name`, the labels of a
-- selection, the field of the currency, the currency of the company, the rounding of an amount, and
-- base64 and MD5 of Python's library.
pub record Orm (Raw : Type 0) : Type 0 where
  pub field : String → String → Option Field
  pub is_readable : String → String → Bool
  pub read : String → ℕ → String → (t : FieldType) → Result (ValueOf Raw t)
  pub display_name : String → ℕ → Result String
  pub labels : String → String → Dict String
  pub currency_field : String → String → Option String
  pub company_currency : Option ℕ
  pub round_currency : ℕ → Raw → Raw
  pub digits : String → String → Option (ℕ × ℕ)
  pub round_digits : ℕ → Raw → Raw
  pub b64decode : String → Option (List ℕ)
  pub md5 : List ℕ → String
