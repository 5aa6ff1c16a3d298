-- ===== src/Orm.antt =====
-- ssi_rest_api_orm/controllers: the generic endpoints over Odoo's models. This file has the values of a
-- request and the interface of Odoo that the endpoints use; `D` is the type of JSON objects, `Raw` that of
-- the values which the serializer passes on, `W` the database and `R` the type of responses.
pub mod Limits
pub mod Pages
pub mod Written
mod Tests
pub mod Objects
pub mod Params
pub mod Changes
pub mod Endpoints
pub mod Ids
use ssi_rest_api.Prelude.{ℕ, String, Bool, Option, List}
use ssi_rest_api.Prelude.Int.{ℤ}
use ssi_rest_api.Errors.{Exception}
use ssi_rest_api.Dispatcher.Arguments.{Outcome, returns, raises}
use ssi_rest_api.Serializer
use ssi_rest_api.Serializer.{Recordset, Failure}

-- A parameter: json_or_error JSON of a body, or the text of a query. A float is what `int` makes of it, `none`
-- if it raises.
mutual
  pub data Param (D : Type 0) : Type 0 where
    null : Param D
    boolean : Bool → Param D
    integer : ℤ → Param D
    float : Option ℤ → Param D
    text : String → Param D
    array : Items D → Param D
    object : D → Param D

  pub data Items (D : Type 0) : Type 0 where
    nil : Items D
    cons : Param D → Items D → Items D

-- A cell of a group: records (the id and the name of the first, if there is one), or another value.
pub data Cell (Raw : Type 0) : Type 0 where
  records : Option (ℕ × String) → Cell Raw
  plain : Raw → Cell Raw

-- What `get_public_method` comes to: an AttributeError, another exception, or the method.
pub data Found (M R : Type 0) : Type 0 where
  missing : (message : String) → Found M R
  refused : Exception R → Found M R
  method : M → Found M R

-- What a method returns.
pub data MethodResult (Raw : Type 0) : Type 0 where
  recordset : Recordset → MethodResult Raw
  value : Raw → MethodResult Raw

-- What `json.loads` comes to: a value, or a ValueError with its text.
pub data Loads (A : Type 0) : Type 0 where
  loaded : A → Loads A
  malformed : String → Loads A

infixl 5 ◌>>=◌
abbrev pub ◌>>=◌ : {R A B : Type 0} → Outcome R A → (A → Outcome R B) → Outcome R B
returns a >>= f = f a
raises e >>= f = raises e

-- Whether `env[name]` is there, `ir.config_parameter._get_param`, `json.loads` (`loads_list` of a text
-- that begins with `[`, which is a list), Python's `repr`, whether an object is empty, the methods of the
-- models, what the serializer reads, and the exception that each of its failures is.
pub record Odoo (D Raw M W R : Type 0) : Type 0 where
  pub has_model : String → Bool
  pub get_param : W → String → Option String
  pub loads : String → Loads (Param D)
  pub loads_list : String → Loads (Items D)
  pub repr : String → String
  pub is_empty_object : D → Bool
  pub browse : String → List ℤ → Recordset
  pub search :
      W → String → (domain : Param D) (limit offset : ℤ) (order : Param D) → Outcome R (List ℕ)
  pub search_count : W → String → (domain : Param D) → Outcome R ℕ
  pub read_group :
      W
      → String
      → (domain groupby aggregates : Param D) (offset limit : ℤ) (order : Param D)
      → Outcome R (List (List (Cell Raw)))
  pub create : String → (vals_list : Param D) → W → Outcome R (List ℕ) × W
  pub write : Recordset → (vals : Param D) → W → Outcome R (Unit {0}) × W
  pub unlink : Recordset → W → Outcome R (Unit {0}) × W
  pub get_public_method : String → String → Found M R
  pub bind_error : M → Recordset → (kwargs : D) → Option String
  pub call : M → Recordset → (kwargs : D) → W → Outcome R (MethodResult Raw) × W
  pub reads : W → Serializer.Orm Raw
  pub raised : Failure → Exception R
