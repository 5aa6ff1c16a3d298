-- ===== src/Serializer/Tests.antt =====
-- The serializer on partners of a small database, and specifications of some queries.
use ssi_rest_api.Serializer.{
  entry, end, Field, FieldType, nil, cons, Json, Orm, Recordset, Result, ok, fails, Spec, empty,
  bare, nested, many2one, one2many, many2many, datetime, date, binary, selection, monetary, float,
  other, ValueOf, unknown_field, not_relational, Failure,
}
use ssi_rest_api.Serializer.Outcomes.{Yields, Answers}
use ssi_rest_api.Serializer.Paths.{has_path, has_path-specification_from_query}
use ssi_rest_api.Serializer.Query.{
  Query, specification_from_query, query_options, given_specification, without_options,
  merge_fields,
}
use ssi_rest_api.Serializer.Reads.{IsOrm, IsStored}
use ssi_rest_api.Serializer.Records.{validate, serialize}
use ssi_rest_api.Serializer.Shape.{OneForEach, IsRecord}
use ssi_rest_api.Serializer.Soundness.{serialize-Answers}
use ssi_rest_api.Prelude.{
  nat_eq, ℕ, String, ◌≡◌, refl, ap, sym, ◌∙◌, true, false, Option, none, some, List, [], ◌∷◌,
  contains, ◌==◌, if◌then◌else◌, if_keeps,
}
use ssi_rest_api.Prelude.Text.{split, strip}

abbrev partner : String
partner = "res.partner"

abbrev type_of : String → FieldType
type_of name =
    if name == "parent_id"
    then many2one
    else if name == "child_ids"
    then one2many
    else if name == "date"
    then date
    else if name == "image"
    then binary
    else other

abbrev toy_field : String → Option Field
toy_field name =
    if contains name ("name" ∷ "parent_id" ∷ "child_ids" ∷ "date" ∷ "image" ∷ "secret" ∷ [])
    then some (record { type = type_of name; comodel = partner })
    else none

abbrev partners : List ℕ → Recordset
partners ids = record { model = partner; ids = ids }

-- The names of three records.
abbrev name_of : ℕ → String
name_of id = if nat_eq id 1 then "Ann" else if nat_eq id 8 then "Bob" else "Eve"

abbrev toy_read : ℕ → (t : FieldType) → Result (ValueOf String t)
toy_read id many2one = ok (partners (7 ∷ []))
toy_read id one2many = ok (partners (8 ∷ 9 ∷ []))
toy_read id many2many = ok (partners [])
toy_read id datetime = ok none
toy_read id date = ok (some (record { year = 2026; month = 3; day = 9 }))
toy_read id binary = ok (some "aGk=")
toy_read id selection = ok none
toy_read id monetary = ok "1.00"
toy_read id float = ok "1.5"
toy_read id other = ok (name_of id)

abbrev toy : Orm String
toy = record {
  field = λ model name. toy_field name;
  is_readable = λ model name. if name == "secret" then false else true;
  read = λ model id name t. toy_read id t;
  display_name = λ model id. ok (name_of id);
  labels = λ model name. [];
  currency_field = λ model name. none;
  company_currency = none;
  round_currency = λ currency value. value;
  digits = λ model name. none;
  round_digits = λ decimals value. value;
  b64decode = λ text. some (104 ∷ 105 ∷ []);
  md5 = λ bytes. "49f68a5c8493ec2c0bf489821c21fc3b";
}

abbrev comodel_of : Option Field → String
comodel_of none = partner
comodel_of (some field) = field.comodel

toy-comodel : (name : String) → comodel_of (toy_field name) ≡ partner
toy-comodel name =
    if_keeps (λ o. comodel_of o ≡ partner)
      (contains name ("name" ∷ "parent_id" ∷ "child_ids" ∷ "date" ∷ "image" ∷ "secret" ∷ [])) refl
      refl

toy_read-IsStored :
    (id : ℕ) (comodel : String)
    → partner ≡ comodel
    → (t : FieldType) → Yields (λ _. ⊥) (IsStored toy comodel t) (toy_read id t)
toy_read-IsStored id comodel e many2one = (e, tt)
toy_read-IsStored id comodel e one2many = e
toy_read-IsStored id comodel e many2many = e
toy_read-IsStored id comodel e datetime = tt
toy_read-IsStored id comodel e date = tt
toy_read-IsStored id comodel e binary = (_, refl)
toy_read-IsStored id comodel e selection = tt
toy_read-IsStored id comodel e monetary = tt
toy_read-IsStored id comodel e float = tt
toy_read-IsStored id comodel e other = tt

toy-IsOrm : IsOrm (λ _. ⊥) toy
toy-IsOrm = record {
  reads = λ model id name field found.
      toy_read-IsStored id field.comodel (sym (toy-comodel name) ∙ ap comodel_of found) field.type;
  currencies = λ model id name currency e. cc;
  display_names = λ model id. tt;
}

abbrev query : Query
query = record {
  specification = none;
  fields = some "name, secret,child_ids.name,child_ids.parent_id";
  m2o = none;
  binary = none;
  labels = some "1";
}

abbrev spec : Spec
spec = bare "name" (bare "secret" (nested "child_ids" (bare "name" (bare "parent_id" empty)) empty))

query_test : specification_from_query query ≡ spec
unfolding specification_from_query given_specification merge_fields without_options split strip
query_test = refl

has_path-specification_from_query_example :
    has_path ("child_ids" ∷ "parent_id" ∷ []) (specification_from_query query) ≡ true
unfolding split strip
has_path-specification_from_query_example =
    has_path-specification_from_query query "child_ids" ("parent_id" ∷ []) refl

serialize-Answers_example :
    Answers
      (λ _. ⊥)
      (validate toy spec partner)
      (OneForEach (IsRecord toy (query_options query) spec partner) (1 ∷ 8 ∷ []))
      (serialize toy (query_options query) (partners (1 ∷ 8 ∷ [])) spec)
serialize-Answers_example =
    serialize-Answers (λ _. ⊥) toy toy-IsOrm (query_options query) (partners (1 ∷ 8 ∷ [])) spec

abbrev child : ℕ → Json String
child id = Json.object (
    entry "name" (Json.raw (name_of id)) (
      entry "parent_id"
        (Json.object (entry "id" (Json.number 7) (entry "display_name" (Json.text "Eve") end)))
        end))

-- `secret` is not readable, and is left out.
serialize_test :
    serialize toy (query_options query) (partners (1 ∷ [])) spec
    ≡ ok (
        cons
          (Json.object (
            entry "name"
              (Json.raw "Ann")
              (entry "child_ids" (Json.array (cons (child 8) (cons (child 9) nil))) end)))
          nil)
unfolding serialize query_options
serialize_test = refl

unknown_test :
    serialize toy (query_options query) (partners []) (nested "child_ids" (bare "age" empty) empty)
    ≡ fails (Failure.invalid (unknown_field "age" partner))
unfolding serialize
unknown_test = refl

not_relational_test :
    validate toy (nested "name" (bare "id" empty) empty) partner
    ≡ some (not_relational "name" partner)
unfolding validate
not_relational_test = refl
