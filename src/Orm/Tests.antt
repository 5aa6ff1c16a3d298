-- ===== src/Orm/Tests.antt =====
-- The endpoints on a database of one model, and the theorems applied to it.
use mathlib.Core.Path.{subst}
use ssi_rest_api.Orm.{
  null, boolean, integer, text, array, object, nil, cons, Odoo, records, plain, missing, value,
  loaded, malformed,
}
use ssi_rest_api.Orm.Params.{
  parse_ids, paginate, page_size_param, int_of_value, int_of_text, record_entry, plain_entry,
  format_read_group_rows,
}
use ssi_rest_api.Orm.Endpoints.{
  setdefault, SearchRead, orm_search_read, orm_create, orm_write, orm_call_readonly,
}
use ssi_rest_api.Orm.Ids.{id_list, parse_ids-id_list}
use ssi_rest_api.Orm.Pages.{IsPaged, count, orm_search_read-bounded}
use ssi_rest_api.Orm.Written.{IsCreated, IsWritten, orm_create-IsCreated, orm_write-IsWritten}
use ssi_rest_api.Context.{parse_int}
use ssi_rest_api.Prelude.{
  ℕ, zero, suc, String, ◌≡◌, refl, true, false, Option, none, some, List, [], ◌∷◌, map, length, ◌≤◌,
  ◌==◌, ◌++◌, Bool-cases, inl, inr, arith, if◌then◌else◌,
}
use ssi_rest_api.Prelude.Int.{ℤ, pos, negsuc}
use ssi_rest_api.Errors.{unclassified}
use ssi_rest_api.Dispatcher.Arguments.{returns, raises}
use ssi_rest_api.Serializer
use ssi_rest_api.Serializer.{
  Field, FieldType, Orm, Result, ok, ValueOf, Json, entry, end, many2one, one2many, many2many,
  datetime, date, binary, selection, monetary, other,
}
use ssi_rest_api.Serializer.Outcomes.{Yields}
use ssi_rest_api.Serializer.Reads.{IsOrm, IsStored}
use ssi_rest_api.Serializer.Query.{Query}

abbrev id_field : String → Option Field
id_field name = if name == "id" then some (record { type = other; comodel = "" }) else none

abbrev toy_read : (t : FieldType) → Result (ValueOf String t)
toy_read many2one = ok (record { model = ""; ids = [] })
toy_read one2many = ok (record { model = ""; ids = [] })
toy_read many2many = ok (record { model = ""; ids = [] })
toy_read datetime = ok none
toy_read date = ok none
toy_read binary = ok none
toy_read selection = ok none
toy_read monetary = ok "0"
toy_read FieldType.float = ok "0"
toy_read other = ok "1"

abbrev toy : Orm String
toy = record {
  field = λ model name. id_field name;
  is_readable = λ model name. true;
  read = λ model id name t. toy_read t;
  display_name = λ model id. ok "A";
  labels = λ model name. [];
  currency_field = λ model name. none;
  company_currency = none;
  round_currency = λ currency v. v;
  digits = λ model name. none;
  round_digits = λ decimals v. v;
  b64decode = λ t. none;
  md5 = λ bytes. "";
}

only_id :
    (name : String) (field : Field)
    → id_field name ≡ some field
    → ◌≡◌ {A = Field} (record { type = other; comodel = "" }) field
only_id name field e = elim (Bool-cases (name == "id")) [
  | inl here ↦
      let same : ◌≡◌ {A = Option Field} (some (record { type = other; comodel = "" }))
          (some field) =
        rw here at e in
      cc
  | inr there ↦ let impossible = rw there at e in absurd (cc)
]

toy-IsOrm : IsOrm (λ _. ⊥) toy
toy-IsOrm = record {
  reads = λ model id name field found.
      subst (λ (f : Field). Yields (λ _. ⊥) (IsStored toy f.comodel f.type) (toy_read f.type))
        (only_id name field found) tt;
  currencies = λ model id name currency e. cc;
  display_names = λ model id. tt;
}

abbrev found_for : ℤ → List ℕ
found_for (pos zero) = []
found_for (pos (suc zero)) = 1 ∷ []
found_for (pos (suc (suc n))) = 1 ∷ 2 ∷ []
found_for (negsuc n) = []

abbrev natural : ℤ → ℕ
natural (pos n) = n
natural (negsuc n) = 0

-- The world is the ids that were created; a list of dictionaries makes record 3.
abbrev odoo : Odoo String String ℕ (List ℕ) ℕ
odoo = record {
  has_model = λ model. model == "m";
  get_param = λ w key. if key == "ssi_rest_api.max_page_size" then some "2" else none;
  loads = λ s. if s == "[]" then loaded (array nil) else malformed "no JSON";
  loads_list = λ s. loaded (cons (integer (pos 4)) (cons (text " 5") nil));
  repr = λ s. s;
  is_empty_object = λ o. false;
  browse = λ model ids. record { model = model; ids = map natural ids };
  search = λ w model domain limit offset order. returns (found_for limit);
  search_count = λ w model domain. returns 2;
  read_group = λ w model domain groupby aggregates offset limit order. returns [];
  create = λ model vals w. (returns (3 ∷ []), 3 ∷ w);
  write = λ r vals w. (returns tt, r.ids ++ w);
  unlink = λ r w. (returns tt, []);
  get_public_method = λ model name. missing "no method";
  bind_error = λ m r kwargs. none;
  call = λ m r kwargs w. (returns (value "done"), w);
  reads = λ w. toy;
  raised = λ f. unclassified "serializer";
}

abbrev query : Query
query = record { specification = none; fields = none; m2o = none; binary = none; labels = none }

abbrev one_id : Serializer.Items String
one_id = Serializer.cons (Json.object (entry "id" (Json.raw "1") end)) Serializer.nil

ids_tests :
    (parse_ids odoo (text " 1, 2 ,,-3") ≡ returns (pos 1 ∷ pos 2 ∷ negsuc 2 ∷ []))
    × (parse_ids odoo (text "[4,\" 5\"]") ≡ returns (pos 4 ∷ pos 5 ∷ []))
    × (parse_ids odoo (text "  ") ≡ returns [])
    × (parse_ids odoo (text "a") ≡ raises (unclassified "ValueError"))
    × (parse_ids odoo (array (cons null nil)) ≡ raises (unclassified "TypeError"))
    × (parse_ids odoo (boolean true) ≡ returns (pos 1 ∷ []))
unfolding parse_ids parse_int int_of_text
ids_tests = (refl, refl, refl, refl, refl, refl)

-- The limit is cut to the greatest one, but not from below, and not the default.
page_tests :
    (paginate odoo [] (text "5") null ≡ returns (pos 2, pos 0))
    × (paginate odoo [] null (text "10") ≡ returns (pos 80, pos 10))
    × (paginate odoo [] (integer (pos 0)) null ≡ returns (pos 0, pos 0))
    × (paginate odoo [] (integer (negsuc 0)) null ≡ returns (negsuc 0, pos 0))
unfolding paginate parse_int int_of_text
page_tests = (refl, refl, refl, refl)

readonly_tests :
    (orm_call_readonly none "f" ≡ true)
    × (orm_call_readonly (some ((("f", none) ∷ []) ∷ (("f", some true) ∷ []) ∷ [])) "f" ≡ true)
    × (orm_call_readonly (some ((("g", some true) ∷ []) ∷ [])) "f" ≡ false)
unfolding orm_call_readonly
readonly_tests = (refl, refl, refl)

group_tests :
    format_read_group_rows {Raw = String}
      ("p" ∷ [])
      ("n" ∷ "x" ∷ [])
      ((records (some (7, "A")) ∷ plain "4" ∷ []) ∷ [])
    ≡ (("p", record_entry 7 "A") ∷ ("n", plain_entry "4") ∷ []) ∷ []
unfolding format_read_group_rows
group_tests = refl

parse_ids-id_list_example :
    parse_ids odoo (text (id_list (7 ∷ 12 ∷ 305 ∷ []))) ≡ returns (map pos (7 ∷ 12 ∷ 305 ∷ []))
parse_ids-id_list_example = parse_ids-id_list odoo (7 ∷ 12 ∷ 305 ∷ [])

few_found : (limit : ℕ) → length (found_for (pos limit)) ≤ limit
few_found zero = omega arith
few_found (suc zero) = omega arith
few_found (suc (suc n)) = omega arith

odoo-IsPaged : IsPaged odoo
odoo-IsPaged = record {
  at_most = λ w model domain order limit offset ids e p.
      let same : found_for (pos limit) ≡ ids = cc in
      subst (λ x. length x ≤ limit) same (few_found limit);
}

abbrev two_records : Serializer.Items String
two_records = Serializer.cons (Json.object end) (Serializer.cons (Json.object end) Serializer.nil)

abbrev searched : SearchRead String
searched = record { records = two_records; length = 2 }

runs :
    (orm_search_read odoo "m" null (text "5") null null query [] ≡ returns searched)
    × (page_size_param {R = ℕ} (odoo.get_param [] "ssi_rest_api.max_page_size") 1000
        ≡ returns (pos 2))
    × (int_of_value {D = String} {R = ℕ} (text "5") ≡ returns (pos 5))
    × (orm_create odoo "m" (object "{}") null query []
        ≡ (returns (record { status = 201; body = some one_id }), 3 ∷ []))
    × (orm_write odoo "m" (text "7") (object "{}") query [] ≡ (returns one_id, 7 ∷ []))
unfolding orm_search_read orm_create orm_write page_size_param int_of_value parse_int int_of_text
    setdefault
runs = (refl, refl, refl, refl, refl)

orm_search_read-bounded_example : (count two_records ≤ 5) × (count two_records ≤ 2)
orm_search_read-bounded_example =
    orm_search_read-bounded odoo "m" null (text "5") null null query [] 5 2 searched odoo-IsPaged
      runs.1 runs.2 (omega arith) (omega arith) runs.0

orm_create-IsCreated_example :
    IsCreated odoo
      (λ _. ⊥)
      (λ w. toy-IsOrm)
      "m"
      (object "{}")
      null
      query
      []
      (3 ∷ [])
      (record { status = 201; body = some one_id })
orm_create-IsCreated_example =
    orm_create-IsCreated odoo (λ _. ⊥) (λ w. toy-IsOrm) "m" (object "{}") null query [] (3 ∷ [])
      (record { status = 201; body = some one_id }) refl runs.3

orm_write-IsWritten_example :
    IsWritten odoo (λ _. ⊥) (λ w. toy-IsOrm) "m" (text "7") (object "{}") query [] (7 ∷ []) one_id
orm_write-IsWritten_example =
    orm_write-IsWritten odoo (λ _. ⊥) (λ w. toy-IsOrm) "m" (text "7") (object "{}") query []
      (7 ∷ []) one_id (λ m. refl) runs.4
