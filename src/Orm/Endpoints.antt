-- ===== src/Orm/Endpoints.antt =====
-- ssi_rest_api_orm/controllers/main.py, and `orm_call_readonly` of _helpers.py: the endpoints. Those that
-- only read get the database; the others return it. A model is its name, its `kwargs` are the query of the
-- serializer, or for `call` the arguments of the method.
use ssi_rest_api.Orm.{
  Param, null, text, array, Items, nil, cons, Found, missing, refused, method, MethodResult,
  recordset, value, Odoo, ◌>>=◌,
}
use ssi_rest_api.Orm.Params.{
  resolve_model, parse_json_param, parse_ids, paginate, validation_error, Entry,
  format_read_group_rows,
}
use ssi_rest_api.Prelude.{
  ℕ, String, Bool, true, false, Option, none, some, List, [], ◌∷◌, ◌==◌, if◌then◌else◌,
}
use ssi_rest_api.Prelude.Dict.{Dict, lookup}
use ssi_rest_api.Errors.{rest_auth_error}
use ssi_rest_api.Dispatcher.Arguments.{Outcome, returns, raises}
use ssi_rest_api.Serializer
use ssi_rest_api.Serializer.{Spec, empty, bare, nested, Recordset, Result, ok, fails}
use ssi_rest_api.Serializer.Query.{Query, specification_from_query, query_options}
use ssi_rest_api.Serializer.Records.{serialize}

-- `specification.setdefault(name, {})`
unfoldable pub setdefault : String → Spec → Spec
setdefault name empty = bare name empty
setdefault name (bare field rest) =
    let more = setdefault name rest in if field == name then bare field rest else bare field more
setdefault name (nested field inner rest) =
    let more = setdefault name rest in
    if field == name then nested field inner rest else nested field inner more

-- `{"ids": ..., "length": ...}` and `{"records": ..., "length": ...}`
pub record Searched : Type 0 where
  pub ids : List ℕ
  pub length : ℕ

pub record SearchRead (Raw : Type 0) : Type 0 where
  pub records : Serializer.Items Raw
  pub length : ℕ

-- `request.make_json_response(body, status=...)`; the body is `none` for None.
pub record JsonResponse (A : Type 0) : Type 0 where
  pub status : ℕ
  pub body : Option A

-- The texts of a list, which is what `_read_group` accepts.
abbrev pub text_items : {D : Type 0} → Items D → List String
text_items nil = []
text_items (cons (text s) items) = s ∷ text_items items
text_items (cons v items) = text_items items

abbrev pub spec_list : {D : Type 0} → Param D → List String
spec_list (array items) = text_items items
spec_list v = []

abbrev pub or_empty_list : {D : Type 0} → Param D
or_empty_list = array nil

-- The result of `call`: the ids of records, or a value.
pub data CallResult (Raw : Type 0) : Type 0 where
  record_ids : List ℕ → CallResult Raw
  plain_value : Raw → CallResult Raw

module _ {D Raw M W R : Type 0} (odoo : Odoo D Raw M W R) where
  unfoldable pub as_outcome : {A : Type 0} → Result A → Outcome R A
  as_outcome (ok a) = returns a
  as_outcome (fails f) = raises (odoo.raised f)

  -- `serializer._serialize(records, specification)`
  unfoldable pub serialized : W → Query → Recordset → Spec → Outcome R (Serializer.Items Raw)
  unfolding as_outcome serialize
  serialized w query records spec =
      as_outcome (serialize (odoo.reads w) (query_options query) records spec)

  unfoldable pub orm_search :
      (model : String) (domain limit offset order : Param D) → W → Outcome R Searched
  unfolding resolve_model parse_json_param paginate
  orm_search model domain limit offset order w = do
    target ← resolve_model odoo model
    domain' ← parse_json_param odoo domain or_empty_list
    (limit', offset') ← paginate odoo w limit offset
    ids ← odoo.search w target domain' limit' offset' order
    length ← odoo.search_count w target domain'
    returns (record { ids = ids; length = length })

  unfoldable pub orm_read :
      (model : String) (ids : Param D) → Query → W → Outcome R (Serializer.Items Raw)
  unfolding resolve_model parse_ids serialized specification_from_query
  orm_read model ids query w = do
    target ← resolve_model odoo model
    ids' ← parse_ids odoo ids
    serialized w query (odoo.browse target ids') (specification_from_query query)

  unfoldable pub orm_search_read :
      (model : String) (domain limit offset order : Param D)
      → Query
      → W
      → Outcome R (SearchRead Raw)
  unfolding resolve_model parse_json_param paginate serialized specification_from_query
  orm_search_read model domain limit offset order query w = do
    target ← resolve_model odoo model
    domain' ← parse_json_param odoo domain or_empty_list
    (limit', offset') ← paginate odoo w limit offset
    ids ← odoo.search w target domain' limit' offset' order
    found ←
        serialized w query (record { model = target; ids = ids }) (specification_from_query query)
    length ← odoo.search_count w target domain'
    returns (record { records = found; length = length })

  unfoldable pub orm_read_group :
      (model : String) (domain groupby aggregates limit offset order : Param D)
      → W
      → Outcome R (List (Dict (Entry Raw)))
  unfolding resolve_model parse_json_param paginate format_read_group_rows
  orm_read_group model domain groupby aggregates limit offset order w = do
    target ← resolve_model odoo model
    domain' ← parse_json_param odoo domain or_empty_list
    groupby' ← parse_json_param odoo groupby or_empty_list
    aggregates' ← parse_json_param odoo aggregates or_empty_list
    (limit', offset') ← paginate odoo w limit offset
    rows ← odoo.read_group w target domain' groupby' aggregates' offset' limit' order
    returns (format_read_group_rows (spec_list groupby') (spec_list aggregates') rows)

  -- `vals_list`, or `[vals]`
  unfoldable pub vals_to_create : (vals vals_list : Param D) → Outcome R (Param D)
  vals_to_create null null = raises (validation_error "vals or vals_list is required.")
  vals_to_create vals null = returns (array (cons vals nil))
  vals_to_create vals vals_list = returns vals_list

  -- The step that changes the database, and what is answered from it afterwards.
  abbrev pub then_answer :
      {A B : Type 0} → Outcome R A × W → (A → W → Outcome R B) → Outcome R B × W
  then_answer (raises e, w) answer = (raises e, w)
  then_answer (returns a, w) answer = (answer a w, w)

  -- What stands before the step.
  abbrev pub or_raise : {A B : Type 0} → W → Outcome R A → (A → Outcome R B × W) → Outcome R B × W
  or_raise w (raises e) step = (raises e, w)
  or_raise w (returns a) step = step a

  unfoldable pub created :
      String → Query → List ℕ → W → Outcome R (JsonResponse (Serializer.Items Raw))
  unfolding serialized specification_from_query setdefault
  created target query ids w =
      serialized w query (record { model = target; ids = ids })
        (setdefault "id" (specification_from_query query))
      >>= λ body. returns (record { status = 201; body = some body })

  unfoldable pub orm_create :
      (model : String) (vals vals_list : Param D)
      → Query
      → W
      → Outcome R (JsonResponse (Serializer.Items Raw)) × W
  unfolding resolve_model vals_to_create created
  orm_create model vals vals_list query w = or_raise w (resolve_model odoo model) (λ target.
      or_raise w (vals_to_create vals vals_list)
        (λ list. then_answer (odoo.create target list w) (created target query)))

  unfoldable pub vals_to_write : Param D → Outcome R (Param D)
  vals_to_write null = raises (validation_error "vals is required.")
  vals_to_write vals = returns vals

  unfoldable pub orm_write :
      (model : String) (ids vals : Param D) → Query → W → Outcome R (Serializer.Items Raw) × W
  unfolding resolve_model vals_to_write parse_ids serialized specification_from_query setdefault
  orm_write model ids vals query w = or_raise w (resolve_model odoo model) (λ target.
      or_raise w (vals_to_write vals) (λ vals'. or_raise w (parse_ids odoo ids) (λ ids'.
        then_answer (odoo.write (odoo.browse target ids') vals' w) (λ done w'.
          serialized w' query (odoo.browse target ids')
            (setdefault "id" (specification_from_query query))))))

  unfoldable pub orm_unlink :
      (model : String) (ids : Param D) → W → Outcome R (JsonResponse (Serializer.Items Raw)) × W
  unfolding resolve_model parse_ids
  orm_unlink model ids w = or_raise w (resolve_model odoo model) (λ target.
      or_raise w (parse_ids odoo ids) (λ ids'.
        then_answer (odoo.unlink (odoo.browse target ids') w)
          (λ done w'. returns (record { status = 204; body = none }))))

  -- The handler of AttributeError.
  unfoldable pub public_method : Found M R → Outcome R M
  public_method (missing message) = raises (rest_auth_error "missing_record" message 404 [])
  public_method (refused e) = raises e
  public_method (method m) = returns m

  -- The handler of TypeError around `signature.bind`.
  unfoldable pub bound : Option String → Outcome R (Unit {0})
  bound none = returns tt
  bound (some message) = raises (validation_error message)

  -- `isinstance(result, models.BaseModel)`
  unfoldable pub result_of : MethodResult Raw → CallResult Raw
  result_of (recordset r) = record_ids r.ids
  result_of (value raw) = plain_value raw

  -- `{"result": ...}`
  unfoldable pub orm_call :
      (model name : String) (ids : Param D) (kwargs : D) → W → Outcome R (CallResult Raw) × W
  unfolding resolve_model public_method parse_ids bound result_of
  orm_call model name ids kwargs w = or_raise w (resolve_model odoo model) (λ target.
      or_raise w (public_method (odoo.get_public_method target name)) (λ m.
        or_raise w (parse_ids odoo ids) (λ ids'.
          or_raise w (bound (odoo.bind_error m (odoo.browse target ids') kwargs)) (λ ok_.
            then_answer (odoo.call m (odoo.browse target ids') kwargs w)
              (λ result w'. returns (result_of result))))))

-- The `_readonly` of a class's method: none without the method or without the attribute.
abbrev pub readonly_of : Option (Option Bool) → Option Bool
readonly_of none = none
readonly_of (some attribute) = attribute

abbrev pub readonly_or : Option Bool → Bool → Bool
readonly_or none rest = rest
readonly_or (some readonly) rest = readonly

-- The loop over `model.mro()`; a class is what `getattr` finds on it, with the attribute of each method.
unfoldable pub first_readonly : String → List (Dict (Option Bool)) → Bool
unfolding lookup
first_readonly name [] = false
first_readonly name (class ∷ mro) =
    readonly_or (readonly_of (lookup name class)) (first_readonly name mro)

-- `orm_call_readonly`; `mro` is none where the registry has no such model.
unfoldable pub orm_call_readonly : Option (List (Dict (Option Bool))) → String → Bool
unfolding first_readonly
orm_call_readonly none name = true
orm_call_readonly (some mro) name = first_readonly name mro
