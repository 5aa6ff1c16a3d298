-- ===== src/Serializer/Query.antt =====
-- ssi_rest_api/models/ssi_rest_serializer.py: `_specification_from_query` and `_merge_dotted_path`.
use ssi_rest_api.Serializer.{Options, Spec, empty, bare, nested}
use ssi_rest_api.Prelude.{
  String, Bool, true, false, Option, none, some, List, [], ◌∷◌, contains, ◌==◌, if◌then◌else◌,
}
use ssi_rest_api.Prelude.Text.{split, strip}

-- The options of a query, each a text; `labels` is its `str`.
pub record Query : Type 0 where
  pub specification : Option Spec
  pub fields : Option String
  pub m2o : Option String
  pub binary : Option String
  pub labels : Option String

-- `if rest:`
abbrev pub if_rest : {A : Type 0} → List String → A → A → A
if_rest [] without with_rest = without
if_rest (_ ∷ _) without with_rest = with_rest

-- `setdefault(head, {})`, and if there is a rest, `setdefault("fields", {})` of the entry and the
-- recursive call on it.
unfoldable pub put : String → List String → (Spec → Spec) → Spec → Spec
put head rest merge_rest empty =
    if_rest rest (bare head empty) (nested head (merge_rest empty) empty)
put head rest merge_rest (bare name more) =
    let changed = put head rest merge_rest more in
    if name == head
    then if_rest rest (bare name more) (nested name (merge_rest empty) more)
    else bare name changed
put head rest merge_rest (nested name inner more) =
    let changed = put head rest merge_rest more in
    if name == head
    then if_rest rest (nested name inner more) (nested name (merge_rest inner) more)
    else nested name inner changed

-- `_merge_dotted_path`, which is called with one part at least.
unfoldable pub merge_dotted_path : List String → Spec → Spec
unfolding put
merge_dotted_path [] spec = spec
merge_dotted_path (head ∷ rest) spec = put head rest (merge_dotted_path rest) spec

-- The parts of one item of `fields`; an item that is blank has none.
abbrev pub path_parts : String → List String
path_parts stripped = if stripped == "" then [] else split b'.' stripped

-- The loop over the items, `if dotted_path:` included.
unfoldable pub merge_fields : List String → Spec → Spec
unfolding merge_dotted_path
merge_fields [] spec = spec
merge_fields (item ∷ items) spec =
    merge_fields items (merge_dotted_path (path_parts (strip item)) spec)

-- `if fields_param:`
abbrev pub field_items : Option String → List String
field_items none = []
field_items (some fields) = if fields == "" then [] else split b',' fields

-- `if explicit_specification:`
abbrev pub is_given : Option Spec → Bool
is_given none = false
is_given (some empty) = false
is_given (some (bare name more)) = true
is_given (some (nested name inner more)) = true

unfoldable pub given_specification : Option Spec → List String → Spec
unfolding merge_fields
given_specification none items = merge_fields items empty
given_specification (some empty) items = merge_fields items empty
given_specification (some (bare name more)) items = bare name more
given_specification (some (nested name inner more)) items = nested name inner more

abbrev pub options_key : String
options_key = "__options__"

-- The key of the options is overwritten: it names no field.
unfoldable pub without_options : Spec → Spec
without_options empty = empty
without_options (bare name more) =
    let rest = without_options more in if name == options_key then rest else bare name rest
without_options (nested name inner more) =
    let rest = without_options more in if name == options_key then rest else nested name inner rest

-- `str(query.get("labels")) in _TRUE_STRINGS`
abbrev pub is_true : Option String → Bool
is_true none = false
is_true (some text) = contains text ("1" ∷ "true" ∷ "True" ∷ [])

unfoldable pub query_options : Query → Options
query_options query = record {
  m2o = query.m2o;
  binary = query.binary;
  labels = is_true query.labels;
}

-- The fields of the specification; `query_options` stands under its key of options.
unfoldable pub specification_from_query : Query → Spec
unfolding given_specification without_options
specification_from_query query =
    without_options (given_specification query.specification (field_items query.fields))
