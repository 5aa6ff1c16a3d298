-- ===== src/Orm/Params.antt =====
-- ssi_rest_api_orm/controllers/_helpers.py: the parameters of the endpoints.
use Prim.Native.String.{◌++◌ as append}
use ssi_rest_api.Orm.{
  Param, null, boolean, integer, float, text, array, object, Items, nil, cons, Cell, records, plain,
  Loads, loaded, malformed, Odoo, ◌>>=◌,
}
use ssi_rest_api.Context.{parse_int}
use ssi_rest_api.Prelude.{
  ℕ, String, Bool, true, false, not, Option, none, some, List, [], ◌∷◌, ◌++◌, map, ◌==◌,
  if◌then◌else◌,
}
use ssi_rest_api.Prelude.Dict.{Dict, insert}
use ssi_rest_api.Prelude.Int.{ℤ, pos, leb_ℤ}
use ssi_rest_api.Prelude.Text.{strip, split, strip_prefix}
use ssi_rest_api.Errors.{Exception, rest_auth_error, unclassified}
use ssi_rest_api.Dispatcher.Arguments.{Outcome, returns, raises}

abbrev pub validation_error : {R : Type 0} → String → Exception R
validation_error message = rest_auth_error "validation_error" message 422 []

abbrev pub int_or : {R : Type 0} → String → Option ℤ → Outcome R ℤ
int_or exception none = raises (unclassified exception)
int_or exception (some n) = returns n

-- `int(text)`
unfoldable pub int_of_text : {R : Type 0} → String → Outcome R ℤ
unfolding parse_int
int_of_text s = int_or "ValueError" (parse_int s)

-- `int(value)`
unfoldable pub int_of_value : {D R : Type 0} → Param D → Outcome R ℤ
unfolding int_of_text
int_of_value null = raises (unclassified "TypeError")
int_of_value (boolean b) = returns (if b then pos 1 else pos 0)
int_of_value (integer n) = returns n
int_of_value (float n) = int_or "OverflowError" n
int_of_value (text s) = int_of_text s
int_of_value (array items) = raises (unclassified "TypeError")
int_of_value (object o) = raises (unclassified "TypeError")

-- `[int(item) for item in items]`
unfoldable pub ints_of_items : {D R : Type 0} → Items D → Outcome R (List ℤ)
unfolding int_of_value
ints_of_items nil = returns []
ints_of_items (cons v items) = do n ← int_of_value v; ns ← ints_of_items items; returns (n ∷ ns)

-- `[int(item) for item in texts if item.strip()]`
unfoldable pub ints_of_texts : {R : Type 0} → List String → Outcome R (List ℤ)
unfolding strip
ints_of_texts [] = returns []
ints_of_texts (s ∷ text_items) =
    let rest = ints_of_texts text_items in
    if strip s == "" then rest else int_of_text s >>= λ n. rest >>= λ ns. returns (n ∷ ns)

abbrev pub is_list_text : String → Bool
is_list_text s = elim (strip_prefix "[" s) [ none ↦ false | some rest ↦ true ]

-- `int(icp._get_param(key) or default)`
unfoldable pub page_size_param : {R : Type 0} → Option String → ℕ → Outcome R ℤ
unfolding int_of_text
page_size_param none default = returns (pos default)
page_size_param (some s) default = if s == "" then returns (pos default) else int_of_text s

abbrev pub min_ℤ : ℤ → ℤ → ℤ
min_ℤ a b = if leb_ℤ a b then a else b

unfoldable pub resolved_limit :
    {D R : Type 0} → Param D → (default_page_size max_page_size : ℤ) → Outcome R ℤ
unfolding int_of_value
resolved_limit null default_page_size max_page_size = returns default_page_size
resolved_limit limit default_page_size max_page_size =
    int_of_value limit >>= λ n. returns (min_ℤ n max_page_size)

module _ {D Raw M W R : Type 0} (odoo : Odoo D Raw M W R) where
  -- `resolve_model`; a model is its name.
  unfoldable pub resolve_model : String → Outcome R String
  resolve_model model =
      if odoo.has_model model
      then returns model
      else raises (
          rest_auth_error "missing_record"
            (append "Model " (append (odoo.repr model) " does not exist.")) 404 [])

  -- The handler of ValueError.
  abbrev pub json_or_error : {A : Type 0} → Loads A → Outcome R A
  json_or_error (malformed message) = raises (validation_error (append "Invalid JSON: " message))
  json_or_error (loaded a) = returns a

  -- `parse_json_param`
  unfoldable pub parse_json_param : Param D → Param D → Outcome R (Param D)
  parse_json_param null default = returns default
  parse_json_param (text s) default = json_or_error (odoo.loads s)
  parse_json_param (boolean b) default = returns (boolean b)
  parse_json_param (integer n) default = returns (integer n)
  parse_json_param (float n) default = returns (float n)
  parse_json_param (array items) default = returns (array items)
  parse_json_param (object o) default = returns (object o)

  -- The two forms of a text that is not empty, stripped.
  unfoldable pub ids_of_text : String → Outcome R (List ℤ)
  unfolding ints_of_items ints_of_texts strip_prefix split
  ids_of_text stripped =
      if is_list_text stripped
      then json_or_error (odoo.loads_list stripped) >>= ints_of_items
      else ints_of_texts (split b',' stripped)

  -- `parse_ids`
  unfoldable pub parse_ids : Param D → Outcome R (List ℤ)
  unfolding ids_of_text ints_of_items strip
  parse_ids null = returns []
  parse_ids (boolean b) = returns ((if b then pos 1 else pos 0) ∷ [])
  parse_ids (integer n) = returns (n ∷ [])
  parse_ids (text s) = if s == "" then returns [] else ids_of_text (strip s)
  parse_ids (array items) = ints_of_items items
  parse_ids (float n) =
      raises (validation_error "ids must be an integer, a comma-separated string, or a list.")
  parse_ids (object o) =
      raises (validation_error "ids must be an integer, a comma-separated string, or a list.")

  abbrev pub is_falsy : Param D → Bool
  is_falsy null = true
  is_falsy (boolean b) = not b
  is_falsy (integer (pos ℕ.zero)) = true
  is_falsy (integer n) = false
  is_falsy (float n) = false
  is_falsy (text s) = s == ""
  is_falsy (array nil) = true
  is_falsy (array (cons v items)) = false
  is_falsy (object o) = odoo.is_empty_object o

  -- `int(offset or 0)`; for a float that is zero both are 0.
  unfoldable pub resolved_offset : Param D → Outcome R ℤ
  unfolding int_of_value
  resolved_offset offset = if is_falsy offset then returns (pos 0) else int_of_value offset

  -- `paginate`
  unfoldable pub paginate : W → (limit offset : Param D) → Outcome R (ℤ × ℤ)
  unfolding page_size_param resolved_limit resolved_offset
  paginate w limit offset = do
    default_page_size ← page_size_param (odoo.get_param w "ssi_rest_api.default_page_size") 80
    max_page_size ← page_size_param (odoo.get_param w "ssi_rest_api.max_page_size") 1000
    limit' ← resolved_limit limit default_page_size max_page_size
    offset' ← resolved_offset offset
    returns (limit', offset')

-- An entry of a group: records are the id and name of the first, or False.
pub data Entry (Raw : Type 0) : Type 0 where
  record_entry : (id : ℕ) (display_name : String) → Entry Raw
  false_entry : Entry Raw
  plain_entry : Raw → Entry Raw

abbrev pub entry_of : {Raw : Type 0} → Cell Raw → Entry Raw
entry_of (records none) = false_entry
entry_of (records (some (id, name))) = record_entry id name
entry_of (plain raw) = plain_entry raw

-- The loop over `zip(specs, row)`, which ends with the shorter of them.
unfoldable pub format_row :
    {Raw : Type 0} → List String → List (Cell Raw) → Dict (Entry Raw) → Dict (Entry Raw)
unfolding insert
format_row [] row entry = entry
format_row (spec ∷ specs) [] entry = entry
format_row (spec ∷ specs) (cell ∷ row) entry =
    format_row specs row (insert (spec, entry_of cell) entry)

-- `format_read_group_rows`
unfoldable pub format_read_group_rows :
    {Raw : Type 0}
    → (groupby aggregates : List String) → List (List (Cell Raw))
    → List (Dict (Entry Raw))
unfolding format_row
format_read_group_rows groupby aggregates rows =
    map (λ row. format_row (groupby ++ aggregates) row []) rows
