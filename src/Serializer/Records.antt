-- ===== src/Serializer/Records.antt =====
-- ssi_rest_api/models/ssi_rest_serializer.py: `_validate_specification`, the relations, and the recursion over
-- a specification.
use ssi_rest_api.Serializer.{
  Entries, entry, end, invalid, key_error, not_singleton, index_error, Field, FieldType, Items, nil,
  cons, Json, Options, Orm, Recordset, Result, ok, fails, bind, Spec, empty, bare, nested,
  ValidationError, unknown_field, not_relational,
}
use ssi_rest_api.Serializer.Values.{
  serialize_datetime, serialize_date, serialize_binary, serialize_selection, serialize_monetary,
  serialize_float,
}
use ssi_rest_api.Prelude.{
  ℕ, String, Bool, true, false, Option, none, some, List, [], ◌∷◌, ◌==◌, if◌then◌else◌,
}

-- `field.type in ("many2one", "one2many", "many2many")`
abbrev pub is_relational : FieldType → Bool
is_relational FieldType.many2one = true
is_relational FieldType.one2many = true
is_relational FieldType.many2many = true
is_relational _ = false

-- Whether a dictionary is falsy.
abbrev pub is_empty : Spec → Bool
is_empty empty = true
is_empty _ = false

abbrev pub or_error : Option ValidationError → Option ValidationError → Option ValidationError
or_error none next = next
or_error (some e) next = some e

module _ {Raw : Type 0} (orm : Orm Raw) where
  -- The body of the loop for one entry whose field is found, up to the recursive call on the comodel.
  abbrev pub check_nested :
      (model name : String)
      → Field
      → Bool
      → (String → Option ValidationError)
      → Option ValidationError
  check_nested model name field is_bare validate_nested =
      if is_bare
      then none
      else if is_relational field.type
      then validate_nested field.comodel
      else some (not_relational name model)

  abbrev pub check_field :
      (model name : String)
      → Option Field
      → Bool
      → (String → Option ValidationError)
      → Option ValidationError
  check_field model name none is_bare validate_nested = some (unknown_field name model)
  check_field model name (some field) is_bare validate_nested =
      check_nested model name field is_bare validate_nested

  -- `_validate_specification`: the exception, if it raises one.
  unfoldable pub validate : Spec → String → Option ValidationError
  validate empty model = none
  validate (bare name rest) model =
      or_error (check_field model name (orm.field model name) true (λ _. none))
        (validate rest model)
  validate (nested name inner rest) model =
      or_error (check_field model name (orm.field model name) (is_empty inner) (validate inner))
        (validate rest model)

  -- A list comprehension over records.
  abbrev pub each : (ℕ → Result (Json Raw)) → List ℕ → Result (Items Raw)
  each serialize [] = ok nil
  each serialize (id ∷ ids) =
      bind (serialize id) (λ value. bind (each serialize ids) (λ more. ok (cons value more)))

  abbrev pub unless_invalid : {A : Type 0} → Option ValidationError → Result A → Result A
  unless_invalid none r = r
  unless_invalid (some e) r = fails (invalid e)

  -- `_serialize_records`, over what serializes one record of a model.
  abbrev pub serialize_each :
      Spec → (String → ℕ → Result (Json Raw)) → Recordset → Result (Items Raw)
  serialize_each spec serialize records =
      unless_invalid (validate spec records.model) (each (serialize records.model) records.ids)

  -- `value.id`
  abbrev pub the_id : List ℕ → Result ℕ
  the_id (id ∷ []) = ok id
  the_id _ = fails not_singleton

  -- `[0]`
  abbrev pub first : Items Raw → Result (Json Raw)
  first nil = fails index_error
  first (cons value more) = ok value

  abbrev pub as_id : Option String → Bool
  as_id none = false
  as_id (some mode) = mode == "id"

  -- `{"id": …, "display_name": …}`
  abbrev pub reference : ℕ → String → Json Raw
  reference id name =
      Json.object (entry "id" (Json.number id) (entry "display_name" (Json.text name) end))

  -- What a nested specification makes of a recordset; `none` without one.
  abbrev pub Nested : Type 0
  Nested = Option (Recordset → Result (Items Raw))

  abbrev pub many2one_record : Nested → Recordset → List ℕ → Result (Json Raw)
  many2one_record none value ids =
      bind (the_id ids)
        (λ id. bind (orm.display_name value.model id) (λ name. ok (reference id name)))
  many2one_record (some serialize) value ids = bind (serialize value) first

  abbrev pub many2one_value : Options → Nested → Recordset → List ℕ → Result (Json Raw)
  many2one_value options inner value [] = ok Json.false_value
  many2one_value options inner value (id ∷ ids) =
      if as_id options.m2o
      then bind (the_id (id ∷ ids)) (λ id'. ok (Json.number id'))
      else many2one_record inner value (id ∷ ids)

  unfoldable pub serialize_many2one : Options → Nested → Recordset → Result (Json Raw)
  serialize_many2one options inner value = many2one_value options inner value value.ids

  abbrev pub id_items : List ℕ → Items Raw
  id_items [] = nil
  id_items (id ∷ ids) = cons (Json.number id) (id_items ids)

  unfoldable pub serialize_x2many : Nested → Recordset → Result (Json Raw)
  serialize_x2many none value = ok (Json.array (id_items value.ids))
  serialize_x2many (some serialize) value = bind (serialize value) (λ items. ok (Json.array items))

  module _ (options : Options) (model : String) (id : ℕ) (name : String) where
    -- `_serialize_value` of `record[field_name]`
    unfoldable pub serialize_value : FieldType → Nested → Result (Json Raw)
    unfolding serialize_many2one serialize_x2many serialize_datetime serialize_date serialize_binary
        serialize_selection serialize_monetary serialize_float
    serialize_value FieldType.many2one inner =
        bind (orm.read model id name FieldType.many2one) (serialize_many2one options inner)
    serialize_value FieldType.one2many inner =
        bind (orm.read model id name FieldType.one2many) (serialize_x2many inner)
    serialize_value FieldType.many2many inner =
        bind (orm.read model id name FieldType.many2many) (serialize_x2many inner)
    serialize_value FieldType.datetime inner =
        bind (orm.read model id name FieldType.datetime) (λ value. ok (serialize_datetime value))
    serialize_value FieldType.date inner =
        bind (orm.read model id name FieldType.date) (λ value. ok (serialize_date value))
    serialize_value FieldType.binary inner =
        bind (orm.read model id name FieldType.binary) (serialize_binary orm options)
    serialize_value FieldType.selection inner =
        bind (orm.read model id name FieldType.selection)
          (λ value. ok (serialize_selection orm options model name value))
    serialize_value FieldType.monetary inner =
        bind (orm.read model id name FieldType.monetary) (serialize_monetary orm model id name)
    serialize_value FieldType.float inner =
        bind (orm.read model id name FieldType.float)
          (λ value. ok (serialize_float orm model name value))
    serialize_value FieldType.other inner =
        bind (orm.read model id name FieldType.other) (λ value. ok (Json.raw value))

    -- `record._fields[field_name]`, and the value.
    abbrev pub serialize_field : Option Field → Nested → Result (Json Raw)
    serialize_field none inner = fails (key_error name)
    serialize_field (some field) inner = serialize_value field.type inner

    -- The body of the loop of `_serialize_record`, before the entries that follow.
    unfoldable pub add_entry : Nested → Result (Entries Raw) → Result (Entries Raw)
    unfolding serialize_value
    add_entry inner rest =
        if orm.is_readable model name
        then bind (serialize_field (orm.field model name) inner)
            (λ value. bind rest (λ more. ok (entry name value more)))
        else rest

  module _ (options : Options) where
    unfoldable pub serialize_entries : Spec → String → ℕ → Result (Entries Raw)
    unfolding validate add_entry
    serialize_entries empty model id = ok end
    serialize_entries (bare name rest) model id =
        add_entry options model id name none (serialize_entries rest model id)
    serialize_entries (nested name inner rest) model id =
        add_entry options model id name
          (if is_empty inner
            then none
            else some (
                serialize_each inner (λ comodel id'.
                  bind (serialize_entries inner comodel id') (λ es. ok (Json.object es)))))
          (serialize_entries rest model id)

    -- `_serialize_record`
    unfoldable pub serialize_record : Spec → String → ℕ → Result (Json Raw)
    unfolding serialize_entries
    serialize_record spec model id =
        bind (serialize_entries spec model id) (λ es. ok (Json.object es))

    -- `_serialize`
    unfoldable pub serialize : Recordset → Spec → Result (Items Raw)
    unfolding validate serialize_record
    serialize records spec = serialize_each spec (serialize_record spec) records
