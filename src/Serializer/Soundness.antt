-- ===== src/Serializer/Soundness.antt =====
-- ssi_rest_api/models/ssi_rest_serializer.py: the recursion over a specification keeps the contract.
use ssi_rest_api.Serializer.{
  Entries, entry, Field, Items, cons, Json, Options, Orm, Recordset, Result, ok, bind, Spec, empty,
  bare, nested, ValidationError,
}
use ssi_rest_api.Serializer.Fields.{serialize_value-IsRead}
use ssi_rest_api.Serializer.Outcomes.{Yields, Yields-bind, Yields-if, Answers}
use ssi_rest_api.Serializer.Reads.{IsOrm, Keeps}
use ssi_rest_api.Serializer.Records.{
  is_empty, validate, each, unless_invalid, serialize_each, add_entry, serialize_field,
  serialize_entries, serialize_record, serialize, Nested,
}
use ssi_rest_api.Serializer.Validation.{or_error-none, check_field-none}
use ssi_rest_api.Serializer.Shape.{
  IsRead, Promise, OneForEach, HasField, HasFields, IsEntry, IsRecord, IsRecordOf,
}
use mathlib.Core.Path.{subst, sym}
use ssi_rest_api.Prelude.{
  ℕ, String, ◌≡◌, refl, Bool, true, false, Option, none, some, List, [], ◌∷◌, if◌then◌else◌,
}

module _ {Raw : Type 0} (Refused : String → Type 0) (orm : Orm Raw) (h : IsOrm Refused orm)
    (options : Options) where
  -- A field that the validation found.
  abbrev IsFound : (model name : String) → Nested orm → Promise Raw → Type 0
  IsFound model name inner P =
      (field : Field) × (orm.field model name ≡ some field)
      × Keeps Refused orm field.comodel inner P

  add_entry-HasField :
      (model : String) (id : ℕ) (name : String) (inner : Nested orm) (P : Promise Raw)
      (Rest : Entries Raw → Type 0) (rest : Result (Entries Raw))
      → IsFound model name inner P
      → Yields Refused Rest rest
      → Yields Refused
          (HasField orm options model id name P Rest)
          (add_entry orm options model id name inner rest)
  unfolding add_entry
  add_entry-HasField model id name inner P Rest rest (field, found, keeps) k =
      Yields-if Refused (orm.is_readable model name) (IsEntry orm options model id name P Rest) Rest
        _ rest
        (Yields-bind Refused (IsRead orm options model id name field P)
          (IsEntry orm options model id name P Rest)
          (serialize_field orm options model id name (orm.field model name) inner)
          (λ v. bind rest (λ more. ok (entry name v more)))
          (subst
            (λ o.
              Yields Refused (IsRead orm options model id name field P)
                (serialize_field orm options model id name o inner))
            (sym found)
            (serialize_value-IsRead Refused orm h options model id name field.comodel inner P keeps
              field.type (h.reads model id name field found)))
          (λ v typed.
            Yields-bind Refused Rest (IsEntry orm options model id name P Rest) rest
              (λ more. ok (entry name v more)) k
              (λ more kept. (field, v, more, found, typed, kept, refl))))
        k

  each-OneForEach :
      (P : ℕ → Json Raw → Type 0) (f : ℕ → Result (Json Raw))
      → ((id : ℕ) → Yields Refused (P id) (f id))
      → (ids : List ℕ) → Yields Refused (OneForEach P ids) (each orm f ids)
  each-OneForEach P f k [] = tt
  each-OneForEach P f k (id ∷ ids) =
      Yields-bind Refused (P id) (OneForEach P (id ∷ ids)) (f id) _ (k id) (λ v p.
        Yields-bind Refused (OneForEach P ids) (OneForEach P (id ∷ ids)) (each orm f ids)
          (λ vs. ok (cons v vs)) (each-OneForEach P f k ids) (λ vs q. (p, q)))

  serialize_each-OneForEach :
      (P : ℕ → Json Raw → Type 0) (spec : Spec) (f : String → ℕ → Result (Json Raw))
      (records : Recordset)
      → validate orm spec records.model ≡ none
      → ((id : ℕ) → Yields Refused (P id) (f records.model id))
      → Yields Refused (OneForEach P records.ids) (serialize_each orm spec f records)
  serialize_each-OneForEach P spec f records valid k =
      subst
        (λ o.
          Yields Refused (OneForEach P records.ids)
            (unless_invalid orm o (each orm (f records.model) records.ids)))
        (sym valid) (each-OneForEach P (f records.model) k records.ids)

  serialize_record-IsRecordOf :
      (spec : Spec) (model : String)
      → ((id : ℕ)
          → Yields Refused
              (HasFields orm options spec model id)
              (serialize_entries orm options spec model id))
      → (id : ℕ)
      → Yields Refused
          (IsRecordOf orm options (HasFields orm options spec model id))
          (serialize_record orm options spec model id)
  unfolding serialize_record
  serialize_record-IsRecordOf spec model entries id =
      Yields-bind Refused (HasFields orm options spec model id)
        (IsRecordOf orm options (HasFields orm options spec model id))
        (serialize_entries orm options spec model id) (λ es. ok (Json.object es)) (entries id)
        (λ es k. (es, k, refl))

  -- `_serialize_records`, if the entries of each record keep the contract.
  records-OneForEach :
      (spec : Spec) (model : String) (records : Recordset)
      → ((m : String)
          → validate orm spec m ≡ none
          → (id : ℕ)
          → Yields Refused
              (HasFields orm options spec m id)
              (serialize_entries orm options spec m id))
      → validate orm spec model ≡ none
      → records.model ≡ model
      → Yields Refused
          (OneForEach
            (λ id. IsRecordOf orm options (HasFields orm options spec model id))
            records.ids)
          (serialize_each orm spec (serialize_record orm options spec) records)
  records-OneForEach spec model records entries valid same =
      let here = subst (λ m. validate orm spec m ≡ none) (sym same) valid in
      serialize_each-OneForEach (λ id. IsRecordOf orm options (HasFields orm options spec model id))
        spec (serialize_record orm options spec) records here
        (λ id.
          subst
            (λ m.
              Yields Refused (IsRecordOf orm options (HasFields orm options spec m id))
                (serialize_record orm options spec records.model id))
            same (serialize_record-IsRecordOf spec records.model (entries records.model here) id))

  Keeps-if :
      (is_bare : Bool) (comodel : String) (f : Recordset → Result (Items Raw))
      (P : String → ℕ → Json Raw → Type 0)
      → (is_bare ≡ false → Keeps Refused orm comodel (some f) (some P))
      → Keeps Refused orm comodel
          (if is_bare then none else some f)
          (if is_bare then none else some P)
  Keeps-if true comodel f P k = tt
  Keeps-if false comodel f P k = k refl

  serialize_entries-HasFields :
      (spec : Spec) (model : String)
      → validate orm spec model ≡ none
      → (id : ℕ)
      → Yields Refused
          (HasFields orm options spec model id)
          (serialize_entries orm options spec model id)
  unfolding serialize_record validate HasFields
  serialize_entries-HasFields empty model valid id = refl
  serialize_entries-HasFields (bare name rest) model valid id =
      let (known, rest_valid) = or_error-none _ _ valid in
      let (field, found, _) =
        check_field-none orm model name (orm.field model name) true (λ _. none) known in
      add_entry-HasField model id name none none (HasFields orm options rest model id)
        (serialize_entries orm options rest model id) (field, found, tt)
        (serialize_entries-HasFields rest model rest_valid id)
  serialize_entries-HasFields (nested name inner rest) model valid id =
      let (known, rest_valid) = or_error-none _ _ valid in
      let (field, found, inner_valid) =
        check_field-none orm model name (orm.field model name) (is_empty inner) (validate orm inner)
          known in
      add_entry-HasField model id name
        (if is_empty inner
          then none
          else some (serialize_each orm inner (serialize_record orm options inner)))
        (if is_empty inner
          then none
          else some
              (λ comodel id'. IsRecordOf orm options (HasFields orm options inner comodel id')))
        (HasFields orm options rest model id) (serialize_entries orm options rest model id)
        (
          field,
          found,
          Keeps-if (is_empty inner) field.comodel
              (serialize_each orm inner (serialize_record orm options inner))
              (λ comodel id'. IsRecordOf orm options (HasFields orm options inner comodel id'))
              (λ full value same.
                records-OneForEach inner field.comodel value
                  (λ m v i. serialize_entries-HasFields inner m v i) (inner_valid full) same),
        )
        (serialize_entries-HasFields rest model rest_valid id)

  unless_invalid-Answers :
      {A : Type 0} (o : Option ValidationError) (P : A → Type 0) (r : Result A)
      → (o ≡ none → Yields Refused P r)
      → Answers Refused o P (unless_invalid orm o r)
  unless_invalid-Answers none P r k = k refl
  unless_invalid-Answers (some e) P r k = refl

  -- If Odoo's fields hold what their types say, _serialize raises the exception of
  -- _validate_specification for the whole specification if it raises one, and otherwise gives one
  -- object for each record, in order, whose keys are exactly the fields of the specification that
  -- the user may read, in order, and whose values are what Odoo reads of these fields of that
  -- record, in the form that the field's type, the options and the nested specification promise;
  -- a nested specification promises the same of each record of the relation, in order, at every
  -- depth. Nothing else is raised but what Odoo raises for a read that it refuses.
  pub serialize-Answers :
      (records : Recordset) (spec : Spec)
      → Answers Refused
          (validate orm spec records.model)
          (OneForEach (IsRecord orm options spec records.model) records.ids)
          (serialize orm options records spec)
  unfolding serialize IsRecord
  serialize-Answers records spec =
      unless_invalid-Answers (validate orm spec records.model)
        (OneForEach (λ id. IsRecordOf orm options (HasFields orm options spec records.model id))
          records.ids)
        (each orm (serialize_record orm options spec records.model) records.ids)
        (λ valid.
          each-OneForEach
            (λ id. IsRecordOf orm options (HasFields orm options spec records.model id))
            (serialize_record orm options spec records.model)
            (serialize_record-IsRecordOf spec records.model
              (serialize_entries-HasFields spec records.model valid))
            records.ids)
