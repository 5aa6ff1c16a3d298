-- ===== src/Orm/Objects.antt =====
-- The key `id` in what the serializer makes of a specification with that field (main.py, `setdefault`).
use mathlib.Core.Path.{subst}
use ssi_rest_api.Orm.Endpoints.{setdefault}
use ssi_rest_api.Prelude.{
  ℕ, String, ◌≡◌, ◌⊎◌, refl, sym, ap, ◌∙◌, inl, inr, Bool, true, false, Bool-cases, Option, none,
  some, List, [], ◌∷◌, ◌||◌, arith, ◌==◌, eq_iff, eq_refl, if◌then◌else◌,
}
use ssi_rest_api.Serializer
use ssi_rest_api.Serializer.{
  Entries, entry, end, Json, Options, Orm, Recordset, Result, ok, fails, Spec, empty, bare, nested,
  ValidationError,
}
use ssi_rest_api.Serializer.Outcomes.{Answers, Yields}
use ssi_rest_api.Serializer.Records.{is_empty}
use ssi_rest_api.Serializer.Shape.{
  Promise, OneForEach, IsEntry, HasField, HasFields, IsRecord, IsRecordOf,
}

-- The key stands in the object.
abbrev pub HasEntry : {Raw : Type 0} → String → Entries Raw → Type 0
HasEntry name end = ⊥
HasEntry name (entry key v rest) = (key ≡ name) ⊎ HasEntry name rest

abbrev pub HasId : {Raw : Type 0} → Json Raw → Type 0
HasId {Raw} v = (es : Entries Raw) × HasEntry "id" es × (v ≡ Json.object es)

-- A field of the specification, at its top.
abbrev has_name : String → Spec → Bool
has_name name empty = false
has_name name (bare field rest) = field == name || has_name name rest
has_name name (nested field inner rest) = field == name || has_name name rest

has_name-setdefault : (name : String) (spec : Spec) → has_name name (setdefault name spec) ≡ true
unfolding setdefault
has_name-setdefault name empty = ground (arith, eq_refl name)
has_name-setdefault name (bare field rest) =
    ground (arith, eq_refl name, has_name-setdefault name rest)
has_name-setdefault name (nested field inner rest) =
    ground (arith, eq_refl name, has_name-setdefault name rest)

named_where :
    {P : Type 0} (here later : Bool)
    → (here || later) ≡ true
    → (later ≡ true → P)
    → (here ≡ true) ⊎ P
named_where true later h k = inl refl
named_where false later h k = inr (k h)

module _ {Raw : Type 0} (orm : Orm Raw) (options : Options) (model : String) (id : ℕ) where
  shown-IsEntry :
      {field : String} {inner : Promise Raw} {Rest : Entries Raw → Type 0} {es : Entries Raw}
      → orm.is_readable model field ≡ true
      → HasField orm options model id field inner Rest es
      → IsEntry orm options model id field inner Rest es
  shown-IsEntry shown h = rw shown at h

  -- What an object of one field and of others has.
  HasField-HasEntry :
      (name field : String) (inner : Promise Raw) (Rest : Entries Raw → Type 0) (es : Entries Raw)
      → (field == name) ≡ true ⊎ ((more : Entries Raw) → Rest more → HasEntry name more)
      → orm.is_readable model name ≡ true
      → HasField orm options model id field inner Rest es
      → HasEntry name es
  HasField-HasEntry name field inner Rest es (inl here) readable h =
      let same : field ≡ name = (eq_iff field name).0 here in
      let (_, v, more, _, _, _, e) = shown-IsEntry (ap (orm.is_readable model) same ∙ readable) h in
      subst (HasEntry name) (sym e) (inl same)
  HasField-HasEntry name field inner Rest es (inr later) readable h =
      elim (Bool-cases (orm.is_readable model field)) [
        | inl shown ↦
            let (_, v, more, _, _, rest, e) = shown-IsEntry shown h in
            subst (HasEntry name) (sym e) (inr (later more rest))
        | inr hidden ↦ later es (rw hidden at h)
      ]

  HasFields-HasEntry :
      (name : String) (spec : Spec) (es : Entries Raw)
      → has_name name spec ≡ true
      → orm.is_readable model name ≡ true
      → HasFields orm options spec model id es
      → HasEntry name es
  unfolding HasFields
  HasFields-HasEntry name empty es named readable h = cc
  HasFields-HasEntry name (bare field rest) es named readable h =
      HasField-HasEntry name field none (HasFields orm options rest model id) es
        (named_where (field == name) (has_name name rest) named
          (λ later more k. HasFields-HasEntry name rest more later readable k))
        readable h
  HasFields-HasEntry name (nested field inner rest) es named readable h =
      HasField-HasEntry name field
        (if is_empty inner
          then none
          else some
              (λ comodel id'. IsRecordOf orm options (HasFields orm options inner comodel id')))
        (HasFields orm options rest model id) es
        (named_where (field == name) (has_name name rest) named
          (λ later more k. HasFields-HasEntry name rest more later readable k))
        readable h

  IsRecord-HasId :
      (spec : Spec) (v : Json Raw)
      → orm.is_readable model "id" ≡ true
      → IsRecord orm options (setdefault "id" spec) model id v
      → HasId v
  unfolding IsRecord
  IsRecord-HasId spec v readable (es, h, e) = (
    es,
    HasFields-HasEntry "id" (setdefault "id" spec) es (has_name-setdefault "id" spec) readable h,
    e,
  )

pub OneForEach-HasId :
    {Raw : Type 0} (orm : Orm Raw) (options : Options) (model : String) (spec : Spec) (ids : List ℕ)
    (items : Serializer.Items Raw)
    → orm.is_readable model "id" ≡ true
    → OneForEach (IsRecord orm options (setdefault "id" spec) model) ids items
    → OneForEach (λ _. HasId) ids items
OneForEach-HasId orm options model spec [] Serializer.nil readable h = tt
OneForEach-HasId orm options model spec [] (Serializer.cons v items) readable h = h
OneForEach-HasId orm options model spec (id ∷ ids) Serializer.nil readable h = h
OneForEach-HasId orm options model spec (id ∷ ids) (Serializer.cons v items) readable (h, hs) = (
  IsRecord-HasId orm options model id spec v readable h,
  OneForEach-HasId orm options model spec ids items readable hs,
)

pub Answers-ok :
    (Refused : String → Type 0) {A : Type 0} (o : Option ValidationError) (P : A → Type 0)
    (r : Result A) (a : A)
    → Answers Refused o P r
    → r ≡ ok a
    → P a
Answers-ok Refused none P r a h e = subst (Yields Refused P) e h
Answers-ok Refused (some x) P r a h e = cc
