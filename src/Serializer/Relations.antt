-- ===== src/Serializer/Relations.antt =====
-- ssi_rest_api/models/ssi_rest_serializer.py: what the serializer makes of relations keeps the contract of
-- their types.
use ssi_rest_api.Serializer.{Items, nil, cons, Json, Options, Orm, Recordset, ok, bind}
use ssi_rest_api.Serializer.Outcomes.{Yields, Yields-bind, Yields-map, Yields-if, Yields-returned}
use ssi_rest_api.Serializer.Reads.{AtMostOne, IsOrm, Keeps}
use ssi_rest_api.Serializer.Records.{
  as_id, reference, Nested, many2one_value, many2one_record, the_id, first, serialize_many2one,
  serialize_x2many,
}
use ssi_rest_api.Serializer.Shape.{Promise, OneForEach, One, AtMost, Many}
use mathlib.Core.Path.{subst, sym, ap, ◌∙◌}
use ssi_rest_api.Prelude.{
  Bool, true, false, ℕ, String, ◌≡◌, refl, none, some, List, [], ◌∷◌, if◌then◌else◌,
}

if-apply :
    {A : Type 0} (b : Bool) (P Q : A → Type 0) (a : A)
    → (if b then P else Q) a
    → if b then P a else Q a
if-apply true P Q a h = h
if-apply false P Q a h = h

module _ {Raw : Type 0} (Refused : String → Type 0) (orm : Orm Raw) (h : IsOrm Refused orm)
    (options : Options) where
  first-OneForEach :
      (P : ℕ → Json Raw → Type 0) (id : ℕ) (ids : List ℕ) (items : Items Raw)
      → OneForEach P (id ∷ ids) items
      → Yields Refused (P id) (first orm items)
  first-OneForEach P id ids nil k = absurd k
  first-OneForEach P id ids (cons v vs) k = k.0

  many2one_record-One :
      (comodel : String) (inner : Nested orm) (P : Promise Raw) (value : Recordset) (id : ℕ)
      → Keeps Refused orm comodel inner P
      → value.model ≡ comodel
      → (ids : List ℕ) → value.ids ≡ id ∷ ids
      → AtMostOne (id ∷ ids)
      → Yields Refused (One orm options P comodel id) (many2one_record orm inner value (id ∷ ids))
  many2one_record-One comodel none none value id keeps same [] e single =
      Yields-bind Refused (λ name. Unit × (orm.display_name value.model id ≡ ok name)) _
        (orm.display_name value.model id) (λ name. ok (reference orm id name))
        (Yields-returned Refused (λ name. Unit) (orm.display_name value.model id)
          (h.display_names value.model id))
        (λ name (_, shown). (name, ap (λ m. orm.display_name m id) (sym same) ∙ shown, refl))
  many2one_record-One comodel none none value id keeps same (_ ∷ _) e single = absurd single
  many2one_record-One comodel none (some P) value id keeps same ids e single = absurd keeps
  many2one_record-One comodel (some f) none value id keeps same ids e single = absurd keeps
  many2one_record-One comodel (some f) (some P) value id keeps same ids e single =
      Yields-bind Refused (OneForEach (P comodel) value.ids) (P comodel id) (f value) (first orm)
        (keeps value same)
        (λ items k.
          first-OneForEach (P comodel) id ids items
            (subst (λ l. OneForEach (P comodel) l items) e k))

  the_id-number :
      (id : ℕ) (ids : List ℕ)
      → AtMostOne (id ∷ ids)
      → Yields Refused {A = Json Raw}
          (λ v. v ≡ Json.number id)
          (bind (the_id orm (id ∷ ids)) (λ i. ok (Json.number i)))
  the_id-number id [] single = refl
  the_id-number id (_ ∷ _) single = absurd single

  many2one_value-AtMost :
      (comodel : String) (inner : Nested orm) (P : Promise Raw) (value : Recordset)
      → Keeps Refused orm comodel inner P
      → value.model ≡ comodel
      → (ids : List ℕ) → value.ids ≡ ids
      → AtMostOne ids
      → Yields Refused
          (AtMost orm options P comodel ids)
          (many2one_value orm options inner value ids)
  many2one_value-AtMost comodel inner P value keeps same [] e single = refl
  many2one_value-AtMost comodel inner P value keeps same (id ∷ ids) e single =
      Yields-map Refused
        (if as_id orm options.m2o then (λ v. v ≡ Json.number id) else One orm options P comodel id)
        (AtMost orm options P comodel (id ∷ ids))
        (many2one_value orm options inner value (id ∷ ids))
        (Yields-if Refused (as_id orm options.m2o) (λ v. v ≡ Json.number id)
          (One orm options P comodel id) (bind (the_id orm (id ∷ ids)) (λ i. ok (Json.number i)))
          (many2one_record orm inner value (id ∷ ids)) (the_id-number id ids single)
          (many2one_record-One comodel inner P value id keeps same ids e single))
        (λ v k.
          if-apply (as_id orm options.m2o) (λ w. w ≡ Json.number id) (One orm options P comodel id)
            v k)

  pub serialize_many2one-AtMost :
      (comodel : String) (inner : Nested orm) (P : Promise Raw) (value : Recordset)
      → Keeps Refused orm comodel inner P
      → value.model ≡ comodel
      → AtMostOne value.ids
      → Yields Refused
          (AtMost orm options P comodel value.ids)
          (serialize_many2one orm options inner value)
  unfolding serialize_many2one
  serialize_many2one-AtMost comodel inner P value keeps same single =
      many2one_value-AtMost comodel inner P value keeps same value.ids refl single

  pub serialize_x2many-Many :
      (comodel : String) (inner : Nested orm) (P : Promise Raw) (value : Recordset)
      → Keeps Refused orm comodel inner P
      → value.model ≡ comodel
      → Yields Refused (Many orm options P comodel value.ids) (serialize_x2many orm inner value)
  unfolding serialize_x2many
  serialize_x2many-Many comodel none none value keeps same = refl
  serialize_x2many-Many comodel none (some P) value keeps same = absurd keeps
  serialize_x2many-Many comodel (some f) none value keeps same = absurd keeps
  serialize_x2many-Many comodel (some f) (some P) value keeps same =
      Yields-bind Refused (OneForEach (P comodel) value.ids) _ (f value)
        (λ items. ok (Json.array items)) (keeps value same) (λ items k. (items, k, refl))
