-- ===== src/Orm/Changes.antt =====
-- What the endpoints that change records have in common: the steps before the change, the change, and
-- the answer from the serializer (main.py, `orm_create` and `orm_write`).
use mathlib.Core.Path.{subst}
use ssi_rest_api.Orm.{Odoo}
use ssi_rest_api.Orm.Objects.{HasId, OneForEach-HasId, Answers-ok}
use ssi_rest_api.Orm.Params.{resolve_model}
use ssi_rest_api.Orm.Endpoints.{setdefault, as_outcome, serialized, then_answer, or_raise}
use ssi_rest_api.Prelude.{String, ◌≡◌, refl, ap, inl, inr, true, Bool-cases}
use ssi_rest_api.Dispatcher.Arguments.{Outcome, returns, raises}
use ssi_rest_api.Serializer
use ssi_rest_api.Serializer.{Recordset, Result, ok, fails, Spec}
use ssi_rest_api.Serializer.Query.{Query, specification_from_query, query_options}
use ssi_rest_api.Serializer.Reads.{IsOrm}
use ssi_rest_api.Serializer.Records.{serialize, validate}
use ssi_rest_api.Serializer.Shape.{OneForEach, IsRecord}
use ssi_rest_api.Serializer.Soundness.{serialize-Answers}

module _ {D Raw M W R : Type 0} (odoo : Odoo D Raw M W R) where
  pub resolve_model-same :
      (model target : String) → resolve_model odoo model ≡ returns target → target ≡ model
  unfolding resolve_model
  resolve_model-same model target e = elim (Bool-cases (odoo.has_model model)) [
    | inl known ↦
        let same : ◌≡◌ {A = Outcome R String} (returns model) (returns target) = rw known at e in cc
    | inr unknown ↦ let impossible = rw unknown at e in absurd (cc)
  ]

  -- An answer of an endpoint, traced through the steps before the change and the change.
  pub or_raise-returns :
      {A B : Type 0} (P : Type 0) (w : W) (o : Outcome R A) (step : A → Outcome R B × W) (b : B)
      (w' : W)
      → ((a : A) → o ≡ returns a → step a ≡ (returns b, w') → P)
      → or_raise odoo w o step ≡ (returns b, w')
      → P
  or_raise-returns P w (raises x) step b w' k e = cc
  or_raise-returns P w (returns a) step b w' k e = k a refl e

  pub then_answer-returns :
      {A B : Type 0} (P : Type 0) (c : Outcome R A × W) (answer : A → W → Outcome R B) (b : B)
      (w' : W)
      → ((a : A) → c ≡ (returns a, w') → answer a w' ≡ returns b → P)
      → then_answer odoo c answer ≡ (returns b, w')
      → P
  then_answer-returns P (raises x, w) answer b w' k e = cc
  then_answer-returns P (returns a, w) answer b w' k e =
      let same : w ≡ w' = cc in
      k a (ap (λ x. (returns a, x)) same)
        (subst (λ x. answer a x ≡ returns b) same (ap (λ p. p.0) e))

  pub as_outcome-ok : {A : Type 0} (r : Result A) (a : A) → as_outcome odoo r ≡ returns a → r ≡ ok a
  unfolding as_outcome
  as_outcome-ok (ok b) a e = cc
  as_outcome-ok (fails f) a e = cc

  -- What is answered from the serializer, with `id` among the fields.
  abbrev pub IsAnswer : W → Query → Recordset → Serializer.Items Raw → Type 0
  IsAnswer w query records items =
      OneForEach
        (IsRecord (odoo.reads w) (query_options query)
          (setdefault "id" (specification_from_query query)) records.model)
        records.ids items
      × OneForEach (λ _. HasId) records.ids items

  module _ (Refused : String → Type 0) (sound : (w : W) → IsOrm Refused (odoo.reads w)) where
    pub serialized-IsAnswer :
        (w : W) (query : Query) (records : Recordset) (items : Serializer.Items Raw)
        → Serializer.Orm.is_readable (odoo.reads w) records.model "id" ≡ true
        → serialized odoo w query records (setdefault "id" (specification_from_query query))
          ≡ returns items
        → IsAnswer w query records items
    unfolding serialized
    serialized-IsAnswer w query records items readable e =
        let orm = odoo.reads w in
        let spec = setdefault "id" (specification_from_query query) in
        let answered =
          Answers-ok Refused (validate orm spec records.model)
            (OneForEach (IsRecord orm (query_options query) spec records.model) records.ids)
            (serialize orm (query_options query) records spec) items
            (serialize-Answers Refused orm (sound w) (query_options query) records spec)
            (as_outcome-ok (serialize orm (query_options query) records spec) items e) in
        (
          answered,
          OneForEach-HasId orm (query_options query) records.model (specification_from_query query)
              records.ids items readable answered,
        )
