-- ===== src/Dispatcher/Params.antt =====
-- Which value an endpoint's parameter has (ssi_rest_api/lib/dispatcher.py, `dispatch`).
use ssi_rest_api.Prelude.{
  String, ◌≡◌, refl, ◌∙◌, ap, Bool, true, false, [], arith, Bool-cases, inl, inr, if◌then◌else◌,
}
use ssi_rest_api.Prelude.Dict.{Dict, lookup, update, or_else, lookup-update}
use ssi_rest_api.Dispatcher.Arguments.{
  Outcome, returns, raises, JsonData, object, falsy, malformed, not_a_mapping, HttpRequest, is_form,
  has_content, json_fields, merge, request_params,
}

-- The fields of a body that is a JSON object; no other body gives parameters.
abbrev pub object_fields : {V : Type 0} → Bool → JsonData V → Dict V
object_fields false j = []
object_fields true (object fields) = fields
object_fields true _ = []

-- The fields that the body gives, if reading it raises nothing.
json_fields-object_fields :
    (R : Type 0) {V : Type 0} (j : JsonData V) (fields : Dict V)
    → json_fields {R = R} j ≡ returns fields
    → fields ≡ object_fields true j
unfolding json_fields
json_fields-object_fields R (malformed reason) fields h = cc
json_fields-object_fields R (object own) fields h = cc
json_fields-object_fields R falsy fields h = cc
json_fields-object_fields R not_a_mapping fields h = cc

module _ (R : Type 0) {V : Type 0} (q : HttpRequest V) (args params : Dict V) (k : String) where
  merge-precedence :
      (b : Bool) (fields : Outcome R (Dict V))
      → ((own : Dict V) → fields ≡ returns own → own ≡ object_fields b q.json_data)
      → merge q.query fields args ≡ returns params
      → lookup k params
        ≡ or_else
            (lookup k args)
            (or_else (lookup k (object_fields b q.json_data)) (lookup k q.query))
  unfolding merge
  merge-precedence b (raises e) same h = cc
  merge-precedence b (returns own) same h =
      let found : update (update q.query own) args ≡ params = cc in
      rw (← found) (
        rw (← same own refl) (
          lookup-update (update q.query own) args k
          ∙ ap (or_else (lookup k args)) (lookup-update q.query own k)))

  -- If the parameters of a request are set: of a request that is not a form, a path parameter wins
  -- over the field of the same name in the JSON object of the body, and that over the query
  -- string; of a form, a path parameter wins over the form field.
  pub request_params_precedence :
      request_params {R = R} q args ≡ returns params
      → lookup k params ≡ (
          if is_form q.mimetype
          then or_else (lookup k args) (lookup k q.form)
          else or_else (lookup k args) (
              or_else
                (lookup k (object_fields (has_content q.content_length) q.json_data))
                (lookup k q.query)))
  unfolding request_params
  request_params_precedence h = elim (Bool-cases (is_form q.mimetype)) [
    | inl form ↦
        let formed : update q.form args ≡ params = ground arith in
        rw (form, ← formed) (lookup-update q.form args k)
    | inr other ↦ rw other (elim (Bool-cases (has_content q.content_length)) [
      | inl content ↦ rw content (
          merge-precedence true (json_fields q.json_data) (json_fields-object_fields R q.json_data)
            (rw (other, content) at h))
      | inr empty ↦
          rw empty (merge-precedence false (returns []) (λ own e. cc) (rw (other, empty) at h))
    ])
  ]
