-- ===== src/Orm/Pages.antt =====
-- The page of a search (_helpers.py, `paginate`): how many records a request can be given.
use ssi_rest_api.Orm.{Param, Odoo, ◌>>=◌}
use ssi_rest_api.Orm.Limits.{IsLimit, returned_same, >>=-returns, positive_limit, paginate-IsLimit}
use ssi_rest_api.Orm.Params.{
  resolve_model, parse_json_param, paginate, page_size_param, int_of_value,
}
use ssi_rest_api.Orm.Endpoints.{SearchRead, orm_search_read, serialized, as_outcome, or_empty_list}
use ssi_rest_api.Prelude.{
  ℕ, suc, String, ◌≡◌, refl, ap, Option, none, some, List, [], ◌∷◌, length, ◌<◌, ◌≤◌, arith,
}
use ssi_rest_api.Prelude.Int.{ℤ, pos}
use ssi_rest_api.Dispatcher.Arguments.{Outcome, returns, raises}
use ssi_rest_api.Serializer
use ssi_rest_api.Serializer.{
  Recordset, Result, ok, fails, bind, Json, Options, Spec, nil, cons, ValidationError,
}
use ssi_rest_api.Serializer.Query.{Query, query_options, specification_from_query}
use mathlib.Core.Path.{subst}
use ssi_rest_api.Serializer.Records.{each, serialize, serialize_record, unless_invalid, validate}

abbrev pub count : {Raw : Type 0} → Serializer.Items Raw → ℕ
count nil = 0
count (cons v items) = suc (count items)

-- An answer of the serializer has n values.
abbrev HasCount : {Raw : Type 0} → ℕ → Result (Serializer.Items Raw) → Type 0
HasCount n (ok items) = count items ≡ n
HasCount n (fails f) = Unit

module _ {Raw : Type 0} (orm : Serializer.Orm Raw) where
  cons-HasCount :
      (n : ℕ) (one : Result (Json Raw)) (rest : Result (Serializer.Items Raw))
      → HasCount n rest
      → HasCount (suc n) (bind one (λ v. bind rest (λ more. ok (cons v more))))
  cons-HasCount n (ok v) (ok more) h = ap suc h
  cons-HasCount n (ok v) (fails f) h = tt
  cons-HasCount n (fails f) rest h = tt

  each-HasCount :
      (one : ℕ → Result (Json Raw)) (ids : List ℕ) → HasCount (length ids) (each orm one ids)
  each-HasCount one [] = refl
  each-HasCount one (id ∷ ids) =
      cons-HasCount (length ids) (one id) (each orm one ids) (each-HasCount one ids)

  unless_invalid-HasCount :
      (n : ℕ) (o : Option ValidationError) (r : Result (Serializer.Items Raw))
      → HasCount n r
      → HasCount n (unless_invalid orm o r)
  unless_invalid-HasCount n none r h = h
  unless_invalid-HasCount n (some e) r h = tt

  serialize-HasCount :
      (options : Options) (records : Recordset) (spec : Spec)
      → HasCount (length records.ids) (serialize orm options records spec)
  unfolding serialize
  serialize-HasCount options records spec =
      unless_invalid-HasCount (length records.ids) (validate orm spec records.model)
        (each orm (serialize_record orm options spec records.model) records.ids)
        (each-HasCount (serialize_record orm options spec records.model) records.ids)

module _ {D Raw M W R : Type 0} (odoo : Odoo D Raw M W R) where
  -- Odoo's `search` with a positive limit finds at most that many records.
  pub record IsPaged : Type 0 where
    pub at_most :
        (w : W) (model : String) (domain order : Param D) (limit : ℕ) (offset : ℤ) (ids : List ℕ)
        → odoo.search w model domain (pos limit) offset order ≡ returns ids
        → 0 < limit
        → length ids ≤ limit

  serialized-count :
      (w : W) (query : Query) (records : Recordset) (spec : Spec) (items : Serializer.Items Raw)
      → serialized odoo w query records spec ≡ returns items
      → count items ≡ length records.ids
  unfolding serialized
  serialized-count w query records spec items e =
      counted (serialize (odoo.reads w) (query_options query) records spec)
        (serialize-HasCount (odoo.reads w) (query_options query) records spec) e
    where
      counted :
          (r : Result (Serializer.Items Raw))
          → HasCount (length records.ids) r
          → as_outcome odoo r ≡ returns items
          → count items ≡ length records.ids
      counted (ok found) h e' =
          let same : found ≡ items = cc in subst (λ x. count x ≡ length records.ids) same h
      counted (fails f) h e' = cc

  records-answer :
      (total : Outcome R ℕ) (items : Serializer.Items Raw) (r : SearchRead Raw)
      → (total >>= λ n. returns (record { records = items; length = n })) ≡ returns r
      → items ≡ r.records
  records-answer (returns n) items r e =
      let same : ◌≡◌ {A = SearchRead Raw} (record { records = items; length = n }) r = cc in
      ap (λ (s : SearchRead Raw). s.records) same
  records-answer (raises x) items r e = cc

  few :
      (items : Serializer.Items Raw) (ids : List ℕ) (k n m : ℕ)
      → count items ≡ length ids
      → length ids ≤ k
      → k ≤ n
      → k ≤ m
      → (count items ≤ n) × (count items ≤ m)
  few items ids k n m same at_most below_n below_m = omega arith

  -- If Odoo's search keeps to a positive limit, a request with a positive limit is answered with
  -- at most that many objects, and with at most the greatest page size that is configured, if
  -- that is positive.
  pub orm_search_read-bounded :
      (model : String) (domain limit offset order : Param D) (query : Query) (w : W) (n m : ℕ)
      (r : SearchRead Raw)
      → IsPaged
      → page_size_param {R = R} (odoo.get_param w "ssi_rest_api.max_page_size") 1000
        ≡ returns (pos m)
      → int_of_value {R = R} limit ≡ returns (pos n)
      → 0 < n
      → 0 < m
      → orm_search_read odoo model domain limit offset order query w ≡ returns r
      → (count r.records ≤ n) × (count r.records ≤ m)
  unfolding orm_search_read
  orm_search_read-bounded model domain limit offset order query w n m r paged greatest read pn pm
        e =
      let (target, _, e1) = >>=-returns (resolve_model odoo model) _ r e in
      let (domain', _, e2) = >>=-returns (parse_json_param odoo domain or_empty_list) _ r e1 in
      let ((l, o), page, e3) = >>=-returns (paginate odoo w limit offset) _ r e2 in
      let (ids, found, e4) = >>=-returns (odoo.search w target domain' l o order) _ r e3 in
      let (items, written, e5) =
        >>=-returns
          (serialized odoo w query (record { model = target; ids = ids })
            (specification_from_query query))
          _ r e4 in
      let (d, g, _, found_g, is_limit, _) = paginate-IsLimit odoo w limit offset l o page in
      let (k, same_limit, positive, below_n, below_m) =
        positive_limit limit d l n m read
          (subst (λ x. IsLimit R limit d x l) (returned_same g (pos m) found_g greatest) is_limit)
          pn pm in
      subst (λ x. (count x ≤ n) × (count x ≤ m))
        (records-answer (odoo.search_count w target domain') items r e5)
        (few items ids k n m
          (serialized-count w query (record { model = target; ids = ids })
            (specification_from_query query) items written)
          (paged.at_most w target domain' order k o ids
            (subst (λ x. odoo.search w target domain' x o order ≡ returns ids) same_limit found)
            positive)
          below_n below_m)
