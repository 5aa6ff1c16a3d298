-- ===== src/Orm/Written.antt =====
-- The answers of the endpoints that change records (main.py, `orm_create` and `orm_write`).
use mathlib.Core.Path.{subst}
use ssi_rest_api.Orm.{Param, null, boolean, integer, float, text, array, object, nil, cons, Odoo}
use ssi_rest_api.Orm.Changes.{
  resolve_model-same, or_raise-returns, then_answer-returns, IsAnswer, serialized-IsAnswer,
}
use ssi_rest_api.Orm.Limits.{>>=-returns}
use ssi_rest_api.Orm.Params.{resolve_model, parse_ids}
use ssi_rest_api.Orm.Endpoints.{
  setdefault, JsonResponse, serialized, vals_to_create, vals_to_write, then_answer, or_raise,
  created, orm_create, orm_write,
}
use ssi_rest_api.Prelude.{ℕ, String, ◌≡◌, ◌≢◌, sym, ap, true, arith, some, List}
use ssi_rest_api.Prelude.Int.{ℤ}
use ssi_rest_api.Dispatcher.Arguments.{returns}
use ssi_rest_api.Serializer
use ssi_rest_api.Serializer.{Recordset, Result, ok, fails, Spec}
use ssi_rest_api.Serializer.Query.{Query, specification_from_query}
use ssi_rest_api.Serializer.Reads.{IsOrm}

-- What is created: the list that the request gives, or a list of its one dictionary.
abbrev pub IsValsList : {D : Type 0} → (vals vals_list list : Param D) → Type 0
IsValsList vals null list = (vals ≢ null) × (list ≡ array (cons vals nil))
IsValsList vals v list = list ≡ v

module _ {D Raw M W R : Type 0} (odoo : Odoo D Raw M W R) where
  vals_to_create-IsValsList :
      (vals vals_list list : Param D)
      → vals_to_create odoo vals vals_list ≡ returns list
      → IsValsList vals vals_list list
  unfolding vals_to_create
  vals_to_create-IsValsList null null list e = cc
  vals_to_create-IsValsList (boolean b) null list e = (λ x. cc, cc)
  vals_to_create-IsValsList (integer n) null list e = (λ x. cc, cc)
  vals_to_create-IsValsList (float n) null list e = (λ x. cc, cc)
  vals_to_create-IsValsList (text s) null list e = (λ x. cc, cc)
  vals_to_create-IsValsList (array items) null list e = (λ x. cc, cc)
  vals_to_create-IsValsList (object o) null list e = (λ x. cc, cc)
  vals_to_create-IsValsList vals vals_list list e = ground arith

  vals_to_write-given :
      (vals v : Param D) → vals_to_write odoo vals ≡ returns v → (vals ≢ null) × (v ≡ vals)
  unfolding vals_to_write
  vals_to_write-given null v e = cc
  vals_to_write-given vals v e = (λ x. cc, cc)

  module _ (Refused : String → Type 0) (sound : (w : W) → IsOrm Refused (odoo.reads w)) where
    created-IsAnswer :
        (model : String) (query : Query) (ids : List ℕ) (w : W)
        (r : JsonResponse (Serializer.Items Raw))
        → Serializer.Orm.is_readable (odoo.reads w) model "id" ≡ true
        → created odoo model query ids w ≡ returns r
        → (items : Serializer.Items Raw) × (r.status ≡ 201)
          × (r.body ≡ some items)
          × IsAnswer odoo w query (record { model = model; ids = ids }) items
    unfolding created
    created-IsAnswer model query ids w r readable e =
        let (items, serial, same) =
          >>=-returns
            (serialized odoo w query (record { model = model; ids = ids })
              (setdefault "id" (specification_from_query query)))
            (λ body. returns (record { status = 201; body = some body })) r e in
        let answer : ◌≡◌ {A = JsonResponse (Serializer.Items Raw)}
            (record { status = 201; body = some items }) r =
          cc in
        (
          items,
          sym (ap (λ (x : JsonResponse (Serializer.Items Raw)). x.status) answer),
          sym (ap (λ (x : JsonResponse (Serializer.Items Raw)). x.body) answer),
          serialized-IsAnswer odoo Refused sound w query (record { model = model; ids = ids }) items
              readable serial,
        )

    abbrev pub IsCreated :
        (model : String) (vals vals_list : Param D)
        → Query
        → (w w' : W) → JsonResponse (Serializer.Items Raw)
        → Type 0
    IsCreated model vals vals_list query w w' r =
        (list : Param D) × (ids : List ℕ) × (items : Serializer.Items Raw) × IsValsList vals
          vals_list list
        × (odoo.create model list w ≡ (returns ids, w'))
        × (r.status ≡ 201)
        × (r.body ≡ some items)
        × IsAnswer odoo w' query (record { model = model; ids = ids }) items

    -- If Odoo's fields hold what their types say and the user may read the field id, a request to
    -- create that is answered has created the records of the list it gives, or of a list of its
    -- one dictionary; the answer has status 201 and holds, read from the database after the
    -- creation, one object for each new record, in order, with what Odoo reads of that record's
    -- fields in the form that the query's specification with id promises, and each of them has
    -- the key id.
    pub orm_create-IsCreated :
        (model : String) (vals vals_list : Param D) (query : Query) (w w' : W)
        (r : JsonResponse (Serializer.Items Raw))
        → Serializer.Orm.is_readable (odoo.reads w') model "id" ≡ true
        → orm_create odoo model vals vals_list query w ≡ (returns r, w')
        → IsCreated model vals vals_list query w w' r
    unfolding orm_create
    orm_create-IsCreated model vals vals_list query w w' r readable e =
        let P = IsCreated model vals vals_list query w w' r in
        or_raise-returns odoo P w (resolve_model odoo model) _ r w'
          (λ target found.
            subst
              (λ t.
                or_raise odoo w (vals_to_create odoo vals vals_list)
                    (λ list. then_answer odoo (odoo.create t list w) (created odoo t query))
                  ≡ (returns r, w')
                → P)
              (sym (resolve_model-same odoo model target found))
              (or_raise-returns odoo P w (vals_to_create odoo vals vals_list) _ r w' (λ list chosen.
                then_answer-returns odoo P (odoo.create model list w) (created odoo model query) r
                  w'
                  (λ ids made answered.
                    let (items, status, body, answer) =
                      created-IsAnswer model query ids w' r readable answered in
                    (
                      list,
                      ids,
                      items,
                      vals_to_create-IsValsList vals vals_list list chosen,
                      made,
                      status,
                      body,
                      answer,
                    )))))
          e

    abbrev pub IsWritten :
        (model : String) (ids vals : Param D) → Query → (w w' : W) → Serializer.Items Raw → Type 0
    IsWritten model ids vals query w w' items =
        (numbers : List ℤ) × (vals ≢ null)
        × (parse_ids odoo ids ≡ returns numbers)
        × (odoo.write (odoo.browse model numbers) vals w ≡ (returns tt, w'))
        × IsAnswer odoo w' query (odoo.browse model numbers) items

    -- If Odoo's fields hold what their types say and the user may read the field id, a request to
    -- write that is answered gives values and ids that parse_ids reads, has written the values to
    -- the records of these ids, and its answer holds, read from the database after the write, one
    -- object for each of the records, in order, with what Odoo reads of that record's fields in
    -- the form that the query's specification with id promises, and each of them has the key id.
    pub orm_write-IsWritten :
        (model : String) (ids vals : Param D) (query : Query) (w w' : W)
        (items : Serializer.Items Raw)
        → ((m : String) → Serializer.Orm.is_readable (odoo.reads w') m "id" ≡ true)
        → orm_write odoo model ids vals query w ≡ (returns items, w')
        → IsWritten model ids vals query w w' items
    unfolding orm_write
    orm_write-IsWritten model ids vals query w w' items readable e =
        let P = IsWritten model ids vals query w w' items in
        or_raise-returns odoo P w (resolve_model odoo model) _ items w'
          (λ target found.
            subst
              (λ t.
                or_raise odoo w (vals_to_write odoo vals) (λ v.
                  or_raise odoo w (parse_ids odoo ids) (λ numbers.
                    then_answer odoo (odoo.write (odoo.browse t numbers) v w) (λ done x.
                      serialized odoo x query (odoo.browse t numbers)
                        (setdefault "id" (specification_from_query query)))))
                  ≡ (returns items, w')
                → P)
              (sym (resolve_model-same odoo model target found))
              (or_raise-returns odoo P w (vals_to_write odoo vals) _ items w' (λ v given.
                or_raise-returns odoo P w (parse_ids odoo ids) _ items w' (λ numbers parsed.
                  then_answer-returns odoo P (odoo.write (odoo.browse model numbers) v w) _ items w'
                    (λ done written answered.
                      let (not_null, same) = vals_to_write-given vals v given in
                      (
                        numbers,
                        not_null,
                        parsed,
                        subst (λ x. odoo.write (odoo.browse model numbers) x w ≡ (returns tt, w'))
                            same written,
                        serialized-IsAnswer odoo Refused sound w' query (odoo.browse model numbers)
                            items (readable (odoo.browse model numbers).model) answered,
                      ))))))
          e
