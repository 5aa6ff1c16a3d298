-- ===== src/Dispatcher/Envelope.antt =====
-- The error envelope of `handle_error` and the correlation id that it shares with the response
-- headers and the server log (ssi_rest_api/lib/dispatcher.py).
use ssi_rest_api.Prelude.{
  String, ◌≡◌, ◌≢◌, refl, Option, none, some, List, [], ◌∷◌, ◌++◌, arith, eq_iff, eq_refl,
  eq-false_of_ne, if◌then◌else◌,
}
use ssi_rest_api.Errors.{Header, Exception, classify_exception, Env, traceback_disclosure_allowed}
use ssi_rest_api.Dispatcher.{Odoo, error, prebuilt, rest_headers, answer_error, handle_error}
use ssi_rest_api.Dispatcher.Headers.{
  State, request_id_header, get_header, remove_header, set_header, id_or, keep_or_set,
  ensure_request_id,
}

get_header-append :
    (name v : String) (hs : List Header)
    → get_header name (remove_header name hs ++ (name, v) ∷ []) ≡ some v
unfolding get_header remove_header
get_header-append name v [] = rw eq_refl
get_header-append name v ((n, w) ∷ hs) = ground (arith, get_header-append name v hs)

id_or-eq : (o : Option String) (id : String) → id_or o ≡ some id → (o ≡ some id) × (id ≢ "")
id_or-eq none id h = cc
id_or-eq (some v) id h = ground (arith, eq_iff v "")

module _ {W : Type 0} where
  -- The id is the header of the future response, and is not empty.
  abbrev pub HasId : String → State W → Type 0
  HasId id s = (get_header request_id_header s.future_headers ≡ some id) × (id ≢ "")

  keep_or_set-HasId :
      (fresh : String) (s : State W) (o : Option String)
      → fresh ≢ ""
      → id_or (get_header request_id_header s.future_headers) ≡ o
      → HasId (keep_or_set fresh o s).0 (keep_or_set fresh o s).1
  unfolding keep_or_set set_header
  keep_or_set-HasId fresh s none f e =
      (get_header-append request_id_header fresh s.future_headers, f)
  keep_or_set-HasId fresh s (some id) f e =
      id_or-eq (get_header request_id_header s.future_headers) id e

  pub ensure_request_id-HasId :
      (fresh : String) (s : State W)
      → fresh ≢ ""
      → HasId (ensure_request_id fresh s).0 (ensure_request_id fresh s).1
  unfolding ensure_request_id
  ensure_request_id-HasId fresh s f =
      keep_or_set-HasId fresh s (id_or (get_header request_id_header s.future_headers)) f refl

  pub ensure_request_id_of_HasId :
      (fresh id : String) (s : State W) → HasId id s → ensure_request_id fresh s ≡ (id, s)
  unfolding ensure_request_id keep_or_set
  ensure_request_id_of_HasId fresh id s (e, n) = rw e (rw (eq-false_of_ne id "" n))

  ensure_request_id_keeps :
      (fresh : String) (s : State W)
      → ((ensure_request_id fresh s).1.log ≡ s.log)
        × ((ensure_request_id fresh s).1.world ≡ s.world)
  unfolding ensure_request_id keep_or_set
  ensure_request_id_keeps fresh s = ground arith

  -- If the first generated id is not empty, asking for the request's id again, with whatever new
  -- id generated, gives the id that it was given first and changes nothing.
  pub request_id_stable :
      (fresh later : String) (s : State W)
      → fresh ≢ ""
      → ensure_request_id later (ensure_request_id fresh s).1 ≡ ensure_request_id fresh s
  request_id_stable fresh later s f =
      ensure_request_id_of_HasId later (ensure_request_id fresh s).0 (ensure_request_id fresh s).1
        (ensure_request_id-HasId fresh s f)

module _ {V W : Type 0} (o : Odoo V) where
  -- One id in the envelope, the response's headers, the future response's headers and the log, and
  -- one status in the envelope, the response and the log.
  pub record IsEnvelope (env : Option Env) (traceback : String) (exc : Exception o.Response)
      (before after : State W) (r : o.Response) (id : String) : Type 0 where
    pub has_id : HasId id after
    pub status : o.status_of r ≡ (classify_exception exc).status
    pub body :
        o.body_of r
        ≡ error (record {
          code = (classify_exception exc).code;
          message = (classify_exception exc).message;
          status = (classify_exception exc).status;
          request_id = id;
          details = if traceback_disclosure_allowed env then some traceback else none;
        })
    pub headers :
        (extra : List Header) × (o.headers_of r
          ≡ extra ++ (request_id_header, id) ∷ rest_headers o exc)
    pub logged :
        after.log
        ≡ before.log
          ++ record {
            request_id = id;
            code = (classify_exception exc).code;
            status = (classify_exception exc).status;
          }
            ∷ []
    pub world_kept : after.world ≡ before.world

  -- If the generated id is not empty, an exception that carries no response of its own is answered
  -- with status, code and message of its classification; the envelope, the response's headers
  -- (before those of the exception), the future headers and a new last line of the log hold the
  -- same id, which is not empty; details is the traceback exactly when it may be disclosed; the
  -- world is unchanged.
  pub handle_error-IsEnvelope :
      (env : Option Env) (traceback fresh : String) (exc : Exception o.Response) (s : State W)
      → fresh ≢ ""
      → prebuilt o exc ≡ none
      → IsEnvelope env traceback exc s
          (handle_error o env traceback fresh exc s).1
          (handle_error o env traceback fresh exc s).0
          (ensure_request_id fresh s).0
  unfolding handle_error
  handle_error-IsEnvelope env traceback fresh exc s f e =
      let c = classify_exception exc in
      let (kept_log, kept_world) = ensure_request_id_keeps fresh s in
      rw (e, answer_error)
        (record {
          has_id = ensure_request_id-HasId fresh s f;
          status = o.made_status _ _ c.status;
          body = o.made_body _ _ c.status;
          headers = o.made_headers _ _ c.status;
          logged = rw kept_log;
          world_kept = kept_world;
        })
