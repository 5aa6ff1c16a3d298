-- ===== src/RequestLog/Logging.antt =====
-- ssi_rest_api_log/lib/dispatcher.py over ssi_rest_api/lib/dispatcher.py: what an error's row says, and what
-- the log leaves alone.
use ssi_rest_api.RequestLog.Rows.{Served, Row, Logged, Data, write_request_log, logged_handle_error}
use ssi_rest_api.Dispatcher.{Odoo, handle_error, prebuilt}
use ssi_rest_api.Dispatcher.Headers.{State, ensure_request_id}
use ssi_rest_api.Dispatcher.Envelope.{handle_error-IsEnvelope, ensure_request_id_of_HasId}
use ssi_rest_api.Errors.{Exception, Env, classify_exception}
use ssi_rest_api.Prelude.{
  ℕ, String, ◌≡◌, ◌≢◌, refl, ap, Bool, true, false, not, ◌||◌, Option, none, some, List, [], ◌∷◌,
  ◌++◌, leb, if◌then◌else◌,
}

-- One new row, the last, with the id, the code and the status of the error.
pub record HasNewRow (before after : List Row) (id : String) (code : Option String) (status : ℕ)
    : Type 0 where
  pub row : Row
  pub appended : after ≡ before ++ row ∷ []
  pub same_id : row.request_id ≡ id
  pub same_code : row.error_code ≡ code
  pub same_status : row.status_code ≡ status

module _ {V W Raw : Type 0} (o : Odoo V) (d : Data o.Response Raw) (q : Served Raw)
    (env : Option Env) (traceback fresh later : String) (exc : Exception o.Response)
    (s : Logged W) where
  -- What the log makes of the error, and what the core alone does.
  abbrev logged : (skips has_db writes : Bool) → o.Response × Logged W
  logged skips has_db writes =
      logged_handle_error o d skips has_db writes q env traceback fresh later exc s

  abbrev alone : o.Response × State W
  alone = handle_error o env traceback fresh exc s.core

  -- The id of the error stays the one of the request.
  same_request_id :
      fresh ≢ ""
      → prebuilt o exc ≡ none
      → ensure_request_id later (alone).1 ≡ ((ensure_request_id fresh s.core).0, (alone).1)
  same_request_id f e =
      ensure_request_id_of_HasId later (ensure_request_id fresh s.core).0 (alone).1
        (handle_error-IsEnvelope o env traceback fresh exc s.core f e).has_id

  -- If the id generated for an error answer is not empty, an exception that carries no response
  -- of its own is answered, with the log, by the same response and the same state of the
  -- dispatcher as without; if the row is not skipped, there is a database and the cursor
  -- succeeds, exactly one row is added, with the request's id, the status of the classification
  -- and, from 400 on, its code; otherwise no row is added.
  pub logged_handle_error-HasNewRow :
      (skips has_db writes : Bool)
      → fresh ≢ ""
      → prebuilt o exc ≡ none
      → ((logged skips has_db writes).0 ≡ alone.0)
        × ((logged skips has_db writes).1.core ≡ alone.1)
        × (if skips || not has_db || not writes
            then (logged skips has_db writes).1.rows ≡ s.rows
            else HasNewRow s.rows
                (logged skips has_db writes).1.rows
                (ensure_request_id fresh s.core).0
                (if leb 400 (classify_exception exc).status
                  then some (classify_exception exc).code
                  else none)
                (classify_exception exc).status)
  unfolding logged_handle_error write_request_log
  logged_handle_error-HasNewRow true has_db writes f e = (refl, refl, refl)
  logged_handle_error-HasNewRow false false writes f e = (refl, refl, refl)
  logged_handle_error-HasNewRow false true false f e =
      (refl, ap (λ x. x.1) (same_request_id f e), refl)
  logged_handle_error-HasNewRow false true true f e = (
    refl,
    ap (λ x. x.1) (same_request_id f e),
    record {
      row = _;
      appended = refl;
      same_id = ap (λ x. x.0) (same_request_id f e);
      same_code =
          ap (λ n. if leb 400 n then some (classify_exception exc).code else none)
            (handle_error-IsEnvelope o env traceback fresh exc s.core f e).status;
      same_status = (handle_error-IsEnvelope o env traceback fresh exc s.core f e).status;
    },
  )
