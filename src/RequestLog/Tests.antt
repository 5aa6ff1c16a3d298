-- ===== src/RequestLog/Tests.antt =====
-- The log at concrete requests and errors.
use ssi_rest_api.RequestLog.{
  Value, text, other, dict, sequence, Entries, end, entry, nil, cons, redact,
}
use ssi_rest_api.RequestLog.Body.{redacted_request_body}
use ssi_rest_api.RequestLog.Bounds.{redacted_request_body-bounded, height, IsShort}
use ssi_rest_api.RequestLog.Logging.{logged_handle_error-HasNewRow, HasNewRow}
use ssi_rest_api.RequestLog.Redaction.{
  hidden, shown, done, same_text, redacted_request_body-Similar, dicts, sequences, next_item,
  no_items,
}
use ssi_rest_api.RequestLog.Retention.{retention_days}
use ssi_rest_api.RequestLog.Rows.{Served, Logged, Data, logged_handle_error, estimate_record_count}
use ssi_rest_api.Dispatcher.{Odoo, Body, handle_error, prebuilt, access_denied_message}
use ssi_rest_api.Dispatcher.Headers.{State, ensure_request_id}
use ssi_rest_api.Errors.{Header, Exception, rest_auth_error, classify_exception}
use ssi_rest_api.Prelude.Int.{pos}
use ssi_rest_api.Prelude.{
  ℕ, String, ◌≡◌, refl, ◌≤◌, ltb, arith, if◌then◌else◌, true, false, Option, none, some, List, [],
  ne-of_eq_false,
}
use ssi_rest_api.Prelude.Text.{lower}

-- A body with a password in it, and the same with another one.
abbrev login : String → Entries ℕ
login password =
    entry "login" (text "ann")
      (entry "Data" (sequence (cons (dict (entry "PassWord" (text password) end)) nil)) end)

abbrev dumps : Value ℕ → Option String
dumps (dict (entry key (text t) rest)) = some t
dumps v = some "other"

redact_test :
    redact 0 (dict (login "hunter2"))
    ≡ dict (
        entry "login"
          (text "ann")
          (entry "Data" (sequence (cons (dict (entry "PassWord" (text "***") end)) nil)) end))
unfolding redact
redact_test = refl

redacted_request_body-Similar_example :
    redacted_request_body dumps (some "True") (some (login "hunter2"))
    ≡ redacted_request_body dumps (some "True") (some (login "tr0ub4dor"))
unfolding lower
redacted_request_body-Similar_example =
    redacted_request_body-Similar dumps (some "True") (login "hunter2") (login "tr0ub4dor")
      (shown same_text (shown (sequences (next_item (dicts (hidden refl done)) no_items)) done))

-- Another json.dumps, which fails for what is nested deeper than the redaction leaves it.
abbrev shallow_dumps : Value ℕ → Option String
shallow_dumps v = if ltb 9 (height v) then none else dumps v

dumps-shallow_dumps : (v : Value ℕ) → height v ≤ 9 → dumps v ≡ shallow_dumps v
dumps-shallow_dumps v h = let shallow : ltb 9 (height v) ≡ false = ground arith in rw shallow refl

redacted_request_body-bounded_example :
    (redacted_request_body dumps (some "True") (some (login "hunter2"))
      ≡ redacted_request_body shallow_dumps (some "True") (some (login "hunter2")))
    × IsShort (redacted_request_body dumps (some "True") (some (login "hunter2")))
redacted_request_body-bounded_example =
    redacted_request_body-bounded dumps shallow_dumps (some "True") (login "hunter2")
      dumps-shallow_dumps

-- A retention that is no number counts as thirty days.
retention_test :
    (retention_days (some "never") ≡ pos 30)
    × (retention_days none ≡ pos 30)
    × (retention_days (some " 7 ") ≡ pos 7)
unfolding retention_days
retention_test = (refl, refl, refl)

record PlainResponse : Type 0 where
  status : ℕ
  body : Body String
  headers : List Header

abbrev odoo : Odoo String
odoo = record {
  Response = PlainResponse;
  make_json_response = λ b h s. record { status = s; body = b; headers = h };
  status_of = λ r. r.status;
  body_of = λ r. r.body;
  headers_of = λ r. r.headers;
  made_status = λ b h s. refl;
  made_body = λ b h s. refl;
  made_headers = λ b h s. ([], refl);
}

abbrev no_data : Data PlainResponse ℕ
no_data = record {
  size_of = λ r. none;
  payload_of = λ r. none;
  as_int = λ n. some (pos n);
  dumps = dumps;
}

-- A request whose profile denies it.
abbrev served : Served ℕ
served = record {
  rule = none;
  args = [];
  http_method = "GET";
  path = "/api/v1/orm/res.partner/read";
  remote_addr = some "192.0.2.7";
  user_agent = none;
  uid = some 7;
  auth_scheme = some "apikey";
  duration_ms = 12;
  log_body = some "True";
  params = some (login "hunter2");
}

abbrev denied : Exception PlainResponse
denied = rest_auth_error "access_denied" access_denied_message 403 []

abbrev before : Logged ℕ
before = record { core = record { future_headers = []; log = []; world = 0 }; rows = [] }

abbrev alone : PlainResponse × State ℕ
alone = handle_error odoo none "Traceback" "id-1" denied before.core

abbrev after : PlainResponse × Logged ℕ
after =
    logged_handle_error odoo no_data false true true served none "Traceback" "id-1" "id-2" denied
      before

logged_handle_error-HasNewRow_example :
    (after.0 ≡ alone.0)
    × (after.1.core ≡ alone.1)
    × HasNewRow [] after.1.rows "id-1" (some "access_denied") 403
unfolding ensure_request_id prebuilt classify_exception
logged_handle_error-HasNewRow_example =
    logged_handle_error-HasNewRow odoo no_data served none "Traceback" "id-1" "id-2" denied before
      false true true (ne-of_eq_false "id-1" "" refl) refl

count_test :
    estimate_record_count
      (λ n. some (pos n))
      (some (
        dict (
          entry "ids"
            (sequence (cons (other 4) (cons (other 5) nil)))
            (entry "length" (other 9) end))))
    ≡ pos 9
unfolding estimate_record_count
count_test = refl
