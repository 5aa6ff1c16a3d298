-- ===== src/RequestLog/Rows.antt =====
-- ssi_rest_api_log/lib/dispatcher.py: the dispatcher that adds a row of the log to every request, on top of
-- the one of Dispatcher. Whether the test harness makes it skip the row, whether the request has a
-- database and whether the cursor of its own succeeds are arguments; an exception is swallowed.
use ssi_rest_api.RequestLog.{Value, other, dict, sequence, Entries, end, entry, Items, nil, cons}
use ssi_rest_api.RequestLog.Body.{redacted_request_body}
use ssi_rest_api.Dispatcher.{Odoo, handle_error}
use ssi_rest_api.Dispatcher.Headers.{State, ensure_request_id}
use ssi_rest_api.Errors.{Exception, Env, classify_exception}
use ssi_rest_api.Prelude.{
  ℕ, suc, String, Bool, not, ◌||◌, Option, none, some, List, [], ◌∷◌, ◌++◌, leb, ◌==◌,
  if◌then◌else◌,
}
use ssi_rest_api.Prelude.Dict.{Dict, lookup, or_else}
use ssi_rest_api.Prelude.Int.{ℤ, pos}

-- `rule.rule` and the keys of its routing.
pub record Rule : Type 0 where
  pub pattern : String
  pub rest_model : Option String
  pub rest_operation : Option String

-- What the row takes from the request: `_log_rule` and `_log_args`, which an authentication that failed
-- leaves empty, the HTTP request, the user and the scheme, and what the logged body is made of.
pub record Served (Raw : Type 0) : Type 0 where
  pub rule : Option Rule
  pub args : Dict String
  pub http_method : String
  pub path : String
  pub remote_addr : Option String
  pub user_agent : Option String
  pub uid : Option ℕ
  pub auth_scheme : Option String
  pub duration_ms : ℕ
  pub log_body : Option String
  pub params : Option (Entries Raw)

-- A row of `ssi_rest_request_log`.
pub record Row : Type 0 where
  pub request_id : String
  pub user_id : Option ℕ
  pub auth_scheme : Option String
  pub http_method : String
  pub path : String
  pub route_pattern : Option String
  pub status_code : ℕ
  pub duration_ms : ℕ
  pub remote_addr : Option String
  pub user_agent : Option String
  pub model_name : Option String
  pub method_name : Option String
  pub record_count : ℤ
  pub error_code : Option String
  pub request_body : Option String
  pub response_size : ℕ

-- The state of the dispatcher below, and the rows that are committed.
pub record Logged (W : Type 0) : Type 0 where
  pub core : State W
  pub rows : List Row

-- What is read of the data of a response: its size, and the JSON in it; `none` where that raises. `dumps`
-- is `json.dumps`.
pub record Data (R Raw : Type 0) : Type 0 where
  pub size_of : R → Option ℕ
  pub payload_of : R → Option (Value Raw)
  pub as_int : Raw → Option ℤ
  pub dumps : Value Raw → Option String

module _ {Raw : Type 0} (as_int : Raw → Option ℤ) where
  abbrev count_items : Items Raw → ℕ
  count_items nil = 0
  count_items (cons v xs) = suc (count_items xs)

  abbrev find_key : String → Entries Raw → Option (Value Raw)
  find_key key end = none
  find_key key (entry k v es) = let rest = find_key key es in if k == key then some v else rest

  -- `isinstance(length, int)`
  abbrev int_of : Option (Value Raw) → Option ℤ
  int_of (some (other r)) = as_int r
  int_of _ = none

  -- `isinstance(value, list)`
  abbrev list_length : Option (Value Raw) → Option ℤ
  list_length (some (sequence xs)) = some (pos (count_items xs))
  list_length _ = none

  abbrev one_if_found : Option (Value Raw) → ℤ
  one_if_found none = pos 0
  one_if_found (some v) = pos 1

  abbrev or_one_if_found : Option ℤ → Option (Value Raw) → ℤ
  or_one_if_found none id = one_if_found id
  or_one_if_found (some n) id = n

  -- `_estimate_record_count`
  unfoldable pub estimate_record_count : Option (Value Raw) → ℤ
  estimate_record_count (some (sequence xs)) = pos (count_items xs)
  estimate_record_count (some (dict es)) =
      or_one_if_found
        (or_else (int_of (find_key "length" es)) (
          or_else (list_length (find_key "records" es))
            (or_else (list_length (find_key "ids" es)) (list_length (find_key "result" es)))))
        (find_key "id" es)
  estimate_record_count _ = pos 0

-- `a or b or None`, for texts.
abbrev or_text : Option String → Option String → Option String
or_text none b = b
or_text (some a) b = if a == "" then b else some a

abbrev pattern_of : Option Rule → Option String
pattern_of none = none
pattern_of (some rule) = some rule.pattern

abbrev model_of : Option Rule → Option String
model_of none = none
model_of (some rule) = or_text rule.rest_model none

abbrev operation_of : Option Rule → Option String
operation_of none = none
operation_of (some rule) = or_text rule.rest_operation none

abbrev size_or_zero : Option ℕ → ℕ
size_or_zero none = 0
size_or_zero (some n) = n

module _ {V Raw : Type 0} (o : Odoo V) (d : Data o.Response Raw) where
  -- `_build_log_vals`, with the id that `_ensure_request_id` gives.
  unfoldable pub build_log_vals :
      Served Raw → o.Response → (error_code : Option String) → String → Row
  unfolding estimate_record_count lookup redacted_request_body
  build_log_vals q response error_code id = record {
    request_id = id;
    user_id = q.uid;
    auth_scheme = q.auth_scheme;
    http_method = q.http_method;
    path = q.path;
    route_pattern = pattern_of q.rule;
    status_code = o.status_of response;
    duration_ms = q.duration_ms;
    remote_addr = q.remote_addr;
    user_agent = q.user_agent;
    model_name = or_text (lookup "model" q.args) (model_of q.rule);
    method_name = or_text (lookup "method" q.args) (operation_of q.rule);
    record_count = estimate_record_count d.as_int (d.payload_of response);
    error_code = error_code;
    request_body = redacted_request_body d.dumps q.log_body q.params;
    response_size = size_or_zero (d.size_of response);
  }

module _ {V : Type 0} (o : Odoo V) where
  -- A response that is no failure has no code.
  abbrev pub error_code_of : o.Response → Exception o.Response → Option String
  error_code_of response exc =
      if leb 400 (o.status_of response) then some (classify_exception exc).code else none

module _ {V W Raw : Type 0} (o : Odoo V) (d : Data o.Response Raw) where
  -- `_write_request_log`; `fresh` is the id that `_ensure_request_id` would draw.
  unfoldable pub write_request_log :
      (skips has_db writes : Bool)
      → Served Raw
      → (fresh : String) → o.Response
      → Option String
      → Logged W
      → Logged W
  unfolding build_log_vals ensure_request_id
  write_request_log skips has_db writes q fresh response error_code s =
      if skips || not has_db then s else record {
        core = (ensure_request_id fresh s.core).1;
        rows =
            if writes
            then s.rows
              ++ build_log_vals o d q response error_code (ensure_request_id fresh s.core).0 ∷ []
            else s.rows;
      }

  -- `post_dispatch`, after the core's.
  unfoldable pub post_dispatch :
      (skips has_db writes : Bool)
      → Served Raw
      → (fresh : String) → o.Response
      → Logged W
      → Logged W
  unfolding write_request_log
  post_dispatch skips has_db writes q fresh response s =
      write_request_log skips has_db writes q fresh response none s

  -- `handle_error`, over the core's.
  unfoldable pub logged_handle_error :
      (skips has_db writes : Bool)
      → Served Raw
      → Option Env
      → (traceback fresh later : String) → Exception o.Response
      → Logged W
      → o.Response × Logged W
  unfolding handle_error write_request_log
  logged_handle_error skips has_db writes q env traceback fresh later exc s =
      let (response, core) = handle_error o env traceback fresh exc s.core in
      (
        response,
        write_request_log skips has_db writes q later response (error_code_of o response exc)
            (record s { core = core }),
      )
