-- ===== src/Dispatcher/Headers.antt =====
-- ssi_rest_api/lib/dispatcher.py, `_ensure_request_id`: the correlation id in the headers of the
-- future response, and the server log that repeats it.
use ssi_rest_api.Prelude.{ℕ, String, Option, none, some, List, [], ◌∷◌, ◌++◌, ◌==◌, if◌then◌else◌}
use ssi_rest_api.Errors.{Header}

abbrev pub request_id_header : String
request_id_header = "X-Request-Id"

-- `headers.get` and `headers.set`, which replaces every entry of the name.
unfoldable pub get_header : String → List Header → Option String
get_header name [] = none
get_header name ((n, v) ∷ hs) = if n == name then some v else get_header name hs

unfoldable pub remove_header : String → List Header → List Header
remove_header name [] = []
remove_header name ((n, v) ∷ hs) =
    let rest = remove_header name hs in if n == name then rest else (n, v) ∷ rest

unfoldable pub set_header : String → String → List Header → List Header
unfolding remove_header
set_header name v hs = remove_header name hs ++ (name, v) ∷ []

-- A line of the server log.
pub record LogEntry : Type 0 where
  pub request_id : String
  pub code : String
  pub status : ℕ

-- `future_response.headers`, the server log, and the world that endpoints change.
pub record State (W : Type 0) : Type 0 where
  pub future_headers : List Header
  pub log : List LogEntry
  pub world : W

-- `_ensure_request_id`; `fresh` is `str(uuid.uuid4())`.
abbrev pub id_or : Option String → Option String
id_or none = none
id_or (some v) = if v == "" then none else some v

unfoldable pub keep_or_set : {W : Type 0} → String → Option String → State W → String × State W
keep_or_set fresh none s =
    (fresh, record s { future_headers = set_header request_id_header fresh s.future_headers })
keep_or_set fresh (some id) s = (id, s)

unfoldable pub ensure_request_id : {W : Type 0} → String → State W → String × State W
unfolding keep_or_set get_header set_header
ensure_request_id fresh s =
    keep_or_set fresh (id_or (get_header request_id_header s.future_headers)) s
