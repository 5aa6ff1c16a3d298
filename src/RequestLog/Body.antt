-- ===== src/RequestLog/Body.antt =====
-- ssi_rest_api_log/lib/dispatcher.py, `_redacted_request_body`. `dumps` is `json.dumps`, `none` where it
-- raises `TypeError` or `ValueError`.
use ssi_rest_api.RequestLog.{Value, dict, Entries, end, entry, redact}
use ssi_rest_api.Prelude.{ℕ, String, Bool, Option, none, some, ltb, ◌==◌, false, if◌then◌else◌}
use ssi_rest_api.Prelude.Text.{slice_to, text_length}
use mathlib.Core.Option

abbrev pub max_body_chars : ℕ
max_body_chars = 10000

unfoldable pub capped : String → String
unfolding slice_to text_length
capped body = if ltb max_body_chars (text_length body) then slice_to max_body_chars body else body

-- `icp._get_param(ICP_LOG_BODY) == "True"`
abbrev pub is_enabled : Option String → Bool
is_enabled none = false
is_enabled (some value) = value == "True"

module _ {Raw : Type 0} (dumps : Value Raw → Option String) where
  -- `request.params`, unless it is missing or empty.
  abbrev pub dumped : Option (Entries Raw) → Option String
  dumped none = none
  dumped (some end) = none
  dumped (some (entry key v es)) = Option.map capped (dumps (redact 0 (dict (entry key v es))))

  unfoldable pub redacted_request_body :
      (log_body : Option String) → Option (Entries Raw) → Option String
  unfolding capped redact
  redacted_request_body log_body params = if is_enabled log_body then dumped params else none
