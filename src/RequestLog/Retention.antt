-- ===== src/RequestLog/Retention.antt =====
-- ssi_rest_api_log/models/ssi_rest_request_log.py, `_gc_expired_request_log`. A timestamp counts seconds, and
-- `get_param` gives the default where nothing is stored.
use Prim.Native.Nat.{◌*◌}
use ssi_rest_api.Context.{parse_int}
use ssi_rest_api.RequestLog.Rows.{Row}
use ssi_rest_api.Prelude.{ℕ, ◌-◌, String, Option, none, some, List, not, ltb, keep_if}
use ssi_rest_api.Prelude.Int.{ℤ, pos, negsuc}

-- A row with its `create_date`.
pub record Dated : Type 0 where
  pub create_date : ℕ
  pub row : Row

abbrev param_or_default : Option String → String
param_or_default none = "30"
param_or_default (some value) = value

-- `except ValueError`
abbrev days_or_default : Option ℤ → ℤ
days_or_default none = pos 30
days_or_default (some days) = days

unfoldable pub retention_days : Option String → ℤ
unfolding parse_int
retention_days stored = days_or_default (parse_int (param_or_default stored))

abbrev purge : ℤ → (now : ℕ) → List Dated → List Dated
purge (pos ℕ.zero) now rows = rows
purge (pos (ℕ.suc n)) now rows =
    keep_if (λ r. not (ltb r.create_date (now - (ℕ.suc n) * 86400))) rows
purge (negsuc n) now rows = rows

unfoldable pub gc_expired_request_log : Option String → (now : ℕ) → List Dated → List Dated
unfolding retention_days
gc_expired_request_log stored now rows = purge (retention_days stored) now rows
