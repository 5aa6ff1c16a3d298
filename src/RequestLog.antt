-- ===== src/RequestLog.antt =====
-- ssi_rest_api_log/lib/dispatcher.py: the redaction of what a request carried, before it is logged. The
-- dispatcher that writes the rows is in RequestLog/Rows, the retention of
-- ssi_rest_api_log/models/ssi_rest_request_log.py in RequestLog/Retention.
pub mod Body
pub mod Bounds
pub mod Logging
pub mod Redaction
pub mod Retention
pub mod Rows
mod Tests
use ssi_rest_api.Prelude.{ℕ, suc, String, Bool, List, [], ◌∷◌, contains, ltb, if◌then◌else◌}
use ssi_rest_api.Prelude.Text.{lower}

-- What JSON, forms and query strings give: a dictionary with text keys, a list, a text, or another value
-- (a number, a Boolean, `None`, an uploaded file).
mutual
  pub data Value (Raw : Type 0) : Type 0 where
    text : String → Value Raw
    other : Raw → Value Raw
    dict : Entries Raw → Value Raw
    sequence : Items Raw → Value Raw

  pub data Entries (Raw : Type 0) : Type 0 where
    end : Entries Raw
    entry : String → Value Raw → Entries Raw → Entries Raw

  pub data Items (Raw : Type 0) : Type 0 where
    nil : Items Raw
    cons : Value Raw → Items Raw → Items Raw

abbrev pub sensitive_keys : List String
sensitive_keys =
    "password" ∷ "passwd" ∷ "pwd" ∷ "token" ∷ "access_token" ∷ "refresh_token" ∷ "secret"
    ∷ "client_secret" ∷ "api_key" ∷ "apikey" ∷ "authorization" ∷ "credential" ∷ "credentials"
    ∷ "otp" ∷ []

abbrev pub max_redact_depth : ℕ
max_redact_depth = 8

-- `key.lower() in _SENSITIVE_KEYS`
unfoldable pub is_sensitive : String → Bool
unfolding lower
is_sensitive key = contains (lower key) sensitive_keys

abbrev pub is_too_deep : ℕ → Bool
is_too_deep depth = ltb max_redact_depth depth

module _ {Raw : Type 0} where
  abbrev pub mask : Value Raw
  mask = text "***"

  unfoldable mutual
    unfolding is_sensitive

    pub redact : ℕ → Value Raw → Value Raw
    redact depth (text t) = if is_too_deep depth then mask else text t
    redact depth (other r) = if is_too_deep depth then mask else other r
    redact depth (dict es) =
        let inner = redact_entries (suc depth) es in if is_too_deep depth then mask else dict inner
    redact depth (sequence xs) =
        let inner = redact_items (suc depth) xs in
        if is_too_deep depth then mask else sequence inner

    pub redact_entries : ℕ → Entries Raw → Entries Raw
    redact_entries depth end = end
    redact_entries depth (entry key v es) =
        let inner = redact depth v in
        entry key (if is_sensitive key then mask else inner) (redact_entries depth es)

    pub redact_items : ℕ → Items Raw → Items Raw
    redact_items depth nil = nil
    redact_items depth (cons v xs) = cons (redact depth v) (redact_items depth xs)
