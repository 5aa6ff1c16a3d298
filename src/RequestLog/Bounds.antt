-- ===== src/RequestLog/Bounds.antt =====
-- ssi_rest_api_log/lib/dispatcher.py: how deep and how long a logged body can be.
use ssi_rest_api.RequestLog.{
  Value, text, other, dict, sequence, Entries, end, entry, Items, nil, cons, mask, is_sensitive,
  is_too_deep, max_redact_depth, redact, redact_entries, redact_items,
}
use ssi_rest_api.RequestLog.Body.{redacted_request_body, capped, dumped, max_body_chars, is_enabled}
use Prim.Native.Nat.{max}
use mathlib.Core.Option
use mathlib.Core.Path.{refl, ap}
use ssi_rest_api.Prelude.{
  ℕ, suc, ◌+◌, String, ◌≡◌, ◌≤◌, false, Option, none, some, arith, ltb, if◌then◌else◌, if_keeps,
  if_keeps-cases,
}
use ssi_rest_api.Prelude.Text.{text_length, text_length-slice_to}

-- How many dictionaries and lists stand in each other.
unfoldable mutual
  pub height : {Raw : Type 0} → Value Raw → ℕ
  height (text t) = 0
  height (other r) = 0
  height (dict es) = suc (height_entries es)
  height (sequence xs) = suc (height_items xs)

  pub height_entries : {Raw : Type 0} → Entries Raw → ℕ
  height_entries end = 0
  height_entries (entry key v es) = max (height v) (height_entries es)

  pub height_items : {Raw : Type 0} → Items Raw → ℕ
  height_items nil = 0
  height_items (cons v xs) = max (height v) (height_items xs)

shallow : (depth : ℕ) → is_too_deep depth ≡ false → suc depth ≤ suc max_redact_depth
shallow depth h = ground arith

module _ {Raw : Type 0} where
  mask-fits :
      (depth : ℕ) (v : Value Raw)
      → depth ≤ suc max_redact_depth
      → (suc depth ≤ suc max_redact_depth → height v + depth ≤ suc max_redact_depth)
      → height (if is_too_deep depth then mask else v) + depth ≤ suc max_redact_depth
  unfolding height
  mask-fits depth v h k =
      if_keeps-cases (λ w. height w + depth ≤ suc max_redact_depth) (is_too_deep depth) {x = mask}
        {y = v} (λ _. omega arith) (λ fits. k (shallow depth fits))

  mutual
    unfolding redact height

    pub height-redact :
        (depth : ℕ) (v : Value Raw)
        → depth ≤ suc max_redact_depth
        → height (redact depth v) + depth ≤ suc max_redact_depth
    height-redact depth (text t) h = mask-fits depth (text t) h (λ _. omega arith)
    height-redact depth (other r) h = mask-fits depth (other r) h (λ _. omega arith)
    height-redact depth (dict es) h =
        mask-fits depth (dict (redact_entries (suc depth) es)) h
          (λ fits. omega (arith, height_entries-redact (suc depth) es fits))
    height-redact depth (sequence xs) h =
        mask-fits depth (sequence (redact_items (suc depth) xs)) h
          (λ fits. omega (arith, height_items-redact (suc depth) xs fits))

    height_entries-redact :
        (depth : ℕ) (es : Entries Raw)
        → depth ≤ suc max_redact_depth
        → height_entries (redact_entries depth es) + depth ≤ suc max_redact_depth
    height_entries-redact depth end h = omega arith
    height_entries-redact depth (entry key v es) h =
        let value : height (if is_sensitive key then mask else redact depth v) + depth
            ≤ suc max_redact_depth =
          if_keeps (λ w. height w + depth ≤ suc max_redact_depth) (is_sensitive key) {x = mask}
            {y = redact depth v} (omega arith) (height-redact depth v h) in
        omega (arith, value, height_entries-redact depth es h)

    height_items-redact :
        (depth : ℕ) (xs : Items Raw)
        → depth ≤ suc max_redact_depth
        → height_items (redact_items depth xs) + depth ≤ suc max_redact_depth
    height_items-redact depth nil h = omega arith
    height_items-redact depth (cons v xs) h =
        omega (arith, height-redact depth v h, height_items-redact depth xs h)

capped-length : (body : String) → text_length (capped body) ≤ max_body_chars
unfolding capped
capped-length body =
    if_keeps-cases (λ b. text_length b ≤ max_body_chars) (ltb max_body_chars (text_length body))
      (λ _. text_length-slice_to max_body_chars body) (λ short. ground arith)

-- A body that is logged is short.
abbrev pub IsShort : Option String → Type 0
IsShort none = Unit
IsShort (some body) = text_length body ≤ max_body_chars

capped-IsShort : (o : Option String) → IsShort (Option.map capped o)
capped-IsShort none = tt
capped-IsShort (some body) = capped-length body

-- What `json.dumps` is passed is shallow.
dumped-same :
    {Raw : Type 0} (dumps other_dumps : Value Raw → Option String) (params : Entries Raw)
    → ((v : Value Raw) → height v ≤ suc max_redact_depth → dumps v ≡ other_dumps v)
    → dumped dumps (some params) ≡ dumped other_dumps (some params)
dumped-same dumps other_dumps end same = refl
dumped-same dumps other_dumps (entry key v es) same =
    ap (λ o. Option.map capped o)
      (same (redact 0 (dict (entry key v es)))
        (omega (arith, height-redact 0 (dict (entry key v es)) (omega arith))))

dumped-IsShort :
    {Raw : Type 0} (dumps : Value Raw → Option String) (params : Entries Raw)
    → IsShort (dumped dumps (some params))
dumped-IsShort dumps end = tt
dumped-IsShort dumps (entry key v es) = capped-IsShort (dumps (redact 0 (dict (entry key v es))))

body-IsShort :
    {Raw : Type 0} (dumps : Value Raw → Option String) (log_body : Option String)
    (params : Entries Raw)
    → IsShort (redacted_request_body dumps log_body (some params))
unfolding redacted_request_body
body-IsShort dumps log_body params =
    if_keeps IsShort (is_enabled log_body) (dumped-IsShort dumps params) tt

-- The logged body, however deep the parameters are, is the same for two json.dumps that agree on
-- every value with at most nine dictionaries and lists in each other, so that json.dumps is
-- passed nothing deeper; and a body that is logged has at most 10000 characters.
pub redacted_request_body-bounded :
    {Raw : Type 0} (dumps other_dumps : Value Raw → Option String) (log_body : Option String)
    (params : Entries Raw)
    → ((v : Value Raw) → height v ≤ suc max_redact_depth → dumps v ≡ other_dumps v)
    → (redacted_request_body dumps log_body (some params)
        ≡ redacted_request_body other_dumps log_body (some params))
      × IsShort (redacted_request_body dumps log_body (some params))
unfolding redacted_request_body
redacted_request_body-bounded dumps other_dumps log_body params same = (
  ap (λ o. if is_enabled log_body then o else none) (dumped-same dumps other_dumps params same),
  body-IsShort dumps log_body params,
)
