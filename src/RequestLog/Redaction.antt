-- ===== src/RequestLog/Redaction.antt =====
-- ssi_rest_api_log/lib/dispatcher.py: what a logged body can depend on, and how long it can be.
use ssi_rest_api.RequestLog.{
  Value, text, other, dict, sequence, Entries, end, entry, Items, nil, cons, mask, sensitive_keys,
  is_sensitive, is_too_deep, redact, redact_entries, redact_items,
}
use ssi_rest_api.RequestLog.Body.{redacted_request_body, capped, dumped, is_enabled}
use mathlib.Core.Option
use ssi_rest_api.Prelude.Text.{lower}
use ssi_rest_api.Prelude.{
  contains, ℕ, suc, String, ◌≡◌, refl, ap, sym, ◌∙◌, true, Option, none, some, if◌then◌else◌,
}

-- Two values that agree but for what stands under a sensitive key, or deeper than the log looks.
mutual
  pub data Similar {Raw : Type 0} : ℕ → Value Raw → Value Raw → Type 0 where
    deep : {depth : ℕ} {v w : Value Raw} → is_too_deep depth ≡ true → Similar depth v w
    same_text : {depth : ℕ} {t : String} → Similar depth (text t) (text t)
    same_other : {depth : ℕ} {r : Raw} → Similar depth (other r) (other r)
    dicts :
        {depth : ℕ} {es fs : Entries Raw}
        → SimilarEntries (suc depth) es fs
        → Similar depth (dict es) (dict fs)
    sequences :
        {depth : ℕ} {xs ys : Items Raw}
        → SimilarItems (suc depth) xs ys
        → Similar depth (sequence xs) (sequence ys)

  pub data SimilarEntries {Raw : Type 0} : ℕ → Entries Raw → Entries Raw → Type 0 where
    done : {depth : ℕ} → SimilarEntries depth end end
    hidden :
        {depth : ℕ} {key : String} {v w : Value Raw} {es fs : Entries Raw}
        → contains (lower key) sensitive_keys ≡ true
        → SimilarEntries depth es fs
        → SimilarEntries depth (entry key v es) (entry key w fs)
    shown :
        {depth : ℕ} {key : String} {v w : Value Raw} {es fs : Entries Raw}
        → Similar depth v w
        → SimilarEntries depth es fs
        → SimilarEntries depth (entry key v es) (entry key w fs)

  pub data SimilarItems {Raw : Type 0} : ℕ → Items Raw → Items Raw → Type 0 where
    no_items : {depth : ℕ} → SimilarItems depth nil nil
    next_item :
        {depth : ℕ} {v w : Value Raw} {xs ys : Items Raw}
        → Similar depth v w
        → SimilarItems depth xs ys
        → SimilarItems depth (cons v xs) (cons w ys)

module _ {Raw : Type 0} where
  redact-deep : (depth : ℕ) (v : Value Raw) → is_too_deep depth ≡ true → redact depth v ≡ mask
  unfolding redact
  redact-deep depth (text t) h = rw h refl
  redact-deep depth (other r) h = rw h refl
  redact-deep depth (dict es) h = rw h refl
  redact-deep depth (sequence xs) h = rw h refl

  mutual
    unfolding redact is_sensitive

    pub redact-Similar :
        {depth : ℕ} {v w : Value Raw} → Similar depth v w → redact depth v ≡ redact depth w
    redact-Similar {depth} {v} {w} (deep h) = redact-deep depth v h ∙ sym (redact-deep depth w h)
    redact-Similar same_text = refl
    redact-Similar same_other = refl
    redact-Similar {depth} (dicts h) =
        ap (λ es. if is_too_deep depth then mask else dict es) (redact_entries-Similar h)
    redact-Similar {depth} (sequences h) =
        ap (λ xs. if is_too_deep depth then mask else sequence xs) (redact_items-Similar h)

    redact_entries-Similar :
        {depth : ℕ} {es fs : Entries Raw}
        → SimilarEntries depth es fs
        → redact_entries depth es ≡ redact_entries depth fs
    redact_entries-Similar done = refl
    redact_entries-Similar (hidden {key} h k) =
        rw h (ap (entry key mask) (redact_entries-Similar k))
    redact_entries-Similar (shown {key} h k) =
        let same = redact-Similar h in let rest = redact_entries-Similar k in cc

    redact_items-Similar :
        {depth : ℕ} {xs ys : Items Raw}
        → SimilarItems depth xs ys
        → redact_items depth xs ≡ redact_items depth ys
    redact_items-Similar no_items = refl
    redact_items-Similar (next_item h k) =
        let same = redact-Similar h in let rest = redact_items-Similar k in cc

dumped-Similar :
    {Raw : Type 0} (dumps : Value Raw → Option String) {es fs : Entries Raw}
    → SimilarEntries 1 es fs
    → dumped dumps (some es) ≡ dumped dumps (some fs)
dumped-Similar dumps done = refl
dumped-Similar dumps (hidden h k) =
    ap (λ v. Option.map capped (dumps v)) (redact-Similar (dicts (hidden h k)))
dumped-Similar dumps (shown h k) =
    ap (λ v. Option.map capped (dumps v)) (redact-Similar (dicts (shown h k)))

-- Whatever json.dumps does and the parameter that enables it says, the logged body is the same
-- for two requests whose parameters agree but for the values under keys that, in lower case, are
-- sensitive, at any depth, and for what stands more than eight levels deep.
pub redacted_request_body-Similar :
    {Raw : Type 0} (dumps : Value Raw → Option String) (log_body : Option String)
    (params others : Entries Raw)
    → SimilarEntries 1 params others
    → redacted_request_body dumps log_body (some params)
      ≡ redacted_request_body dumps log_body (some others)
unfolding redacted_request_body
redacted_request_body-Similar dumps log_body params others h =
    ap (λ body. if is_enabled log_body then body else none) (dumped-Similar dumps h)
