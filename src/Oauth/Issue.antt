-- ===== src/Oauth/Issue.antt =====
-- `_issue` against `_lookup` (ssi_rest_api_auth_oauth2/models/ssi_rest_oauth_token.py).
use text.Mathlib.TextLemmas.{cons-append}
use ssi_rest_api.Prelude.{
  ◌∷◌, none, arith, ap, keep_if, if◌then◌else◌, ℕ, String, ◌≡◌, refl, true, false, Option, some,
  ◌==◌, nat_eq_refl, eq_refl, eq-false_of_ne, sym, ◌∙◌,
}
use ssi_rest_api.Prelude.Int.{ℤ, plus_ℤ, exceeds}
use ssi_rest_api.Prelude.Text.{slice_to}
use ssi_rest_api.Oauth.{
  of_client, first_where, Crypto, Draw, Client, Token, TokenType, Store, same_type, hash_matches,
  in_domain, lookup_token, raw_value, issued_token, issue, not_empty, token_index_size,
}

-- A hash verifies against its own text and is not empty.
pub record IsSound (crypto : Crypto) : Type 0 where
  pub own : (salt raw : String) → crypto.verify raw (crypto.hash salt raw) ≡ true
  pub present : (salt raw : String) → not_empty (crypto.hash salt raw) ≡ true

same_type_refl : (t : TokenType) → same_type t t ≡ true
unfolding same_type
same_type_refl TokenType.code = refl
same_type_refl TokenType.access = refl
same_type_refl TokenType.refresh = refl

raw_value-not_empty : (d : Draw) → (raw_value d == "") ≡ false
unfolding raw_value
raw_value-not_empty d =
    eq-false_of_ne (raw_value d) ""
      (λ h. let cons_is_empty = sym (cons-append "s" "ot_" d.token_urlsafe) ∙ h in cc)

module _ (crypto : Crypto) (client : Client) (user : Option ℕ) (type : TokenType)
    (scope : Option String) (lifetime : ℤ) (challenge method : Option String) (now : ℕ) (d : Draw)
    (s : Store) where
  -- The outcome of the `_issue` of the parameters.
  abbrev pub outcome : String × Store
  outcome = issue crypto client user type scope lifetime challenge method now d s

  abbrev pub row : Token
  row = issued_token crypto s.next_id client user type scope lifetime challenge method now d

  issued-in_domain :
      (owner : Option Client) (later : ℕ)
      → of_client owner row ≡ true
      → exceeds (plus_ℤ now lifetime) later ≡ true
      → in_domain (raw_value d) type owner later row ≡ true
  unfolding in_domain issued_token
  issued-in_domain owner later o h =
      rw (eq_refl (slice_to token_index_size (raw_value d)), same_type_refl type, h, o)

  issued-hash_matches : IsSound crypto → hash_matches crypto (raw_value d) row ≡ true
  unfolding hash_matches issued_token
  issued-hash_matches sound =
      rw (sound.present d.salt (raw_value d), sound.own d.salt (raw_value d))

  lookup_token-row :
      (owner : Option Client) (later : ℕ)
      → IsSound crypto
      → of_client owner row ≡ true
      → exceeds (plus_ℤ now lifetime) later ≡ true
      → lookup_token crypto outcome.0 type owner later outcome.1 ≡ some row
  unfolding lookup_token issue
  lookup_token-row owner later sound o h =
      rw (raw_value-not_empty d, issued-in_domain owner later o h, issued-hash_matches sound)

  -- If a hash verifies against its own text and is not empty, the raw value of _issue is found by
  -- _lookup for the same type and client, or without a client, at any time before the expiration,
  -- and what is found is the issued row.
  pub lookup_token-issue :
      (later : ℕ)
      → IsSound crypto
      → exceeds (plus_ℤ now lifetime) later ≡ true
      → (lookup_token crypto outcome.0 type (some client) later outcome.1 ≡ some row)
        × (lookup_token crypto outcome.0 type none later outcome.1 ≡ some row)
  unfolding issued_token
  lookup_token-issue later sound h = (
    lookup_token-row (some client) later sound (nat_eq_refl client.id) h,
    lookup_token-row none later sound refl h,
  )

  -- An issue of one type does not change what `_lookup` finds of another.
  pub lookup_token-other :
      (raw : String) (other : TokenType) (owner : Option Client) (later : ℕ)
      → same_type type other ≡ false
      → lookup_token crypto raw other owner later outcome.1
        ≡ lookup_token crypto raw other owner later s
  unfolding lookup_token issue in_domain issued_token
  lookup_token-other raw other owner later h =
      ap (λ ts. if raw == "" then none else first_where (hash_matches crypto raw) ts) skipped
    where
      refused : in_domain raw other owner later row ≡ false
      refused = ground arith

      skipped :
          keep_if (in_domain raw other owner later) (row ∷ s.tokens)
          ≡ keep_if (in_domain raw other owner later) s.tokens
      skipped = rw refused refl
