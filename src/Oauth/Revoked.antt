-- ===== src/Oauth/Revoked.antt =====
-- The endpoint revoke of ssi_rest_api_auth_oauth2/controllers/main.py and what it leaves of a token.
use ssi_rest_api.Prelude.{
  ℕ, String, ◌≡◌, ◌≢◌, refl, ap, sym, ◌∙◌, inl, inr, true, false, ◌&&◌, not, Option, none, some,
  List, [], ◌∷◌, ◌==◌, arith, All, any_of, nat_eq, nat_eq_iff, eq_iff, eq-false_of_ne, Bool-cases,
  if_keeps, if_keeps-cases, keep_if,
}
use mathlib.Core.Path.{subst}
use ssi_rest_api.Prelude.Dict.{Dict}
use ssi_rest_api.Prelude.Text.{slice_to}
use ssi_rest_api.Prelude.Members.{Memᴰ, All-map, All-mem, keep_if-true}
use ssi_rest_api.Dispatcher.Arguments.{Outcome, returns}
use ssi_rest_api.Oauth.{
  Crypto, Client, Token, TokenType, Store, same_type, first_where, hash_matches, lookup_token,
  is_access_or_refresh, in_revoke_domain, lookup_for_revoke, revoke_rows, token_index_size,
}
use ssi_rest_api.Oauth.Endpoints.{param, revoke_found, revoke_for_client, secret_accepted}
use ssi_rest_api.Oauth.Events.{Event, run, Avoids}
use ssi_rest_api.Oauth.Lookup.{first_where-some}
use ssi_rest_api.Oauth.Spent.{IsCollisionFree, alive, Lives, run-Lives}
use ssi_rest_api.Oauth.Unusable.{lookup_token-Lives}

access_or_refresh-same :
    (a b : TokenType)
    → same_type a b ≡ true
    → is_access_or_refresh b ≡ true
    → is_access_or_refresh a ≡ true
unfolding same_type
access_or_refresh-same TokenType.code TokenType.code h k = k
access_or_refresh-same TokenType.code TokenType.access h k = h
access_or_refresh-same TokenType.code TokenType.refresh h k = h
access_or_refresh-same TokenType.access b h k = refl
access_or_refresh-same TokenType.refresh b h k = refl

module _ (crypto : Crypto) (decode : String → Option String) (raw : String) (client : Client)
    (i : ℕ) where
  -- A row that `raw` verifies against is the row `i`, is the client's, and is indexed by `raw`.
  pub record IsOwnRow (t : Token) : Type 0 where
    pub same_row : t.id ≡ i
    pub same_client : t.client ≡ client.id
    pub indexed : t.token_index ≡ slice_to token_index_size raw

  abbrev pub IsHeld : Store → Type 0
  IsHeld s = All (λ t. hash_matches crypto raw t ≡ true → IsOwnRow t) s.tokens

  in_revoke_domain-alive :
      (type : TokenType) (t : Token)
      → is_access_or_refresh type ≡ true
      → alive crypto decode raw type t ≡ true
      → IsOwnRow t
      → in_revoke_domain raw client t && hash_matches crypto raw t ≡ true
  unfolding in_revoke_domain
  in_revoke_domain-alive type t kind live own =
      let same = access_or_refresh-same t.token_type type (ground arith) kind in
      let index = (eq_iff t.token_index (slice_to token_index_size raw)).1 own.indexed in
      let client_row = (nat_eq_iff t.client client.id).1 own.same_client in ground arith

  revoke_rows-Lives :
      (type : TokenType) (s : Store) (row : Token)
      → IsHeld s
      → Memᴰ row s.tokens
      → hash_matches crypto raw row ≡ true
      → Lives crypto decode raw (λ n. ⊥) type (revoke_rows (row.id ∷ []) s)
  unfolding revoke_rows
  revoke_rows-Lives type s row held stored verified =
      All-map (λ t. hash_matches crypto raw t ≡ true → IsOwnRow t)
        (λ t. alive crypto decode raw type t ≡ true → ⊥) _
        (λ t k.
          if_keeps-cases (λ u. alive crypto decode raw type u ≡ true → ⊥)
            (any_of (nat_eq t.id) (row.id ∷ [])) (λ chosen e. ground arith)
            (λ other e.
              let own = k (ground arith) in
              let found =
                All-mem (λ t. hash_matches crypto raw t ≡ true → IsOwnRow t) stored held verified in
              let same = own.same_row ∙ sym found.same_row in ground arith))
        s.tokens held

  missing-Lives :
      (type : TokenType) (ts : List Token)
      → is_access_or_refresh type ≡ true
      → All (λ t. hash_matches crypto raw t ≡ true → IsOwnRow t) ts
      → first_where (hash_matches crypto raw) (keep_if (in_revoke_domain raw client) ts) ≡ none
      → All (λ t. alive crypto decode raw type t ≡ true → ⊥) ts
  missing-Lives type [] kind held h = tt
  missing-Lives type (t ∷ ts) kind (k, held) h =
      elim (Bool-cases (in_revoke_domain raw client t && hash_matches crypto raw t)) [
        | inl e ↦ absurd (ground arith)
        | inr e ↦ (
          λ live. let found = in_revoke_domain-alive type t kind live (k (ground arith)) in cc,
          missing-Lives type ts kind held (ground arith),
        )
      ]

  revoke_found-Lives :
      (type : TokenType) (s : Store) (o : Option Token)
      → is_access_or_refresh type ≡ true
      → (raw == "") ≡ false
      → IsHeld s
      → lookup_for_revoke crypto raw client s ≡ o
      → Lives crypto decode raw (λ n. ⊥) type (revoke_found o s)
  unfolding lookup_for_revoke
  revoke_found-Lives type s none kind full held h =
      missing-Lives type s.tokens kind held (rw full at h)
  revoke_found-Lives type s (some row) kind full held h =
      let (m, verified) = first_where-some (hash_matches crypto raw) _ row (rw full at h) in
      revoke_rows-Lives type s row held (keep_if-true (in_revoke_domain raw client) s.tokens m).0
        verified

  -- After a client has revoked a token that is its own, in any further events in which the value
  -- is not issued again, the value is found neither as an access nor as a refresh token, for any
  -- client and at any time, if every row that the value verifies against is one row of that
  -- client, indexed by the value, and a hash verifies against no other text than its own.
  pub revoked_for_good :
      (secret : String) (kw : Dict String) (s t : Store) (clients : List Client) (es : List Event)
      (type : TokenType) (owner : Option Client) (now : ℕ)
      → IsCollisionFree crypto
      → param kw "token" ≡ raw
      → raw ≢ ""
      → IsHeld s
      → revoke_for_client crypto decode {R = Unit {0}} (some client) secret kw s ≡ (returns tt, t)
      → All (Avoids raw) es
      → is_access_or_refresh type ≡ true
      → lookup_token crypto raw type owner now
          (run crypto decode es (record { clients = clients; store = t })).store
        ≡ none
  unfolding revoke_for_client
  revoked_for_good secret kw s t clients es type owner now free is_raw full held h fresh kind =
      lookup_token-Lives crypto decode raw type owner now _ (
        run-Lives crypto decode raw (λ n. ⊥) type es (record { clients = clients; store = t }) free
          fresh (revoked (ap (λ o. o.0) h) (ap (λ o. o.1) h)))
    where
      Revoked : Outcome (Unit {0}) (Unit {0}) × Store → Type 0
      Revoked o = o.0 ≡ returns tt → o.1 ≡ t → Lives crypto decode raw (λ n. ⊥) type t

      revoked : Revoked (revoke_for_client crypto decode {R = Unit {0}} (some client) secret kw s)
      revoked =
          if_keeps Revoked (not (secret_accepted crypto decode client secret)) (λ k l. absurd (cc))
            (λ k l. subst (Lives crypto decode raw (λ n. ⊥) type) l (
              rw is_raw (
                revoke_found-Lives type s (lookup_for_revoke crypto raw client s) kind
                  (eq-false_of_ne raw "" full) held refl)))
