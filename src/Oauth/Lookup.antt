-- ===== src/Oauth/Lookup.antt =====
-- What `_lookup` and `_lookup_for_revoke` find (ssi_rest_oauth_token.py).
use ssi_rest_api.Prelude.{
  ℕ, String, ◌≡◌, refl, inl, inr, Bool, true, false, ◌&&◌, Option, none, some, List, [], ◌∷◌, ◌==◌,
  arith, All, Bool-cases, keep_if,
}
use ssi_rest_api.Prelude.Int.{exceeds}
use ssi_rest_api.Prelude.Members.{Memᴰ, keep_if-true}
use ssi_rest_api.Oauth.{
  Crypto, Client, Token, TokenType, Store, first_where, same_type, hash_matches, in_domain,
  of_client, lookup_token,
}

pub first_where-some {ℓ} :
    {A : Type ℓ} (p : A → Bool) (xs : List A) (a : A)
    → first_where p xs ≡ some a
    → Memᴰ a xs × (p a ≡ true)
first_where-some p [] a h = cc
first_where-some p (x ∷ xs) a h = elim (Bool-cases (p x)) [
  | inl here ↦ let found = rw here at h in (Memᴰ.head (ground arith), ground arith)
  | inr later ↦ let (m, e) = first_where-some p xs a (rw later at h) in (Memᴰ.tail m, e)
]

pub first_where-none {ℓ} :
    {A : Type ℓ} (p q : A → Bool) (xs : List A)
    → All (λ x. q x && p x ≡ false) xs
    → first_where p (keep_if q xs) ≡ none
first_where-none p q [] h = refl
first_where-none p q (x ∷ xs) (k, h) = ground (arith, first_where-none p q xs h)

module _ (crypto : Crypto) where
  -- A row that `_lookup` may return: of the asked type and client, neither revoked nor expired, with
  -- a hash that the raw value verifies against.
  pub record IsAnswer (raw : String) (type : TokenType) (client : Option Client) (now : ℕ)
      (s : Store) (t : Token) : Type 0 where
    pub stored : Memᴰ t s.tokens
    pub of_type : same_type t.token_type type ≡ true
    pub unrevoked : t.revoked ≡ false
    pub unexpired : exceeds t.expiration_date now ≡ true
    pub own : of_client client t ≡ true
    pub verified : hash_matches crypto raw t ≡ true

  in_domain-parts :
      (raw : String) (type : TokenType) (client : Option Client) (now : ℕ) (t : Token)
      → in_domain raw type client now t ≡ true
      → (same_type t.token_type type ≡ true)
        × (t.revoked ≡ false)
        × (exceeds t.expiration_date now ≡ true)
        × (of_client client t ≡ true)
  unfolding in_domain
  in_domain-parts raw type client now t h = (ground arith, ground arith, ground arith, ground arith)

  pub lookup_token-IsAnswer :
      (raw : String) (type : TokenType) (client : Option Client) (now : ℕ) (s : Store) (t : Token)
      → lookup_token crypto raw type client now s ≡ some t
      → IsAnswer raw type client now s t
  unfolding lookup_token
  lookup_token-IsAnswer raw type client now s t h = elim (Bool-cases (raw == "")) [
    | inl empty ↦ let missing = rw empty at h in absurd (cc)
    | inr full ↦
        let (m, verified) = first_where-some (hash_matches crypto raw) _ t (rw full at h) in
        let (stored, domain) = keep_if-true (in_domain raw type client now) s.tokens m in
        let (of_type, unrevoked, unexpired, own) = in_domain-parts raw type client now t domain in
        record {
          stored = stored;
          of_type = of_type;
          unrevoked = unrevoked;
          unexpired = unexpired;
          own = own;
          verified = verified;
        }
  ]
