-- ===== src/Oauth/Unusable.antt =====
-- `_lookup` of ssi_rest_oauth_token.py for a raw value that no row can be used with.
use ssi_rest_api.Prelude.{
  ℕ, String, ◌≡◌, refl, inl, inr, false, true, ◌&&◌, Option, none, List, [], ◌∷◌, ◌==◌, arith, All,
  Bool-cases, if_keeps,
}
use ssi_rest_api.Oauth.{
  Crypto, Client, Token, TokenType, Store, hash_matches, lookup_token, in_domain,
}
use ssi_rest_api.Oauth.Lookup.{first_where-none}
use ssi_rest_api.Oauth.Spent.{alive, Lives}

module _ (crypto : Crypto) (decode : String → Option String) (raw : String) (type : TokenType)
    (owner : Option Client) (now : ℕ) where
  not_found :
      (ts : List Token)
      → All (λ t. alive crypto decode raw type t ≡ true → ⊥) ts
      → All (λ t. in_domain raw type owner now t && hash_matches crypto raw t ≡ false) ts
  unfolding in_domain
  not_found [] h = tt
  not_found (t ∷ ts) (k, h) = (
    elim (Bool-cases (in_domain raw type owner now t && hash_matches crypto raw t)) [
      | inl e ↦ absurd (k (ground arith))
      | inr e ↦ e
    ],
    not_found ts h,
  )

  pub lookup_token-Lives :
      (s : Store)
      → Lives crypto decode raw (λ n. ⊥) type s
      → lookup_token crypto raw type owner now s ≡ none
  unfolding lookup_token
  lookup_token-Lives s spent =
      if_keeps (λ o. o ≡ none) (raw == "") refl
        (first_where-none (hash_matches crypto raw) (in_domain raw type owner now) s.tokens
          (not_found s.tokens spent))
