-- ===== src/Jwt/Claims.antt =====
-- The user of a token: its key, its claims and the users that ssi_rest_auth_jwt.py finds for them.
use ssi_rest_api.Jwt.{
  PyJwt, Issuer, User, Call, gives, throws, jwk_client_error, jwt_error, foreign, is_hmac,
}
use ssi_rest_api.Jwt.Provider.{
  catch_jwt_error, catch_client_error, decoded_with, with_claims, resolve_user_result, claimed_user,
  user_result, found_user, search_result, find_user, field_of, profiles_of, checks,
}
use ssi_rest_api.Prelude.{
  ℕ, String, ◌≡◌, refl, true, Bool-cases, inl, inr, Option, none, some, List, [], ◌∷◌, ◌&&◌,
  if◌then◌else◌, arith,
}
use ssi_rest_api.Prelude.Dict.{Dict, lookup}
use ssi_rest_api.Prelude.Members.{Memᴰ}
use ssi_rest_api.Dispatcher.Arguments.{Outcome, returns, raises}
use ssi_rest_api.Auth.{RestAuthResult}
use ssi_rest_api.Oauth.Lookup.{first_where-some}

pub catch_jwt_error-returns :
    {R A : Type 0} (c : Call A) (a : A) → catch_jwt_error {R = R} c ≡ returns a → c ≡ gives a
unfolding catch_jwt_error
catch_jwt_error-returns (gives b) a e = cc
catch_jwt_error-returns (throws jwk_client_error) a e = cc
catch_jwt_error-returns (throws jwt_error) a e = cc
catch_jwt_error-returns (throws (foreign m)) a e = cc

pub catch_client_error-returns :
    {R A : Type 0} (c : Call A) (a : A) → catch_client_error {R = R} c ≡ returns a → c ≡ gives a
unfolding catch_client_error
catch_client_error-returns (gives b) a e = cc
catch_client_error-returns (throws jwk_client_error) a e = cc
catch_client_error-returns (throws jwt_error) a e = cc
catch_client_error-returns (throws (foreign m)) a e = cc

module _ {V Key Client : Type 0} (jwt : PyJwt V Key Client) (now : ℕ) (token : String) where
  -- The key material of the issuer: its secret for an HMAC algorithm, and otherwise what a client of its
  -- URL gives for the token.
  abbrev pub IsKeyOf : Issuer → Key → Type 0
  IsKeyOf i key =
      if is_hmac i.algorithm
      then key ≡ jwt.secret i.shared_secret
      else (c : Client) × (jwt.uri c ≡ i.jwks_url)
        × ((jwt.get_signing_key now token c).0 ≡ gives key)

  -- The token stands for the user by what the issuer's record says.
  pub record IsAccepted (i : Issuer) (u : User) : Type 0 where
    pub key : Key
    pub of_issuer : IsKeyOf i key
    pub claims : Dict V
    pub decoded :
        jwt.decode
          (record {
            key = key;
            algorithms = i.algorithm ∷ [];
            audience = i.audience;
            issuer = i.issuer;
            leeway = i.leeway;
            require = "exp" ∷ [];
          })
          now
          token
        ≡ gives claims
    pub value : V
    pub claimed : lookup i.user_claim claims ≡ some value
    pub not_empty : jwt.is_truthy value ≡ true
    pub active : u.active ≡ true
    pub matches : jwt.equals (some value) (field_of i.user_match_field u) ≡ true

  -- The answer for the user, narrowed by the issuer's profile.
  abbrev pub answer : Issuer → User → RestAuthResult
  answer i u = record {
    uid = u.id;
    scheme = "jwt";
    profile_ids = profiles_of i.profile_id;
    scopes = [];
    expires_at = none;
  }

  abbrev pub Accepts : Issuer → List User → RestAuthResult → Type 0
  Accepts i users r = (u : User) × Memᴰ u users × IsAccepted i u × (r ≡ answer i u)

  -- Who is found for the claims.
  user_result-returns :
      {R : Type 0} (i : Issuer) (o : Option User) (r : RestAuthResult)
      → user_result {R = R} jwt i o ≡ returns r
      → (u : User) × (o ≡ some u) × (r ≡ answer i u)
  unfolding user_result
  user_result-returns i none r e = cc
  user_result-returns i (some u) r e = (u, refl, cc)

  -- A search that was answered.
  found_user-returns :
      {R : Type 0} (i : Issuer) (e : Option String) (o : Option User) (r : RestAuthResult)
      → found_user {R = R} jwt i (search_result e o) ≡ returns r
      → (u : User) × (o ≡ some u) × (r ≡ answer i u)
  found_user-returns i none o r same = user_result-returns i o r same
  found_user-returns i (some message) o r same = cc

  claimed_user-returns :
      {R : Type 0} (i : Issuer) (o : Option V) (users : List User) (r : RestAuthResult)
      → claimed_user {R = R} jwt i o users ≡ returns r
      → (value : V) × (u : User) × (o ≡ some value)
        × (jwt.is_truthy value ≡ true)
        × Memᴰ u users
        × (u.active ≡ true)
        × (jwt.equals (some value) (field_of i.user_match_field u) ≡ true)
        × (r ≡ answer i u)
  unfolding claimed_user find_user
  claimed_user-returns i none users r e = cc
  claimed_user-returns i (some value) users r e = elim (Bool-cases (jwt.is_truthy value)) [
    | inl t ↦
        let (u, found, same) =
          found_user-returns i (jwt.search_error (some value))
            (find_user jwt i.user_match_field value users) r (rw t at e) in
        let (m, both) =
          first_where-some
            (λ (w : User). w.active && jwt.equals (some value) (field_of i.user_match_field w))
            users u found in
        (value, u, refl, t, m, ground arith, ground arith, same)
    | inr f ↦ let impossible = rw f at e in absurd (cc)
  ]

  with_claims-returns :
      {R : Type 0} (i : Issuer) (users : List User) (key : Key) (o : Call (Dict V))
      (r : RestAuthResult)
      → IsKeyOf i key
      → jwt.decode (checks i key) now token ≡ o
      → with_claims {R = R} jwt now token i users (catch_jwt_error o) ≡ returns r
      → Accepts i users r
  unfolding catch_jwt_error resolve_user_result
  with_claims-returns i users key (gives claims) r k d e =
      let (value, u, claimed, t, m, active, matches, same) =
        claimed_user-returns i (lookup i.user_claim claims) users r e in
      (
        u,
        m,
        record {
          key = key;
          of_issuer = k;
          claims = claims;
          decoded = d;
          value = value;
          claimed = claimed;
          not_empty = t;
          active = active;
          matches = matches;
        },
        same,
      )
  with_claims-returns i users key (throws jwk_client_error) r k d e = cc
  with_claims-returns i users key (throws jwt_error) r k d e = cc
  with_claims-returns i users key (throws (foreign m)) r k d e = cc

  pub decoded_with-returns :
      {R : Type 0} (i : Issuer) (users : List User) (o : Outcome R Key) (r : RestAuthResult)
      → ((key : Key) → o ≡ returns key → IsKeyOf i key)
      → decoded_with jwt now token i users o ≡ returns r
      → Accepts i users r
  decoded_with-returns i users (raises x) r k e = cc
  decoded_with-returns i users (returns key) r k e =
      with_claims-returns i users key (jwt.decode (checks i key) now token) r (k key refl) refl e
