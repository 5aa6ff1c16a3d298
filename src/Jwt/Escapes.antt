-- ===== src/Jwt/Escapes.antt =====
-- The exceptions of the provider of ssi_rest_auth_jwt.py.
use mathlib.Core.Path.{subst}
use ssi_rest_api.Jwt.{
  PyJwt, Issuer, User, State, Call, gives, throws, Raised, jwk_client_error, jwt_error, foreign,
  is_hmac,
}
use ssi_rest_api.Jwt.Cache.{get_client}
use ssi_rest_api.Jwt.Claims.{IsKeyOf}
use ssi_rest_api.Jwt.Clients.{IsPyJwt, get_client-IsRenewed, run-IsRenewed}
use ssi_rest_api.Jwt.Events.{Event, run}
use ssi_rest_api.Jwt.Provider.{
  candidates, resolve_signing_key, ask_client, verify_against_issuer, or_next, verify_each,
  verify_found, verify_claimed, search_result, catch_jwt_error, catch_client_error, jwt_verify,
  decoded_with, with_claims, resolve_user_result, claimed_user, found_user, user_result, find_user,
  checks, invalid_token, uncaught,
}
use ssi_rest_api.Jwt.Verified.{IsBound, resolve-IsBound, resolve-IsKeyOf}
use ssi_rest_api.Prelude.{
  ℕ, String, ◌≡◌, ◌≢◌, ◌&&◌, true, false, refl, ◌∙◌, arith, Bool-cases, inl, inr, Option, none,
  some, List, [], ◌∷◌, nat_eq_refl,
}
use ssi_rest_api.Prelude.Dict.{Dict, lookup}
use ssi_rest_api.Prelude.Members.{Memᴰ, keep_if-true}
use ssi_rest_api.Errors.{Exception, rest_auth_error, http_exception, odoo_error, unclassified}
use ssi_rest_api.Dispatcher.Arguments.{Outcome, returns, raises}
use ssi_rest_api.Auth.{RestAuthResult}

module _ {V Key Client : Type 0} (jwt : PyJwt V Key Client) (now : ℕ) (token : String) where
  -- A stored and active issuer that has the unverified `iss` of the token.
  pub record IsNamed (issuers : List Issuer) (i : Issuer) : Type 0 where
    pub peeked : Dict V
    pub peek : jwt.peek token ≡ gives peeked
    pub stored : Memᴰ i issuers
    pub active : i.active ≡ true
    pub same : jwt.equals (lookup "iss" peeked) i.issuer ≡ true

  module _ (R : Type 0) (Known : Issuer → Type 0) where
    -- Why the exception is raised: the credential is refused; PyJWT threw what no handler of the module
    -- names; or Odoo's search cannot take a claim.
    pub data Explains : Exception R → Type 0 where
      rejected : Explains invalid_token
      not_peeked : (m : String) → jwt.peek token ≡ throws (foreign m) → Explains (unclassified m)
      issuer_search :
          (claims : Dict V) (m : String)
          → jwt.peek token ≡ gives claims
          → jwt.search_error (lookup "iss" claims) ≡ some m
          → Explains (unclassified m)
      not_fetched :
          (i : Issuer) (c : Client) (x : Raised)
          → Known i
          → is_hmac i.algorithm ≡ false
          → jwt.uri c ≡ i.jwks_url
          → (jwt.get_signing_key now token c).0 ≡ throws x
          → x ≢ jwk_client_error
          → Explains (uncaught x)
      not_decoded :
          (i : Issuer) (key : Key) (m : String)
          → Known i
          → IsKeyOf jwt now token i key
          → jwt.decode (checks i key) now token ≡ throws (foreign m)
          → Explains (unclassified m)
      user_search :
          (i : Issuer) (key : Key) (claims : Dict V) (v : V) (m : String)
          → Known i
          → IsKeyOf jwt now token i key
          → jwt.decode (checks i key) now token ≡ gives claims
          → lookup i.user_claim claims ≡ some v
          → jwt.search_error (some v) ≡ some m
          → Explains (unclassified m)

    abbrev Refuses : {A : Type 0} → Outcome R A → Type 0
    Refuses (returns a) = Unit
    Refuses (raises e) = Explains e

    catch_client_error-Refuses :
        {A : Type 0} (c : Call A)
        → ((x : Raised) → c ≡ throws x → x ≢ jwk_client_error → Explains (uncaught x))
        → Refuses (catch_client_error {R = R} c)
    unfolding catch_client_error
    catch_client_error-Refuses (gives a) k = tt
    catch_client_error-Refuses (throws jwk_client_error) k = rejected
    catch_client_error-Refuses (throws jwt_error) k = k jwt_error refl (λ e. cc)
    catch_client_error-Refuses (throws (foreign m)) k = k (foreign m) refl (λ e. cc)

    found_user-Refuses :
        (i : Issuer) (x : Option String) (o : Option User)
        → ((m : String) → x ≡ some m → Explains (unclassified m))
        → Refuses (found_user {R = R} jwt i (search_result x o))
    unfolding user_result
    found_user-Refuses i none none k = rejected
    found_user-Refuses i none (some u) k = tt
    found_user-Refuses i (some m) o k = k m refl

    claimed_user-Refuses :
        (i : Issuer) (o : Option V) (users : List User)
        → ((v : V) (m : String)
            → o ≡ some v
            → jwt.search_error (some v) ≡ some m
            → Explains (unclassified m))
        → Refuses (claimed_user {R = R} jwt i o users)
    unfolding claimed_user
    claimed_user-Refuses i none users k = rejected
    claimed_user-Refuses i (some value) users k = elim (Bool-cases (jwt.is_truthy value)) [
      | inl t ↦ rw t (
          found_user-Refuses i (jwt.search_error (some value))
            (find_user jwt i.user_match_field value users) (λ m e. k value m refl e))
      | inr f ↦ rw f rejected
    ]

    with_claims-Refuses :
        (i : Issuer) (users : List User) (key : Key) (o : Call (Dict V))
        → Known i
        → IsKeyOf jwt now token i key
        → jwt.decode (checks i key) now token ≡ o
        → Refuses (with_claims {R = R} jwt now token i users (catch_jwt_error o))
    unfolding catch_jwt_error resolve_user_result
    with_claims-Refuses i users key (gives claims) known own d =
        claimed_user-Refuses i (lookup i.user_claim claims) users
          (λ v m e x. user_search i key claims v m known own d e x)
    with_claims-Refuses i users key (throws jwk_client_error) known own d = rejected
    with_claims-Refuses i users key (throws jwt_error) known own d = rejected
    with_claims-Refuses i users key (throws (foreign m)) known own d =
        not_decoded i key m known own d

    decoded_with-Refuses :
        (i : Issuer) (users : List User) (o : Outcome R Key)
        → Known i
        → ((key : Key) → o ≡ returns key → IsKeyOf jwt now token i key)
        → Refuses o
        → Refuses (decoded_with jwt now token i users o)
    decoded_with-Refuses i users (raises e) known own h = h
    decoded_with-Refuses i users (returns key) known own h =
        with_claims-Refuses i users key (jwt.decode (checks i key) now token) known (own key refl)
          refl

    or_next-Refuses :
        (r : Outcome R RestAuthResult) (s : State Client)
        (next : State Client → Outcome R RestAuthResult × State Client)
        → Refuses r
        → Refuses (next s).0
        → Refuses (or_next jwt now token (r, s) next).0
    unfolding or_next
    or_next-Refuses (returns r) s next h k = tt
    or_next-Refuses (raises (rest_auth_error c d n x)) s next h k = k
    or_next-Refuses (raises (http_exception c x)) s next h k = h
    or_next-Refuses (raises (odoo_error c n m)) s next h k = h
    or_next-Refuses (raises (unclassified m)) s next h k = h

    module _ (h : IsPyJwt jwt) where
      resolve-Refuses :
          (users : List User) (i : Issuer) (s : State Client)
          → Known i
          → IsBound jwt now token h R users s
          → Refuses (resolve_signing_key {R = R} jwt now token i s).0
      unfolding resolve_signing_key ask_client
      resolve-Refuses users i s known (bound, _) = elim (Bool-cases (is_hmac i.algorithm)) [
        | inl hmac ↦ rw hmac tt
        | inr key_set ↦
            let (_, since, url) =
              get_client-IsRenewed jwt h i.id 0 i.id i.jwks_url s (bound i.id) in
            rw key_set (
              catch_client_error-Refuses
                (jwt.get_signing_key now token (get_client jwt i.id i.jwks_url s).0.client).0
                (λ x e other.
                  not_fetched i (get_client jwt i.id i.jwks_url s).0.client x known key_set
                    ((since (nat_eq_refl i.id)).0 ∙ url) e other))
      ]

      verify_each-Refuses :
          (rows : List Issuer) (users : List User) (s : State Client)
          → ((i : Issuer) → Memᴰ i rows → Known i)
          → IsBound jwt now token h R users s
          → Refuses (verify_each {R = R} jwt now token rows s).0
      unfolding verify_each verify_against_issuer
      verify_each-Refuses [] users s known b = rejected
      verify_each-Refuses (i ∷ rows) users s known b =
          let own = known i (Memᴰ.head refl) in
          let (key, s') = resolve_signing_key {R = R} jwt now token i s in
          or_next-Refuses (decoded_with jwt now token i s.users key) s'
            (verify_each jwt now token rows)
            (decoded_with-Refuses i s.users key own
              (λ k. resolve-IsKeyOf jwt now token h R users i s k b)
              (resolve-Refuses users i s own b))
            (verify_each-Refuses rows users s' (λ j m. known j (Memᴰ.tail m))
              (resolve-IsBound jwt now token h R users i s b))

      verify_found-Refuses :
          (x : Option String) (rows : List Issuer) (s : State Client)
          → ((i : Issuer) → Memᴰ i rows → Known i)
          → ((m : String) → x ≡ some m → Explains (unclassified m))
          → IsBound jwt now token h R s.users s
          → Refuses (verify_found {R = R} jwt now token (search_result x rows) s).0
      verify_found-Refuses none rows s known k b = verify_each-Refuses rows s.users s known b
      verify_found-Refuses (some m) rows s known k b = k m refl

  module _ (h : IsPyJwt jwt) (R : Type 0) where
    -- The exception is one that the token, PyJWT and Odoo's search explain.
    abbrev pub IsRefusal : List Issuer → Exception R → Type 0
    IsRefusal issuers e = Explains R (IsNamed issuers) e

    verify_claimed-Refuses :
        (o : Call (Dict V)) (s : State Client)
        → jwt.peek token ≡ o
        → IsBound jwt now token h R s.users s
        → Refuses R
            (IsNamed s.issuers)
            (verify_claimed {R = R} jwt now token (catch_jwt_error o) s).0
    unfolding verify_claimed candidates catch_jwt_error
    verify_claimed-Refuses (throws jwk_client_error) s p b = rejected
    verify_claimed-Refuses (throws jwt_error) s p b = rejected
    verify_claimed-Refuses (throws (foreign m)) s p b = not_peeked m p
    verify_claimed-Refuses (gives claims) s p b =
        verify_found-Refuses R (IsNamed s.issuers) h (jwt.search_error (lookup "iss" claims))
          (candidates jwt (lookup "iss" claims) s.issuers) s
          (λ i m.
            let (stored, both) =
              keep_if-true (λ (j : Issuer). j.active && jwt.equals (lookup "iss" claims) j.issuer)
                s.issuers m in
            record {
              peeked = claims;
              peek = p;
              stored = stored;
              active = ground arith;
              same = ground arith;
            })
          (λ m e. issuer_search claims m p e) b

    -- If a client of PyJWT keeps the URL that it was created with, then after any edits of
    -- issuers and any requests, starting with an empty cache, the provider raises only the 401
    -- for an invalid credential, what Odoo's search raises for the unverified iss of the token,
    -- or what was raised for a stored and active issuer that has this iss: by a client of its
    -- URL, if it is no PyJWKClientError; by jwt.decode with the issuer's key and checks, if it is
    -- no PyJWTError; by Odoo's search for the issuer's user claim; or what reading the claims
    -- without verification raised, if it is no PyJWTError.
    pub jwt_verify-IsRefusal :
        (es : List Event) (s : State Client) (e : Exception R)
        → ((n : ℕ) → s.clients n ≡ none)
        → (jwt_verify {R = R} jwt now token (run jwt es s)).0 ≡ raises e
        → IsRefusal (run jwt es s).issuers e
    unfolding jwt_verify
    jwt_verify-IsRefusal es s e empty same =
        let bound = (λ (m : ℕ). run-IsRenewed jwt h m 0 es s (rw (empty m) tt, omega arith)) in
        subst (Refuses R (IsNamed (run jwt es s).issuers)) same
          (verify_claimed-Refuses (jwt.peek token) (run jwt es s) refl (bound, refl))
