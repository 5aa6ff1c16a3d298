-- ===== src/Jwt/Verified.antt =====
-- What an answer of the provider of ssi_rest_auth_jwt.py means, and which exceptions it raises.
use ssi_rest_api.Jwt.{PyJwt, Issuer, User, State, gives, is_hmac}
use ssi_rest_api.Jwt.Cache.{get_client}
use ssi_rest_api.Jwt.Claims.{
  IsKeyOf, IsAccepted, answer, Accepts, catch_jwt_error-returns, catch_client_error-returns,
  decoded_with-returns,
}
use ssi_rest_api.Jwt.Clients.{
  IsPyJwt, IsRenewed, get_client-IsRenewed, resolve-IsRenewed, run-IsRenewed,
}
use ssi_rest_api.Jwt.Events.{Event, run}
use ssi_rest_api.Jwt.Provider.{
  candidates, resolve_signing_key, ask_client, verify_against_issuer, or_next, verify_each,
  verify_found, verify_claimed, search_result, catch_jwt_error, jwt_verify, decoded_with,
}
use ssi_rest_api.Jwt.Steps.{users-Kept}
use ssi_rest_api.Prelude.{
  ℕ, String, ◌≡◌, refl, sym, ap, ◌∙◌, true, Bool-cases, inl, inr, Option, none, some, List, [], ◌∷◌,
  ◌&&◌, nat_eq_refl, arith,
}
use ssi_rest_api.Prelude.Dict.{Dict, lookup}
use ssi_rest_api.Prelude.Members.{Memᴰ, keep_if-true}
use ssi_rest_api.Errors.{rest_auth_error, http_exception, odoo_error, unclassified}
use ssi_rest_api.Dispatcher.Arguments.{Outcome, returns, raises}
use ssi_rest_api.Auth.{RestAuthResult}

module _ {V Key Client : Type 0} (jwt : PyJwt V Key Client) (now : ℕ) (token : String) where
  module _ (h : IsPyJwt jwt) (R : Type 0) where
    -- Every client of the cache reads the URL of its entry, and the users are those given.
    abbrev pub IsBound : List User → State Client → Type 0
    IsBound users s = ((m : ℕ) → IsRenewed jwt h m 0 s) × (s.users ≡ users)

    pub resolve-IsBound :
        (users : List User) (i : Issuer) (s : State Client)
        → IsBound users s
        → IsBound users (resolve_signing_key {R = R} jwt now token i s).1
    resolve-IsBound users i s (bound, same) = (
      λ m. resolve-IsRenewed jwt h m 0 R now token i s (bound m),
      users-Kept R jwt now token users i s same,
    )

    pub resolve-IsKeyOf :
        (users : List User) (i : Issuer) (s : State Client) (key : Key)
        → IsBound users s
        → (resolve_signing_key {R = R} jwt now token i s).0 ≡ returns key
        → IsKeyOf jwt now token i key
    unfolding resolve_signing_key ask_client
    resolve-IsKeyOf users i s key (bound, _) e = elim (Bool-cases (is_hmac i.algorithm)) [
      | inl hmac ↦
          let own : ◌≡◌ {A = Outcome R Key} (returns (jwt.secret i.shared_secret)) (returns key) =
            rw hmac at e in
          rw hmac (cc)
      | inr key_set ↦
          let (_, since, url) = get_client-IsRenewed jwt h i.id 0 i.id i.jwks_url s (bound i.id) in
          rw key_set (
            (get_client jwt i.id i.jwks_url s).0.client,
            (since (nat_eq_refl i.id)).0 ∙ url,
            catch_client_error-returns {R = R} _ key (rw key_set at e),
          )
    ]

    abbrev AcceptedBy : List Issuer → List User → RestAuthResult → Type 0
    AcceptedBy rows users r = (i : Issuer) × Memᴰ i rows × Accepts jwt now token i users r

    or_next-returns :
        (o : Outcome R RestAuthResult) (s : State Client)
        (next : State Client → Outcome R RestAuthResult × State Client) (r : RestAuthResult)
        (P : Type 0)
        → (o ≡ returns r → P)
        → ((next s).0 ≡ returns r → P)
        → (or_next jwt now token (o, s) next).0 ≡ returns r
        → P
    unfolding or_next
    or_next-returns (returns r') s next r P here later e = here e
    or_next-returns (raises (rest_auth_error c d n x)) s next r P here later e = later e
    or_next-returns (raises (http_exception c x)) s next r P here later e = cc
    or_next-returns (raises (odoo_error c n m)) s next r P here later e = cc
    or_next-returns (raises (unclassified m)) s next r P here later e = cc

    verify_each-returns :
        (rows : List Issuer) (users : List User) (s : State Client) (r : RestAuthResult)
        → IsBound users s
        → (verify_each {R = R} jwt now token rows s).0 ≡ returns r
        → AcceptedBy rows users r
    unfolding verify_each verify_against_issuer
    verify_each-returns [] users s r b e = cc
    verify_each-returns (i ∷ rows) users s r b e =
        let (key, s') = resolve_signing_key {R = R} jwt now token i s in
        or_next-returns (decoded_with jwt now token i s.users key) s'
          (verify_each jwt now token rows) r (AcceptedBy (i ∷ rows) users r)
          (λ here. (
            i,
            Memᴰ.head refl,
            decoded_with-returns jwt now token i users key r (λ k. resolve-IsKeyOf users i s k b)
                (ap (λ us. decoded_with jwt now token i us key) (sym b.1) ∙ here),
          ))
          (λ later.
            let (j, m, a) =
              verify_each-returns rows users s' r (resolve-IsBound users i s b) later in
            (j, Memᴰ.tail m, a))
          e

    verify_found-returns :
        (x : Option String) (rows : List Issuer) (users : List User) (s : State Client)
        (r : RestAuthResult)
        → IsBound users s
        → (verify_found {R = R} jwt now token (search_result x rows) s).0 ≡ returns r
        → AcceptedBy rows users r
    verify_found-returns none rows users s r b e = verify_each-returns rows users s r b e
    verify_found-returns (some message) rows users s r b e = cc

    verify_claimed-returns :
        (o : Outcome R (Dict V)) (s : State Client) (r : RestAuthResult)
        → IsBound s.users s
        → (verify_claimed jwt now token o s).0 ≡ returns r
        → (i : Issuer) × (peeked : Dict V) × Memᴰ i s.issuers
          × (o ≡ returns peeked)
          × (i.active ≡ true)
          × (jwt.equals (lookup "iss" peeked) i.issuer ≡ true)
          × Accepts jwt now token i s.users r
    unfolding verify_claimed candidates
    verify_claimed-returns (raises x) s r b e = cc
    verify_claimed-returns (returns peeked) s r b e =
        let (i, m, a) =
          verify_found-returns (jwt.search_error (lookup "iss" peeked))
            (candidates jwt (lookup "iss" peeked) s.issuers) s.users s r b e in
        let (stored, both) =
          keep_if-true (λ (j : Issuer). j.active && jwt.equals (lookup "iss" peeked) j.issuer)
            s.issuers m in
        (i, peeked, stored, refl, ground arith, ground arith, a)

    -- If a client of PyJWT keeps the URL that it was created with, then after any edits of
    -- issuers and any requests, starting with an empty cache, the provider answers a token only
    -- with the id and the issuer's profile for an active user, where a stored and active issuer
    -- has the unverified iss of the token, and jwt.decode, told the key of that issuer (its
    -- secret, or what a client of its current URL gives), its one algorithm, audience, issuer,
    -- leeway and that exp is required, gives claims in which the issuer's user claim is true and
    -- matches the user.
    pub jwt_verify-IsAccepted :
        (es : List Event) (s : State Client) (r : RestAuthResult)
        → ((n : ℕ) → s.clients n ≡ none)
        → (jwt_verify {R = R} jwt now token (run jwt es s)).0 ≡ returns r
        → (i : Issuer) × (u : User) × (peeked : Dict V) × Memᴰ i (run jwt es s).issuers
          × Memᴰ u (run jwt es s).users
          × (jwt.peek token ≡ gives peeked)
          × (i.active ≡ true)
          × (jwt.equals (lookup "iss" peeked) i.issuer ≡ true)
          × IsAccepted jwt now token i u
          × (r ≡ answer jwt now token i u)
    unfolding jwt_verify
    jwt_verify-IsAccepted es s r empty e =
        let bound = (λ (m : ℕ). run-IsRenewed jwt h m 0 es s (rw (empty m) tt, omega arith)) in
        let (i, peeked, stored, p, active, iss, (u, m, accepted, same)) =
          verify_claimed-returns (catch_jwt_error (jwt.peek token)) (run jwt es s) r (bound, refl)
            e in
        (i, u, peeked, stored, m, catch_jwt_error-returns _ peeked p, active, iss, accepted, same)
