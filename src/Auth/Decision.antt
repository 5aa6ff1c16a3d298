-- ===== src/Auth/Decision.antt =====
-- The outcome of `_auth_method_ssi_rest` (ir_http.py) by how many schemes find a credential.
use ssi_rest_api.Prelude.{
  String, ◌≡◌, refl, sym, ap, ◌∙◌, false, Option, none, some, List, [], ◌∷◌, arith,
}
use ssi_rest_api.Errors.{rest_auth_error, http_exception, odoo_error, unclassified}
use ssi_rest_api.Dispatcher.Arguments.{Outcome, returns, raises}
use ssi_rest_api.Auth.{
  RestAuthResult, Provider, SchemeRef, Session, guarded, Extracted, collect, extracted, extract_one,
  extract_all, finish, verify_one, decide, auth_method, candidate_schemes, multiple_credentials,
  require_credential, challenge_headers,
}
use ssi_rest_api.Auth.Selection.{IsSilent, Yields, IsOnly, extract_all-one}

module _ {C W R : Type 0} (env : String → Option (Provider C W R)) where
  -- A scan of the schemes that raises nothing, with the credentials that it finds.
  pub data Scan : List SchemeRef → List (Extracted C W R) → Type 0 where
    done : Scan [] []
    skip :
        {s : SchemeRef} {ss : List SchemeRef} {xs : List (Extracted C W R)}
        → IsSilent env s
        → Scan ss xs
        → Scan (s ∷ ss) xs
    take :
        {s : SchemeRef} {ss : List SchemeRef} {x : Extracted C W R} {xs : List (Extracted C W R)}
        → Yields env s x
        → Scan ss xs
        → Scan (s ∷ ss) (x ∷ xs)

  extract_one-IsSilent :
      (s : SchemeRef) → IsSilent env s → extract_one env s.0 (env s.1) ≡ returns none
  unfolding extract_one extracted guarded
  extract_one-IsSilent s h = rw (h.known, h.nothing)

  extract_one-Yields :
      (s : SchemeRef) (x : Extracted C W R)
      → Yields env s x
      → extract_one env s.0 (env s.1) ≡ returns (some x)
  unfolding extract_one extracted guarded
  extract_one-Yields s x h =
      ap (extract_one env s.0) h.known
      ∙ (ap (λ g. extracted env s.0 x.provider (guarded g)) h.credential
          ∙ ap (λ c. returns (some (record x { code = c }))) (sym h.same_code))

  extract_all-Scan :
      {ss : List SchemeRef} {xs : List (Extracted C W R)}
      → Scan ss xs
      → extract_all env ss ≡ returns xs
  unfolding extract_all collect
  extract_all-Scan done = refl
  extract_all-Scan (skip {s} h r) = rw (extract_one-IsSilent s h, extract_all-Scan r)
  extract_all-Scan (take {s} {x} h r) = rw (extract_one-Yields s x h, extract_all-Scan r)

  module _ (schemes : List SchemeRef) (allowed : Option (List String)) (s : Session W) where
    -- If no candidate scheme finds a credential, authentication raises 401 with the challenges of the
    -- candidates, or what a provider raises for its challenge, and changes nothing.
    pub no_credential :
        Scan (candidate_schemes allowed schemes) []
        → auth_method env schemes allowed s ≡ (
          raises
              (require_credential env (challenge_headers env (candidate_schemes allowed schemes))),
          s,
        )
    unfolding auth_method
    no_credential scan = rw (extract_all-Scan scan)

    -- If two or more candidate schemes find a credential, authentication raises 400, verifies none of
    -- them and changes nothing.
    pub several_credentials :
        (x y : Extracted C W R) (xs : List (Extracted C W R))
        → Scan (candidate_schemes allowed schemes) (x ∷ y ∷ xs)
        → auth_method env schemes allowed s ≡ (raises multiple_credentials, s)
    unfolding auth_method
    several_credentials x y xs scan = rw (extract_all-Scan scan)

    -- The request runs as the user that the provider of the only credential answered, with the
    -- session not to be saved, and the world is what that one verification left.
    pub record IsAuthenticated (t : Session W) : Type 0 where
      pub extracted_one : Extracted C W R
      pub only : IsOnly env (candidate_schemes allowed schemes) extracted_one
      pub answer : RestAuthResult
      pub verified :
          extracted_one.provider.rest_auth_verify extracted_one.credential s.world
          ≡ (returns answer, t.world)
      pub as_user : t.uid ≡ some answer.uid
      pub not_saved : t.can_save ≡ false
      pub stashed : t.rest_auth ≡ some answer

    finish-returns :
        (out : Outcome R RestAuthResult) (w : W) (t : Session W)
        → finish env (guarded out, w) s ≡ (returns tt, t)
        → (r : RestAuthResult) × (out ≡ returns r)
          × (w ≡ t.world)
          × (t.uid ≡ some r.uid)
          × (t.can_save ≡ false)
          × (t.rest_auth ≡ some r)
    unfolding finish guarded
    finish-returns (returns r) w t h =
        (r, refl, ground arith, ground arith, ground arith, ground arith)
    finish-returns (raises (rest_auth_error c d k x)) w t h = absurd (ground arith)
    finish-returns (raises (http_exception c r)) w t h = absurd (ground arith)
    finish-returns (raises (odoo_error c k m)) w t h = absurd (ground arith)
    finish-returns (raises (unclassified m)) w t h = absurd (ground arith)

    decide-returns :
        (found : Outcome R (List (Extracted C W R))) (t : Session W)
        → extract_all env (candidate_schemes allowed schemes) ≡ found
        → decide env (candidate_schemes allowed schemes) found s ≡ (returns tt, t)
        → IsAuthenticated t
    unfolding decide verify_one
    decide-returns (raises e) t k h = absurd (ground arith)
    decide-returns (returns []) t k h = absurd (ground arith)
    decide-returns (returns (x ∷ y ∷ xs)) t k h = absurd (ground arith)
    decide-returns (returns (x ∷ [])) t k h =
        let (out, w) = x.provider.rest_auth_verify x.credential s.world in
        let (r, same_out, same_w, user, saved, stored) = finish-returns out w t h in
        record {
          extracted_one = x;
          only = extract_all-one env (candidate_schemes allowed schemes) x k;
          answer = r;
          verified = λ i. (same_out i, same_w i);
          as_user = user;
          not_saved = saved;
          stashed = stored;
        }

    -- Authentication succeeds only if exactly one candidate scheme finds a credential, every
    -- other one being silent, and its provider verifies it: the request then runs as the user of
    -- that answer, its session is not saved, the answer is stored, and no other provider's
    -- verification has touched the world.
    pub auth_method-IsAuthenticated :
        (t : Session W) → auth_method env schemes allowed s ≡ (returns tt, t) → IsAuthenticated t
    unfolding auth_method
    auth_method-IsAuthenticated t h = decide-returns _ t refl h
