-- ===== src/Auth/Failure.antt =====
-- What a failed authentication leaves behind, and which exceptions it can raise (ir_http.py).
use mathlib.Core.Path.{subst}
use ssi_rest_api.Prelude.{
  String, ◌≡◌, ◌≢◌, ◌⊎◌, inl, inr, ap, refl, Option, none, some, List, [], ◌∷◌, arith, All,
}
use ssi_rest_api.Prelude.Members.{All-keep_if}
use ssi_rest_api.Errors.{
  Exception, rest_auth_error, http_exception, odoo_error, unclassified, other_status,
}
use ssi_rest_api.Dispatcher.Arguments.{Outcome, returns, raises}
use ssi_rest_api.Auth.Challenges.{IsKnown, IsChallengeFailure, ChallengesOrFails, challenges-fails}
use ssi_rest_api.Auth.{
  RestAuthResult, Provider, SchemeRef, Session, guarded, Extracted, collect, extracted, extract_one,
  extract_all, finish, decide, challenges, challenge_headers, header_of, require_credential,
  auth_method, candidate_schemes,
}

-- An exception that the API raises for the client, or the 500 for a provider that broke its contract.
abbrev pub IsContained : {R : Type 0} → Exception R → Type 0
IsContained (rest_auth_error c d s h) = Unit
IsContained (http_exception (other_status n) none) = n ≡ 500
IsContained _ = ⊥

abbrev Contains : {R A : Type 0} → Outcome R A → Type 0
Contains (returns a) = Unit
Contains (raises e) = IsContained e

guarded-Contains : {R A : Type 0} (o : Outcome R A) → Contains (guarded o)
unfolding guarded
guarded-Contains (returns a) = tt
guarded-Contains (raises (rest_auth_error c d s h)) = tt
guarded-Contains (raises (http_exception c r)) = refl
guarded-Contains (raises (odoo_error c s m)) = refl
guarded-Contains (raises (unclassified m)) = refl

-- Whether the request runs as another user, may save its session or has an authentication result.
abbrev pub SameIdentity : {W : Type 0} → Session W → Session W → Type 0
SameIdentity s t = (s.uid ≡ t.uid) × (s.can_save ≡ t.can_save) × (s.rest_auth ≡ t.rest_auth)

module _ {C W R : Type 0} (env : String → Option (Provider C W R)) where
  finish-failure :
      (out : Outcome R RestAuthResult) (w : W) (s t : Session W) (e : Exception R)
      → finish env (out, w) s ≡ (raises e, t)
      → SameIdentity t s
  unfolding finish
  finish-failure (raises x) w s t e h = ground arith
  finish-failure (returns r) w s t e h = ground arith

  decide-failure :
      (schemes : List SchemeRef) (found : Outcome R (List (Extracted C W R))) (s t : Session W)
      (e : Exception R)
      → decide env schemes found s ≡ (raises e, t)
      → SameIdentity t s
  unfolding decide
  decide-failure schemes (raises x) s t e h = ground arith
  decide-failure schemes (returns []) s t e h = ground arith
  decide-failure schemes (returns (x ∷ [])) s t e h = finish-failure _ _ s t e h
  decide-failure schemes (returns (x ∷ y ∷ xs)) s t e h = ground arith

  -- When authentication raises, the request keeps the user, the session flag and the authentication
  -- result that it had.
  pub auth_method-SameIdentity :
      (schemes : List SchemeRef) (allowed : Option (List String)) (s t : Session W)
      (e : Exception R)
      → auth_method env schemes allowed s ≡ (raises e, t)
      → SameIdentity t s
  unfolding auth_method
  auth_method-SameIdentity schemes allowed s t e h =
      decide-failure (candidate_schemes allowed schemes)
        (extract_all env (candidate_schemes allowed schemes)) s t e h

  extracted-Contains :
      (code : String) (p : Provider C W R) (o : Outcome R (Option C))
      → Contains o
      → Contains (extracted env code p o)
  unfolding extracted
  extracted-Contains code p (raises e) h = h
  extracted-Contains code p (returns none) h = tt
  extracted-Contains code p (returns (some c)) h = tt

  extract_one-Contains :
      (code : String) (o : Option (Provider C W R)) → o ≢ none → Contains (extract_one env code o)
  unfolding extract_one
  extract_one-Contains code none h = absurd (h refl)
  extract_one-Contains code (some p) h = extracted-Contains code p _ (guarded-Contains _)

  collect-Contains :
      (x : Outcome R (Option (Extracted C W R))) (xs : Outcome R (List (Extracted C W R)))
      → Contains x
      → Contains xs
      → Contains (collect env x xs)
  unfolding collect
  collect-Contains (raises e) xs h k = h
  collect-Contains (returns x) (raises e) h k = k
  collect-Contains (returns x) (returns xs) h k = tt

  extract_all-Contains :
      (schemes : List SchemeRef) → All (IsKnown env) schemes → Contains (extract_all env schemes)
  unfolding extract_all
  extract_all-Contains [] h = tt
  extract_all-Contains ((code, model) ∷ schemes) (k, h) =
      collect-Contains _ _ (extract_one-Contains code (env model) k)
        (extract_all-Contains schemes h)

  finish-Contains :
      (out : Outcome R RestAuthResult) (w : W) (s : Session W)
      → Contains out
      → Contains (finish env (out, w) s).0
  unfolding finish
  finish-Contains (raises e) w s h = h
  finish-Contains (returns r) w s h = tt

  -- Without a credential, the exception of a challenge; otherwise one that is contained.
  abbrev pub IsExpected : List SchemeRef → Exception R → Type 0
  IsExpected schemes e =
      IsContained e ⊎ ((extract_all env schemes ≡ returns []) × IsChallengeFailure env schemes e)

  require_credential-IsExpected :
      (schemes : List SchemeRef) (o : Outcome R (List String))
      → extract_all env schemes ≡ returns []
      → ChallengesOrFails env schemes o
      → IsExpected schemes (require_credential env (header_of env o))
  require_credential-IsExpected schemes (raises e) silent h = inr (silent, h)
  require_credential-IsExpected schemes (returns cs) silent h = inl tt

  ExpectedIfRaised : List SchemeRef → Outcome R (Unit {0}) → Type 0
  ExpectedIfRaised schemes (returns a) = Unit
  ExpectedIfRaised schemes (raises e) = IsExpected schemes e

  Contains-expected :
      (schemes : List SchemeRef) (o : Outcome R (Unit {0}))
      → Contains o
      → ExpectedIfRaised schemes o
  unfolding ExpectedIfRaised
  Contains-expected schemes (returns a) h = tt
  Contains-expected schemes (raises e) h = inl h

  decide-expected :
      (schemes : List SchemeRef) (found : Outcome R (List (Extracted C W R))) (s : Session W)
      → All (IsKnown env) schemes
      → extract_all env schemes ≡ found
      → Contains found
      → ExpectedIfRaised schemes (decide env schemes found s).0
  unfolding decide challenge_headers ExpectedIfRaised
  decide-expected schemes (raises e) s known same h = inl h
  decide-expected schemes (returns []) s known same h =
      require_credential-IsExpected schemes (challenges env schemes) same
        (challenges-fails env schemes known)
  decide-expected schemes (returns (x ∷ [])) s known same h =
      Contains-expected schemes _ (finish-Contains _ _ s (guarded-Contains _))
  decide-expected schemes (returns (x ∷ y ∷ xs)) s known same h = inl tt

  candidate_schemes-IsKnown :
      (allowed : Option (List String)) (schemes : List SchemeRef)
      → All (IsKnown env) schemes
      → All (IsKnown env) (candidate_schemes allowed schemes)
  unfolding candidate_schemes
  candidate_schemes-IsKnown none schemes h = h
  candidate_schemes-IsKnown (some []) schemes h = h
  candidate_schemes-IsKnown (some (a ∷ more)) schemes h = All-keep_if (IsKnown env) _ schemes h

  -- If every active scheme names a provider that exists, whatever the providers raise,
  -- authentication raises only a RestAuthError, the InternalServerError with status 500, or, if
  -- no candidate scheme found a credential, what the provider of a candidate scheme raised for
  -- its challenge.
  pub auth_method-IsExpected :
      (schemes : List SchemeRef) (allowed : Option (List String)) (s t : Session W)
      (e : Exception R)
      → All (IsKnown env) schemes
      → auth_method env schemes allowed s ≡ (raises e, t)
      → IsExpected (candidate_schemes allowed schemes) e
  unfolding auth_method ExpectedIfRaised
  auth_method-IsExpected schemes allowed s t e known h =
      let candidates = candidate_schemes allowed schemes in
      let known_candidates = candidate_schemes-IsKnown allowed schemes known in
      subst (ExpectedIfRaised candidates) (ap (λ o. o.0) h) (
        decide-expected candidates (extract_all env candidates) s known_candidates refl
          (extract_all-Contains candidates known_candidates))
