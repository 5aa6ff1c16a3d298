-- ===== src/Auth/Challenges.antt =====
-- What `_ssi_rest_challenge_headers` of ir_http.py raises.
use ssi_rest_api.Auth.{Provider, SchemeRef, challenges, challenge_of, add_challenge}
use ssi_rest_api.Dispatcher.Arguments.{Outcome, returns, raises}
use ssi_rest_api.Errors.{Exception}
use ssi_rest_api.Prelude.{String, ◌≡◌, ◌≢◌, refl, Option, none, some, List, [], ◌∷◌, All}
use ssi_rest_api.Prelude.Members.{Memᴰ}

module _ {C W R : Type 0} (env : String → Option (Provider C W R)) where
  -- `env` knows the provider of the scheme.
  abbrev pub IsKnown : SchemeRef → Type 0
  IsKnown s = env s.1 ≢ none

  -- What the provider of one of the schemes raised for its challenge.
  pub record IsChallengeFailure (schemes : List SchemeRef) (e : Exception R) : Type 0 where
    pub scheme : SchemeRef
    pub listed : Memᴰ scheme schemes
    pub provider : Provider C W R
    pub known : env scheme.1 ≡ some provider
    pub raised : provider.rest_auth_challenge ≡ raises e

  abbrev pub ChallengesOrFails : List SchemeRef → Outcome R (List String) → Type 0
  ChallengesOrFails schemes (returns cs) = Unit
  ChallengesOrFails schemes (raises e) = IsChallengeFailure schemes e

  later_failure :
      (scheme : SchemeRef) (schemes : List SchemeRef) (e : Exception R)
      → IsChallengeFailure schemes e
      → IsChallengeFailure (scheme ∷ schemes) e
  later_failure scheme schemes e h = record {
    scheme = h.scheme;
    listed = Memᴰ.tail h.listed;
    provider = h.provider;
    known = h.known;
    raised = h.raised;
  }

  add_challenge-fails :
      (scheme : SchemeRef) (schemes : List SchemeRef) (p : Provider C W R)
      → env scheme.1 ≡ some p
      → (o : Outcome R String) → p.rest_auth_challenge ≡ o
      → (rest : Outcome R (List String)) → ChallengesOrFails schemes rest
      → ChallengesOrFails (scheme ∷ schemes) (add_challenge env o rest)
  add_challenge-fails scheme schemes p known (raises e) same rest h = record {
    scheme = scheme;
    listed = Memᴰ.head refl;
    provider = p;
    known = known;
    raised = same;
  }
  add_challenge-fails scheme schemes p known (returns c) same (raises e) h =
      later_failure scheme schemes e h
  add_challenge-fails scheme schemes p known (returns c) same (returns cs) h = tt

  challenge_of-fails :
      (scheme : SchemeRef) (schemes : List SchemeRef) (o : Option (Provider C W R))
      → env scheme.1 ≡ o
      → o ≢ none
      → (rest : Outcome R (List String)) → ChallengesOrFails schemes rest
      → ChallengesOrFails (scheme ∷ schemes) (add_challenge env (challenge_of env o) rest)
  unfolding challenge_of
  challenge_of-fails scheme schemes none e known rest h = absurd (known refl)
  challenge_of-fails scheme schemes (some p) e known rest h =
      add_challenge-fails scheme schemes p e p.rest_auth_challenge refl rest h

  pub challenges-fails :
      (schemes : List SchemeRef)
      → All IsKnown schemes
      → ChallengesOrFails schemes (challenges env schemes)
  unfolding challenges
  challenges-fails [] h = tt
  challenges-fails (scheme ∷ schemes) (known, h) =
      challenge_of-fails scheme schemes (env scheme.1) refl known (challenges env schemes)
        (challenges-fails schemes h)
