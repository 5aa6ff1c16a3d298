-- ===== src/Auth.antt =====
-- ssi_rest_api/models/ir_http.py, `_auth_method_ssi_rest`: how the credential of a request is found
-- among the active schemes and verified. A provider is what mixin_rest_authenticator.py declares;
-- `C` is the type of credentials, `W` the world that a verification may write to, `R` that of
-- responses. The registry of schemes is in Auth/Registry, the providers of the repository that read
-- bearer tokens and API keys in Auth/Extraction.
pub mod Registry
pub mod Coherence
pub mod Extraction
pub mod Selection
pub mod Decision
pub mod Challenges
pub mod Failure
mod Tests
use Prim.Native.String.{◌++◌ as append}
use ssi_rest_api.Prelude.{
  ℕ, String, Bool, true, false, not, Option, none, some, List, [], ◌∷◌, ◌==◌, contains, keep_if,
  if◌then◌else◌,
}
use ssi_rest_api.Prelude.Int.{ℤ}
use ssi_rest_api.Errors.{
  Header, Exception, rest_auth_error, http_exception, odoo_error, unclassified, other_status,
}
use ssi_rest_api.Dispatcher.Arguments.{Outcome, returns, raises}

-- `RestAuthResult`.
pub record RestAuthResult : Type 0 where
  pub uid : ℕ
  pub scheme : String
  pub profile_ids : List ℕ
  pub scopes : List String
  pub expires_at : Option ℤ

-- `mixin.rest_authenticator`: extraction reads the request alone.
pub record Provider (C W R : Type 0) : Type 0 where
  pub rest_auth_extract : Outcome R (Option C)
  pub rest_auth_verify : C → W → Outcome R RestAuthResult × W
  pub rest_auth_challenge : Outcome R String

-- A scheme of the registry, as `_get_active_schemes` gives it: its code and its provider's model.
abbrev pub SchemeRef : Type 0
SchemeRef = String × String

-- What the method reads and writes on the request.
pub record Session (W : Type 0) : Type 0 where
  pub uid : Option ℕ
  pub can_save : Bool
  pub rest_auth : Option RestAuthResult
  pub world : W

abbrev pub internal_server_error : {R : Type 0} → Exception R
internal_server_error = http_exception (other_status 500) none

-- `except RestAuthError: raise`, `except Exception: raise InternalServerError() from None`.
unfoldable pub guarded : {R A : Type 0} → Outcome R A → Outcome R A
guarded (returns a) = returns a
guarded (raises (rest_auth_error c d s h)) = raises (rest_auth_error c d s h)
guarded (raises (http_exception c r)) = raises internal_server_error
guarded (raises (odoo_error c s m)) = raises internal_server_error
guarded (raises (unclassified m)) = raises internal_server_error

abbrev pub multiple_credentials : {R : Type 0} → Exception R
multiple_credentials =
    rest_auth_error "multiple_credentials"
      "More than one authentication scheme provided credentials for this request." 400 []

abbrev pub authentication_required : {R : Type 0} → List Header → Exception R
authentication_required headers =
    rest_auth_error "authentication_required" "Authentication is required to access this resource."
      401 headers

-- `if allowed_schemes:` holds neither for `None` nor for an empty tuple.
unfoldable pub candidate_schemes : Option (List String) → List SchemeRef → List SchemeRef
candidate_schemes none schemes = schemes
candidate_schemes (some []) schemes = schemes
candidate_schemes (some (a ∷ allowed)) schemes = keep_if (λ s. contains s.0 (a ∷ allowed)) schemes

-- `sep.join(texts)`
unfoldable pub join_with : String → List String → String
join_with sep [] = ""
join_with sep (c ∷ []) = c
join_with sep (c ∷ d ∷ cs) = append c (append sep (join_with sep (d ∷ cs)))

abbrev pub challenge_header : List String → List Header
challenge_header [] = []
challenge_header (c ∷ cs) = ("WWW-Authenticate", join_with ", " (c ∷ cs)) ∷ []

-- A provider with the credential that it extracted.
pub record Extracted (C W R : Type 0) : Type 0 where
  pub code : String
  pub provider : Provider C W R
  pub credential : C

module _ {C W R : Type 0} (env : String → Option (Provider C W R)) where
  -- `env[provider_model]._rest_auth_challenge()`
  challenge_of : Option (Provider C W R) → Outcome R String
  challenge_of none = raises (unclassified "KeyError")
  challenge_of (some p) = p.rest_auth_challenge

  abbrev add_challenge : Outcome R String → Outcome R (List String) → Outcome R (List String)
  add_challenge (raises e) rest = raises e
  add_challenge (returns challenge) (raises e) = raises e
  add_challenge (returns challenge) (returns cs) =
      returns (if challenge == "" then cs else challenge ∷ cs)

  -- The challenges of the schemes in order, the empty ones skipped; the first that raises ends it.
  unfoldable pub challenges : List SchemeRef → Outcome R (List String)
  unfolding challenge_of
  challenges [] = returns []
  challenges ((code, model) ∷ schemes) =
      add_challenge (challenge_of (env model)) (challenges schemes)

  abbrev header_of : Outcome R (List String) → Outcome R (List Header)
  header_of (raises e) = raises e
  header_of (returns cs) = returns (challenge_header cs)

  unfoldable pub challenge_headers : List SchemeRef → Outcome R (List Header)
  unfolding challenges
  challenge_headers schemes = header_of (challenges schemes)

  -- The exception without a credential; its headers are made outside any `try`.
  abbrev pub require_credential : Outcome R (List Header) → Exception R
  require_credential (raises e) = e
  require_credential (returns headers) = authentication_required headers

  extracted : String → Provider C W R → Outcome R (Option C) → Outcome R (Option (Extracted C W R))
  extracted code p (raises e) = raises e
  extracted code p (returns none) = returns none
  extracted code p (returns (some c)) =
      returns (some (record { code = code; provider = p; credential = c }))

  -- One round of the loop over the schemes; `env[provider_model]` is outside the `try`.
  unfoldable pub extract_one :
      String → Option (Provider C W R) → Outcome R (Option (Extracted C W R))
  unfolding extracted guarded
  extract_one code none = raises (unclassified "KeyError")
  extract_one code (some p) = extracted code p (guarded p.rest_auth_extract)

  abbrev keep_found : Option (Extracted C W R) → List (Extracted C W R) → List (Extracted C W R)
  keep_found none xs = xs
  keep_found (some x) xs = x ∷ xs

  collect :
      Outcome R (Option (Extracted C W R))
      → Outcome R (List (Extracted C W R))
      → Outcome R (List (Extracted C W R))
  collect (raises e) rest = raises e
  collect (returns x) (raises e) = raises e
  collect (returns x) (returns xs) = returns (keep_found x xs)

  unfoldable pub extract_all : List SchemeRef → Outcome R (List (Extracted C W R))
  unfolding collect extract_one
  extract_all [] = returns []
  extract_all ((code, model) ∷ schemes) =
      collect (extract_one code (env model)) (extract_all schemes)

  -- `request.update_env`, `session.can_save`, `request.rest_auth`.
  unfoldable pub finish :
      Outcome R RestAuthResult × W → Session W → Outcome R (Unit {0}) × Session W
  finish (raises e, w) s = (raises e, record s { world = w })
  finish (returns r, w) s =
      (returns tt, record { uid = some r.uid; can_save = false; rest_auth = some r; world = w })

  unfoldable pub verify_one : Extracted C W R → Session W → Outcome R (Unit {0}) × Session W
  unfolding finish
  verify_one x s =
      let (out, w) = x.provider.rest_auth_verify x.credential s.world in finish (guarded out, w) s

  unfoldable pub decide :
      List SchemeRef
      → Outcome R (List (Extracted C W R))
      → Session W
      → Outcome R (Unit {0}) × Session W
  unfolding verify_one challenge_headers
  decide schemes (raises e) s = (raises e, s)
  decide schemes (returns []) s = (raises (require_credential (challenge_headers schemes)), s)
  decide schemes (returns (x ∷ [])) s = verify_one x s
  decide schemes (returns (x ∷ y ∷ xs)) s = (raises multiple_credentials, s)

  unfoldable pub auth_method :
      List SchemeRef → Option (List String) → Session W → Outcome R (Unit {0}) × Session W
  unfolding decide extract_all candidate_schemes
  auth_method schemes allowed s =
      let candidates = candidate_schemes allowed schemes in
      decide candidates (extract_all candidates) s
