-- ===== src/Dispatcher.antt =====
-- ssi_rest_api/lib/dispatcher.py: `SsiRestDispatcher`, which serves every `ssi_rest` route. Odoo's
-- response object and `make_json_response` are the parameter `Odoo`; `super().pre_dispatch`, the
-- parsed body and the endpoint are arguments.
pub mod Headers
pub mod Arguments
pub mod Params
pub mod Envelope
pub mod Denial
mod Tests
use ssi_rest_api.Prelude.{
  ℕ, String, ◌≡◌, Bool, true, false, ◌||◌, Option, none, some, List, [], ◌∷◌, ◌++◌, ◌==◌,
  if◌then◌else◌,
}
use ssi_rest_api.Prelude.Dict.{Dict, update}
use ssi_rest_api.Errors.{
  Header, Exception, rest_auth_error, http_exception, odoo_error, unclassified, other_status,
  Classified, classify_exception, Env, traceback_disclosure_allowed, ErrorBody, build_error_body,
}
use Headers.{State, request_id_header, ensure_request_id}
use Arguments.{Outcome, returns, raises, HttpRequest, request_params}
use ssi_rest_api.AccessProfile.{Request, Profile, User, check_request_access}

-- What a response is made of: the error envelope, or the value that an endpoint returned.
pub data Body (V : Type 0) : Type 0 where
  error : ErrorBody → Body V
  result : V → Body V

-- Odoo's `Response` and `request.make_json_response(data, headers=…, status=…)`, which gives a
-- response with that data and status and at least these headers.
pub record Odoo (V : Type 0) : Type 1 where
  pub Response : Type 0
  pub make_json_response : Body V → List Header → ℕ → Response
  pub status_of : Response → ℕ
  pub body_of : Response → Body V
  pub headers_of : Response → List Header
  pub made_status :
      (b : Body V) (h : List Header) (s : ℕ) → status_of (make_json_response b h s) ≡ s
  pub made_body : (b : Body V) (h : List Header) (s : ℕ) → body_of (make_json_response b h s) ≡ b
  pub made_headers :
      (b : Body V) (h : List Header) (s : ℕ)
      → (extra : List Header) × (headers_of (make_json_response b h s) ≡ extra ++ h)

abbrev pub access_denied_message : String
access_denied_message = "You are not allowed to perform this action."

-- An endpoint returns a response of its own, or a value to be rendered.
pub data Returned (R V : Type 0) : Type 0 where
  response : R → Returned R V
  plain : V → Returned R V

module _ {V : Type 0} (o : Odoo V) where
  abbrev pub Endpoint : Type 0 → Type 0
  Endpoint W = Dict V → W → Outcome o.Response (Returned o.Response V) × W

  unfoldable pub render : Outcome o.Response (Returned o.Response V) → Outcome o.Response o.Response
  render (raises e) = raises e
  render (returns (response r)) = returns r
  render (returns (plain v)) = returns (o.make_json_response (result v) [] 200)

  call_endpoint :
      {W : Type 0}
      → Endpoint W
      → Outcome o.Response (Dict V)
      → State W
      → Outcome o.Response o.Response × State W
  call_endpoint endpoint (raises e) s = (raises e, s)
  call_endpoint endpoint (returns params) s =
      let (out, w) = endpoint params s.world in (render out, record s { world = w })

  unfoldable pub dispatch :
      {W : Type 0}
      → Endpoint W
      → HttpRequest V
      → Dict V
      → State W
      → Outcome o.Response o.Response × State W
  unfolding call_endpoint render request_params
  dispatch endpoint q args s = call_endpoint endpoint (request_params q args) s

  unfoldable pub enforce_access_profile :
      List Profile → User → Request → Outcome o.Response (Unit {0})
  enforce_access_profile stored u q =
      if check_request_access stored u q
      then returns tt
      else raises (rest_auth_error "access_denied" access_denied_message 403 [])

  after_super :
      {W : Type 0}
      → List Profile
      → User
      → Request
      → String
      → Outcome o.Response (Unit {0})
      → State W
      → Outcome o.Response (Unit {0}) × State W
  after_super stored u q fresh (raises e) s = (raises e, s)
  after_super stored u q fresh (returns _) s =
      (enforce_access_profile stored u q, (ensure_request_id fresh s).1)

  -- `pre_dispatch`; `super_result` is what Odoo's own `pre_dispatch` did.
  unfoldable pub pre_dispatch :
      {W : Type 0}
      → List Profile
      → User
      → Request
      → String
      → Outcome o.Response (Unit {0})
      → State W
      → Outcome o.Response (Unit {0}) × State W
  unfolding after_super enforce_access_profile ensure_request_id
  pre_dispatch stored u q fresh super_result s = after_super stored u q fresh super_result s

  -- `exc.response`, which only an `HTTPException` can have.
  unfoldable pub prebuilt : Exception o.Response → Option o.Response
  prebuilt (http_exception c r) = r
  prebuilt _ = none

  unfoldable pub rest_headers : Exception o.Response → List Header
  rest_headers (rest_auth_error c d s headers) = headers
  rest_headers _ = []

  -- The envelope of `handle_error`, once the request has its id. The log is written in every case.
  unfoldable pub render_error :
      {W : Type 0}
      → Option Env
      → String
      → Exception o.Response
      → String × State W
      → o.Response × State W
  unfolding rest_headers build_error_body traceback_disclosure_allowed
  render_error env traceback exc (id, s) =
      let c = classify_exception exc in
      (
        o.make_json_response
            (error (
              build_error_body c.code c.message c.status id
                (if traceback_disclosure_allowed env then some traceback else none)))
            ((request_id_header, id) ∷ rest_headers exc) c.status,
        record s {
          log = s.log ++ record { request_id = id; code = c.code; status = c.status } ∷ [];
        },
      )

  answer_error :
      {W : Type 0}
      → Option Env
      → String
      → String
      → Exception o.Response
      → Option o.Response
      → State W
      → o.Response × State W
  answer_error env traceback fresh exc (some r) s = (r, s)
  answer_error env traceback fresh exc none s =
      render_error env traceback exc (ensure_request_id fresh s)

  unfoldable pub handle_error :
      {W : Type 0}
      → Option Env
      → String
      → String
      → Exception o.Response
      → State W
      → o.Response × State W
  unfolding answer_error prebuilt ensure_request_id render_error
  handle_error env traceback fresh exc s = answer_error env traceback fresh exc (prebuilt exc) s
