-- ===== src/Dispatcher/Denial.antt =====
-- Requests that ssi_rest_api/lib/dispatcher.py answers without the endpoint: those that the access
-- profiles deny, and those whose JSON body cannot be parsed.
use ssi_rest_api.Prelude.{
  ℕ, String, ◌≡◌, ◌≢◌, refl, ◌∙◌, true, false, Option, none, List, [], arith,
}
use ssi_rest_api.Prelude.Dict.{Dict}
use ssi_rest_api.Errors.{
  Exception, rest_auth_error, http_exception, other_status, classify_exception, Env, ErrorBody,
}
use ssi_rest_api.AccessProfile.{Request, Profile, User, check_request_access}
use ssi_rest_api.Dispatcher.{
  Odoo, error, Endpoint, prebuilt, handle_error, pre_dispatch, dispatch, access_denied_message,
}
use ssi_rest_api.Dispatcher.Headers.{State, ensure_request_id, keep_or_set}
use ssi_rest_api.Dispatcher.Arguments.{
  Outcome, returns, raises, malformed, HttpRequest, is_form, has_content,
}
use ssi_rest_api.Dispatcher.Envelope.{handle_error-IsEnvelope}

-- What a request brings, besides the state: its description for the profiles, its HTTP side, the
-- ids that are generated in turn, and what an error answer may show.
pub record Served (V W : Type 0) (o : Odoo V) : Type 0 where
  pub stored : List Profile
  pub user : User
  pub described : Request
  pub http : HttpRequest V
  pub args : Dict V
  pub endpoint : Endpoint o W
  pub first_id : String
  pub second_id : String
  pub env : Option Env
  pub traceback : String

module _ {V W : Type 0} (o : Odoo V) where
  after_dispatch : Served V W o → Outcome o.Response o.Response × State W → o.Response × State W
  after_dispatch q (returns r, s) = (r, s)
  after_dispatch q (raises e, s) = handle_error o q.env q.traceback q.second_id e s

  after_pre_dispatch : Served V W o → Outcome o.Response (Unit {0}) × State W → o.Response × State W
  after_pre_dispatch q (returns _, s) = after_dispatch q (dispatch o q.endpoint q.http q.args s)
  after_pre_dispatch q (raises e, s) = handle_error o q.env q.traceback q.second_id e s

  -- The order in which Odoo calls the dispatcher; `super().pre_dispatch` raises nothing here.
  unfoldable pub serve : Served V W o → State W → o.Response × State W
  unfolding after_pre_dispatch after_dispatch
  serve q s =
      after_pre_dispatch q (pre_dispatch o q.stored q.user q.described q.first_id (returns tt) s)

  -- The answer is an error envelope with this status, code and message, and the endpoint has not
  -- touched the world.
  pub record IsRefused (s : State W) (result : o.Response × State W) (status : ℕ)
      (code message : String) : Type 0 where
    pub refused_status : o.status_of result.0 ≡ status
    pub body : ErrorBody
    pub refused_body : o.body_of result.0 ≡ error body
    pub refused_code : body.code ≡ code
    pub refused_message : body.message ≡ message
    pub untouched : result.1.world ≡ s.world

  world-ensure : (fresh : String) (s : State W) → (ensure_request_id fresh s).1.world ≡ s.world
  unfolding ensure_request_id keep_or_set
  world-ensure fresh s = ground arith

  handle_error-IsRefused :
      (q : Served V W o) (exc : Exception o.Response) (s s' : State W)
      → q.second_id ≢ ""
      → prebuilt o exc ≡ none
      → s'.world ≡ s.world
      → IsRefused s
          (handle_error o q.env q.traceback q.second_id exc s')
          (classify_exception exc).status
          (classify_exception exc).code
          (classify_exception exc).message
  handle_error-IsRefused q exc s s' f e w =
      let env = handle_error-IsEnvelope o q.env q.traceback q.second_id exc s' f e in
      record {
        refused_status = env.status;
        body = _;
        refused_body = env.body;
        refused_code = refl;
        refused_message = refl;
        untouched = env.world_kept ∙ w;
      }

  -- If the id generated for an error answer is not empty, a request that the access profiles deny,
  -- for which Odoo's own pre_dispatch raises nothing, is answered with status 403, the code
  -- access_denied and a message that names no profile, rule or model, and the endpoint has not
  -- changed the world.
  pub serve_denied :
      (q : Served V W o) (s : State W)
      → q.second_id ≢ ""
      → check_request_access q.stored q.user q.described ≡ false
      → IsRefused s (serve q s) 403 "access_denied" access_denied_message
  unfolding serve pre_dispatch classify_exception prebuilt
  serve_denied q s f denied = rw denied (
      handle_error-IsRefused q (rest_auth_error "access_denied" access_denied_message 403 []) s
        (ensure_request_id q.first_id s).1 f refl (world-ensure q.first_id s))

  -- If the id generated for an error answer is not empty, a request that the profiles let through,
  -- that is no form and has a body which is not JSON is answered with status 500 and the code
  -- internal_error, and the endpoint has not changed the world.
  pub serve_malformed :
      (q : Served V W o) (s : State W) (reason : String)
      → q.second_id ≢ ""
      → check_request_access q.stored q.user q.described ≡ true
      → is_form q.http.mimetype ≡ false
      → has_content q.http.content_length ≡ true
      → q.http.json_data ≡ malformed reason
      → IsRefused s
          (serve q s)
          500
          "internal_error"
          "An unexpected error occurred while processing the request."
  unfolding serve pre_dispatch dispatch classify_exception prebuilt
  serve_malformed q s reason f allowed form content bad =
      rw (allowed, form, content, bad)
        (handle_error-IsRefused q (http_exception (other_status 400) none) s
          (ensure_request_id q.first_id s).1 f refl (world-ensure q.first_id s))
