-- ===== src/Dispatcher/Tests.antt =====
-- The dispatcher at concrete requests, over a response that is a plain record.
use ssi_rest_api.Prelude.{
  ℕ, suc, String, ◌≡◌, ◌≢◌, refl, true, none, some, List, [], ◌∷◌, if◌then◌else◌, false≢true,
  eq_iff,
}
use ssi_rest_api.Prelude.Dict.{Dict, lookup, update, or_else, insert}
use ssi_rest_api.Errors.{Header, Exception, rest_auth_error}
use ssi_rest_api.AccessProfile.{Profile, Effect, check_request_access}
use ssi_rest_api.Dispatcher.{
  Odoo, Body, plain, Endpoint, prebuilt, handle_error, pre_dispatch, dispatch,
  access_denied_message,
}
use ssi_rest_api.Dispatcher.Headers.{State, ensure_request_id}
use ssi_rest_api.Dispatcher.Arguments.{
  returns, JsonData, malformed, object, HttpRequest, is_form, has_content, request_params,
}
use ssi_rest_api.Dispatcher.Params.{object_fields, request_params_precedence}
use ssi_rest_api.Dispatcher.Envelope.{IsEnvelope, handle_error-IsEnvelope}
use ssi_rest_api.Dispatcher.Denial.{Served, serve, IsRefused, serve_denied, serve_malformed}

record PlainResponse : Type 0 where
  status : ℕ
  body : Body String
  headers : List Header

abbrev odoo : Odoo String
odoo = record {
  Response = PlainResponse;
  make_json_response = λ b h s. record {
    status = s;
    body = b;
    headers = ("Content-Type", "application/json; charset=utf-8") ∷ h;
  };
  status_of = λ r. r.status;
  body_of = λ r. r.body;
  headers_of = λ r. r.headers;
  made_status = λ b h s. refl;
  made_body = λ b h s. refl;
  made_headers = λ b h s. (("Content-Type", "application/json; charset=utf-8") ∷ [], refl);
}

-- The world counts the calls of the endpoint.
abbrev counting : Endpoint odoo ℕ
counting params n = (returns (plain "pong"), suc n)

abbrev idle : State ℕ
idle = record { future_headers = []; log = []; world = 0 }

abbrev posted : HttpRequest String
posted = record {
  mimetype = "application/json";
  content_length = some 12;
  json_data = object (("a", "json") ∷ ("b", "json") ∷ []);
  query = ("b", "query") ∷ ("c", "query") ∷ [];
  form = [];
}

abbrev posted_params : Dict String
posted_params = ("b", "json") ∷ ("c", "query") ∷ ("a", "path") ∷ []

posted_sets : request_params {R = ℕ} posted (("a", "path") ∷ []) ≡ returns posted_params
unfolding request_params update insert
posted_sets = refl

request_params_precedence_example : lookup "b" posted_params ≡ (
    if is_form posted.mimetype
    then or_else (lookup "b" (("a", "path") ∷ [])) (lookup "b" posted.form)
    else or_else (lookup "b" (("a", "path") ∷ [])) (
        or_else
          (lookup "b" (object_fields (has_content posted.content_length) posted.json_data))
          (lookup "b" posted.query)))
request_params_precedence_example =
    request_params_precedence ℕ posted (("a", "path") ∷ []) posted_params "b" posted_sets

id_1 : ◌≢◌ {A = String} "id-1" ""
id_1 e = false≢true ((eq_iff "id-1" "").1 e)

abbrev expired : Exception PlainResponse
expired = rest_auth_error "invalid_credential" "Expired." 401 (("WWW-Authenticate", "Bearer") ∷ [])

handle_error-IsEnvelope_example :
    IsEnvelope odoo none "Traceback" expired idle
      (handle_error odoo none "Traceback" "id-1" expired idle).1
      (handle_error odoo none "Traceback" "id-1" expired idle).0
      (ensure_request_id "id-1" idle).0
unfolding prebuilt
handle_error-IsEnvelope_example =
    handle_error-IsEnvelope odoo none "Traceback" "id-1" expired idle id_1 refl

abbrev deny_all : Profile
deny_all = record {
  id = 1;
  active = true;
  default_effect = Effect.deny;
  rule_ids = [];
  user_ids = 3 ∷ [];
  group_ids = [];
}

abbrev served : List Profile → JsonData String → Served String ℕ odoo
served stored json = record {
  stored = stored;
  user = record { id = 3; all_group_ids = [] };
  described = record {
    path = "/api/v1/ping";
    http_method = "POST";
    model = none;
    operation = none;
  };
  http = record posted { json_data = json };
  args = [];
  endpoint = counting;
  first_id = "id-0";
  second_id = "id-1";
  env = none;
  traceback = "Traceback";
}

allowed_world : (serve odoo (served [] (object [])) idle).1.world ≡ 1
unfolding serve check_request_access pre_dispatch dispatch
allowed_world = refl

serve_denied_example :
    IsRefused odoo idle
      (serve odoo (served (deny_all ∷ []) (object [])) idle)
      403
      "access_denied"
      access_denied_message
unfolding check_request_access
serve_denied_example = serve_denied odoo (served (deny_all ∷ []) (object [])) idle id_1 refl

serve_malformed_example :
    IsRefused odoo idle
      (serve odoo (served [] (malformed "bad")) idle)
      500
      "internal_error"
      "An unexpected error occurred while processing the request."
unfolding check_request_access
serve_malformed_example =
    serve_malformed odoo (served [] (malformed "bad")) idle "bad" id_1 refl refl refl refl
