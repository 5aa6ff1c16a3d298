-- ===== src/Lib.antt =====
-- Verification library of the ssi-rest-api repository: a REST API for Odoo. A request to an
-- `ssi_rest` route is authenticated (ssi_rest_api/models/ir_http.py), checked against the access
-- profiles and dispatched (ssi_rest_api/lib/dispatcher.py), and every exception on the way becomes one
-- JSON envelope (ssi_rest_api/lib/errors.py). The modules ssi_rest_api_auth_* add authentication
-- schemes, and ssi_rest_api_doc shows the API with Swagger UI.
--
-- Prelude: names of the libraries, Boolean tests on native numbers and texts, lists, dictionaries
--   (association lists), integers, and the methods of Python's `str` that the code calls. Of `upper`
--   only the ASCII letters are modelled.
-- SwaggerUi: ssi_rest_api_doc/static/src/js/swagger_ui_init.js, with the document and the events of a
--   browser as explicit state; the Swagger UI library that it calls is a parameter.
-- Lint: eslint.config.cjs, the program that builds the configuration of ESLint for the scripts: its two
--   objects, the table of rules (Lint/Table) and the declared names. What ESLint makes of them is an
--   interface with the laws that its documentation states (Lint/Eslint); the names of browsers, from
--   the package `globals`, and the plugin for JSDoc are arguments.
-- AccessProfile: ssi_rest_api/models/ssi_rest_access_profile.py and ssi_rest_access_profile_rule.py:
--   profiles, their ordered rules, and `_check_request_access`. Glob is Python's `fnmatch` as the rules
--   use it; a set in brackets is modelled with its ranges and negation, and a range whose bounds are
--   reversed contains nothing (CPython takes a `!` behind such a range at the start of a set, as in
--   `[b-a!x]`, for the negation, which is not modelled).
-- Errors: ssi_rest_api/lib/errors.py and the exception of ssi_rest_api/lib/auth.py. The exceptions of
--   Odoo and werkzeug are data: their class and what the code reads of them.
-- Dispatcher: ssi_rest_api/lib/dispatcher.py: `dispatch`, `pre_dispatch`, `_enforce_access_profile`,
--   `_ensure_request_id` and `handle_error`. Odoo's own dispatcher, the endpoint, and the ids that
--   `uuid4` draws are arguments.
-- Auth: `_auth_method_ssi_rest` of ssi_rest_api/models/ir_http.py over arbitrary providers
--   (ssi_rest_api/models/mixin_rest_authenticator.py). Auth/Registry is
--   ssi_rest_api/models/ssi_rest_auth_scheme.py with its `ormcache`, for one process; Auth/Extraction
--   the reading of bearer headers by ssi_rest_api/models/ssi_rest_auth_bearer.py and the OAuth2
--   provider.
-- Context: `_ssi_rest_resolve_company` and `_ssi_rest_resolve_lang` of ssi_rest_api/models/ir_http.py,
--   with Python's `int` on ASCII digits.
-- Oauth: ssi_rest_api_auth_oauth2: the clients and the store of codes and tokens
--   (models/ssi_rest_oauth_client.py, models/ssi_rest_oauth_token.py), what they are checked for
--   (Oauth/Checks), the endpoints authorize, token and revoke (controllers/main.py, in
--   Oauth/Endpoints) and the provider
--   (models/ssi_rest_auth_oauth2.py, in Oauth/Provider). A client's secret is made in
--   Oauth/Secrets. Oauth/Events is what happens to the database, one request or maintenance step
--   at a time; each is a transaction, which an exception rolls back. passlib, SHA-256, base64 and
--   `urllib.parse` (Oauth/Endpoints/Location) are parameters, and what is drawn at random is an
--   argument.
-- ApiKey: ssi_rest_api_auth_apikey/models/ssi_rest_api_key.py and ssi_rest_auth_apikey.py: the keys, of
--   which a hash and the first characters are stored, and their provider. ApiKey/Events is what
--   happens to them; ApiKey/Spec is the specification that stores the keys themselves, and the stored
--   rows refine it.
-- Jwt: ssi_rest_api_auth_jwt: the issuers (models/ssi_rest_jwt_issuer.py, in Jwt/Issuers), the cache of
--   PyJWT's clients in one process (lib/jwks_cache.py, in Jwt/Cache) and the provider
--   (models/ssi_rest_auth_jwt.py, in Jwt/Provider). Jwt/Events is what happens to them, an edit or a
--   request at a time. PyJWT, base64, JSON and the comparison of a claim with a column are an
--   interface.
-- Serializer: ssi_rest_api/models/ssi_rest_serializer.py: the specification of a query (Serializer/Query)
--   and the recursion over it (Serializer/Records, Serializer/Values). Odoo's ORM is an interface,
--   with what the serializer relies on in Serializer/Reads; Serializer/Shape is the wire contract. A
--   year is written with four digits, as those from 1000 on are.
-- Orm: ssi_rest_api_orm/controllers: the parameters (_helpers.py, in Orm/Params) and the generic endpoints
--   over Odoo's models (main.py, in Orm/Endpoints), with Serializer for what they answer. The models
--   are an interface; a change that is followed by an exception is rolled back by Odoo.
-- RequestLog: ssi_rest_api_log/lib/dispatcher.py, the dispatcher that logs every request
--   (RequestLog/Rows, on top of Dispatcher) and redacts what it carried, and the retention of
--   ssi_rest_api_log/models/ssi_rest_request_log.py. Keys are lowered by their ASCII letters.
--
-- Every loop of the code is over a finite list and is modelled by structural recursion, without fuel;
-- the depth at which the log stops redacting is the one of the code.
-- Numbers are natural or integer without bound, as Python's; timestamps count seconds. Dictionaries
-- carry texts where the code expects texts; their order is modelled where the output shows it, in
-- Serializer, RequestLog and Oauth/Endpoints/Location.
--
-- Not modelled: the provider for HTTP Basic, routing, the endpoints of ssi_rest_api_endpoint,
-- _binary, _report and _introspection, the OpenAPI document; data files and views,
-- prettier.config.cjs and the records of scopes and addresses, which hold no code of this kind, and
-- the vendored Swagger UI bundles, another project's.
pub mod AccessProfile
pub mod ApiKey
pub mod Auth
pub mod Context
pub mod Dispatcher
pub mod Errors
pub mod Jwt
pub mod Lint
pub mod Oauth
pub mod Orm
pub mod Prelude
pub mod RequestLog
pub mod Serializer
pub mod SwaggerUi
