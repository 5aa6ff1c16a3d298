-- ===== src/Oauth/Endpoints.antt =====
-- ssi_rest_api_auth_oauth2/controllers/main.py: the endpoints authorize, token and revoke. `kw` holds
-- the texts that the dispatcher passes; a parameter that is no text is outside the model. `decode` is
-- `base64.b64decode(...).decode("utf-8")`, `none` where it raises. An exception rolls the store back.
mod Requests
mod Authorize
mod Location
mod Tokens
mod Revoke
unfoldable pub use Requests.*
unfoldable pub use Authorize.*
unfoldable pub use Location.*
unfoldable pub use Tokens.*
unfoldable pub use Revoke.*
