-- ===== src/Errors.antt =====
-- ssi_rest_api/lib/errors.py and the exception of ssi_rest_api/lib/auth.py: which status, code and
-- message an exception is answered with. The exceptions of Odoo and werkzeug are data: a class with
-- what the code reads of an instance.
pub mod Messages
mod Tests
use ssi_rest_api.Prelude.{
  ℕ, String, Bool, true, false, not, Option, none, some, List, [], ◌∷◌, ◌==◌, if◌then◌else◌,
}

abbrev pub Header : Type 0
Header = String × String

-- Odoo's `UserError` and its subclasses; `derived` stands for those that the map does not name.
pub data UserErrorClass : Type 0 where
  user_error missing_error lock_error access_denied access_error : UserErrorClass
  derived : String → UserErrorClass

-- werkzeug's `HTTPException` classes other than `RestAuthError`, with their status.
pub data HttpErrorClass : Type 0 where
  request_entity_too_large : HttpErrorClass
  other_status : ℕ → HttpErrorClass

-- `R` is the type of responses, which an `HTTPException` may carry.
pub data Exception (R : Type 0) : Type 0 where
  rest_auth_error :
      (error_code description : String) (status : ℕ) (headers : List Header) → Exception R
  http_exception : HttpErrorClass → (response : Option R) → Exception R
  odoo_error : UserErrorClass → (http_status : ℕ) (message : String) → Exception R
  unclassified : (message : String) → Exception R

-- `isinstance` between the classes below `UserError`.
unfoldable pub is_instance : UserErrorClass → UserErrorClass → Bool
is_instance c user_error = true
is_instance missing_error missing_error = true
is_instance lock_error lock_error = true
is_instance access_denied access_denied = true
is_instance access_error access_error = true
is_instance (derived a) (derived b) = a == b
is_instance _ _ = false

unfoldable pub lookup_message : String → List (String × String) → Option String
lookup_message key [] = none
lookup_message key ((k, m) ∷ rest) = if k == key then some m else lookup_message key rest

abbrev pub generic_messages : List (String × String)
generic_messages =
    ("access_denied", "You are not allowed to perform this action.")
    ∷ ("internal_error", "An unexpected error occurred while processing the request.")
    ∷ ("payload_too_large", "The uploaded content exceeds the maximum allowed size.")
    ∷ []

abbrev pub exception_code_map : List (UserErrorClass × String)
exception_code_map =
    (missing_error, "missing_record")
    ∷ (lock_error, "lock_error")
    ∷ (access_denied, "access_denied")
    ∷ (access_error, "access_denied")
    ∷ (user_error, "validation_error")
    ∷ []

pub record Classified : Type 0 where
  pub status : ℕ
  pub code : String
  pub message : String

abbrev message_or : Option String → String → String
message_or none own = own
message_or (some generic) own = generic

abbrev pub internal_error : Classified
internal_error = record {
  status = 500;
  code = "internal_error";
  message = "An unexpected error occurred while processing the request.";
}

-- The loop over `_EXCEPTION_CODE_MAP`, and the fall-through to the generic 500.
unfoldable pub classify_odoo_error :
    List (UserErrorClass × String) → UserErrorClass → ℕ → String → Classified
unfolding lookup_message is_instance
classify_odoo_error [] c http_status message = internal_error
classify_odoo_error ((d, code) ∷ rest) c http_status message =
    if is_instance c d
    then record {
      status = http_status;
      code = code;
      message = message_or (lookup_message code generic_messages) message;
    }
    else classify_odoo_error rest c http_status message

unfoldable pub classify_exception : {R : Type 0} → Exception R → Classified
unfolding classify_odoo_error
classify_exception (rest_auth_error error_code description status headers) = record {
  status = status;
  code = error_code;
  message = description;
}
classify_exception (http_exception request_entity_too_large response) = record {
  status = 413;
  code = "payload_too_large";
  message = "The uploaded content exceeds the maximum allowed size.";
}
classify_exception (http_exception (other_status n) response) = internal_error
classify_exception (odoo_error c http_status message) =
    classify_odoo_error exception_code_map c http_status message
classify_exception (unclassified message) = internal_error

pub record EnvUser : Type 0 where
  pub in_group_system : Bool

-- `user` is `none` for an empty recordset; `expose_traceback` is the stored parameter.
pub record Env : Type 0 where
  pub user : Option EnvUser
  pub expose_traceback : Option String

abbrev param_or : Option String → String → String
param_or none default = default
param_or (some v) default = v

user_may_see : Option EnvUser → Option String → Bool
user_may_see none param = false
user_may_see (some u) param =
    if not u.in_group_system then false else param_or param "False" == "True"

unfoldable pub traceback_disclosure_allowed : Option Env → Bool
unfolding user_may_see
traceback_disclosure_allowed none = false
traceback_disclosure_allowed (some env) = user_may_see env.user env.expose_traceback

-- The envelope `{"error": {…}}`; `details` is `none` for null, or the text of the traceback.
pub record ErrorBody : Type 0 where
  pub code : String
  pub message : String
  pub status : ℕ
  pub request_id : String
  pub details : Option String

unfoldable pub build_error_body : String → String → ℕ → String → Option String → ErrorBody
build_error_body code message status request_id details = record {
  code = code;
  message = message;
  status = status;
  request_id = request_id;
  details = details;
}
