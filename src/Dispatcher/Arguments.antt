-- ===== src/Dispatcher/Arguments.antt =====
-- ssi_rest_api/lib/dispatcher.py, `dispatch`: the parameters that an endpoint is called with.
use ssi_rest_api.Prelude.{
  ℕ, String, Bool, true, false, ◌||◌, Option, none, some, [], ◌==◌, if◌then◌else◌,
}
use ssi_rest_api.Prelude.Dict.{Dict, update}
use ssi_rest_api.Errors.{Exception, http_exception, unclassified, other_status}

-- Python code that may raise.
pub data Outcome (R A : Type 0) : Type 0 where
  returns : A → Outcome R A
  raises : Exception R → Outcome R A

-- What `request.get_json_data` gives: it raises `ValueError`, or returns an object, another falsy
-- value, or another truthy one.
pub data JsonData (V : Type 0) : Type 0 where
  malformed : (reason : String) → JsonData V
  object : Dict V → JsonData V
  falsy : JsonData V
  not_a_mapping : JsonData V

pub record HttpRequest (V : Type 0) : Type 0 where
  pub mimetype : String
  pub content_length : Option ℕ
  pub json_data : JsonData V
  pub query : Dict V
  pub form : Dict V

abbrev pub is_form : String → Bool
is_form mimetype =
    mimetype == "multipart/form-data" || mimetype == "application/x-www-form-urlencoded"

abbrev pub has_content : Option ℕ → Bool
has_content none = false
has_content (some ℕ.zero) = false
has_content (some (ℕ.suc _)) = true

-- `self.jsonrequest or {}`, unpacked: `**` of a list, a text or a number raises `TypeError`.
unfoldable pub json_fields : {R V : Type 0} → JsonData V → Outcome R (Dict V)
json_fields (malformed reason) = raises (http_exception (other_status 400) none)
json_fields (object fields) = returns fields
json_fields falsy = returns []
json_fields not_a_mapping = raises (unclassified "argument after ** must be a mapping")

unfoldable pub merge : {R V : Type 0} → Dict V → Outcome R (Dict V) → Dict V → Outcome R (Dict V)
merge query (returns fields) args = returns (update (update query fields) args)
merge query (raises e) args = raises e

-- `request.params`, as `dispatch` sets it.
unfoldable pub request_params : {R V : Type 0} → HttpRequest V → Dict V → Outcome R (Dict V)
unfolding merge json_fields
request_params q args =
    if is_form q.mimetype
    then returns (update q.form args)
    else merge q.query
        (if has_content q.content_length then json_fields q.json_data else returns []) args
