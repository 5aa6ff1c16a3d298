-- ===== src/Oauth/Endpoints/Location.antt =====
-- ssi_rest_api_auth_oauth2/controllers/main.py: the response of authorize and `_append_query`. The
-- functions of `urllib.parse` are an interface; the exception is the `ValueError` of `urlsplit`. A
-- `dict` is an association list in the order of Python's.
use ssi_rest_api.Prelude.{ℕ, String, ◌≡◌, Bool, true, false, Option, none, some, List, [], ◌∷◌}
use ssi_rest_api.Prelude.Dict.{Dict, insert}
use ssi_rest_api.Errors.{unclassified}
use ssi_rest_api.Dispatcher.Arguments.{Outcome, returns, raises}
use ssi_rest_api.Oauth.{Crypto, Draw, Client, Store}
use ssi_rest_api.Oauth.Endpoints.Authorize.{Redirect, authorize}

pub record SplitResult : Type 0 where
  pub scheme : String
  pub netloc : String
  pub path : String
  pub query : String
  pub fragment : String

-- `urlsplit` is `none` where it raises; the argument of `parse_qsl` is `keep_blank_values`.
pub record Urllib : Type 0 where
  pub urlsplit : String → Option SplitResult
  pub urlunsplit : SplitResult → String
  pub parse_qsl : Bool → String → Dict String
  pub urlencode : Dict String → String

abbrev pub with_query : SplitResult → String → SplitResult
with_query parts query = record {
  scheme = parts.scheme;
  netloc = parts.netloc;
  path = parts.path;
  query = query;
  fragment = parts.fragment;
}

-- What urllib documents: `parse_qsl` reads what `urlencode` writes, and `urlsplit` reads the parts of an
-- address, with an encoded query, that `urlunsplit` puts together.
pub record ReadsBack (urls : Urllib) : Type 0 where
  pub fields : (pairs : Dict String) → urls.parse_qsl true (urls.urlencode pairs) ≡ pairs
  pub address :
      (url : String) (parts : SplitResult) (pairs : Dict String)
      → urls.urlsplit url ≡ some parts
      → urls.urlsplit (urls.urlunsplit (with_query parts (urls.urlencode pairs)))
        ≡ some (with_query parts (urls.urlencode pairs))

-- `d.update(pairs)`, from the first pair to the last.
unfoldable pub update_pairs : Dict String → Dict String → Dict String
unfolding insert
update_pairs d [] = d
update_pairs d (new ∷ more) = update_pairs (insert new d) more

-- `{key: value for key, value in params.items() if value is not None}`
unfoldable pub given_params : Dict (Option String) → Dict String
given_params [] = []
given_params ((key, none) ∷ params) = given_params params
given_params ((key, some value) ∷ params) = (key, value) ∷ given_params params

-- The response of `authorize`: its status and its header `Location`.
pub record Redirection : Type 0 where
  pub status : ℕ
  pub location : String

module _ (urls : Urllib) where
  -- `dict(parse_qsl(query))`
  abbrev pub registered_query : String → Dict String
  registered_query query = update_pairs [] (urls.parse_qsl false query)

  abbrev pub append_parts :
      {R : Type 0} → Option SplitResult → Dict (Option String) → Outcome R String
  append_parts none params = raises (unclassified "ValueError")
  append_parts (some parts) params =
      let query = update_pairs (registered_query parts.query) (given_params params) in
      returns (urls.urlunsplit (with_query parts (urls.urlencode query)))

  unfoldable pub append_query : {R : Type 0} → String → Dict (Option String) → Outcome R String
  unfolding update_pairs given_params
  append_query url params = append_parts (urls.urlsplit url) params

  abbrev pub redirect_to :
      {R : Type 0} → Store → Store → Outcome R String → Outcome R Redirection × Store
  redirect_to s after (raises e) = (raises e, s)
  redirect_to s after (returns target) =
      (returns (record { status = 302; location = target }), after)

  -- What `authorize` answers to the redirection; an exception rolls back the code that was issued.
  unfoldable pub redirection :
      {R : Type 0} → Store → Outcome R Redirect × Store → Outcome R Redirection × Store
  unfolding append_query
  redirection s (raises e, after) = (raises e, after)
  redirection s (returns r, after) =
      redirect_to s after
        (append_query r.redirect_uri (("code", some r.code) ∷ ("state", r.state) ∷ []))

  unfoldable pub authorize_response :
      {R : Type 0}
      → Crypto
      → (String → Option String)
      → List Client
      → ℕ
      → Dict String
      → ℕ
      → Draw
      → Store
      → Outcome R Redirection × Store
  unfolding redirection authorize
  authorize_response crypto decode clients user kw now d s =
      redirection s (authorize crypto decode clients user kw now d s)
