-- ===== src/Oauth/Redirected.antt =====
-- The response of authorize in ssi_rest_api_auth_oauth2/controllers/main.py: when it redirects, and where.
use ssi_rest_api.Prelude.{
  ℕ, String, ◌≡◌, refl, sym, ap, ◌∙◌, true, false, ◌||◌, Option, none, some, List, [], ◌∷◌, ◌==◌,
  arith, eq_iff, Bool-cases, inl, inr,
}
use ssi_rest_api.Prelude.Dict.{Dict, lookup}
use ssi_rest_api.Dispatcher.Arguments.{Outcome, returns, raises}
use ssi_rest_api.Oauth.{Crypto, Draw, Client, Store, code, issue, auth_code_lifetime_seconds}
use ssi_rest_api.Oauth.Endpoints.{
  authorize, authorize_client, param, find_client, method_or_default, SplitResult, Urllib,
  with_query, ReadsBack, update_pairs, given_params, Redirection, registered_query, append_query,
  append_parts, redirect_to, redirection, authorize_response,
}
use ssi_rest_api.Oauth.Branches.{authorize-cases, IsAccepted}
use ssi_rest_api.Oauth.Grants.{IsRegistered, find_client-IsRegistered}
use ssi_rest_api.Oauth.Appended.{IsAppended, urlunsplit-IsAppended}

module _ (urls : Urllib) where
  module _ (crypto : Crypto) (decode : String → Option String) (clients : List Client) (user : ℕ)
      (kw : Dict String) (now : ℕ) (d : Draw) (s : Store) where
    abbrev pub issued : Client → String × Store
    issued client =
        issue crypto client (some user) code (lookup "scope" kw) auth_code_lifetime_seconds
          (lookup "code_challenge" kw) (some (method_or_default (param kw "code_challenge_method")))
          now d s

    -- A client that the code was issued to and that the answer redirects to.
    pub record IsRedirected (answer : Redirection) (after : Store) : Type 0 where
      pub client : Client
      pub registered : IsRegistered (param kw "client_id") clients client
      pub accepted : IsAccepted kw client
      pub stored : after ≡ (issued client).1
      pub status : answer.status ≡ 302
      pub location :
          IsAppended urls
            (param kw "redirect_uri")
            (issued client).0
            (lookup "state" kw)
            answer.location

    -- An answer of `authorize` in short, whether or not it had to be given.
    abbrev IsTraced : {R : Type 0} → Outcome R Redirection × Store → Type 0
    IsTraced (raises e, after) = after ≡ s
    IsTraced (returns answer, after) = IsRedirected answer after

    -- A request that a code may be issued for, at an address that urllib reads.
    pub record IsGrantable : Type 0 where
      pub client : Client
      pub found : find_client (param kw "client_id") clients ≡ some client
      pub accepted : IsAccepted kw client
      pub named : (param kw "client_id" == "") ≡ false
      pub addressed : (param kw "redirect_uri" == "") ≡ false
      pub parts : SplitResult
      pub split : urls.urlsplit (param kw "redirect_uri") ≡ some parts

    -- What `authorize` answers, and the rows that it leaves.
    abbrev pub IsRedirection : {R : Type 0} → Outcome R Redirection × Store → Type 0
    IsRedirection (raises e, after) = (after ≡ s) × ¬ IsGrantable
    IsRedirection (returns answer, after) =
        IsRedirected answer after
        × ((param kw "client_id" == "") ≡ false)
        × ((param kw "redirect_uri" == "") ≡ false)

    authorize_response-named :
        (R : Type 0) (r : Redirection)
        → (authorize_response urls {R = R} crypto decode clients user kw now d s).0 ≡ returns r
        → ((param kw "client_id" == "") ≡ false) × ((param kw "redirect_uri" == "") ≡ false)
    unfolding authorize_response redirection authorize
    authorize_response-named R r e =
        elim (Bool-cases (param kw "client_id" == "" || param kw "redirect_uri" == "")) [
          | inl absent ↦ let impossible = rw absent at e in absurd (cc)
          | inr present ↦ (ground arith, ground arith)
        ]

    IsGrantable-returns :
        (R : Type 0)
        → IsGrantable
        → (r : Redirection) × ((authorize_response urls {R = R} crypto decode clients user kw now d
              s).0
            ≡ returns r)
    unfolding authorize_response redirection append_query authorize authorize_client
    IsGrantable-returns R g =
        let typed : (param kw "response_type" == "code") ≡ true =
          (eq_iff (param kw "response_type") "code").1 g.accepted.response_type in
        (
          record {
            status = 302;
            location = urls.urlunsplit (
                with_query g.parts (
                  urls.urlencode (
                    update_pairs (registered_query urls g.parts.query) (
                      given_params (
                        ("code", some (issued g.client).0) ∷ ("state", lookup "state" kw) ∷ [])))));
          },
          rw
              (
                g.named, g.addressed, g.found, g.accepted.registered, typed, g.accepted.granted,
                g.accepted.challenged, g.accepted.known_method, g.split,
              )
              refl,
        )

    module _ (reads : ReadsBack urls) (R : Type 0) where
      redirect_to-IsRedirection :
          (client : Client) (split : Option SplitResult)
          → urls.urlsplit (param kw "redirect_uri") ≡ split
          → find_client (param kw "client_id") clients ≡ some client
          → IsAccepted kw client
          → IsTraced (
              redirect_to urls {R = R} s (issued client).1 (
                append_parts urls split
                  (("code", some (issued client).0) ∷ ("state", lookup "state" kw) ∷ [])))
      redirect_to-IsRedirection client none e found accepted = refl
      redirect_to-IsRedirection client (some parts) e found accepted = record {
        client = client;
        registered = find_client-IsRegistered (param kw "client_id") clients client found;
        accepted = accepted;
        stored = refl;
        status = refl;
        location =
            urlunsplit-IsAppended urls reads (param kw "redirect_uri") (issued client).0
              (lookup "state" kw) parts _ refl e;
      }

      traced-IsRedirection :
          (o : Outcome R Redirection × Store)
          → authorize_response urls {R = R} crypto decode clients user kw now d s ≡ o
          → IsTraced o
          → IsRedirection o
      traced-IsRedirection (raises e, after) same kept = (
        kept,
        λ g.
            let (r, answered) = IsGrantable-returns R g in
            let impossible = sym answered ∙ ap (λ p. p.0) same in absurd (cc),
      )
      traced-IsRedirection (returns answer, after) same h =
          let (named, addressed) = authorize_response-named R answer (ap (λ p. p.0) same) in
          (h, named, addressed)

      -- If urllib reads back what it writes, authorize answers with status 302 exactly when the
      -- request names a client id and an address, the active client of that id may use the grant
      -- and has the address registered, the response type is code, a challenge of a known method
      -- is given and urlsplit reads the address; otherwise it raises and leaves the rows as they
      -- were. With the answer a code is issued to that client, and the location is the address
      -- but for its query, which has each parameter once: code is the code that was issued, state
      -- that of the request, and every other parameter, and without a state in the request that
      -- too, is as parse_qsl reads it in the registered address.
      pub authorize_response-IsRedirection :
          IsRedirection (authorize_response urls {R = R} crypto decode clients user kw now d s)
      unfolding authorize_response redirection append_query
      authorize_response-IsRedirection = traced-IsRedirection _ refl (
          authorize-cases crypto decode s (λ o. IsTraced (redirection urls {R = R} s o)) (λ e. refl)
            user kw now d clients
            (λ client.
              redirect_to-IsRedirection client (urls.urlsplit (param kw "redirect_uri")) refl))
