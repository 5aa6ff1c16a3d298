-- ===== src/Oauth/Appended.antt =====
-- `_append_query` of ssi_rest_api_auth_oauth2/controllers/main.py: what urllib reads of the address that it
-- makes.
use ssi_rest_api.Prelude.{
  String, ◌≡◌, ◌≢◌, refl, ap, ◌∙◌, true, false, ◌||◌, Option, none, some, [], ◌∷◌, ◌==◌, arith,
  eq_iff, if◌then◌else◌,
}
use ssi_rest_api.Prelude.Dict.{Dict, lookup, insert, lookup-insert, or_else}
use ssi_rest_api.Prelude.Keys.{has_key, distinct_keys}
use ssi_rest_api.Oauth.Endpoints.{
  SplitResult, Urllib, with_query, ReadsBack, update_pairs, given_params, registered_query,
}

has_key-insert :
    (new : String × String) (d : Dict String) (key : String)
    → has_key key (insert new d) ≡ ((new.0 == key) || has_key key d)
unfolding insert
has_key-insert new [] key = refl
has_key-insert new (entry ∷ rest) key =
    ground (
      arith,
      eq_iff entry.0 new.0,
      eq_iff entry.0 key,
      eq_iff new.0 key,
      has_key-insert new rest key,
    )

distinct_keys-insert :
    (new : String × String) (d : Dict String)
    → distinct_keys d ≡ true
    → distinct_keys (insert new d) ≡ true
unfolding insert
distinct_keys-insert new [] h = refl
distinct_keys-insert new (entry ∷ rest) h = ground (
  arith,
  eq_iff entry.0 new.0,
  eq_iff new.0 entry.0,
  has_key-insert new rest entry.0,
  distinct_keys-insert new rest,
)

distinct_keys-update_pairs :
    (d more : Dict String) → distinct_keys d ≡ true → distinct_keys (update_pairs d more) ≡ true
unfolding update_pairs
distinct_keys-update_pairs d [] h = h
distinct_keys-update_pairs d (new ∷ more) h =
    distinct_keys-update_pairs (insert new d) more (distinct_keys-insert new d h)

abbrev with_code : Dict String → String → String → Option String
with_code d raw key = if "code" == key then some raw else lookup key d

-- What a key is bound to once `code` and `state` are set.
abbrev with_state : Dict String → String → Option String → String → Option String
with_state d raw none key = with_code d raw key
with_state d raw (some state) key = if "state" == key then some state else with_code d raw key

lookup-given :
    (d : Dict String) (raw : String) (state : Option String) (key : String)
    → lookup key (update_pairs d (given_params (("code", some raw) ∷ ("state", state) ∷ [])))
      ≡ with_state d raw state key
unfolding update_pairs given_params
lookup-given d raw none key = lookup-insert ("code", raw) d key
lookup-given d raw (some state) key =
    lookup-insert ("state", state) (insert ("code", raw) d) key
    ∙ ap (λ o. if "state" == key then some state else o) (lookup-insert ("code", raw) d key)

with_state-code :
    (d : Dict String) (raw : String) (state : Option String)
    → with_state d raw state "code" ≡ some raw
with_state-code d raw none = refl
with_state-code d raw (some state) = refl

with_state-state :
    (d : Dict String) (raw : String) (state : Option String)
    → with_state d raw state "state" ≡ or_else state (lookup "state" d)
with_state-state d raw none = refl
with_state-state d raw (some state) = refl

with_state-other :
    (d : Dict String) (raw : String) (state : Option String) (key : String)
    → key ≢ "code"
    → key ≢ "state"
    → with_state d raw state key ≡ lookup key d
with_state-other d raw none key a b = ground (arith, eq_iff "code" key)
with_state-other d raw (some state) key a b = ground (arith, eq_iff "code" key, eq_iff "state" key)

module _ (urls : Urllib) where
  -- What urllib reads of the address `location` after `url` was given a code and a state: the same parts
  -- but for the query, which holds each key once.
  pub record IsAppended (url raw : String) (state : Option String) (location : String)
      : Type 0 where
    pub parts : SplitResult
    pub query : String
    pub registered_parts : urls.urlsplit url ≡ some parts
    pub same_parts : urls.urlsplit location ≡ some (with_query parts query)
    pub distinct : distinct_keys (urls.parse_qsl true query) ≡ true
    pub code_given : lookup "code" (urls.parse_qsl true query) ≡ some raw
    pub state_given :
        lookup "state" (urls.parse_qsl true query)
        ≡ or_else state (lookup "state" (registered_query urls parts.query))
    pub others_kept :
        (key : String)
        → key ≢ "code"
        → key ≢ "state"
        → lookup key (urls.parse_qsl true query) ≡ lookup key (registered_query urls parts.query)

  module _ (reads : ReadsBack urls) where
    pub urlunsplit-IsAppended :
        (url raw : String) (state : Option String) (parts : SplitResult) (d : Dict String)
        → d
          ≡ update_pairs
              (registered_query urls parts.query)
              (given_params (("code", some raw) ∷ ("state", state) ∷ []))
        → urls.urlsplit url ≡ some parts
        → IsAppended url raw state (urls.urlunsplit (with_query parts (urls.urlencode d)))
    urlunsplit-IsAppended url raw state parts d made split =
        let old = registered_query urls parts.query in
        let found : (key : String)
            → lookup key (urls.parse_qsl true (urls.urlencode d)) ≡ with_state old raw state key =
          λ key. ap (λ q. lookup key q) (reads.fields d ∙ made) ∙ lookup-given old raw state key in
        record {
          parts = parts;
          query = urls.urlencode d;
          registered_parts = split;
          same_parts = reads.address url parts d split;
          distinct =
              ap (λ q. distinct_keys q) (reads.fields d ∙ made)
              ∙ distinct_keys-update_pairs old _
                  (distinct_keys-update_pairs [] (urls.parse_qsl false parts.query) refl);
          code_given = found "code" ∙ with_state-code old raw state;
          state_given = found "state" ∙ with_state-state old raw state;
          others_kept = λ key a b. found key ∙ with_state-other old raw state key a b;
        }
