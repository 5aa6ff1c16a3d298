-- ===== src/Oauth/Tests/Urls.antt =====
-- Tests of Oauth/Redirected: an urllib that reads back what it writes, and the redirection of a request.
use Prim.Native.Char.{Char, code}
use mathlib.Core.Path.{subst}
use ssi_rest_api.Prelude.{
  String, ◌≡◌, refl, ap, ◌∙◌, Bool, true, false, not, Option, none, some, List, [], ◌∷◌, ◌==◌,
  keep_if, nat_eq, Bool-cases, Option-cases, inl, inr, if◌then◌else◌,
}
use ssi_rest_api.Prelude.Dict.{Dict, lookup}
use ssi_rest_api.Prelude.Text.{partition}
use ssi_rest_api.Dispatcher.Arguments.{returns}
use ssi_rest_api.Oauth.Endpoints.{SplitResult, Urllib, ReadsBack, with_query, authorize_response}
use ssi_rest_api.Oauth.Redirected.{IsRedirection, authorize_response-IsRedirection}
use ssi_rest_api.Oauth.Tests.{toy, decode, empty, draw, authorize_kw}

-- A text with each character marked, before `tail`.
abbrev marked : String → String → String
marked String.[] tail = String.◌∷◌ ";" tail
marked (String.◌∷◌ c s) tail = String.◌∷◌ "." (String.◌∷◌ c (marked s tail))

abbrev encode : Dict String → String
encode [] = ""
encode ((key, value) ∷ rest) = marked key (marked value (encode rest))

abbrev push : Char → List String → List String
push c [] = []
push c (w ∷ ws) = String.◌∷◌ c w ∷ ws

-- The texts that were marked; after a mark, the next character is one of the text.
abbrev unmarked : Bool → String → List String
unmarked after_mark String.[] = []
unmarked true (String.◌∷◌ c rest) = push c (unmarked false rest)
unmarked false (String.◌∷◌ c rest) = elim (nat_eq (code c) b';') [
  | true ↦ "" ∷ unmarked false rest
  | false ↦ unmarked true rest
]

abbrev paired : List String → Dict String
paired [] = []
paired (key ∷ []) = []
paired (key ∷ value ∷ rest) = (key, value) ∷ paired rest

unmarked-marked : (s tail : String) → unmarked false (marked s tail) ≡ s ∷ unmarked false tail
unmarked-marked String.[] tail = refl
unmarked-marked (String.◌∷◌ c s) tail = ap (λ ws. push c ws) (unmarked-marked s tail)

paired-encode : (pairs : Dict String) → paired (unmarked false (encode pairs)) ≡ pairs
paired-encode [] = refl
paired-encode ((key, value) ∷ rest) =
    ap (λ ws. paired ws)
      (unmarked-marked key (marked value (encode rest))
        ∙ ap (λ ws. key ∷ ws) (unmarked-marked value (encode rest)))
    ∙ ap (λ d. (key, value) ∷ d) (paired-encode rest)

-- `path` and `query` around a question mark.
abbrev with_mark : String → String → String
with_mark String.[] query = String.◌∷◌ "?" query
with_mark (String.◌∷◌ c path) query = String.◌∷◌ c (with_mark path query)

abbrev split_at : String → Option (String × String) → SplitResult
split_at url none = record { scheme = ""; netloc = ""; path = url; query = ""; fragment = "" }
split_at url (some halves) = record {
  scheme = "";
  netloc = "";
  path = halves.0;
  query = halves.1;
  fragment = "";
}

abbrev toy_urls : Urllib
toy_urls = record {
  urlsplit = λ url. some (split_at url (partition b'?' url));
  urlunsplit = λ parts. with_mark parts.path parts.query;
  parse_qsl = λ keep query.
      if keep
      then paired (unmarked false query)
      else keep_if (λ pair. not (pair.1 == "")) (paired (unmarked false query));
  urlencode = encode;
}

-- The path of an address holds no question mark.
path_kept :
    (url query : String)
    → partition b'?' (with_mark (split_at url (partition b'?' url)).path query)
      ≡ some ((split_at url (partition b'?' url)).path, query)
unfolding partition
path_kept String.[] query = refl
path_kept (String.◌∷◌ c url) query = elim (Bool-cases (nat_eq (code c) b'?')) [
  | inl e ↦ rw e refl
  | inr e ↦ elim (Option-cases (partition b'?' url)) [
    | inl n ↦
        let kept : partition b'?' (with_mark url query) ≡ some (url, query) =
          rw n at (path_kept url query) in
        rw (e, n, kept, e) refl
    | inr (halves, n) ↦
        let kept : partition b'?' (with_mark halves.0 query) ≡ some (halves.0, query) =
          rw n at (path_kept url query) in
        rw (e, n, kept, e) refl
  ]
]

split-with_query :
    (url whole query : String) (o : Option (String × String))
    → split_at whole (some ((split_at url o).path, query)) ≡ with_query (split_at url o) query
split-with_query url whole query none = refl
split-with_query url whole query (some halves) = refl

read_back :
    (url query : String) (parts : SplitResult)
    → toy_urls.urlsplit url ≡ some parts
    → toy_urls.urlsplit (toy_urls.urlunsplit (with_query parts query))
      ≡ some (with_query parts query)
read_back url query parts same =
    let whole = with_mark (split_at url (partition b'?' url)).path query in
    let e : split_at url (partition b'?' url) ≡ parts =
      ap (λ o. elim o [ none ↦ parts | some split ↦ split ]) same in
    subst
      (λ p.
        toy_urls.urlsplit (toy_urls.urlunsplit (with_query p query)) ≡ some (with_query p query))
      e
      (ap (λ o. some (split_at whole o)) (path_kept url query)
        ∙ ap (λ p. some p) (split-with_query url whole query (partition b'?' url)))

toy_urls-ReadsBack : ReadsBack toy_urls
toy_urls-ReadsBack = record {
  fields = paired-encode;
  address = λ url parts pairs same. read_back url (encode pairs) parts same;
}

location_run :
    (authorize_response toy_urls {R = Unit {0}} toy decode empty.clients 7 authorize_kw 100
      (draw "c")
      empty.store).0
    ≡ returns
        (record { status = 302; location = "https://app/cb?.c.o.d.e;.s.o.t._.c;.s.t.a.t.e;.x;" })
unfolding authorize_response lookup partition
location_run = refl

authorize_response-IsRedirection_example :
    IsRedirection toy_urls toy decode empty.clients 7 authorize_kw 100 (draw "c") empty.store (
      authorize_response toy_urls {R = Unit {0}} toy decode empty.clients 7 authorize_kw 100
        (draw "c")
        empty.store)
authorize_response-IsRedirection_example =
    authorize_response-IsRedirection toy_urls toy decode empty.clients 7 authorize_kw 100 (draw "c")
      empty.store toy_urls-ReadsBack (Unit {0})
