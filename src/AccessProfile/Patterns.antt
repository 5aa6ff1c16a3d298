-- ===== src/AccessProfile/Patterns.antt =====
-- What a `path_pattern` of the form "/some/prefix*" of ssi_rest_access_profile_rule.py covers.
use Prim.Native.Char.{code}
use Prim.Native.String.{◌++◌ as append}
use text.Mathlib.TextEquality.{Char-path}
use text.Mathlib.TextLemmas.{nil-append, cons-append}
use ssi_rest_api.Prelude.{
  zero, String, ◌≡◌, ◌≢◌, refl, sym, ◌↔◌, Bool, true, false, not, ◌&&◌, none, some, List, [], ◌∷◌,
  arith, nat_eq, nat_eq_iff, nat_eq_refl, if◌then◌else◌, eq-false_of_ne,
}
use ssi_rest_api.AccessProfile.Glob.{Token, star, lit, tokens, match_tokens, fnmatchcase}
use ssi_rest_api.AccessProfile.{
  Rule, Request, Operation, filled, path_matched, method_matched, model_matched, operation_matched,
  matches_request,
}

-- No `*`, `?` or `[`.
abbrev pub IsPlain : String → Type 0
IsPlain String.[] = Unit
IsPlain (String.◌∷◌ c s) = (code c ≢ b'*') × (code c ≢ b'?') × (code c ≢ b'[') × IsPlain s

abbrev pub HasPrefix : String → String → Type 0
HasPrefix prefix path = (rest : String) × (path ≡ append prefix rest)

abbrev lits : String → List Token
lits String.[] = star ∷ []
lits (String.◌∷◌ c s) = lit (code c) ∷ lits s

tokens-lits : (p : String) → IsPlain p → tokens zero (append p "*") ≡ lits p
unfolding tokens
tokens-lits String.[] h = refl
tokens-lits (String.◌∷◌ c s) (a, b, d, h) = rw cons-append (ground (arith, tokens-lits s h))

match_tokens-star : (s : String) → match_tokens (star ∷ []) s ≡ true
unfolding match_tokens
match_tokens-star String.[] = refl
match_tokens-star (String.◌∷◌ c s) = match_tokens-star s

and-true : (a b : Bool) → (a && b) ≡ true → (a ≡ true) × (b ≡ true)
and-true a b h = ground arith

match_tokens-lits : (p s : String) → match_tokens (lits p) s ≡ true → HasPrefix p s
unfolding match_tokens
match_tokens-lits String.[] s h = (s, sym (nil-append s))
match_tokens-lits (String.◌∷◌ c p) String.[] h = cc
match_tokens-lits (String.◌∷◌ c p) (String.◌∷◌ d s) h =
    let (same, more) = and-true (nat_eq (code d) (code c)) _ h in
    let (rest, e) = match_tokens-lits p s more in
    (rest, cc (Char-path d c ((nat_eq_iff (code d) (code c)).0 same), e, cons-append c p rest))

match_tokens-append : (p t : String) → match_tokens (lits p) (append p t) ≡ true
unfolding match_tokens
match_tokens-append String.[] t = match_tokens-star (append "" t)
match_tokens-append (String.◌∷◌ c p) t = rw cons-append (rw nat_eq_refl (match_tokens-append p t))

prefix_pattern_iff :
    (prefix path : String)
    → IsPlain prefix
    → (fnmatchcase path (append prefix "*") ≡ true) ↔ HasPrefix prefix path
unfolding fnmatchcase
prefix_pattern_iff prefix path h = (
  λ m. match_tokens-lits prefix path (rw (tokens-lits prefix h) at m),
  λ (rest, e). rw (tokens-lits prefix h) (rw e (match_tokens-append prefix rest)),
)

filled-append_star : (p : String) → filled (some (append p "*")) ≡ some (append p "*")
filled-append_star String.[] = refl
filled-append_star (String.◌∷◌ c p) =
    rw cons-append (rw (eq-false_of_ne (String.◌∷◌ c (append p "*")) "" (λ e. cc)))

-- A rule that has only a path pattern: no methods, no model and any operation.
abbrev pub IsPathRule : Rule → Type 0
IsPathRule r =
    (filled r.http_methods ≡ none) × (filled r.model_pattern ≡ none) × (r.operation ≡ Operation.any)

matches_request-IsPathRule :
    (r : Rule) (q : Request) (pat : String)
    → filled r.path_pattern ≡ some pat
    → IsPathRule r
    → matches_request r q
      ≡ (if r.invert then not (fnmatchcase q.path pat) else fnmatchcase q.path pat)
unfolding matches_request path_matched method_matched model_matched operation_matched
matches_request-IsPathRule r q pat e (m, n, o) = ground arith

-- A rule whose path pattern is a prefix without *, ? and [ followed by *, and which restricts
-- nothing else, matches exactly the requests whose path starts with the prefix; inverted, exactly
-- the others.
pub prefix_rule_iff :
    (r : Rule) (q : Request) (prefix : String)
    → IsPlain prefix
    → r.path_pattern ≡ some (append prefix "*")
    → IsPathRule r
    → (r.invert ≡ false → (matches_request r q ≡ true) ↔ HasPrefix prefix q.path)
      × (r.invert ≡ true → (matches_request r q ≡ true) ↔ (¬ HasPrefix prefix q.path))
prefix_rule_iff r q prefix h e rule =
    let (to, from) = prefix_pattern_iff prefix q.path h in
    let evaluated =
      matches_request-IsPathRule r q (append prefix "*") (rw e (filled-append_star prefix)) rule in
    (
      λ plain. rw evaluated (rw plain (to, from)),
      λ inverted.
          rw evaluated (rw inverted (λ m p. ground (arith, from p), λ n. ground (arith, n))),
    )
