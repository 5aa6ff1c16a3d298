-- ===== src/AccessProfile/Glob.antt =====
-- Python's `fnmatch.fnmatchcase`, which ssi_rest_access_profile_rule.py calls, as its documentation
-- defines it: `*`, `?`, `[seq]` with ranges, `[!seq]`, and a `[` without its `]` taken literally.
use Prim.Native.Char.{code}
use Prim.Native.String.{String}
use mathlib.Core.Option
use ssi_rest_api.Prelude.{
  ℕ, zero, suc, ◌≡◌, refl, Bool, true, false, not, ◌&&◌, ◌||◌, Option, none, some, List, [], ◌∷◌,
  ◌++◌, leb, nat_eq, any_of, if◌then◌else◌,
}

-- A member of a class: one character, or a range with its ends.
pub data Item : Type 0 where
  single : ℕ → Item
  range : ℕ → ℕ → Item

pub data Token : Type 0 where
  star any : Token
  lit : ℕ → Token
  one_of : (negated : Bool) → List Item → Token

-- What the walk through a class has read and not yet emitted.
pub data Pending : Type 0 where
  empty : Pending
  char : ℕ → Pending
  dash : ℕ → Pending

-- A `-` between two characters makes a range; at either end of the class it is a member.
feed : Pending → ℕ → List Item × Pending
feed empty d = ([], char d)
feed (char c) d = if nat_eq d b'-' then ([], dash c) else (single c ∷ [], char d)
feed (dash c) d = (range c d ∷ [], empty)

flush : Pending → List Item
flush empty = []
flush (char c) = single c ∷ []
flush (dash c) = single c ∷ single b'-' ∷ []

items : Pending → ℕ → String → List Item
items p zero s = flush p
items p (suc n) String.[] = flush p
items p (suc n) (String.◌∷◌ c s) = let (out, p') = feed p (code c) in out ++ items p' n s

-- How many characters stand before the first `]`.
find_close : String → Option ℕ
find_close String.[] = none
find_close (String.◌∷◌ c s) = if nat_eq (code c) b']' then some 0 else Option.map suc (find_close s)

-- A `]` directly after the `[` or the `[!` is a member of the class.
after_first : String → Option ℕ
after_first String.[] = none
after_first (String.◌∷◌ c s) = Option.map suc (find_close s)

-- The token of a class whose text begins at `s`, and how many characters it takes after the `[`.
close_class : Bool → String → Option ℕ → Token × ℕ
close_class negated s none = (lit b'[', 0)
close_class true s (some n) = (one_of true (items empty n s), suc (suc n))
close_class false s (some n) = (one_of false (items empty n s), suc n)

class_at : String → Token × ℕ
class_at String.[] = (lit b'[', 0)
class_at (String.◌∷◌ c s) =
    if nat_eq (code c) b'!'
    then close_class true s (after_first s)
    else close_class false (String.◌∷◌ c s) (after_first (String.◌∷◌ c s))

token_at : ℕ → String → Token × ℕ
token_at c s =
    if nat_eq c b'*'
    then (star, 0)
    else if nat_eq c b'?'
    then (any, 0)
    else if nat_eq c b'['
    then class_at s
    else (lit c, 0)

-- The tokens of a pattern, after as many characters as the last class has taken.
unfoldable pub tokens : ℕ → String → List Token
unfolding token_at class_at close_class after_first find_close items flush feed
tokens n String.[] = []
tokens (suc n) (String.◌∷◌ c s) = tokens n s
tokens zero (String.◌∷◌ c s) = let (t, n) = token_at (code c) s in t ∷ tokens n s

in_item : ℕ → Item → Bool
in_item c (single d) = nat_eq c d
in_item c (range lo hi) = leb lo c && leb c hi

unfoldable pub accepts : Token → ℕ → Bool
unfolding in_item
accepts star c = false
accepts any c = true
accepts (lit d) c = nat_eq c d
accepts (one_of true is) c = not (any_of (in_item c) is)
accepts (one_of false is) c = any_of (in_item c) is

unfoldable pub match_tokens : List Token → String → Bool
unfolding accepts
match_tokens [] String.[] = true
match_tokens [] (String.◌∷◌ c s) = false
match_tokens (star ∷ ts) String.[] = match_tokens ts String.[]
match_tokens (star ∷ ts) (String.◌∷◌ c s) =
    match_tokens ts (String.◌∷◌ c s) || match_tokens (star ∷ ts) s
match_tokens (t ∷ ts) String.[] = false
match_tokens (t ∷ ts) (String.◌∷◌ c s) = accepts t (code c) && match_tokens ts s

-- `fnmatch.fnmatchcase(name, pattern)`.
unfoldable pub fnmatchcase : String → String → Bool
unfolding tokens match_tokens
fnmatchcase name pattern_text = match_tokens (tokens 0 pattern_text) name

glob_tests :
    (fnmatchcase "/api/v1/orm/res.partner" "/api/v1/orm/*" ≡ true)
    × (fnmatchcase "/api/v1/ping" "/api/v1/orm/*" ≡ false)
    × (fnmatchcase "v2" "v[!13-9]" ≡ true)
    × (fnmatchcase "v4" "v[!13-9]" ≡ false)
    × (fnmatchcase "a]b" "a[]]?" ≡ true)
    × (fnmatchcase "a[b" "a[b" ≡ true)
    × (fnmatchcase "-" "[a-]" ≡ true)
    × (fnmatchcase "x" "[!]" ≡ false)
unfolding fnmatchcase
glob_tests = (refl, refl, refl, refl, refl, refl, refl, refl)
