-- ===== src/Prelude/Text.antt =====
-- Methods of Python's `str` that the repository calls, on native texts.
use Prim.Native.Nat.{ℕ, suc, ◌-◌, ◌≤◌}
use native.Mathlib.Omega.{arith}
use Prim.Native.Char.{Char, code}
use Prim.Native.String.{String, char_at}
use mathlib.Core.Path.{◌≡◌, refl}
use mathlib.Core.Bool.{Bool, true, ◌&&◌, ◌||◌}
use mathlib.Core.Option
use mathlib.Core.Option.{Option, none, some}
use mathlib.Core.List.{List, [], ◌∷◌}
use ssi_rest_api.Prelude.Tests.{leb, ltb, nat_eq, if◌then◌else◌}
use text.Mathlib.Text.{◌==◌}

-- The characters that `str.strip` drops.
abbrev pub is_space : ℕ → Bool
is_space n =
    leb 9 n && leb n 13
    || leb 28 n && leb n 32
    || nat_eq n 133
    || nat_eq n 160
    || nat_eq n 5760
    || leb 8192 n && leb n 8202
    || leb 8232 n && leb n 8233
    || nat_eq n 8239
    || nat_eq n 8287
    || nat_eq n 12288

unfoldable pub lstrip : String → String
lstrip String.[] = ""
lstrip (String.◌∷◌ c s) = if is_space (code c) then lstrip s else String.◌∷◌ c s

abbrev push_kept : Char → String → String
push_kept c s = if is_space (code c) && (s == "") then "" else String.◌∷◌ c s

unfoldable pub rstrip : String → String
rstrip String.[] = ""
rstrip (String.◌∷◌ c s) = push_kept c (rstrip s)

unfoldable pub strip : String → String
unfolding lstrip rstrip
strip s = rstrip (lstrip s)

abbrev push_head : Char → List String → List String
push_head c [] = String.◌∷◌ c "" ∷ []
push_head c (w ∷ ws) = String.◌∷◌ c w ∷ ws

-- `s.split(sep)` for a separator of one character, given by its code.
unfoldable pub split : ℕ → String → List String
split sep String.[] = "" ∷ []
split sep (String.◌∷◌ c s) =
    let words = split sep s in if nat_eq (code c) sep then "" ∷ words else push_head c words

-- `str.upper` on the ASCII letters, which are all that a HTTP method holds.
abbrev upper_char : Char → Char
upper_char c =
    if leb 97 (code c) && leb (code c) 122
    then char_at "ABCDEFGHIJKLMNOPQRSTUVWXYZ" (code c - 97)
    else c

unfoldable pub upper : String → String
upper String.[] = ""
upper (String.◌∷◌ c s) = String.◌∷◌ (upper_char c) (upper s)

-- `str.lower` on the ASCII letters, which are all that the keys it is compared with hold.
abbrev lower_char : Char → Char
lower_char c =
    if leb 65 (code c) && leb (code c) 90
    then char_at "abcdefghijklmnopqrstuvwxyz" (code c - 65)
    else c

unfoldable pub lower : String → String
lower String.[] = ""
lower (String.◌∷◌ c s) = String.◌∷◌ (lower_char c) (lower s)

-- `len(s)`
unfoldable pub text_length : String → ℕ
text_length String.[] = 0
text_length (String.◌∷◌ c s) = suc (text_length s)

-- `s[:n]`
unfoldable pub slice_to : ℕ → String → String
slice_to ℕ.zero s = ""
slice_to (ℕ.suc n) String.[] = ""
slice_to (ℕ.suc n) (String.◌∷◌ c s) = String.◌∷◌ c (slice_to n s)

-- `s.isascii()`
unfoldable pub is_ascii : String → Bool
is_ascii String.[] = true
is_ascii (String.◌∷◌ c s) = ltb (code c) 128 && is_ascii s

-- `s[len(prefix):]` where `s.startswith(prefix)`.
unfoldable pub strip_prefix : String → String → Option String
strip_prefix String.[] s = some s
strip_prefix (String.◌∷◌ c p) String.[] = none
strip_prefix (String.◌∷◌ c p) (String.◌∷◌ d s) =
    if nat_eq (code c) (code d) then strip_prefix p s else none

-- `first.partition(sep)` for a separator of one character: the text before it and after it.
unfoldable pub partition : ℕ → String → Option (String × String)
partition sep String.[] = none
partition sep (String.◌∷◌ c s) =
    if nat_eq (code c) sep
    then some ("", s)
    else Option.map (λ p. (String.◌∷◌ c p.0, p.1)) (partition sep s)

pub text_length-slice_to : (n : ℕ) (s : String) → text_length (slice_to n s) ≤ n
unfolding text_length slice_to
text_length-slice_to ℕ.zero s = omega arith
text_length-slice_to (ℕ.suc n) String.[] = omega arith
text_length-slice_to (ℕ.suc n) (String.◌∷◌ c s) = omega (arith, text_length-slice_to n s)

text_tests :
    (strip "  a b\n" ≡ "a b")
    × (split b',' "GET, post,," ≡ "GET" ∷ " post" ∷ "" ∷ "" ∷ [])
    × (upper "get-Ünit" ≡ "GET-ÜNIT")
    × (strip_prefix "Basic " "Basic abc" ≡ some "abc")
    × (partition b':' "ann:pw:x" ≡ some ("ann", "pw:x"))
unfolding strip split upper strip_prefix partition
text_tests = (refl, refl, refl, refl, refl)
