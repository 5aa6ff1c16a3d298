-- ===== src/Prelude/Decimal.antt =====
-- Numbers in decimal digits, as Python prints them, and texts of which every character passes a test.
use Prim.Native.Char.{code}
use Prim.Native.Nat.{ℕ, zero, suc, ◌+◌, ◌/◌, ◌%◌, ◌<◌}
use Prim.Native.String.{String, char_at, ◌++◌ as append}
use mathlib.Core.Path.{◌≡◌, refl}
use mathlib.Core.Logic.{inl, inr}
use mathlib.Core.Bool.{Bool, true, false, ◌&&◌}
use native.Mathlib.Omega.{arith}
pub use text.Mathlib.TextLemmas.{nil-append, cons-append}
use ssi_rest_api.Prelude.Tests.{leb, ltb, if◌then◌else◌, Bool-cases}
use ssi_rest_api.Prelude.Text.{is_space, lstrip, rstrip, strip}

abbrev pub all_chars : (ℕ → Bool) → String → Bool
all_chars p String.[] = true
all_chars p (String.◌∷◌ c s) = p (code c) && all_chars p s

abbrev pub is_digit_code : ℕ → Bool
is_digit_code c = leb 48 c && leb c 57

abbrev pub digit : ℕ → String
digit d = String.◌∷◌ (char_at "0123456789" d) ""

-- The digits of a number, with as many rounds as it needs.
unfoldable pub show_within : ℕ → ℕ → String
show_within zero n = ""
show_within (suc rounds) n =
    let rest = show_within rounds (n / 10) in
    if ltb n 10 then digit n else append rest (digit (n % 10))

-- `str(n)`
unfoldable pub show : ℕ → String
unfolding show_within
show n = show_within (suc n) n

pub digit-code : (d : ℕ) → d < 10 → code (char_at "0123456789" d) ≡ 48 + d
digit-code zero h = refl
digit-code (suc zero) h = refl
digit-code (suc (suc zero)) h = refl
digit-code (suc (suc (suc zero))) h = refl
digit-code (suc (suc (suc (suc zero)))) h = refl
digit-code (suc (suc (suc (suc (suc zero))))) h = refl
digit-code (suc (suc (suc (suc (suc (suc zero)))))) h = refl
digit-code (suc (suc (suc (suc (suc (suc (suc zero))))))) h = refl
digit-code (suc (suc (suc (suc (suc (suc (suc (suc zero)))))))) h = refl
digit-code (suc (suc (suc (suc (suc (suc (suc (suc (suc zero))))))))) h = refl
digit-code (suc (suc (suc (suc (suc (suc (suc (suc (suc (suc n)))))))))) h = absurd (omega arith)

pub all_chars-append :
    (p : ℕ → Bool) (s t : String)
    → all_chars p s ≡ true
    → all_chars p t ≡ true
    → all_chars p (append s t) ≡ true
all_chars-append p String.[] t h k = rw (nil-append t) k
all_chars-append p (String.◌∷◌ c s) t h k =
    rw (cons-append c s t) (ground (arith, all_chars-append p s t))

pub all_chars_mono :
    (p q : ℕ → Bool) (weaker : (c : ℕ) → p c ≡ true → q c ≡ true) (s : String)
    → all_chars p s ≡ true
    → all_chars q s ≡ true
all_chars_mono p q weaker String.[] h = refl
all_chars_mono p q weaker (String.◌∷◌ c s) h =
    ground (arith, weaker (code c), all_chars_mono p q weaker s)

all_chars-digit : (d : ℕ) → d < 10 → all_chars is_digit_code (digit d) ≡ true
all_chars-digit d h = ground (arith, digit-code d)

all_chars-show_within : (rounds n : ℕ) → all_chars is_digit_code (show_within rounds n) ≡ true
unfolding show_within
all_chars-show_within zero n = refl
all_chars-show_within (suc rounds) n = elim (Bool-cases (ltb n 10)) [
  | inl small ↦ rw small (all_chars-digit n (ground arith))
  | inr large ↦ rw large (
      all_chars-append is_digit_code (show_within rounds (n / 10)) (digit (n % 10))
        (all_chars-show_within rounds (n / 10)) (all_chars-digit (n % 10) (omega arith)))
]

pub all_chars-show : (n : ℕ) → all_chars is_digit_code (show n) ≡ true
unfolding show
all_chars-show n = all_chars-show_within (suc n) n

-- `strip` leaves a text without white space alone.
module _ (p : ℕ → Bool) (solid : (c : ℕ) → p c ≡ true → is_space c ≡ false) where
  rstrip-solid : (s : String) → all_chars p s ≡ true → rstrip s ≡ s
  unfolding rstrip
  rstrip-solid String.[] h = refl
  rstrip-solid (String.◌∷◌ c s) h =
      let here : is_space (code c) ≡ false = solid (code c) (ground arith) in
      rw (rstrip-solid s (ground arith), here) refl

  pub strip-solid : (s : String) → all_chars p s ≡ true → strip s ≡ s
  unfolding strip lstrip
  strip-solid String.[] h = refl
  strip-solid (String.◌∷◌ c s) h =
      let here : is_space (code c) ≡ false = solid (code c) (ground arith) in
      rw here (rstrip-solid (String.◌∷◌ c s) h)
