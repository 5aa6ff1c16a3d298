-- ===== src/Context/Numerals.antt =====
-- Python's `int`, of a number that is printed in decimal (Context, `parse_int`).
use Prim.Native.Char.{code}
use Prim.Native.Nat.{◌*◌, ◌/◌, ◌%◌}
use Prim.Native.String.{◌++◌ as append}
use mathlib.Core.Option as OptionM
use ssi_rest_api.Context.{parse_int, parse_signed, parse_digits}
use ssi_rest_api.Prelude.{
  ℕ, zero, suc, ◌+◌, ◌-◌, ◌<◌, String, ◌≡◌, refl, ap, ◌∙◌, Bool, true, false, Option, none, some,
  ltb, nat_eq, Bool-cases, inl, inr, arith, if◌then◌else◌,
}
use ssi_rest_api.Prelude.Decimal.{
  nil-append, cons-append, all_chars, all_chars-show, is_digit_code, digit, digit-code, show,
  show_within, strip-solid,
}
use ssi_rest_api.Prelude.Int.{pos}
use ssi_rest_api.Prelude.Text.{is_space, strip}

-- Python's `int` reads the digits of a text on from what it has read.
parse_digits-append :
    (after : Bool) (value : ℕ) (s t : String) (read : ℕ)
    → parse_digits after value s ≡ some read
    → parse_digits after value (append s t) ≡ parse_digits true read t
unfolding parse_digits
parse_digits-append true value String.[] t read h =
    let same : value ≡ read = cc in rw (nil-append t, same)
parse_digits-append false value String.[] t read h = cc
parse_digits-append after value (String.◌∷◌ c s) t read h = rw (cons-append c s t) (
    ground (
      arith,
      parse_digits-append (is_digit_code (code c))
          (if is_digit_code (code c) then value * 10 + (code c - 48) else value) s t read,
    ))

parse_digits-digit :
    (after : Bool) (value d : ℕ)
    → d < 10
    → parse_digits after value (digit d) ≡ some (value * 10 + d)
unfolding parse_digits
parse_digits-digit after value d h = ground (arith, digit-code d h)

parse_digits-show_within :
    (rounds n : ℕ) → n < rounds → parse_digits false 0 (show_within rounds n) ≡ some n
unfolding show_within
parse_digits-show_within zero n h = absurd (omega arith)
parse_digits-show_within (suc rounds) n h = elim (Bool-cases (ltb n 10)) [
  | inl small ↦
      rw small (parse_digits-digit false 0 n (ground arith) ∙ ap Option.some (omega arith))
  | inr large ↦ rw large (
      parse_digits-append false 0 (show_within rounds (n / 10)) (digit (n % 10)) (n / 10)
        (parse_digits-show_within rounds (n / 10) (ground arith))
      ∙ parse_digits-digit true (n / 10) (n % 10) (omega arith)
      ∙ ap Option.some (omega arith))
]

digit-solid : (c : ℕ) → is_digit_code c ≡ true → is_space c ≡ false
digit-solid c h = ground arith

pub strip-show : (n : ℕ) → strip (show n) ≡ show n
strip-show n = strip-solid is_digit_code digit-solid (show n) (all_chars-show n)

-- `int(str(n))`
pub parse_int-show : (n : ℕ) → parse_int (show n) ≡ some (pos n)
unfolding parse_int show
parse_int-show n =
    signed (show_within (suc n) n) (all_chars-show n) (strip-show n)
      (parse_digits-show_within (suc n) n (omega arith))
  where
    signed :
        (s : String)
        → all_chars is_digit_code s ≡ true
        → strip s ≡ s
        → parse_digits false 0 s ≡ some n
        → parse_signed (strip s) ≡ some (pos n)
    signed String.[] digits stripped read = cc
    signed (String.◌∷◌ c s) digits stripped read =
        let minus : nat_eq (code c) b'-' ≡ false = ground arith in
        let plus : nat_eq (code c) b'+' ≡ false = ground arith in
        rw (stripped, minus, plus) (ap (OptionM.map pos) read)

pub parse_int-empty : parse_int "" ≡ none
unfolding parse_int
parse_int-empty = refl
