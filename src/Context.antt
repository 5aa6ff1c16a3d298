-- ===== src/Context.antt =====
-- ssi_rest_api/models/ir_http.py, `_ssi_rest_resolve_company` and `_ssi_rest_resolve_lang`: the company
-- and the language that a request runs in. The core's `res.lang._get_code` is an argument; a company is
-- its id. Of the texts that `int` accepts, those with digits outside ASCII are not modelled.
pub mod Company
pub mod Numerals
mod Tests
use Prim.Native.Char.{Char, code}
use Prim.Native.Nat.{◌*◌}
use mathlib.Core.Option
use ssi_rest_api.Prelude.{
  ℕ, suc, zero, ◌+◌, ◌-◌, String, Bool, true, false, ◌&&◌, ◌||◌, not, Option, none, some, List, [],
  ◌∷◌, ◌==◌, leb, nat_eq, any_of, if◌then◌else◌,
}
use ssi_rest_api.Prelude.Int.{ℤ, pos, negsuc}
use ssi_rest_api.Prelude.Text.{strip, split}
use ssi_rest_api.Errors.{Exception, rest_auth_error}
use ssi_rest_api.Dispatcher.Arguments.{Outcome, returns, raises}

pub record User : Type 0 where
  pub company_id : ℕ
  pub company_ids : List ℕ

-- The part of the context that the two methods write.
pub record Context : Type 0 where
  pub allowed_company_ids : Option (List ℕ)
  pub lang : Option String

abbrev is_digit : Char → Bool
is_digit c = leb 48 (code c) && leb (code c) 57

-- Digits with single underscores between them.
unfoldable pub parse_digits : (after_digit : Bool) (value : ℕ) → String → Option ℕ
parse_digits after_digit value String.[] = if after_digit then some value else none
parse_digits after_digit value (String.◌∷◌ c s) =
    let rest =
      parse_digits (is_digit c) (if is_digit c then value * 10 + (code c - 48) else value) s in
    if is_digit c || nat_eq (code c) b'_' && after_digit then rest else none

abbrev negate : ℕ → ℤ
negate ℕ.zero = pos 0
negate (ℕ.suc n) = negsuc n

unfoldable pub parse_signed : String → Option ℤ
unfolding parse_digits
parse_signed String.[] = none
parse_signed (String.◌∷◌ c s) =
    if nat_eq (code c) b'-'
    then Option.map negate (parse_digits false 0 s)
    else Option.map pos (parse_digits false 0 (if nat_eq (code c) b'+' then s else String.◌∷◌ c s))

-- `int(text)`, `none` where it raises `ValueError`.
unfoldable pub parse_int : String → Option ℤ
unfolding parse_signed strip
parse_int text = parse_signed (strip text)

-- `res.company.browse(n)`, among existing records.
abbrev pub is_id : ℤ → ℕ → Bool
is_id (pos n) id = nat_eq n id
is_id (negsuc n) id = false

abbrev pub to_id : ℤ → ℕ
to_id (pos n) = n
to_id (negsuc n) = 0

abbrev pub first_given : Option String → Option String → Option String
first_given none query = query
first_given (some header) query = some header

unfoldable pub checked_company : {R : Type 0} → Option ℤ → User → List ℕ → Outcome R ℕ
checked_company none user companies =
    raises
      (rest_auth_error "validation_error" "X-Odoo-Company must be an integer company id." 422 [])
checked_company (some n) user companies =
    if not (any_of (is_id n) companies)
    then raises (
        rest_auth_error "validation_error" "X-Odoo-Company does not reference an existing company."
          422 [])
    else if not (any_of (is_id n) user.company_ids)
    then raises
        (rest_auth_error "access_denied" "You are not allowed to access this company." 403 [])
    else returns (to_id n)

unfoldable pub requested_company : {R : Type 0} → Option String → User → List ℕ → Outcome R ℕ
unfolding checked_company parse_int
requested_company none user companies = returns user.company_id
requested_company (some raw) user companies = checked_company (parse_int raw) user companies

abbrev pub set_company : {R : Type 0} → Outcome R ℕ → Context → Outcome R (Unit {0}) × Context
set_company (raises e) ctx = (raises e, ctx)
set_company (returns company) ctx =
    (returns tt, record ctx { allowed_company_ids = some (company ∷ []) })

-- `companies` are the ids of the existing companies; the header wins over the query.
unfoldable pub resolve_company :
    {R : Type 0}
    → Option String
    → Option String
    → User
    → List ℕ
    → Context
    → Outcome R (Unit {0}) × Context
unfolding requested_company
resolve_company header query user companies ctx =
    set_company (requested_company (first_given header query) user companies) ctx

abbrev head_or_empty : List String → String
head_or_empty [] = ""
head_or_empty (s ∷ ss) = s

-- `text.replace("-", "_")`
underscored : String → String
underscored String.[] = ""
underscored (String.◌∷◌ c s) = String.◌∷◌ (if nat_eq (code c) b'-' then "_" else c) (underscored s)

unfoldable pub language_code : String → String
unfolding split strip underscored
language_code header =
    underscored (strip (head_or_empty (split b';' (head_or_empty (split b',' header)))))

abbrev set_lang : Option String → Context → Context
set_lang none ctx = ctx
set_lang (some found) ctx = record ctx { lang = some found }

-- `get_code` is `res.lang._get_code`, `none` for a language that is not active.
unfoldable pub resolve_lang : (String → Option String) → Option String → Context → Context
unfolding language_code
resolve_lang get_code none ctx = ctx
resolve_lang get_code (some header) ctx =
    if language_code header == "" then ctx else set_lang (get_code (language_code header)) ctx
