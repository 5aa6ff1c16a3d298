-- ===== src/Orm/Ids.antt =====
-- The ids of records in the query of a request (_helpers.py, `parse_ids`): printed in decimal and joined by
-- commas, they are read back.
use Prim.Native.Char.{code}
use Prim.Native.String.{◌++◌ as append}
use ssi_rest_api.Orm.{text, Odoo}
use ssi_rest_api.Orm.Params.{
  parse_ids, ids_of_text, ints_of_texts, int_of_text, int_or, is_list_text,
}
use ssi_rest_api.Context.Numerals.{strip-show, parse_int-show, parse_int-empty}
use ssi_rest_api.Context.{parse_int}
use ssi_rest_api.Auth.{join_with}
use ssi_rest_api.Prelude.{
  ℕ, String, ◌≡◌, refl, sym, ap, ◌∙◌, Bool, true, false, ◌||◌, not, List, [], ◌∷◌, map, All, ◌==◌,
  nat_eq, eq-false_of_ne, arith,
}
use ssi_rest_api.Prelude.Decimal.{
  nil-append, cons-append, all_chars, all_chars-append, all_chars_mono, all_chars-show,
  is_digit_code, show, strip-solid,
}
use ssi_rest_api.Prelude.Int.{pos}
use ssi_rest_api.Prelude.Text.{split, strip_prefix}
use ssi_rest_api.Dispatcher.Arguments.{returns}

show-ne-empty : (n : ℕ) → (show n == "") ≡ false
show-ne-empty n =
    eq-false_of_ne (show n) ""
      (λ empty. let shown = sym (parse_int-show n) ∙ ap parse_int empty ∙ parse_int-empty in cc)

int_of_text-show : {R : Type 0} (n : ℕ) → int_of_text {R = R} (show n) ≡ returns (pos n)
unfolding int_of_text
int_of_text-show n = ap (int_or "ValueError") (parse_int-show n)

-- `[int(item) for item in items if item.strip()]` of printed numbers
ints_of_texts-show :
    {R : Type 0} (ids : List ℕ) → ints_of_texts {R = R} (map show ids) ≡ returns (map pos ids)
unfolding ints_of_texts
ints_of_texts-show [] = refl
ints_of_texts-show {R} (n ∷ ids) =
    rw (strip-show n, show-ne-empty n, int_of_text-show {R = R} n, ints_of_texts-show {R = R} ids)
      refl

-- Splitting at commas undoes joining by them.
abbrev is_no_comma : ℕ → Bool
is_no_comma c = not (nat_eq c b',')

split_one : (s : String) → all_chars is_no_comma s ≡ true → split b',' s ≡ s ∷ []
unfolding split
split_one String.[] h = refl
split_one (String.◌∷◌ c s) h =
    let other : nat_eq (code c) b',' ≡ false = ground arith in
    rw (other, split_one s (ground arith)) refl

split-append :
    (s rest : String)
    → all_chars is_no_comma s ≡ true
    → split b',' (append s (append "," rest)) ≡ s ∷ split b',' rest
unfolding split
split-append String.[] rest h =
    rw (nil-append (append "," rest), cons-append "," "" rest, nil-append rest) refl
split-append (String.◌∷◌ c s) rest h =
    let other : nat_eq (code c) b',' ≡ false = ground arith in
    rw (cons-append c s (append "," rest), other, split-append s rest (ground arith)) refl

split-join_with :
    (s : String) (text_items : List String)
    → all_chars is_no_comma s ≡ true
    → All (λ t. all_chars is_no_comma t ≡ true) text_items
    → split b',' (join_with "," (s ∷ text_items)) ≡ s ∷ text_items
unfolding join_with
split-join_with s [] h hs = split_one s h
split-join_with s (t ∷ text_items) h (k, ks) =
    split-append s (join_with "," (t ∷ text_items)) h
    ∙ ap (λ l. s ∷ l) (split-join_with t text_items k ks)

-- The ids as a query spells them.
abbrev pub id_list : List ℕ → String
id_list ids = join_with "," (map show ids)

abbrev is_id_list_char : ℕ → Bool
is_id_list_char c = is_digit_code c || nat_eq c b','

show-no_comma : (n : ℕ) → all_chars is_no_comma (show n) ≡ true
show-no_comma n =
    all_chars_mono is_digit_code is_no_comma (λ c h. ground arith) (show n) (all_chars-show n)

all_chars-id_list : (ids : List ℕ) → all_chars is_id_list_char (id_list ids) ≡ true
unfolding join_with
all_chars-id_list [] = refl
all_chars-id_list (n ∷ []) =
    all_chars_mono is_digit_code is_id_list_char (λ c h. ground arith) (show n) (all_chars-show n)
all_chars-id_list (n ∷ m ∷ ids) =
    all_chars-append is_id_list_char (show n) (append "," (id_list (m ∷ ids)))
      (all_chars_mono is_digit_code is_id_list_char (λ c h. ground arith) (show n)
        (all_chars-show n))
      (all_chars-append is_id_list_char "," (id_list (m ∷ ids)) refl (all_chars-id_list (m ∷ ids)))

is_list_text-id_list_char :
    (s : String) → all_chars is_id_list_char s ≡ true → is_list_text s ≡ false
unfolding strip_prefix
is_list_text-id_list_char String.[] h = refl
is_list_text-id_list_char (String.◌∷◌ c s) h =
    let other : nat_eq b'[' (code c) ≡ false = ground arith in rw (other, is_list_text) refl

split-id_list : (n : ℕ) (ids : List ℕ) → split b',' (id_list (n ∷ ids)) ≡ show n ∷ map show ids
split-id_list n ids = split-join_with (show n) (map show ids) (show-no_comma n) (others ids)
  where
    others : (ms : List ℕ) → All (λ t. all_chars is_no_comma t ≡ true) (map show ms)
    others [] = tt
    others (m ∷ ms) = (show-no_comma m, others ms)

id_list-ne-empty : (n : ℕ) (ids : List ℕ) → (id_list (n ∷ ids) == "") ≡ false
unfolding split
id_list-ne-empty n ids = eq-false_of_ne (id_list (n ∷ ids)) "" (λ empty.
    let parts : show n ∷ map show ids ≡ "" ∷ [] =
      sym (split-id_list n ids) ∙ ap (split b',') empty in
    let first : show n ≡ "" = cc in
    let shown = sym (parse_int-show n) ∙ ap parse_int first ∙ parse_int-empty in cc)

module _ {D Raw M W R : Type 0} (odoo : Odoo D Raw M W R) where
  ids_of_text-id_list :
      (n : ℕ) (ids : List ℕ) → ids_of_text odoo (id_list (n ∷ ids)) ≡ returns (map pos (n ∷ ids))
  unfolding ids_of_text
  ids_of_text-id_list n ids =
      rw
        (
          is_list_text-id_list_char (id_list (n ∷ ids)) (all_chars-id_list (n ∷ ids)),
          split-id_list n ids,
        )
        (ints_of_texts-show (n ∷ ids))

  -- The ids of records, printed in decimal and joined by commas, are read back by parse_ids.
  pub parse_ids-id_list :
      (ids : List ℕ) → parse_ids odoo (text (id_list ids)) ≡ returns (map pos ids)
  unfolding parse_ids join_with
  parse_ids-id_list [] = refl
  parse_ids-id_list (n ∷ ids) =
      rw
        (
          id_list-ne-empty n ids,
          strip-solid is_id_list_char (λ c h. ground arith) (id_list (n ∷ ids))
              (all_chars-id_list (n ∷ ids)),
        )
        (ids_of_text-id_list n ids)
