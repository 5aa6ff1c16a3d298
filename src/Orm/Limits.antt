-- ===== src/Orm/Limits.antt =====
-- The page that a request asks for (_helpers.py, `paginate`).
use ssi_rest_api.Orm.{Param, null, boolean, integer, float, text, array, object, Odoo, ◌>>=◌}
use ssi_rest_api.Orm.Params.{
  paginate, page_size_param, resolved_limit, resolved_offset, int_of_value, min_ℤ,
}
use ssi_rest_api.Prelude.{ℕ, ◌≡◌, refl, ◌∙◌, ◌⊎◌, inl, inr, true, Bool-cases, ◌<◌, ◌≤◌, arith}
use ssi_rest_api.Prelude.Int.{ℤ, pos, leb_ℤ, leb_ℤ-refl, leb_ℤ_total}
use ssi_rest_api.Dispatcher.Arguments.{Outcome, returns, raises}
use mathlib.Core.Path.{subst}

pub returned_same :
    {R A : Type 0} {m : Outcome R A} (a b : A) → m ≡ returns a → m ≡ returns b → a ≡ b
returned_same a b h k = cc

module _ {R A B : Type 0} where
  -- What an answer of two calls, one after the other, says of each.
  pub >>=-returns :
      (m : Outcome R A) (f : A → Outcome R B) (b : B)
      → (m >>= f) ≡ returns b
      → (a : A) × (m ≡ returns a) × (f a ≡ returns b)
  >>=-returns (returns a) f b e = (a, refl, e)
  >>=-returns (raises x) f b e = cc

min_ℤ_bounds :
    (a b : ℤ)
    → (leb_ℤ (min_ℤ a b) a ≡ true)
      × (leb_ℤ (min_ℤ a b) b ≡ true)
      × ((min_ℤ a b ≡ a) ⊎ (min_ℤ a b ≡ b))
min_ℤ_bounds a b = elim (Bool-cases (leb_ℤ a b)) [
  | inl le ↦ rw le (leb_ℤ-refl a, le, inl refl)
  | inr gt ↦ rw gt (leb_ℤ_total a b gt, leb_ℤ-refl b, inr refl)
]

-- The number of records that is asked for: the default for a request without a limit, and otherwise
-- the smaller one of the request's and the greatest that is allowed.
abbrev pub IsLimit : {D : Type 0} (R : Type 0) → Param D → (default greatest limit : ℤ) → Type 0
IsLimit R null default greatest limit = limit ≡ default
IsLimit R v default greatest limit =
    (n : ℤ) × (int_of_value {R = R} v ≡ returns n)
    × (leb_ℤ limit n ≡ true)
    × (leb_ℤ limit greatest ≡ true)
    × ((limit ≡ n) ⊎ (limit ≡ greatest))

module _ {D R : Type 0} where
  smaller-IsLimit :
      (v : Param D) (d m l : ℤ)
      → (int_of_value {R = R} v >>= λ n. returns (min_ℤ n m)) ≡ returns l
      → (n : ℤ) × (int_of_value {R = R} v ≡ returns n)
        × (leb_ℤ l n ≡ true)
        × (leb_ℤ l m ≡ true)
        × ((l ≡ n) ⊎ (l ≡ m))
  smaller-IsLimit v d m l e =
      let (n, read, same) = >>=-returns (int_of_value {R = R} v) (λ k. returns (min_ℤ k m)) l e in
      let eq : min_ℤ n m ≡ l = cc in
      let (below_n, below_m, one) = min_ℤ_bounds n m in
      (
        n,
        read,
        subst (λ x. leb_ℤ x n ≡ true) eq below_n,
        subst (λ x. leb_ℤ x m ≡ true) eq below_m,
        subst (λ x. (x ≡ n) ⊎ (x ≡ m)) eq one,
      )

  resolved_limit-IsLimit :
      (v : Param D) (d m l : ℤ) → resolved_limit {R = R} v d m ≡ returns l → IsLimit R v d m l
  unfolding resolved_limit
  resolved_limit-IsLimit null d m l e = cc
  resolved_limit-IsLimit (boolean b) d m l e = smaller-IsLimit (boolean b) d m l e
  resolved_limit-IsLimit (integer n) d m l e = smaller-IsLimit (integer n) d m l e
  resolved_limit-IsLimit (float n) d m l e = smaller-IsLimit (float n) d m l e
  resolved_limit-IsLimit (text s) d m l e = smaller-IsLimit (text s) d m l e
  resolved_limit-IsLimit (array items) d m l e = smaller-IsLimit (array items) d m l e
  resolved_limit-IsLimit (object o) d m l e = smaller-IsLimit (object o) d m l e

chosen_limit :
    (n' : ℤ) (a b : ℕ) (l : ℤ)
    → n' ≡ pos a
    → leb_ℤ l n' ≡ true
    → leb_ℤ l (pos b) ≡ true
    → (l ≡ n') ⊎ (l ≡ pos b)
    → 0 < a
    → 0 < b
    → (k : ℕ) × (l ≡ pos k) × (0 < k) × (k ≤ a) × (k ≤ b)
chosen_limit n' a b l same le lem (inl e) pa pb =
    let here : l ≡ pos a = e ∙ same in
    let below : leb_ℤ (pos a) (pos b) ≡ true = rw here at lem in
    (a, here, pa, omega arith, ground arith)
chosen_limit n' a b l same le lem (inr e) pa pb =
    let below : leb_ℤ (pos b) (pos a) ≡ true = rw (e, same) at le in
    (b, e, pb, ground arith, omega arith)

abbrev IsSmaller : {D : Type 0} (S : Type 0) → Param D → (greatest limit : ℤ) → Type 0
IsSmaller S v m l =
    (n : ℤ) × (int_of_value {R = S} v ≡ returns n)
    × (leb_ℤ l n ≡ true)
    × (leb_ℤ l m ≡ true)
    × ((l ≡ n) ⊎ (l ≡ m))

module _ {D R : Type 0} where
  -- A limit that is read is no missing one.
  given-IsSmaller :
      (v : Param D) (n d m l : ℤ)
      → int_of_value {R = R} v ≡ returns n
      → IsLimit R v d m l
      → IsSmaller R v m l
  unfolding int_of_value
  given-IsSmaller null n d m l read h = cc
  given-IsSmaller (boolean b) n d m l read h = h
  given-IsSmaller (integer k) n d m l read h = h
  given-IsSmaller (float k) n d m l read h = h
  given-IsSmaller (text s) n d m l read h = h
  given-IsSmaller (array items) n d m l read h = h
  given-IsSmaller (object o) n d m l read h = h

  pub positive_limit :
      (v : Param D) (d l : ℤ) (a b : ℕ)
      → int_of_value {R = R} v ≡ returns (pos a)
      → IsLimit R v d (pos b) l
      → 0 < a
      → 0 < b
      → (k : ℕ) × (l ≡ pos k) × (0 < k) × (k ≤ a) × (k ≤ b)
  positive_limit v d l a b read h pa pb =
      let (n', read', le, lem, one) = given-IsSmaller v (pos a) d (pos b) l read h in
      chosen_limit n' a b l (cc) le lem one pa pb

module _ {D Raw M W R : Type 0} (odoo : Odoo D Raw M W R) where
  pub paginate-IsLimit :
      (w : W) (limit offset : Param D) (l o : ℤ)
      → paginate odoo w limit offset ≡ returns (l, o)
      → (default greatest : ℤ) × (page_size_param {R = R}
            (odoo.get_param w "ssi_rest_api.default_page_size")
            80
          ≡ returns default)
        × (page_size_param {R = R} (odoo.get_param w "ssi_rest_api.max_page_size") 1000
            ≡ returns greatest)
        × IsLimit R limit default greatest l
        × (resolved_offset odoo offset ≡ returns o)
  unfolding paginate
  paginate-IsLimit w limit offset l o e =
      let (d, found_d, e1) =
        >>=-returns (page_size_param (odoo.get_param w "ssi_rest_api.default_page_size") 80) _
          (l, o) e in
      let (m, found_m, e2) =
        >>=-returns (page_size_param (odoo.get_param w "ssi_rest_api.max_page_size") 1000) _ (l, o)
          e1 in
      let (l', found_l, e3) = >>=-returns (resolved_limit limit d m) _ (l, o) e2 in
      let (o', found_o, e4) = >>=-returns (resolved_offset odoo offset) _ (l, o) e3 in
      (
        d,
        m,
        found_d,
        found_m,
        resolved_limit-IsLimit limit d m l (rw found_l (cc)),
        rw found_o (cc),
      )
