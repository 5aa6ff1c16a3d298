-- ===== src/Prelude/Members.antt =====
-- Membership in lists, as a family that can be matched, and the loops that test for it.
use Prim.Native.Nat.{ℕ}
use mathlib.Core.Path.{◌≡◌, refl, sym, ap, ◌∙◌, subst}
use mathlib.Core.Logic.{◌↔◌}
use mathlib.Core.Bool.{Bool, true, false}
use mathlib.Core.List.{List, [], ◌∷◌, map}
pub use mathlib.Core.List.{Memᴰ}
use native.Mathlib.Omega.{arith}
use ssi_rest_api.Prelude.Tests.{nat_eq, nat_eq_iff, nat_eq_refl, Bool-cases, if_keeps}
use ssi_rest_api.Prelude.Lists.{any_of, keep_if, All}
use mathlib.Core.Logic.{inl, inr}

module _ {ℓ} {A : Type ℓ} (p : A → Bool) where
  pub any_of-true : (xs : List A) → any_of p xs ≡ true → (y : A) × Memᴰ y xs × (p y ≡ true)
  any_of-true [] h = cc
  any_of-true (x ∷ xs) h = elim (Bool-cases (p x)) [
    | inl e ↦ (x, Memᴰ.head refl, e)
    | inr e ↦ let (y, m, k) = any_of-true xs (rw e at h) in (y, Memᴰ.tail m, k)
  ]

  pub any_of-mem : {y : A} {xs : List A} → Memᴰ y xs → p y ≡ true → any_of p xs ≡ true
  any_of-mem (Memᴰ.head e) h = rw ((sym (ap p e)) ∙ h)
  any_of-mem {y} (Memᴰ.tail {x} m) h = ground (arith, any_of-mem m h)

  pub any_of-false : (xs : List A) → All (λ x. p x ≡ false) xs → any_of p xs ≡ false
  any_of-false [] h = refl
  any_of-false (x ∷ xs) (e, h) = rw e (any_of-false xs h)

  keep_head :
      {y x : A} {xs : List A}
      → p x ≡ true
      → (Memᴰ y (keep_if p xs) → Memᴰ y xs × (p y ≡ true))
      → Memᴰ y (x ∷ keep_if p xs)
      → Memᴰ y (x ∷ xs) × (p y ≡ true)
  keep_head e ih (Memᴰ.head same) = (Memᴰ.head same, ap p same ∙ e)
  keep_head e ih (Memᴰ.tail m) = (Memᴰ.tail (ih m).0, (ih m).1)

  pub keep_if-true : {y : A} (xs : List A) → Memᴰ y (keep_if p xs) → Memᴰ y xs × (p y ≡ true)
  keep_if-true [] m = elim m [ ]
  keep_if-true {y} (x ∷ xs) m = elim (Bool-cases (p x)) [
    | inl e ↦ keep_head e (keep_if-true xs) (rw e at m)
    | inr e ↦ let (k, h) = keep_if-true xs (rw e at m) in (Memᴰ.tail k, h)
  ]

  pub keep_if-mem : {y : A} {xs : List A} → Memᴰ y xs → p y ≡ true → Memᴰ y (keep_if p xs)
  keep_if-mem (Memᴰ.head {x} e) h = rw ((sym (ap p e)) ∙ h) (Memᴰ.head e)
  keep_if-mem (Memᴰ.tail {x} m) h = elim (Bool-cases (p x)) [
    | inl e ↦ rw e (Memᴰ.tail (keep_if-mem m h))
    | inr e ↦ rw e (keep_if-mem m h)
  ]

pub All-keep_if {ℓ κ} :
    {A : Type ℓ} (P : A → Type κ) (p : A → Bool) (xs : List A) → All P xs → All P (keep_if p xs)
All-keep_if P p [] h = tt
All-keep_if P p (x ∷ xs) (k, h) =
    if_keeps (All P) (p x) (k, All-keep_if P p xs h) (All-keep_if P p xs h)

pub All-map {ℓ κ} :
    {A : Type ℓ} (P Q : A → Type κ) (f : A → A)
    → ((x : A) → P x → Q (f x))
    → (xs : List A) → All P xs
    → All Q (map f xs)
All-map P Q f keeps [] h = tt
All-map P Q f keeps (x ∷ xs) (k, h) = (keeps x k, All-map P Q f keeps xs h)

pub All-intro {ℓ κ} : {A : Type ℓ} (P : A → Type κ) → ((x : A) → P x) → (xs : List A) → All P xs
All-intro P h [] = tt
All-intro P h (x ∷ xs) = (h x, All-intro P h xs)

pub All-mono {ℓ κ} :
    {A : Type ℓ} (P Q : A → Type κ) → ((x : A) → P x → Q x) → (xs : List A) → All P xs → All Q xs
All-mono P Q h [] k = tt
All-mono P Q h (x ∷ xs) (k, ks) = (h x k, All-mono P Q h xs ks)

pub All-mem {ℓ κ} : {A : Type ℓ} (P : A → Type κ) {y : A} {xs : List A} → Memᴰ y xs → All P xs → P y
All-mem P (Memᴰ.head e) (h, _) = subst P (sym e) h
All-mem P (Memᴰ.tail m) (_, h) = All-mem P m h

pub mem_iff-any_of : (a : ℕ) (xs : List ℕ) → (any_of (nat_eq a) xs ≡ true) ↔ Memᴰ a xs
mem_iff-any_of a xs = (
  λ h.
      let (y, m, e) = any_of-true (nat_eq a) xs h in
      subst (λ z. Memᴰ z xs) (sym ((nat_eq_iff a y).0 e)) m,
  λ m. any_of-mem (nat_eq a) m (nat_eq_refl a),
)
