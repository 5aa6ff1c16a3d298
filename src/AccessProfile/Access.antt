-- ===== src/AccessProfile/Access.antt =====
-- `_check_request_access` of ssi_rest_access_profile.py: the union of the profiles that apply.
use ssi_rest_api.Prelude.{
  ℕ, ◌≡◌, refl, ◌↔◌, ◌⊎◌, inl, inr, Bool, true, ◌&&◌, ◌||◌, List, [], ◌∷◌, arith, any_of, nat_eq,
  Bool-cases,
}
use ssi_rest_api.Prelude.Members.{
  Memᴰ, any_of-true, any_of-mem, keep_if-true, keep_if-mem, mem_iff-any_of,
}
use mathlib.Core.List.Memᴰ.{not-nil}
use ssi_rest_api.AccessProfile.{
  Request, Profile, User, evaluate_request, is_applicable, applicable_profiles, any_allows,
  check_request_access,
}

-- The profile is active and granted to the user, directly or through one of the user's groups.
abbrev pub Applies : User → Profile → Type 0
Applies u p =
    (p.active ≡ true)
    × (Memᴰ u.id p.user_ids ⊎ ((g : ℕ) × Memᴰ g p.group_ids × Memᴰ g u.all_group_ids))

Applies-of :
    (u : User) (p : Profile)
    → p.active ≡ true
    → (any_of (nat_eq u.id) p.user_ids
        || any_of (λ g. any_of (nat_eq g) u.all_group_ids) p.group_ids)
      ≡ true
    → Applies u p
Applies-of u p a h = elim (Bool-cases (any_of (nat_eq u.id) p.user_ids)) [
  | inl e ↦ (a, inl ((mem_iff-any_of u.id p.user_ids).0 e))
  | inr e ↦
      let (g, m, k) =
        any_of-true (λ g. any_of (nat_eq g) u.all_group_ids) p.group_ids (rw e at h) in
      (a, inr (g, m, (mem_iff-any_of g u.all_group_ids).0 k))
]

or-true_right : (b : Bool) → (b || true) ≡ true
or-true_right b = ground arith

is_applicable_of : (u : User) (p : Profile) → Applies u p → is_applicable u p ≡ true
unfolding is_applicable
is_applicable_of u p (a, inl m) = rw (a, (mem_iff-any_of u.id p.user_ids).1 m)
is_applicable_of u p (a, inr (g, m, k)) =
    rw
      (
        a,
        any_of-mem (λ g. any_of (nat_eq g) u.all_group_ids) m
            ((mem_iff-any_of g u.all_group_ids).1 k),
      )
      (or-true_right _)

and-true : (a b : Bool) → (a && b) ≡ true → (a ≡ true) × (b ≡ true)
and-true a b h = ground arith

pub is_applicable_iff : (u : User) (p : Profile) → (is_applicable u p ≡ true) ↔ Applies u p
unfolding is_applicable
is_applicable_iff u p =
    (λ h. let (a, k) = and-true p.active _ h in Applies-of u p a k, is_applicable_of u p)

any_allows-true :
    (q : Request) (ps : List Profile)
    → any_allows q ps ≡ true
    → (ps ≡ []) ⊎ ((p : Profile) × Memᴰ p ps × (evaluate_request p q ≡ true))
any_allows-true q [] h = inl refl
any_allows-true q (p ∷ ps) h = inr (any_of-true (λ x. evaluate_request x q) (p ∷ ps) h)

any_allows_of :
    (q : Request) (p : Profile) {ps : List Profile}
    → Memᴰ p ps
    → evaluate_request p q ≡ true
    → any_allows q ps ≡ true
any_allows_of q p (Memᴰ.head e) h = any_of-mem (λ x. evaluate_request x q) (Memᴰ.head e) h
any_allows_of q p (Memᴰ.tail m) h = any_of-mem (λ x. evaluate_request x q) (Memᴰ.tail m) h

any_allows_none :
    (q : Request) (ps : List Profile) → ((x : Profile) → ¬ Memᴰ x ps) → any_allows q ps ≡ true
any_allows_none q [] h = refl
any_allows_none q (p ∷ ps) h = absurd (h p (Memᴰ.head refl))

-- A request passes exactly when no stored profile applies to the user (is active and granted to
-- the user or to one of the user's groups), or some profile that applies allows the request.
pub check_request_access_iff :
    (stored : List Profile) (u : User) (q : Request)
    → (check_request_access stored u q ≡ true) ↔ (
        ((p : Profile) → Memᴰ p stored → ¬ Applies u p)
        ⊎ ((p : Profile) × Memᴰ p stored × Applies u p × (evaluate_request p q ≡ true)))
unfolding check_request_access
check_request_access_iff stored u q = (
  λ h. elim (any_allows-true q (applicable_profiles stored u) h) [
    | inl e ↦
        inl (λ p m a. not-nil (rw e at (keep_if-mem (is_applicable u) m (is_applicable_of u p a))))
    | inr (p, k, allowed) ↦
        let (m, a) = keep_if-true (is_applicable u) stored k in
        inr (p, m, (is_applicable_iff u p).0 a, allowed)
  ],
  λ h. elim h [
    | inl none_applies ↦ any_allows_none q (applicable_profiles stored u) (λ x k.
        let (m, a) = keep_if-true (is_applicable u) stored k in
        none_applies x m ((is_applicable_iff u x).0 a))
    | inr (p, m, a, allowed) ↦
        any_allows_of q p (keep_if-mem (is_applicable u) m (is_applicable_of u p a)) allowed
  ],
)

-- For a user to whom one of the stored profiles applies, a request that passes under the stored
-- profiles passes under every collection of profiles that holds them.
pub more_profiles_widen :
    (stored more : List Profile) (u : User) (q : Request) (p : Profile)
    → Memᴰ p stored
    → Applies u p
    → check_request_access stored u q ≡ true
    → ((x : Profile) → Memᴰ x stored → Memᴰ x more)
    → check_request_access more u q ≡ true
more_profiles_widen stored more u q p m a h sub = elim ((check_request_access_iff stored u q).0 h) [
  | inl none_applies ↦ absurd (none_applies p m a)
  | inr (x, k, applies, allowed) ↦
      (check_request_access_iff more u q).1 (inr (x, sub x k, applies, allowed))
]
