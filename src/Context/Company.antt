-- ===== src/Context/Company.antt =====
-- Which company a request may run in (ssi_rest_api/models/ir_http.py, `_ssi_rest_resolve_company`).
use ssi_rest_api.Prelude.{
  ℕ, String, ◌≡◌, refl, sym, ap, ◌∙◌, ◌↔◌, inl, inr, true, false, Option, none, some, List, [], ◌∷◌,
  arith, any_of, nat_eq, Bool-cases,
}
use mathlib.Core.Path.{subst}
use ssi_rest_api.Prelude.Int.{ℤ, pos, negsuc}
use ssi_rest_api.Prelude.Members.{Memᴰ, mem_iff-any_of}
use ssi_rest_api.Dispatcher.Arguments.{Outcome, returns, raises}
use ssi_rest_api.Context.{
  User, Context, parse_int, is_id, first_given, checked_company, requested_company, set_company,
  resolve_company,
}

-- The company that the request asks for: by a number that is the id of an existing company of the
-- user's, or, without a number, the user's own.
abbrev pub MayRunIn : Option String → User → List ℕ → ℕ → Type 0
MayRunIn none user companies c = c ≡ user.company_id
MayRunIn (some raw) user companies c =
    (parse_int raw ≡ some (pos c)) × Memᴰ c companies × Memᴰ c user.company_ids

some_pos : (n c : ℕ) → some (pos n) ≡ some (pos c) → n ≡ c
some_pos n c h = cc

returns_path : (n c : ℕ) → ◌≡◌ {A = Outcome (Unit {0}) ℕ} (returns n) (returns c) → n ≡ c
returns_path n c h = cc

no_negative_id : (n : ℕ) (ids : List ℕ) → any_of (is_id (negsuc n)) ids ≡ false
no_negative_id n [] = refl
no_negative_id n (id ∷ ids) = no_negative_id n ids

accepted :
    (n : ℕ) (user : User) (companies : List ℕ) (c : ℕ)
    → any_of (nat_eq n) companies ≡ true
    → any_of (nat_eq n) user.company_ids ≡ true
    → (◌≡◌ {A = Outcome (Unit {0}) ℕ} (returns n) (returns c)) ↔ (
        (some (pos n) ≡ some (pos c))
        × (any_of (nat_eq c) companies ≡ true)
        × (any_of (nat_eq c) user.company_ids ≡ true))
accepted n user companies c e f = (
  λ h.
      let same = returns_path n c h in
      (
        ap (λ q. some (pos q)) same,
        subst (λ q. any_of (nat_eq q) companies ≡ true) same e,
        subst (λ q. any_of (nat_eq q) user.company_ids ≡ true) same f,
      ),
  λ (h, k, l). ap returns (some_pos n c h),
)

checked_company_iff :
    (n : Option ℤ) (user : User) (companies : List ℕ) (c : ℕ)
    → (checked_company {R = Unit {0}} n user companies ≡ returns c) ↔ (
        (n ≡ some (pos c))
        × (any_of (nat_eq c) companies ≡ true)
        × (any_of (nat_eq c) user.company_ids ≡ true))
unfolding checked_company
checked_company_iff none user companies c = (λ h. absurd (cc), λ (h, k, l). absurd (cc))
checked_company_iff (some (negsuc n)) user companies c =
    rw (no_negative_id n companies) (λ h. absurd (cc), λ (h, k, l). absurd (cc))
checked_company_iff (some (pos n)) user companies c =
    elim (Bool-cases (any_of (nat_eq n) companies)) [
      | inr e ↦
          rw e (λ h. absurd (cc), λ (h, k, l). let same = some_pos n c h in absurd (ground arith))
      | inl e ↦ elim (Bool-cases (any_of (nat_eq n) user.company_ids)) [
        | inr f ↦
            rw (e, f)
              (λ h. absurd (cc), λ (h, k, l). let same = some_pos n c h in absurd (ground arith))
        | inl f ↦ rw (e, f) (accepted n user companies c e f)
      ]
    ]

requested_company_iff :
    (raw : Option String) (user : User) (companies : List ℕ) (c : ℕ)
    → (requested_company {R = Unit {0}} raw user companies ≡ returns c)
      ↔ MayRunIn raw user companies c
unfolding requested_company
requested_company_iff none user companies c =
    (λ h. sym (returns_path user.company_id c h), λ h. ap returns (sym h))
requested_company_iff (some raw) user companies c =
    let (to, from) = checked_company_iff (parse_int raw) user companies c in
    let existing = mem_iff-any_of c companies in
    let own = mem_iff-any_of c user.company_ids in
    (
      λ h. let (n, k, l) = to h in (n, existing.0 k, own.0 l),
      λ (n, k, l). from (n, existing.1 k, own.1 l),
    )

settled :
    (o : Outcome (Unit {0}) ℕ) (ctx t : Context)
    → (set_company o ctx ≡ (returns tt, t))
      ↔ ((c : ℕ) × (o ≡ returns c) × (record ctx { allowed_company_ids = some (c ∷ []) } ≡ t))
settled (raises e) ctx t = (λ h. absurd (cc), λ (c, h, k). absurd (cc))
settled (returns c) ctx t = (
  λ h. (c, refl, ap (λ o. o.1) h),
  λ (d, h, k). λ i. (
    returns tt,
    (ap (λ q. record ctx { allowed_company_ids = some (q ∷ []) }) (returns_path c d h) ∙ k) i,
  ),
)

-- `_ssi_rest_resolve_company` succeeds exactly when the request may run in a company: with neither
-- header nor query in the user's own, and otherwise in the one whose id the header or else the query
-- spells, which exists and is one of the user's companies; that company alone is then allowed.
pub resolve_company_iff :
    (header query : Option String) (user : User) (companies : List ℕ) (ctx t : Context)
    → (resolve_company {R = Unit {0}} header query user companies ctx ≡ (returns tt, t)) ↔ (
        (c : ℕ) × MayRunIn (first_given header query) user companies c
        × (record ctx { allowed_company_ids = some (c ∷ []) } ≡ t))
unfolding resolve_company
resolve_company_iff header query user companies ctx t =
    let raw = first_given header query in
    let (to, from) = settled (requested_company raw user companies) ctx t in
    (
      λ h. let (c, k, l) = to h in (c, (requested_company_iff raw user companies c).0 k, l),
      λ (c, k, l). from (c, (requested_company_iff raw user companies c).1 k, l),
    )
