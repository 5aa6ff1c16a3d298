-- ===== src/AccessProfile/Selection.antt =====
-- The first match after the stable sort by sequence (ssi_rest_access_profile.py, the loop over
-- `rule_ids.sorted("sequence")`) against the least sequence.
use ssi_rest_api.Prelude.{
  ◌≡◌, refl, Bool, true, false, Option, none, some, List, [], ◌∷◌, ◌++◌, arith, All, Bool-cases,
  inl, inr, if◌then◌else◌,
}
use ssi_rest_api.Prelude.Int.{leb_ℤ, leb_ℤ_trans, leb_ℤ_total}
use ssi_rest_api.AccessProfile.{Rule, insert_rule, sorted_rules}

abbrev pub Precedes : Rule → Rule → Type 0
Precedes r x = leb_ℤ r.sequence x.sequence ≡ true

abbrev IsSorted : List Rule → Type 0
IsSorted [] = Unit
IsSorted (r ∷ rs) = All (Precedes r) rs × IsSorted rs

All-insert_rule :
    (x r : Rule) (rs : List Rule)
    → Precedes x r
    → All (Precedes x) rs
    → All (Precedes x) (insert_rule r rs)
unfolding insert_rule
All-insert_rule x r [] h k = (h, tt)
All-insert_rule x r (y ∷ ys) h (p, ps) = elim (Bool-cases (leb_ℤ r.sequence y.sequence)) [
  | inl e ↦ rw e (h, (p, ps))
  | inr e ↦ rw e (p, All-insert_rule x r ys h ps)
]

All-Precedes_trans :
    (r x : Rule) (rs : List Rule) → Precedes r x → All (Precedes x) rs → All (Precedes r) rs
All-Precedes_trans r x [] h k = tt
All-Precedes_trans r x (y ∷ ys) h (p, ps) =
    (leb_ℤ_trans r.sequence x.sequence y.sequence h p, All-Precedes_trans r x ys h ps)

insert_rule-IsSorted : (r : Rule) (rs : List Rule) → IsSorted rs → IsSorted (insert_rule r rs)
unfolding insert_rule
insert_rule-IsSorted r [] s = (tt, tt)
insert_rule-IsSorted r (x ∷ xs) (h, s) = elim (Bool-cases (leb_ℤ r.sequence x.sequence)) [
  | inl e ↦ rw e ((e, All-Precedes_trans r x xs e h), (h, s))
  | inr e ↦
      rw e (
        All-insert_rule x r xs (leb_ℤ_total r.sequence x.sequence e) h,
        insert_rule-IsSorted r xs s,
      )
]

sorted_rules-IsSorted : (rs : List Rule) → IsSorted (sorted_rules rs)
unfolding sorted_rules
sorted_rules-IsSorted [] = tt
sorted_rules-IsSorted (r ∷ rs) = insert_rule-IsSorted r (sorted_rules rs) (sorted_rules-IsSorted rs)

abbrev keep_least : Rule → Option Rule → Option Rule
keep_least r none = some r
keep_least r (some x) = if leb_ℤ r.sequence x.sequence then some r else some x

module _ (m : Rule → Bool) where
  abbrev pub first_match : List Rule → Option Rule
  first_match [] = none
  first_match (r ∷ rs) = if m r then some r else first_match rs

  -- The matching rule of the least sequence, the earliest of several; no sort is made.
  abbrev pub least_match : List Rule → Option Rule
  least_match [] = none
  least_match (r ∷ rs) = if m r then keep_least r (least_match rs) else least_match rs

  keep_least-first_match :
      (r : Rule) (rs : List Rule) → All (Precedes r) rs → keep_least r (first_match rs) ≡ some r
  keep_least-first_match r [] h = refl
  keep_least-first_match r (x ∷ xs) (p, ps) = ground (arith, keep_least-first_match r xs ps)

  first_match-insert_rule :
      (r : Rule) (rs : List Rule)
      → IsSorted rs
      → first_match (insert_rule r rs)
        ≡ (if m r then keep_least r (first_match rs) else first_match rs)
  unfolding insert_rule
  first_match-insert_rule r [] s = refl
  first_match-insert_rule r (x ∷ xs) (h, s) = elim (Bool-cases (leb_ℤ r.sequence x.sequence)) [
    | inl e ↦
        rw e (ground (arith, keep_least-first_match r (x ∷ xs) (e, All-Precedes_trans r x xs e h)))
    | inr e ↦ rw e (ground (arith, first_match-insert_rule r xs s))
  ]

  pub first_match-sorted_rules : (rs : List Rule) → first_match (sorted_rules rs) ≡ least_match rs
  unfolding sorted_rules
  first_match-sorted_rules [] = refl
  first_match-sorted_rules (r ∷ rs) = ground (
    arith,
    first_match-insert_rule r (sorted_rules rs) (sorted_rules-IsSorted rs),
    first_match-sorted_rules rs,
  )

  -- The rule after `before` and before `after` is selected.
  keep_least-least_match :
      (r : Rule) (rs : List Rule)
      → All (λ x. m x ≡ true → Precedes r x) rs
      → keep_least r (least_match rs) ≡ some r
  keep_least-least_match r [] h = refl
  keep_least-least_match r (x ∷ xs) (p, ps) = ground (arith, keep_least-least_match r xs ps)

  pub least_match-middle :
      (before after : List Rule) (r : Rule)
      → m r ≡ true
      → All (λ x. m x ≡ true → leb_ℤ x.sequence r.sequence ≡ false) before
      → All (λ x. m x ≡ true → Precedes r x) after
      → least_match (before ++ r ∷ after) ≡ some r
  least_match-middle [] after r h k l = rw h (keep_least-least_match r after l)
  least_match-middle (x ∷ xs) after r h (p, ps) l =
      ground (arith, least_match-middle xs after r h ps l)

  pub least_match-none : (rs : List Rule) → All (λ x. m x ≡ false) rs → least_match rs ≡ none
  least_match-none [] h = refl
  least_match-none (x ∷ xs) (p, ps) = rw p (least_match-none xs ps)
