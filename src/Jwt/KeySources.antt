-- ===== src/Jwt/KeySources.antt =====
-- The key material of the stored issuers (ssi_rest_jwt_issuer.py, `_check_key_source`).
use mathlib.Core.Path.{subst}
use ssi_rest_api.Jwt.{PyJwt, Algorithm, Issuer, State, is_hmac}
use ssi_rest_api.Jwt.Cache.{invalidate, invalidate_all, set_client}
use ssi_rest_api.Jwt.Events.{Event, created, written, unlinked, requested, apply, run}
use ssi_rest_api.Jwt.Issuers.{
  Vals, selects, written_rows, write_one, unlink, invalidated_if, is_written, check_key_source,
  all_checked, is_constrained,
}
use ssi_rest_api.Jwt.Steps.{issuers-jwt_verify, create-cases, write-cases}
use ssi_rest_api.Auth.Registry.{given}
use ssi_rest_api.Prelude.{
  ℕ, String, ◌≡◌, ◌≢◌, refl, sym, Bool, true, false, Bool-cases, inl, inr, Option, none, some, List,
  [], ◌∷◌, All, keep_if, not, ◌&&◌, ◌||◌, arith, ne-of_eq_false,
}
use ssi_rest_api.Prelude.Members.{All-keep_if}

-- A secret for an HMAC algorithm, and a URL for every other one.
abbrev pub HasKeySource : Issuer → Type 0
HasKeySource i =
    (is_hmac i.algorithm ≡ true → i.shared_secret ≢ "")
    × (is_hmac i.algorithm ≡ false → i.jwks_url ≢ "")

check_key_source-true : (i : Issuer) → check_key_source i ≡ true → HasKeySource i
unfolding check_key_source
check_key_source-true i h = elim (Bool-cases (is_hmac i.algorithm)) [
  | inl hmac ↦ (
    λ _. ne-of_eq_false i.shared_secret "" (let k = rw hmac at h in ground arith),
    λ no. absurd (cc),
  )
  | inr key_set ↦ (
    λ yes_. absurd (cc),
    λ _. ne-of_eq_false i.jwks_url "" (let k = rw key_set at h in ground arith),
  )
]

-- A write that gives none of the constrained fields leaves them.
write_one-kept :
    (v : Vals) (i : Issuer)
    → is_constrained v ≡ false
    → HasKeySource i
    → HasKeySource (write_one v i)
unfolding is_constrained write_one
write_one-kept v i h k = kept v.algorithm v.jwks_url v.shared_secret h
  where
    kept :
        (a : Option Algorithm) (u s : Option String)
        → (is_written a || is_written u || is_written s) ≡ false
        → (is_hmac (given a i.algorithm) ≡ true → given s i.shared_secret ≢ "")
          × (is_hmac (given a i.algorithm) ≡ false → given u i.jwks_url ≢ "")
    kept none none none e = k
    kept (some a) u s e = cc
    kept none (some u) s e = cc
    kept none none (some s) e = cc

-- The check of the written rows covers exactly those that the write has changed.
written_rows-checked :
    (ids : List ℕ) (v : Vals) (rows : List Issuer)
    → all_checked (keep_if (selects ids) (written_rows ids v rows)) ≡ true
    → All HasKeySource rows
    → All HasKeySource (written_rows ids v rows)
unfolding written_rows write_one
written_rows-checked ids v [] c h = tt
written_rows-checked ids v (i ∷ rows) c (h, hs) = elim (Bool-cases (selects ids i)) [
  | inl chosen ↦
      let here : (check_key_source (write_one v i)
            && all_checked (keep_if (selects ids) (written_rows ids v rows)))
          ≡ true =
        rw chosen at (rw chosen at c) in
      rw chosen (
        check_key_source-true (write_one v i) (ground arith),
        written_rows-checked ids v rows (ground arith) hs,
      )
  | inr other ↦ rw other (h, written_rows-checked ids v rows (rw other at (rw other at c)) hs)
]

written_rows-kept :
    (ids : List ℕ) (v : Vals) (rows : List Issuer)
    → is_constrained v ≡ false
    → All HasKeySource rows
    → All HasKeySource (written_rows ids v rows)
unfolding written_rows
written_rows-kept ids v [] c h = tt
written_rows-kept ids v (i ∷ rows) c (h, hs) = (
  elim (Bool-cases (selects ids i)) [
    | inl chosen ↦ rw chosen (write_one-kept v i c h)
    | inr other ↦ rw other h
  ],
  written_rows-kept ids v rows c hs,
)

module _ {Client : Type 0} where
  issuers-invalidate_all :
      (ids : List ℕ) (s : State Client) → (invalidate_all ids s).issuers ≡ s.issuers
  unfolding invalidate_all invalidate set_client
  issuers-invalidate_all [] s = refl
  issuers-invalidate_all (id ∷ ids) s = issuers-invalidate_all ids (invalidate id s)

  issuers-invalidated_if :
      (b : Bool) (ids : List ℕ) (s : State Client) → (invalidated_if b ids s).issuers ≡ s.issuers
  unfolding invalidated_if
  issuers-invalidated_if true ids s = issuers-invalidate_all ids s
  issuers-invalidated_if false ids s = refl

module _ {V Key Client : Type 0} (jwt : PyJwt V Key Client) where
  abbrev pub HaveKeySources : State Client → Type 0
  HaveKeySources s = All HasKeySource s.issuers

  rows-checked :
      (ids : List ℕ) (v : Vals) (s : State Client)
      → (is_constrained v
          && not (all_checked (keep_if (selects ids) (written_rows ids v s.issuers))))
        ≡ false
      → HaveKeySources s
      → All HasKeySource (written_rows ids v s.issuers)
  rows-checked ids v s passed h = elim (Bool-cases (is_constrained v)) [
    | inl yes_ ↦ written_rows-checked ids v s.issuers (let k = rw yes_ at passed in ground arith) h
    | inr no_ ↦ written_rows-kept ids v s.issuers no_ h
  ]

  apply-HaveKeySources :
      (e : Event) (s : State Client) → HaveKeySources s → HaveKeySources (apply jwt e s)
  unfolding apply unlink
  apply-HaveKeySources (created i) s h =
      create-cases (λ (c : Bool × State Client). HaveKeySources c.1) s i h
        (λ checked. (check_key_source-true (record i { id = s.next_id }) checked, h))
  apply-HaveKeySources (written ids v) s h =
      write-cases (λ (c : Bool × State Client). HaveKeySources c.1) s ids v h
        (λ passed.
          subst (All HasKeySource)
            (sym (
              issuers-invalidated_if (is_written v.jwks_url) ids
                (record s { issuers = written_rows ids v s.issuers })))
            (rows-checked ids v s passed h))
  apply-HaveKeySources (unlinked ids) s h =
      subst (All HasKeySource) (sym (issuers-invalidate_all ids _))
        (All-keep_if HasKeySource (λ i. not (selects ids i)) s.issuers h)
  apply-HaveKeySources (requested now token) s h =
      subst (All HasKeySource) (sym (issuers-jwt_verify Unit jwt now token s)) h

  -- If every stored issuer has a secret for an HMAC algorithm and a URL for another one, so has
  -- every stored issuer after any creations, writes, deletions and requests.
  pub run-HaveKeySources :
      (es : List Event) (s : State Client) → HaveKeySources s → HaveKeySources (run jwt es s)
  unfolding run
  run-HaveKeySources [] s h = h
  run-HaveKeySources (e ∷ es) s h =
      run-HaveKeySources es (apply jwt e s) (apply-HaveKeySources e s h)
