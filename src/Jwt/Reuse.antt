-- ===== src/Jwt/Reuse.antt =====
-- The client of an issuer stays the same object over every sequence of edits and requests that leaves the
-- issuer's URL alone, so that what it has fetched serves until its lifespan is over.
use ssi_rest_api.Jwt.{PyJwt, Cached, Issuer, State}
use ssi_rest_api.Jwt.Cache.{
  get_client, cached_or_new, add_client, new_entry, set_client, invalidate, invalidate_all,
}
use ssi_rest_api.Jwt.Events.{Event, created, written, unlinked, requested, apply, run}
use ssi_rest_api.Jwt.Issuers.{
  Vals, selects, written_rows, write_one, unlink, invalidated_if, is_written,
}
use ssi_rest_api.Jwt.Provider.{ask_client}
use ssi_rest_api.Jwt.Steps.{Kept, jwt_verify-keeps, resolve-Kept, create-cases, write-cases}
use ssi_rest_api.Auth.Registry.{given}
use ssi_rest_api.Prelude.{
  ℕ, suc, String, ◌≡◌, refl, sym, ap, ◌∙◌, Bool, true, false, Bool-cases, inl, inr, Option, none,
  some, List, [], ◌∷◌, All, ◌<◌, nat_eq, nat_eq_iff, nat_eq_refl, any_of, arith, ◌==◌, eq_iff,
  keep_if, not, false≢true, if◌then◌else◌,
}
use ssi_rest_api.Prelude.Members.{All-keep_if, All-mono}

-- An event that neither writes the URL of record n nor deletes it.
abbrev pub Leaves : ℕ → Event → Type 0
Leaves n (created i) = Unit
Leaves n (written ids v) = is_written v.jwks_url ≡ true → any_of (nat_eq n) ids ≡ false
Leaves n (unlinked ids) = any_of (nat_eq n) ids ≡ false
Leaves n (requested now token) = Unit

module _ (n : ℕ) (url : String) where
  -- If the row is record n, it has this URL.
  abbrev pub HasUrl : Issuer → Type 0
  HasUrl i = nat_eq i.id n ≡ true → i.jwks_url ≡ url

  write_one-HasUrl :
      (ids : List ℕ) (v : Vals) (i : Issuer)
      → (is_written v.jwks_url ≡ true → any_of (nat_eq n) ids ≡ false)
      → HasUrl i
      → HasUrl (if selects ids i then write_one v i else i)
  unfolding write_one
  write_one-HasUrl ids v i leaves h = elim (Bool-cases (selects ids i)) [
    | inl chosen ↦ rw chosen (λ same.
        unchanged v.jwks_url leaves (h same)
          (ap (λ m. any_of (nat_eq m) ids) (sym ((nat_eq_iff i.id n).0 same)) ∙ chosen))
    | inr other ↦ rw other h
  ]
    where
      unchanged :
          (new : Option String)
          → (is_written new ≡ true → any_of (nat_eq n) ids ≡ false)
          → i.jwks_url ≡ url
          → any_of (nat_eq n) ids ≡ true
          → given new i.jwks_url ≡ url
      unchanged none l u m = u
      unchanged (some new) l u m = absurd (false≢true (sym (l refl) ∙ m))

  written_rows-HasUrl :
      (ids : List ℕ) (v : Vals) (rows : List Issuer)
      → (is_written v.jwks_url ≡ true → any_of (nat_eq n) ids ≡ false)
      → All HasUrl rows
      → All HasUrl (written_rows ids v rows)
  unfolding written_rows
  written_rows-HasUrl ids v [] l h = tt
  written_rows-HasUrl ids v (i ∷ rows) l (h, hs) =
      (write_one-HasUrl ids v i l h, written_rows-HasUrl ids v rows l hs)

  module _ {Client : Type 0} (k : ℕ) where
    abbrev IsSame : Cached Client → Type 0
    IsSame entry = (entry.jwks_url ≡ url) × (entry.serial ≡ k)

    abbrev OfEntry : Option (Cached Client) → Type 0
    OfEntry none = ⊥
    OfEntry (some entry) = IsSame entry

    -- The rows of record n have the URL, n has been given out, and its client is number k.
    abbrev IsHeld : State Client → Type 0
    IsHeld s = All HasUrl s.issuers × (n < s.next_id) × OfEntry (s.clients n)

    set_client-OfEntry :
        (id : ℕ) (x : Option (Cached Client)) (s : State Client)
        → (nat_eq id n ≡ true → OfEntry x)
        → OfEntry (s.clients n)
        → OfEntry ((set_client id x s).clients n)
    unfolding set_client
    set_client-OfEntry id x s new old = elim (Bool-cases (nat_eq id n)) [
      | inl same ↦ rw same (new same)
      | inr other ↦ rw other old
    ]

    invalidate_all-IsHeld :
        (ids : List ℕ) (s : State Client)
        → any_of (nat_eq n) ids ≡ false
        → IsHeld s
        → IsHeld (invalidate_all ids s)
    unfolding invalidate_all invalidate set_client
    invalidate_all-IsHeld [] s m h = h
    invalidate_all-IsHeld (id ∷ ids) s m (rows, l, e) =
        let other : nat_eq id n ≡ false = ground arith in
        let rest : any_of (nat_eq n) ids ≡ false = ground arith in
        invalidate_all-IsHeld ids (invalidate id s) rest (rows, l, rw other e)

    invalidated_if-IsHeld :
        (b : Bool) (ids : List ℕ) (s : State Client)
        → (b ≡ true → any_of (nat_eq n) ids ≡ false)
        → IsHeld s
        → IsHeld (invalidated_if b ids s)
    unfolding invalidated_if
    invalidated_if-IsHeld true ids s l h = invalidate_all-IsHeld ids s (l refl) h
    invalidated_if-IsHeld false ids s l h = h

    module _ {V Key : Type 0} (jwt : PyJwt V Key Client) where
      cached_or_new-IsHeld :
          (o : Option (Cached Client)) (id : ℕ) (u : String) (s : State Client)
          → (nat_eq id n ≡ true → OfEntry o × (u ≡ url))
          → IsHeld s
          → IsHeld (cached_or_new jwt o id u s).1
            × (nat_eq id n ≡ true → IsSame (cached_or_new jwt o id u s).0)
      unfolding cached_or_new add_client
      cached_or_new-IsHeld none id u s e (rows, l, old) = (
        (
          rows,
          l,
          set_client-OfEntry id _ (record s { next_serial = suc s.next_serial })
              (λ same. absurd ((e same).0)) old,
        ),
        λ same. absurd ((e same).0),
      )
      cached_or_new-IsHeld (some entry) id u s e (rows, l, old) =
          elim (Bool-cases (entry.jwks_url == u)) [
            | inl same_url ↦ rw same_url ((rows, l, old), λ same. (e same).0)
            | inr other ↦
                let differs : nat_eq id n ≡ true → ⊥ = (λ same.
                  false≢true (
                    sym other ∙ (eq_iff entry.jwks_url u).1 (((e same).0).0 ∙ sym ((e same).1)))) in
                rw other (
                  (
                    rows,
                    l,
                    set_client-OfEntry id _ (record s { next_serial = suc s.next_serial })
                        (λ same. absurd (differs same)) old,
                  ),
                  λ same. absurd (differs same),
                )
          ]

      resolve-IsHeld :
          (R : Type 0) (now : ℕ) (token : String) (i : Issuer)
          → HasUrl i
          → Kept R jwt now token IsHeld i
      unfolding get_client ask_client
      resolve-IsHeld R now token i u = resolve-Kept R jwt now token IsHeld i (λ _ s h.
          let (held, same_client) =
            cached_or_new-IsHeld (s.clients i.id) i.id i.jwks_url s
              (λ same. (rw ((nat_eq_iff i.id n).0 same) h.2, u same)) h in
          (
            held.0,
            held.1,
            set_client-OfEntry i.id _ (cached_or_new jwt (s.clients i.id) i.id i.jwks_url s).1
                same_client held.2,
          ))

      apply-IsHeld : (e : Event) (s : State Client) → Leaves n e → IsHeld s → IsHeld (apply jwt e s)
      unfolding apply unlink
      apply-IsHeld (created i) s l (rows, below, e) =
          create-cases (λ (c : Bool × State Client). IsHeld c.1) s i (rows, below, e)
            (λ _.
              (((λ same. absurd (ground (arith, nat_eq_iff s.next_id n))), rows), omega arith, e))
      apply-IsHeld (written ids v) s l (rows, below, e) =
          write-cases (λ (c : Bool × State Client). IsHeld c.1) s ids v (rows, below, e)
            (λ _.
              invalidated_if-IsHeld (is_written v.jwks_url) ids
                (record s { issuers = written_rows ids v s.issuers }) l
                (written_rows-HasUrl ids v s.issuers l rows, below, e))
      apply-IsHeld (unlinked ids) s l (rows, below, e) =
          invalidate_all-IsHeld ids
            (record s { issuers = keep_if (λ i. not (selects ids i)) s.issuers }) l
            (All-keep_if HasUrl (λ i. not (selects ids i)) s.issuers rows, below, e)
      apply-IsHeld (requested now token) s l h =
          jwt_verify-keeps Unit jwt now token IsHeld s
            (All-mono HasUrl (Kept Unit jwt now token IsHeld) (resolve-IsHeld Unit now token)
              s.issuers h.0)
            h

      run-IsHeld :
          (es : List Event) (s : State Client)
          → All (Leaves n) es
          → IsHeld s
          → IsHeld (run jwt es s)
      unfolding run
      run-IsHeld [] s l h = h
      run-IsHeld (e ∷ es) s (l, ls) h = run-IsHeld es (apply jwt e s) ls (apply-IsHeld e s l h)

      -- The entry that is held is the one that is returned.
      cached_or_new-held :
          (o : Option (Cached Client)) (s : State Client)
          → OfEntry o
          → ((cached_or_new jwt o n url s).0.serial ≡ k) × ((cached_or_new jwt o n url s).1 ≡ s)
      unfolding cached_or_new
      cached_or_new-held none s h = absurd h
      cached_or_new-held (some entry) s (u, same) =
          rw ((eq_iff entry.jwks_url url).1 u) (same, refl)

module _ {V Key Client : Type 0} (jwt : PyJwt V Key Client) (n : ℕ) (url : String) where
  cached_or_new-IsHeld_self :
      (o : Option (Cached Client)) (s : State Client)
      → All (HasUrl n url) s.issuers
      → n < s.next_id
      → s.clients n ≡ o
      → IsHeld n url (cached_or_new jwt o n url s).0.serial (cached_or_new jwt o n url s).1
  unfolding cached_or_new add_client new_entry set_client
  cached_or_new-IsHeld_self none s rows below e = (rows, below, rw (nat_eq_refl n) (refl, refl))
  cached_or_new-IsHeld_self (some entry) s rows below e =
      elim (Bool-cases (entry.jwks_url == url)) [
        | inl same ↦ rw same (rows, below, rw e ((eq_iff entry.jwks_url url).0 same, refl))
        | inr other ↦ rw other (rows, below, rw (nat_eq_refl n) (refl, refl))
      ]

  -- If every stored row with the id has the URL and the id has been given out, then after any
  -- edits and requests that neither write the URL of that issuer nor delete it, get_client
  -- returns for the issuer and its URL the same client as before and creates none.
  pub client_reused :
      (es : List Event) (s : State Client)
      → All (HasUrl n url) s.issuers
      → n < s.next_id
      → All (Leaves n) es
      → ((get_client jwt n url (run jwt es (get_client jwt n url s).1)).0.serial
          ≡ (get_client jwt n url s).0.serial)
        × ((get_client jwt n url (run jwt es (get_client jwt n url s).1)).1
            ≡ run jwt es (get_client jwt n url s).1)
  unfolding get_client
  client_reused es s rows below leaves =
      let k = (get_client jwt n url s).0.serial in
      let held =
        run-IsHeld n url k jwt es (get_client jwt n url s).1 leaves
          (cached_or_new-IsHeld_self (s.clients n) s rows below refl) in
      cached_or_new-held n url k jwt _ _ held.2
