-- ===== src/Jwt/Clients.antt =====
-- The clients that lib/jwks_cache.py keeps, over every sequence of edits and requests: a client reads the
-- URL that it is kept for, and outlives requests but not an edit of the URL.
use ssi_rest_api.Jwt.{PyJwt, Cached, Issuer, State}
use ssi_rest_api.Jwt.Cache.{
  get_client, cached_or_new, add_client, new_entry, set_client, invalidate, invalidate_all,
  jwks_cache_ttl_seconds,
}
use ssi_rest_api.Jwt.Events.{Event, created, written, unlinked, requested, apply, run}
use ssi_rest_api.Jwt.Issuers.{Vals, written_rows, write, unlink, invalidated_if, is_written}
use ssi_rest_api.Jwt.Provider.{ask_client}
use ssi_rest_api.Jwt.Steps.{Kept, jwt_verify-keeps, resolve-Kept, create-cases, write-cases}
use ssi_rest_api.Prelude.Members.{All-intro}
use ssi_rest_api.Prelude.{
  ℕ, suc, String, ◌≡◌, refl, sym, ◌∙◌, Bool, true, false, Bool-cases, inl, inr, Option, none, some,
  List, [], ◌∷◌, ◌≤◌, nat_eq, nat_eq_iff, nat_eq_refl, any_of, arith, ◌==◌, eq_iff, false≢true,
}

-- What PyJWT documents of a client: its URL is the one given, and a call does not change it.
pub record IsPyJwt {V Key Client : Type 0} (jwt : PyJwt V Key Client) : Type 0 where
  pub uri_new : (url : String) (ttl : ℕ) → jwt.uri (jwt.new_client url ttl) ≡ url
  pub uri_kept :
      (now : ℕ) (token : String) (c : Client)
      → jwt.uri (jwt.get_signing_key now token c).1 ≡ jwt.uri c

module _ {V Key Client : Type 0} (jwt : PyJwt V Key Client) (h : IsPyJwt jwt) (n k : ℕ) where
  -- A client of the URL that the entry names, created as number k or later.
  abbrev pub IsSince : Cached Client → Type 0
  IsSince entry = (jwt.uri entry.client ≡ entry.jwks_url) × (k ≤ entry.serial)

  abbrev pub OfEntry : Option (Cached Client) → Type 0
  OfEntry none = Unit
  OfEntry (some entry) = IsSince entry

  -- The entry of record n is such a client, if there is one, and so is every new one.
  abbrev pub IsRenewed : State Client → Type 0
  IsRenewed s = OfEntry (s.clients n) × (k ≤ s.next_serial)

  set_client-IsRenewed :
      (id : ℕ) (entry : Cached Client) (s : State Client)
      → (nat_eq id n ≡ true → IsSince entry)
      → IsRenewed s
      → IsRenewed (set_client id (some entry) s)
  unfolding set_client
  set_client-IsRenewed id entry s new (old, l) = elim (Bool-cases (nat_eq id n)) [
    | inl same ↦ (rw same (new same), l)
    | inr other ↦ (rw other old, l)
  ]

  add_client-IsRenewed :
      (id : ℕ) (url : String) (s : State Client)
      → IsRenewed s
      → IsRenewed (add_client jwt id url s).1
        × IsSince (add_client jwt id url s).0
        × ((add_client jwt id url s).0.jwks_url ≡ url)
  unfolding add_client new_entry
  add_client-IsRenewed id url s (old, l) =
      let new : IsSince (new_entry jwt url s.next_serial) =
        (h.uri_new url jwks_cache_ttl_seconds, l) in
      (
        set_client-IsRenewed id (new_entry jwt url s.next_serial)
            (record s { next_serial = suc s.next_serial }) (λ _. new) (old, omega arith),
        new,
        refl,
      )

  -- What `get_client` returns for the record, and leaves behind for any.
  cached_or_new-IsRenewed :
      (o : Option (Cached Client)) (id : ℕ) (url : String) (s : State Client)
      → (nat_eq id n ≡ true → OfEntry o)
      → IsRenewed s
      → IsRenewed (cached_or_new jwt o id url s).1
        × (nat_eq id n ≡ true → IsSince (cached_or_new jwt o id url s).0)
        × ((cached_or_new jwt o id url s).0.jwks_url ≡ url)
  unfolding cached_or_new
  cached_or_new-IsRenewed none id url s e r =
      let (r', since, u) = add_client-IsRenewed id url s r in (r', λ _. since, u)
  cached_or_new-IsRenewed (some entry) id url s e r = elim (Bool-cases (entry.jwks_url == url)) [
    | inl same ↦ rw same (r, e, (eq_iff entry.jwks_url url).0 same)
    | inr other ↦
        rw other (let (r', since, u) = add_client-IsRenewed id url s r in (r', λ _. since, u))
  ]

  pub get_client-IsRenewed :
      (id : ℕ) (url : String) (s : State Client)
      → IsRenewed s
      → IsRenewed (get_client jwt id url s).1
        × (nat_eq id n ≡ true → IsSince (get_client jwt id url s).0)
        × ((get_client jwt id url s).0.jwks_url ≡ url)
  unfolding get_client
  get_client-IsRenewed id url s r =
      cached_or_new-IsRenewed (s.clients id) id url s (λ same. rw ((nat_eq_iff id n).0 same) r.0) r

  ask_client-IsRenewed :
      (R : Type 0) (now : ℕ) (token : String) (id : ℕ) (entry : Cached Client) (s : State Client)
      → (nat_eq id n ≡ true → IsSince entry)
      → IsRenewed s
      → IsRenewed (ask_client {R = R} jwt now token id (entry, s)).1
  unfolding ask_client
  ask_client-IsRenewed R now token id entry s since r =
      set_client-IsRenewed id
        (record entry { client = (jwt.get_signing_key now token entry.client).1 }) s
        (λ same. (h.uri_kept now token entry.client ∙ (since same).0, (since same).1)) r

  pub resolve-IsRenewed :
      (R : Type 0) (now : ℕ) (token : String) (i : Issuer) → Kept R jwt now token IsRenewed i
  resolve-IsRenewed R now token i = resolve-Kept R jwt now token IsRenewed i (λ _ s r.
      let (r', since, _) = get_client-IsRenewed i.id i.jwks_url s r in
      ask_client-IsRenewed R now token i.id (get_client jwt i.id i.jwks_url s).0
        (get_client jwt i.id i.jwks_url s).1 since r')

  invalidate-IsRenewed : (id : ℕ) (s : State Client) → IsRenewed s → IsRenewed (invalidate id s)
  unfolding invalidate set_client
  invalidate-IsRenewed id s (old, l) = elim (Bool-cases (nat_eq id n)) [
    | inl same ↦ (rw same tt, l)
    | inr other ↦ (rw other old, l)
  ]

  invalidate_all-IsRenewed :
      (ids : List ℕ) (s : State Client) → IsRenewed s → IsRenewed (invalidate_all ids s)
  unfolding invalidate_all
  invalidate_all-IsRenewed [] s r = r
  invalidate_all-IsRenewed (id ∷ ids) s r =
      invalidate_all-IsRenewed ids (invalidate id s) (invalidate-IsRenewed id s r)

  invalidated_if-IsRenewed :
      (b : Bool) (ids : List ℕ) (s : State Client)
      → IsRenewed s
      → IsRenewed (invalidated_if b ids s)
  unfolding invalidated_if
  invalidated_if-IsRenewed true ids s r = invalidate_all-IsRenewed ids s r
  invalidated_if-IsRenewed false ids s r = r

  apply-IsRenewed : (e : Event) (s : State Client) → IsRenewed s → IsRenewed (apply jwt e s)
  unfolding apply unlink
  apply-IsRenewed (created i) s r =
      create-cases (λ (c : Bool × State Client). IsRenewed c.1) s i r (λ _. r)
  apply-IsRenewed (written ids v) s r =
      write-cases (λ (c : Bool × State Client). IsRenewed c.1) s ids v r
        (λ _.
          invalidated_if-IsRenewed (is_written v.jwks_url) ids
            (record s { issuers = written_rows ids v s.issuers }) r)
  apply-IsRenewed (unlinked ids) s r = invalidate_all-IsRenewed ids _ r
  apply-IsRenewed (requested now token) s r =
      jwt_verify-keeps Unit jwt now token IsRenewed s
        (All-intro (Kept Unit jwt now token IsRenewed) (resolve-IsRenewed Unit now token) s.issuers)
        r

  pub run-IsRenewed : (es : List Event) (s : State Client) → IsRenewed s → IsRenewed (run jwt es s)
  unfolding run
  run-IsRenewed [] s r = r
  run-IsRenewed (e ∷ es) s r = run-IsRenewed es (apply jwt e s) (apply-IsRenewed e s r)

module _ {Client : Type 0} where
  gone :
      (n : ℕ) (ids : List ℕ) (s : State Client)
      → s.clients n ≡ none
      → (invalidate_all ids s).clients n ≡ none
  unfolding invalidate_all invalidate set_client
  gone n [] s e = e
  gone n (id ∷ ids) s e =
      gone n ids (invalidate id s)
        (elim (Bool-cases (nat_eq id n)) [ inl same ↦ rw same | inr other ↦ rw other e ])

  invalidated :
      (n : ℕ) (ids : List ℕ) (s : State Client)
      → any_of (nat_eq n) ids ≡ true
      → (invalidate_all ids s).clients n ≡ none
  unfolding invalidate_all invalidate set_client
  invalidated n [] s m = cc
  invalidated n (id ∷ ids) s m = elim (Bool-cases (nat_eq n id)) [
    | inl same ↦ gone n ids (invalidate id s) (rw (sym ((nat_eq_iff n id).0 same), nat_eq_refl n))
    | inr other ↦ invalidated n ids (invalidate id s) (rw other at m)
  ]

  serial-invalidate_all :
      (ids : List ℕ) (s : State Client) → (invalidate_all ids s).next_serial ≡ s.next_serial
  unfolding invalidate_all invalidate set_client
  serial-invalidate_all [] s = refl
  serial-invalidate_all (id ∷ ids) s = serial-invalidate_all ids (invalidate id s)

  write-forgets :
      (n : ℕ) (ids : List ℕ) (v : Vals) (s : State Client)
      → is_written v.jwks_url ≡ true
      → any_of (nat_eq n) ids ≡ true
      → (write ids v s).0 ≡ true
      → ((write ids v s).1.clients n ≡ none) × ((write ids v s).1.next_serial ≡ s.next_serial)
  unfolding invalidated_if
  write-forgets n ids v s given m ok =
      write-cases (λ c. c.0 ≡ true → (c.1.clients n ≡ none) × (c.1.next_serial ≡ s.next_serial)) s
        ids v (λ refused. absurd (false≢true refused))
        (λ _ _.
          let rows = written_rows ids v s.issuers in
          rw given (
            invalidated n ids (record s { issuers = rows }) m,
            serial-invalidate_all ids (record s { issuers = rows }),
          ))
        ok

module _ {V Key Client : Type 0} (jwt : PyJwt V Key Client) where
  -- If a client of PyJWT keeps the URL that it was created with, then after an accepted write of
  -- jwks_url to issuers and any further edits and requests, the client that get_client returns
  -- for one of these issuers and any URL reads that URL and was created after the write.
  pub client_renewed :
      (n : ℕ) (ids : List ℕ) (v : Vals) (es : List Event) (url : String) (s : State Client)
      → IsPyJwt jwt
      → is_written v.jwks_url ≡ true
      → any_of (nat_eq n) ids ≡ true
      → (write ids v s).0 ≡ true
      → (jwt.uri (get_client jwt n url (run jwt es (write ids v s).1)).0.client ≡ url)
        × (s.next_serial ≤ (get_client jwt n url (run jwt es (write ids v s).1)).0.serial)
  client_renewed n ids v es url s h given m ok =
      let (none_left, serial) = write-forgets n ids v s given m ok in
      let fresh : IsRenewed jwt h n s.next_serial (write ids v s).1 =
        (rw none_left tt, omega (arith, serial)) in
      let (_, since, u) =
        get_client-IsRenewed jwt h n s.next_serial n url (run jwt es (write ids v s).1)
          (run-IsRenewed jwt h n s.next_serial es (write ids v s).1 fresh) in
      let (uri, l) = since (nat_eq_refl n) in (uri ∙ u, l)
