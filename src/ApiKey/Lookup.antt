-- ===== src/ApiKey/Lookup.antt =====
-- Looking a key up by its index and hash finds what the specification finds by the key itself.
use ssi_rest_api.ApiKey.{
  Key, KeyStore, key_index_size, is_later, is_text, generate_raw_key, in_domain, hash_matches,
  verifies_text, authenticate,
}
use ssi_rest_api.ApiKey.Rows.{IsExact, HoldsSecret, Represents, Pairwise}
use ssi_rest_api.ApiKey.Spec.{Grant, accepts}
use ssi_rest_api.Oauth.{Crypto, Draw, first_where}
use text.Mathlib.TextLemmas.{cons-append}
use mathlib.Core.Path.{subst}
use mathlib.Core.Bool.{and-false}
use ssi_rest_api.Prelude.{
  ℕ, String, ◌≡◌, refl, sym, ap, ◌∙◌, Bool, true, false, ◌&&◌, Option, none, some, List, [], ◌∷◌,
  ◌==◌, keep_if, if◌then◌else◌, Bool-cases, eq-false_of_ne, if_keeps-cases, inl, inr, arith, eq_iff,
}
use ssi_rest_api.Prelude.Text.{slice_to}

shuffle : (i a l h : Bool) → (i && a && l && h) ≡ (i && h && a && l)
shuffle true true true true = refl
shuffle i a l h = ground arith

-- Texts that are equal have the same index.
same_index :
    (raw other : String)
    → ((slice_to key_index_size other == slice_to key_index_size raw) && (other == raw))
      ≡ (other == raw)
same_index raw other = elim (Bool-cases (other == raw)) [
  | inl same ↦ rw same (
      rw
        ((eq_iff (slice_to key_index_size other) (slice_to key_index_size raw)).1
          (ap (slice_to key_index_size) ((eq_iff other raw).0 same)))
        refl)
  | inr different ↦
      rw different (and-false (slice_to key_index_size other == slice_to key_index_size raw))
]

raw_key-not_empty : (d : Draw) → (generate_raw_key d == "") ≡ false
unfolding generate_raw_key
raw_key-not_empty d =
    eq-false_of_ne (generate_raw_key d) ""
      (λ h. let cons_is_empty = sym (cons-append "s" "ak_" d.token_urlsafe) ∙ h in cc)

first_where-if :
    (p : Key → Bool) (b : Bool) (k : Key) (ks : List Key)
    → first_where p (if b then k ∷ ks else ks) ≡ (if b && p k then some k else first_where p ks)
first_where-if p true k ks = refl
first_where-if p false k ks = refl

module _ (crypto : Crypto) (exact : IsExact crypto) where
  -- Index and hash together tell the key itself.
  secret_text :
      (raw : String) (index hash secret : Option String)
      → HoldsSecret crypto index hash secret
      → (is_text (slice_to key_index_size raw) index && verifies_text crypto raw hash)
        ≡ is_text raw secret
  secret_text raw index hash none (no_index, no_hash) = rw no_index refl
  secret_text raw index hash (some other) (d, _, same_index', same_hash) = rw same_index' (
      rw same_hash (
        rw (exact.not_empty d.salt other)
          (rw (exact.verifies d.salt raw other) (same_index raw other))))

  row_accepts :
      (raw : String) (now : ℕ) (k : Key) (g : Grant)
      → Represents crypto k g
      → (in_domain crypto raw now k && hash_matches crypto raw k) ≡ accepts raw now g
  unfolding in_domain hash_matches
  row_accepts raw now k g r =
      shuffle (is_text (slice_to key_index_size raw) k.key_index) k.active
        (is_later now k.expiration_date) (verifies_text crypto raw k.key_hash)
      ∙ rw (secret_text raw k.key_index k.key_hash g.secret r.secret)
          (rw r.active (rw r.expiration refl))

  -- What is found on both sides: nothing, or a row and the key that it stands for.
  abbrev pub Agree : Option Key → Option Grant → Type 0
  Agree none none = Unit
  Agree (some k) (some g) = Represents crypto k g
  Agree none (some _) = ⊥
  Agree (some _) none = ⊥

  Agree-if :
      (b c : Bool) {k : Key} {g : Grant} (o : Option Key) (p : Option Grant)
      → b ≡ c
      → Represents crypto k g
      → Agree o p
      → Agree (if b then some k else o) (if c then some g else p)
  Agree-if true true o p e r a = r
  Agree-if false false o p e r a = a
  Agree-if true false o p e r a = cc
  Agree-if false true o p e r a = cc

  found-Agree :
      (raw : String) (now : ℕ) (ks : List Key) (gs : List Grant)
      → Pairwise crypto ks gs
      → Agree
          (first_where (hash_matches crypto raw) (keep_if (in_domain crypto raw now) ks))
          (first_where (accepts raw now) gs)
  found-Agree raw now [] [] r = tt
  found-Agree raw now (k ∷ ks) (g ∷ gs) (r, rs) =
      subst (λ o. Agree o (first_where (accepts raw now) (g ∷ gs)))
        (sym (
          first_where-if (hash_matches crypto raw) (in_domain crypto raw now k) k
            (keep_if (in_domain crypto raw now) ks)))
        (Agree-if (in_domain crypto raw now k && hash_matches crypto raw k) (accepts raw now g) _ _
          (row_accepts raw now k g r) r (found-Agree raw now ks gs rs))
  found-Agree raw now [] (_ ∷ _) r = absurd r
  found-Agree raw now (_ ∷ _) [] r = absurd r

  -- No key is the empty text.
  empty_text :
      (index hash secret : Option String)
      → HoldsSecret crypto index hash secret
      → is_text "" secret ≡ false
  empty_text index hash none h = refl
  empty_text index hash (some raw) (d, made, _, _) = rw made (raw_key-not_empty d)

  none_empty :
      (now : ℕ) (ks : List Key) (gs : List Grant)
      → Pairwise crypto ks gs
      → first_where (accepts "" now) gs ≡ none
  none_empty now [] [] r = refl
  none_empty now (k ∷ ks) (g ∷ gs) (r, rs) =
      rw (empty_text k.key_index k.key_hash g.secret r.secret) (none_empty now ks gs rs)
  none_empty now [] (_ ∷ _) r = absurd r
  none_empty now (_ ∷ _) [] r = absurd r

  pub authenticate-Agree :
      (raw : String) (now : ℕ) (s : KeyStore) (gs : List Grant)
      → Pairwise crypto s.keys gs
      → Agree (authenticate crypto raw now s) (first_where (accepts raw now) gs)
  unfolding authenticate
  authenticate-Agree raw now s gs r =
      if_keeps-cases (λ o. Agree o (first_where (accepts raw now) gs)) (raw == "")
        (λ empty.
          subst (Agree none)
            (sym (
              subst (λ t. first_where (accepts t now) gs ≡ none) (sym ((eq_iff raw "").0 empty))
                (none_empty now s.keys gs r)))
            tt)
        (λ _. found-Agree raw now s.keys gs r)
