-- ===== src/ApiKey/Rows.antt =====
-- When the rows of the keys stand for keys of the specification, and the changes that keep it so.
use ssi_rest_api.ApiKey.{Key, key_index_size, generate_raw_key}
use ssi_rest_api.ApiKey.Spec.{Grant}
use ssi_rest_api.Oauth.{Crypto, Draw}
use ssi_rest_api.Prelude.{
  ℕ, String, ◌≡◌, ap, Bool, true, false, not, Option, none, some, List, [], ◌∷◌, map, ◌==◌, nat_eq,
  keep_if, if◌then◌else◌,
}
use ssi_rest_api.Prelude.Text.{slice_to}

-- passlib as the module relies on it: it verifies the text that was hashed and no other, and no hash
-- is empty.
pub record IsExact (crypto : Crypto) : Type 0 where
  pub verifies :
      (salt raw other : String) → crypto.verify raw (crypto.hash salt other) ≡ (other == raw)
  pub not_empty : (salt raw : String) → (crypto.hash salt raw == "") ≡ false

module _ (crypto : Crypto) where
  -- What index and hash say of the key.
  abbrev pub HoldsSecret : (index hash secret : Option String) → Type 0
  HoldsSecret index hash none = (index ≡ none) × (hash ≡ none)
  HoldsSecret index hash (some raw) =
      (d : Draw) × (raw ≡ generate_raw_key d)
      × (index ≡ some (slice_to key_index_size raw))
      × (hash ≡ some (crypto.hash d.salt raw))

  -- A row stands for a key of the specification.
  pub record Represents (k : Key) (g : Grant) : Type 0 where
    pub same_id : k.id ≡ g.id
    pub user : k.user_id ≡ g.form.user_id
    pub profile : k.profile_id ≡ g.form.profile_id
    pub expiration : k.expiration_date ≡ g.form.expiration_date
    pub active : k.active ≡ g.form.active
    pub secret : HoldsSecret k.key_index k.key_hash g.secret

  abbrev pub Pairwise : List Key → List Grant → Type 0
  Pairwise [] [] = Unit
  Pairwise (k ∷ ks) (g ∷ gs) = Represents k g × Pairwise ks gs
  Pairwise [] (_ ∷ _) = ⊥
  Pairwise (_ ∷ _) [] = ⊥

  Pairwise-map :
      (f : Key → Key) (h : Grant → Grant)
      → ((k : Key) (g : Grant) → Represents k g → Represents (f k) (h g))
      → (ks : List Key) (gs : List Grant) → Pairwise ks gs
      → Pairwise (map f ks) (map h gs)
  Pairwise-map f h step [] [] r = tt
  Pairwise-map f h step (k ∷ ks) (g ∷ gs) (r, rs) = (step k g r, Pairwise-map f h step ks gs rs)
  Pairwise-map f h step [] (_ ∷ _) r = absurd r
  Pairwise-map f h step (_ ∷ _) [] r = absurd r

  Represents-if :
      (b c : Bool) {k k' : Key} {g g' : Grant}
      → b ≡ c
      → Represents k g
      → Represents k' g'
      → Represents (if b then k' else k) (if c then g' else g)
  Represents-if true true e r r' = r'
  Represents-if false false e r r' = r
  Represents-if true false e r r' = cc
  Represents-if false true e r r' = cc

  -- Both sides change the rows with an id.
  pub Pairwise-write :
      (id : ℕ) (f : Key → Key) (h : Grant → Grant)
      → ((k : Key) (g : Grant) → Represents k g → Represents (f k) (h g))
      → (ks : List Key) (gs : List Grant) → Pairwise ks gs
      → Pairwise
          (map (λ k. if nat_eq k.id id then f k else k) ks)
          (map (λ g. if nat_eq g.id id then h g else g) gs)
  Pairwise-write id f h step =
      Pairwise-map (λ k. if nat_eq k.id id then f k else k) (λ g. if nat_eq g.id id then h g else g)
        (λ k g r.
          Represents-if (nat_eq k.id id) (nat_eq g.id id) (ap (λ i. nat_eq i id) r.same_id) r
            (step k g r))

  Pairwise-if :
      (b c : Bool) {k : Key} {g : Grant} (ks : List Key) (gs : List Grant)
      → b ≡ c
      → Represents k g
      → Pairwise ks gs
      → Pairwise (if b then k ∷ ks else ks) (if c then g ∷ gs else gs)
  Pairwise-if true true ks gs e r rs = (r, rs)
  Pairwise-if false false ks gs e r rs = rs
  Pairwise-if true false ks gs e r rs = cc
  Pairwise-if false true ks gs e r rs = cc

  pub Pairwise-unlink :
      (id : ℕ) (ks : List Key) (gs : List Grant)
      → Pairwise ks gs
      → Pairwise (keep_if (λ k. not (nat_eq k.id id)) ks) (keep_if (λ g. not (nat_eq g.id id)) gs)
  Pairwise-unlink id [] [] r = tt
  Pairwise-unlink id (k ∷ ks) (g ∷ gs) (r, rs) =
      Pairwise-if (not (nat_eq k.id id)) (not (nat_eq g.id id)) _ _
        (ap (λ i. not (nat_eq i id)) r.same_id) r (Pairwise-unlink id ks gs rs)
  Pairwise-unlink id [] (_ ∷ _) r = absurd r
  Pairwise-unlink id (_ ∷ _) [] r = absurd r

  -- A change of rows that the specification does not show.
  pub Pairwise-touch :
      (f : Key → Key)
      → ((k : Key) (g : Grant) → Represents k g → Represents (f k) g)
      → (ks : List Key) (gs : List Grant) → Pairwise ks gs
      → Pairwise (map f ks) gs
  Pairwise-touch f step [] [] r = tt
  Pairwise-touch f step (k ∷ ks) (g ∷ gs) (r, rs) = (step k g r, Pairwise-touch f step ks gs rs)
  Pairwise-touch f step [] (_ ∷ _) r = absurd r
  Pairwise-touch f step (_ ∷ _) [] r = absurd r
