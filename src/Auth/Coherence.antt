-- ===== src/Auth/Coherence.antt =====
-- ssi_rest_api/models/ssi_rest_auth_scheme.py: the cache that `_get_active_schemes` fills and that
-- `create`, `write` and `unlink` clear, against the stored records.
use ssi_rest_api.Prelude.{
  ℕ, String, ◌≡◌, refl, ◌↔◌, ◌⊎◌, inl, inr, ap, true, Option, none, some, List, [], ◌∷◌, map,
  Bool-cases,
}
use ssi_rest_api.Prelude.Members.{Memᴰ, keep_if-true, keep_if-mem}
use ssi_rest_api.Auth.Registry.{
  Scheme, Vals, Registry, precedes, insert_scheme, ordered, read_active_schemes, cached_or_read,
  get_active_schemes, create, write, unlink,
}

-- What the program does to the registry.
pub data Event : Type 0 where
  read : Event
  created : List Scheme → Event
  written : List ℕ → Vals → Event
  unlinked : List ℕ → Event

unfoldable pub apply : Event → Registry → Registry
unfolding get_active_schemes create write unlink
apply read r = (get_active_schemes r).1
apply (created new) r = create new r
apply (written ids v) r = write ids v r
apply (unlinked ids) r = unlink ids r

unfoldable pub run : List Event → Registry → Registry
unfolding apply
run [] r = r
run (e ∷ es) r = run es (apply e r)

abbrev pub IsCoherent : Registry → Type 0
IsCoherent r = (r.cache ≡ none) ⊎ (r.cache ≡ some (read_active_schemes r.schemes))

cached_or_read-IsCoherent :
    (c : Option (List (String × String))) (r : Registry)
    → r.cache ≡ c
    → IsCoherent r
    → IsCoherent (cached_or_read c r).1 × ((cached_or_read c r).0 ≡ read_active_schemes r.schemes)
unfolding cached_or_read
cached_or_read-IsCoherent none r e h = (inr refl, refl)
cached_or_read-IsCoherent (some l) r e (inl missing) = absurd (cc)
cached_or_read-IsCoherent (some l) r e (inr there) = (inr there, cc)

apply-IsCoherent : (e : Event) (r : Registry) → IsCoherent r → IsCoherent (apply e r)
unfolding apply
apply-IsCoherent read r h = (cached_or_read-IsCoherent r.cache r refl h).0
apply-IsCoherent (created new) r h = inl refl
apply-IsCoherent (written ids v) r h = inl refl
apply-IsCoherent (unlinked ids) r h = inl refl

run-IsCoherent : (es : List Event) (r : Registry) → IsCoherent r → IsCoherent (run es r)
unfolding run
run-IsCoherent [] r h = h
run-IsCoherent (e ∷ es) r h = run-IsCoherent es (apply e r) (apply-IsCoherent e r h)

-- After any reads, creations, writes and deletions, starting with an empty cache,
-- _get_active_schemes returns what it would read from the stored records.
pub get_active_schemes_fresh :
    (es : List Event) (r : Registry)
    → r.cache ≡ none
    → (get_active_schemes (run es r)).0 ≡ read_active_schemes (run es r).schemes
unfolding get_active_schemes
get_active_schemes_fresh es r h =
    (cached_or_read-IsCoherent (run es r).cache (run es r) refl (run-IsCoherent es r (inl h))).1

swap_heads :
    {x a b : Scheme} {ls bs : List Scheme}
    → Memᴰ x ls ↔ Memᴰ x (a ∷ bs)
    → Memᴰ x (b ∷ ls) ↔ Memᴰ x (a ∷ b ∷ bs)
swap_heads {x} {a} {b} {ls} {bs} (to, from) = (there, back)
  where
    later : Memᴰ x (a ∷ bs) → Memᴰ x (a ∷ b ∷ bs)
    later (Memᴰ.head e) = Memᴰ.head e
    later (Memᴰ.tail m) = Memᴰ.tail (Memᴰ.tail m)

    there : Memᴰ x (b ∷ ls) → Memᴰ x (a ∷ b ∷ bs)
    there (Memᴰ.head e) = Memᴰ.tail (Memᴰ.head e)
    there (Memᴰ.tail m) = later (to m)

    earlier : Memᴰ x (b ∷ bs) → Memᴰ x (b ∷ ls)
    earlier (Memᴰ.head e) = Memᴰ.head e
    earlier (Memᴰ.tail m) = Memᴰ.tail (from (Memᴰ.tail m))

    back : Memᴰ x (a ∷ b ∷ bs) → Memᴰ x (b ∷ ls)
    back (Memᴰ.head e) = Memᴰ.tail (from (Memᴰ.head e))
    back (Memᴰ.tail m) = earlier m

mem-insert_scheme :
    (x a : Scheme) (bs : List Scheme) → Memᴰ x (insert_scheme a bs) ↔ Memᴰ x (a ∷ bs)
unfolding insert_scheme
mem-insert_scheme x a [] = (λ m. m, λ m. m)
mem-insert_scheme x a (b ∷ bs) = elim (Bool-cases (precedes a b)) [
  | inl e ↦ rw e (λ m. m, λ m. m)
  | inr e ↦ rw e (swap_heads (mem-insert_scheme x a bs))
]

keep_tail :
    {x a : Scheme} {ls bs : List Scheme} → Memᴰ x ls ↔ Memᴰ x bs → Memᴰ x (a ∷ ls) ↔ Memᴰ x (a ∷ bs)
keep_tail {x} {a} {ls} {bs} (to, from) = (there, back)
  where
    there : Memᴰ x (a ∷ ls) → Memᴰ x (a ∷ bs)
    there (Memᴰ.head e) = Memᴰ.head e
    there (Memᴰ.tail m) = Memᴰ.tail (to m)

    back : Memᴰ x (a ∷ bs) → Memᴰ x (a ∷ ls)
    back (Memᴰ.head e) = Memᴰ.head e
    back (Memᴰ.tail m) = Memᴰ.tail (from m)

pub mem-ordered : (x : Scheme) (ss : List Scheme) → Memᴰ x (ordered ss) ↔ Memᴰ x ss
unfolding ordered
mem-ordered x [] = (λ m. m, λ m. m)
mem-ordered x (a ∷ as_) =
    let (to, from) = mem-insert_scheme x a (ordered as_) in
    let (there, back) = keep_tail {x = x} {a = a} (mem-ordered x as_) in
    (λ m. there (to m), λ m. from (back m))

abbrev pub ref_of : Scheme → String × String
ref_of s = (s.code, s.provider_model)

map-mem_cons :
    {p : String × String} (s : Scheme) (ss : List Scheme)
    → (Memᴰ p (map ref_of ss) → (t : Scheme) × Memᴰ t ss × (p ≡ ref_of t))
    → Memᴰ p (ref_of s ∷ map ref_of ss)
    → (t : Scheme) × Memᴰ t (s ∷ ss) × (p ≡ ref_of t)
map-mem_cons s ss later (Memᴰ.head e) = (s, Memᴰ.head refl, e)
map-mem_cons s ss later (Memᴰ.tail k) = let (t, there, e) = later k in (t, Memᴰ.tail there, e)

map-mem :
    {p : String × String} (ss : List Scheme)
    → Memᴰ p (map ref_of ss)
    → (s : Scheme) × Memᴰ s ss × (p ≡ ref_of s)
map-mem [] m = elim m [ ]
map-mem (s ∷ ss) m = map-mem_cons s ss (map-mem ss) m

mem-map : {s : Scheme} {ss : List Scheme} → Memᴰ s ss → Memᴰ (ref_of s) (map ref_of ss)
mem-map (Memᴰ.head e) = Memᴰ.head (ap ref_of e)
mem-map (Memᴰ.tail m) = Memᴰ.tail (mem-map m)

-- After any reads, creations, writes and deletions, starting with an empty cache, the result of
-- `_get_active_schemes` holds exactly the code and provider of the stored schemes that are active.
pub get_active_schemes_iff :
    (es : List Event) (r : Registry) (p : String × String)
    → r.cache ≡ none
    → Memᴰ p (get_active_schemes (run es r)).0
      ↔ ((s : Scheme) × Memᴰ s (run es r).schemes × (s.active ≡ true) × (p ≡ ref_of s))
unfolding read_active_schemes
get_active_schemes_iff es r p h = rw (get_active_schemes_fresh es r h) (
  λ m.
      let (s, k, e) = map-mem _ m in
      let (there, active) = keep_if-true (λ s. s.active) _ ((mem-ordered s _).0 k) in
      (s, there, active, e),
  λ (s, m, active, e). rw e (mem-map ((mem-ordered s _).1 (keep_if-mem (λ s. s.active) m active))),
)
