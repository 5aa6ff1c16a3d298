-- ===== src/Oauth/Expiry.antt =====
-- `_gc_expired_oauth_token` of ssi_rest_oauth_token.py against `_lookup`.
use ssi_rest_api.Prelude.{
  ℕ, String, ◌≡◌, ◌≤◌, refl, ap, inl, inr, Bool, true, Option, none, List, [], ◌∷◌, ◌==◌, arith,
  keep_if, Bool-cases, if◌then◌else◌,
}
use ssi_rest_api.Prelude.Int.{ℤ, pos, negsuc, leb_ℤ, exceeds}
use ssi_rest_api.Oauth.{
  Crypto, Client, Token, TokenType, Store, first_where, hash_matches, in_domain, lookup_token,
  gc_expired,
}

keep_if-keep_if {ℓ} :
    {A : Type ℓ} (p q : A → Bool) (xs : List A)
    → ((x : A) → p x ≡ true → q x ≡ true)
    → keep_if p (keep_if q xs) ≡ keep_if p xs
keep_if-keep_if p q [] h = refl
keep_if-keep_if p q (x ∷ xs) h = elim (Bool-cases (p x)) [
  | inl e ↦ rw (h x e, e, keep_if-keep_if p q xs h)
  | inr e ↦ elim (Bool-cases (q x)) [
    | inl k ↦ rw (k, e, keep_if-keep_if p q xs h)
    | inr k ↦ rw (k, e, keep_if-keep_if p q xs h)
  ]
]

exceeds-leb :
    (a : ℤ) (now later : ℕ) → now ≤ later → exceeds a later ≡ true → leb_ℤ (pos now) a ≡ true
exceeds-leb (pos a) now later l h = ground arith
exceeds-leb (negsuc a) now later l h = absurd (cc)

in_domain-unexpired :
    (raw : String) (type : TokenType) (client : Option Client) (now : ℕ) (t : Token)
    → in_domain raw type client now t ≡ true
    → exceeds t.expiration_date now ≡ true
unfolding in_domain
in_domain-unexpired raw type client now t h = ground arith

-- Collecting the expired rows at one time changes no answer of _lookup at that time or later.
pub lookup_token-gc_expired :
    (crypto : Crypto) (raw : String) (type : TokenType) (client : Option Client) (now later : ℕ)
    (s : Store)
    → now ≤ later
    → lookup_token crypto raw type client later (gc_expired now s)
      ≡ lookup_token crypto raw type client later s
unfolding lookup_token gc_expired
lookup_token-gc_expired crypto raw type client now later s l =
    ap (λ ts. if raw == "" then none else first_where (hash_matches crypto raw) ts)
      (keep_if-keep_if (in_domain raw type client later) (λ t. leb_ℤ (pos now) t.expiration_date)
        s.tokens
        (λ t h.
          exceeds-leb t.expiration_date now later l
            (in_domain-unexpired raw type client later t h)))
