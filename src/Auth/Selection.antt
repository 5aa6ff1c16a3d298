-- ===== src/Auth/Selection.antt =====
-- Which provider authenticates a request (ir_http.py, `_auth_method_ssi_rest`).
use ssi_rest_api.Prelude.{
  String, ◌≡◌, refl, sym, ap, ◌∙◌, ◌⊎◌, inl, inr, Option, none, some, List, [], ◌∷◌, ◌++◌, arith,
  All,
}
use ssi_rest_api.Errors.{rest_auth_error, http_exception, odoo_error, unclassified}
use ssi_rest_api.Dispatcher.Arguments.{Outcome, returns, raises}
use ssi_rest_api.Auth.{
  Provider, SchemeRef, guarded, Extracted, collect, keep_found, extracted, extract_one, extract_all,
}

guarded-returns : {R A : Type 0} (o : Outcome R A) (a : A) → guarded o ≡ returns a → o ≡ returns a
unfolding guarded
guarded-returns (returns b) a h = h
guarded-returns (raises (rest_auth_error c d s x)) a h = cc
guarded-returns (raises (http_exception c r)) a h = cc
guarded-returns (raises (odoo_error c s m)) a h = cc
guarded-returns (raises (unclassified m)) a h = cc

module _ {C W R : Type 0} (env : String → Option (Provider C W R)) where
  -- The request carries no credential for this scheme.
  pub record IsSilent (s : SchemeRef) : Type 0 where
    pub silent : Provider C W R
    pub known : env s.1 ≡ some silent
    pub nothing : silent.rest_auth_extract ≡ returns none

  -- The request carries the credential of `x` for this scheme.
  pub record Yields (s : SchemeRef) (x : Extracted C W R) : Type 0 where
    pub same_code : x.code ≡ s.0
    pub known : env s.1 ≡ some x.provider
    pub credential : x.provider.rest_auth_extract ≡ returns (some x.credential)

  extracted-none :
      (code : String) (p : Provider C W R) (g : Outcome R (Option C))
      → extracted env code p g ≡ returns none
      → g ≡ returns none
  unfolding extracted
  extracted-none code p (raises e) h = cc
  extracted-none code p (returns none) h = refl
  extracted-none code p (returns (some c)) h = cc

  extracted-some :
      (code : String) (p : Provider C W R) (g : Outcome R (Option C)) (x : Extracted C W R)
      → extracted env code p g ≡ returns (some x)
      → (x.code ≡ code) × (x.provider ≡ p) × (g ≡ returns (some x.credential))
  unfolding extracted
  extracted-some code p (raises e) x h = cc
  extracted-some code p (returns none) x h = cc
  extracted-some code p (returns (some c)) x h = ground arith

  extract_one-none :
      (code : String) (o : Option (Provider C W R))
      → extract_one env code o ≡ returns none
      → (p : Provider C W R) × (o ≡ some p) × (p.rest_auth_extract ≡ returns none)
  unfolding extract_one
  extract_one-none code none h = cc
  extract_one-none code (some p) h =
      (p, refl, guarded-returns p.rest_auth_extract none (extracted-none code p _ h))

  extract_one-some :
      (code : String) (o : Option (Provider C W R)) (x : Extracted C W R)
      → extract_one env code o ≡ returns (some x)
      → (x.code ≡ code)
        × (o ≡ some x.provider)
        × (x.provider.rest_auth_extract ≡ returns (some x.credential))
  unfolding extract_one
  extract_one-some code none x h = cc
  extract_one-some code (some p) x h =
      let (c, same, g) = extracted-some code p (guarded p.rest_auth_extract) x h in
      (c, ap some (sym same), rw same (guarded-returns p.rest_auth_extract (some x.credential) g))

  collect-returns :
      (x : Outcome R (Option (Extracted C W R))) (xs : Outcome R (List (Extracted C W R)))
      (ys : List (Extracted C W R))
      → collect env x xs ≡ returns ys
      → (a : Option (Extracted C W R)) × (rest : List (Extracted C W R)) × (x ≡ returns a)
        × (xs ≡ returns rest)
        × (keep_found env a rest ≡ ys)
  unfolding collect
  collect-returns (raises e) xs ys h = cc
  collect-returns (returns x) (raises e) ys h = cc
  collect-returns (returns x) (returns xs) ys h = (x, xs, refl, refl, cc)

  keep_found-nil :
      (a : Option (Extracted C W R)) (rest : List (Extracted C W R))
      → keep_found env a rest ≡ []
      → (a ≡ none) × (rest ≡ [])
  keep_found-nil none rest h = (refl, h)
  keep_found-nil (some x) rest h = cc

  keep_found-one :
      (a : Option (Extracted C W R)) (rest : List (Extracted C W R)) (x : Extracted C W R)
      → keep_found env a rest ≡ x ∷ []
      → ((a ≡ some x) × (rest ≡ [])) ⊎ ((a ≡ none) × (rest ≡ x ∷ []))
  keep_found-one none rest x h = inr (refl, h)
  keep_found-one (some y) rest x h = inl (cc, cc)

  IsSilent-of : (s : SchemeRef) → extract_one env s.0 (env s.1) ≡ returns none → IsSilent s
  IsSilent-of s h =
      let (p, known, nothing) = extract_one-none s.0 (env s.1) h in
      record { silent = p; known = known; nothing = nothing }

  Yields-of :
      (s : SchemeRef) (x : Extracted C W R)
      → extract_one env s.0 (env s.1) ≡ returns (some x)
      → Yields s x
  Yields-of s x h =
      let (c, known, credential) = extract_one-some s.0 (env s.1) x h in
      record { same_code = c; known = known; credential = credential }

  extract_all-nil :
      (schemes : List SchemeRef) → extract_all env schemes ≡ returns [] → All IsSilent schemes
  unfolding extract_all
  extract_all-nil [] h = tt
  extract_all-nil ((code, model) ∷ schemes) h =
      let (a, rest, first, more, kept) = collect-returns _ _ [] h in
      let (no_first, no_more) = keep_found-nil a rest kept in
      (
        IsSilent-of (code, model) (first ∙ ap returns no_first),
        extract_all-nil schemes (more ∙ ap returns no_more),
      )

  -- One scheme of the list yields `x`, and every other one is silent.
  pub record IsOnly (schemes : List SchemeRef) (x : Extracted C W R) : Type 0 where
    pub before : List SchemeRef
    pub scheme : SchemeRef
    pub after : List SchemeRef
    pub split : schemes ≡ before ++ scheme ∷ after
    pub before_silent : All IsSilent before
    pub yields : Yields scheme x
    pub after_silent : All IsSilent after

  IsOnly-cons :
      (s : SchemeRef) (schemes : List SchemeRef) (x : Extracted C W R)
      → IsSilent s
      → IsOnly schemes x
      → IsOnly (s ∷ schemes) x
  IsOnly-cons s schemes x h o = record {
    before = s ∷ o.before;
    scheme = o.scheme;
    after = o.after;
    split = ap (λ l. s ∷ l) o.split;
    before_silent = (h, o.before_silent);
    yields = o.yields;
    after_silent = o.after_silent;
  }

  pub extract_all-one :
      (schemes : List SchemeRef) (x : Extracted C W R)
      → extract_all env schemes ≡ returns (x ∷ [])
      → IsOnly schemes x
  unfolding extract_all
  extract_all-one [] x h = cc
  extract_all-one ((code, model) ∷ schemes) x h =
      let (a, rest, first, more, kept) = collect-returns _ _ (x ∷ []) h in
      elim (keep_found-one a rest x kept) [
        | inl (here, no_more) ↦ record {
          before = [];
          scheme = (code, model);
          after = schemes;
          split = refl;
          before_silent = tt;
          yields = Yields-of (code, model) x (first ∙ ap returns here);
          after_silent = extract_all-nil schemes (more ∙ ap returns no_more);
        }
        | inr (no_first, later) ↦
            IsOnly-cons (code, model) schemes x
              (IsSilent-of (code, model) (first ∙ ap returns no_first))
              (extract_all-one schemes x (more ∙ ap returns later))
      ]
