-- ===== src/ApiKey/Refinement.antt =====
-- The stored keys, with their hashes and indices, refine the specification of ApiKey/Spec.
use ssi_rest_api.ApiKey.Lookup.{Agree, authenticate-Agree}
use ssi_rest_api.ApiKey.{
  Key, KeyStore, generate_raw_key, with_key, generate_new_key, action_generate_key, authenticate,
  touch_last_used_date, verified_key, apikey_provider,
}
use ssi_rest_api.ApiKey.Events.{
  Event, Form, created, edited, generated, unlinked, authenticated, new_key, with_form, no_keys,
}
use ssi_rest_api.ApiKey.Events
use ssi_rest_api.ApiKey.Rows.{
  IsExact, Represents, Pairwise, Pairwise-write, Pairwise-unlink, Pairwise-touch,
}
use ssi_rest_api.ApiKey.Spec
use ssi_rest_api.ApiKey.Spec.{
  Grant, Grants, change_grant, grant_all, with_secret, accepts, answer, verify_text, no_grants,
}
use ssi_rest_api.Oauth.{Crypto, Draw, first_where}
use ssi_rest_api.Prelude.{
  ℕ, String, ◌≡◌, refl, ap, Bool, Option, none, some, List, [], ◌∷◌, nat_eq, if_keeps, suc,
}

module _ (crypto : Crypto) (exact : IsExact crypto) where
  abbrev Refines : KeyStore → Grants → Type 0
  Refines s t = Pairwise crypto s.keys t.grants × (s.next_id ≡ t.next_id)

  with_key-Represents :
      (d : Draw) (k : Key) (g : Grant)
      → Represents crypto k g
      → Represents crypto (with_key crypto d k) (with_secret (generate_raw_key d) g)
  unfolding with_key
  with_key-Represents d k g r = record {
    same_id = r.same_id;
    user = r.user;
    profile = r.profile;
    expiration = r.expiration;
    active = r.active;
    secret = (d, refl, refl, refl);
  }

  with_form-Represents :
      (form : Form) (k : Key) (g : Grant)
      → Represents crypto k g
      → Represents crypto (with_form form k) (record g { form = form })
  with_form-Represents form k g r = record {
    same_id = r.same_id;
    user = refl;
    profile = refl;
    expiration = refl;
    active = refl;
    secret = r.secret;
  }

  touched-Represents :
      (now : ℕ) (k : Key) (g : Grant)
      → Represents crypto k g
      → Represents crypto (record k { last_used_date = some now }) g
  touched-Represents now k g r = record {
    same_id = r.same_id;
    user = r.user;
    profile = r.profile;
    expiration = r.expiration;
    active = r.active;
    secret = r.secret;
  }

  new_key-Represents :
      (form : Form) (id next : ℕ)
      → id ≡ next
      → Represents crypto (new_key id form) (record { id = next; form = form; secret = none })
  new_key-Represents form id next same = record {
    same_id = same;
    user = refl;
    profile = refl;
    expiration = refl;
    active = refl;
    secret = (refl, refl);
  }

  verified_key-Refines :
      (skips succeeds : Bool) (now : ℕ) (o : Option Key) (s : KeyStore) (t : Grants)
      → Refines s t
      → Refines (verified_key {R = Unit {0}} skips succeeds now o s).1 t
  unfolding verified_key touch_last_used_date
  verified_key-Refines skips succeeds now none s t r = r
  verified_key-Refines skips succeeds now (some k) s t r =
      if_keeps (λ s'. Refines s' t) skips r
        (if_keeps (λ s'. Refines s' t) succeeds
          (
            Pairwise-touch crypto _
                (λ row g same.
                  if_keeps (λ row'. Represents crypto row' g) (nat_eq row.id k.id)
                    (touched-Represents now row g same) same)
                s.keys t.grants r.0,
            r.1,
          )
          r)

  generate_new_key-Refines :
      (id : ℕ) (d : Draw) (s : KeyStore) (t : Grants)
      → Refines s t
      → Refines
          (generate_new_key crypto id d s).1
          (change_grant id (with_secret (generate_raw_key d)) t)
  unfolding generate_new_key
  generate_new_key-Refines id d s t (rows, next) = (
    Pairwise-write crypto id (with_key crypto d) (with_secret (generate_raw_key d))
        (with_key-Represents d) s.keys t.grants rows,
    next,
  )

  action_generate_key-Refines :
      (draws : List (ℕ × Draw)) (s : KeyStore) (t : Grants)
      → Refines s t
      → Refines (action_generate_key crypto draws s).1 (grant_all draws t)
  unfolding action_generate_key grant_all
  action_generate_key-Refines [] s t r = r
  action_generate_key-Refines ((id, d) ∷ []) s t r = generate_new_key-Refines id d s t r
  action_generate_key-Refines ((id, d) ∷ next ∷ more) s t r =
      action_generate_key-Refines (next ∷ more) (generate_new_key crypto id d s).1
        (change_grant id (with_secret (generate_raw_key d)) t) (generate_new_key-Refines id d s t r)

  apply-Refines :
      (e : Event) (s : KeyStore) (t : Grants)
      → Refines s t
      → Refines (Events.apply crypto e s) (Spec.apply e t)
  unfolding Events.apply Spec.apply
  apply-Refines (created form) s t (rows, next) =
      ((new_key-Represents form s.next_id t.next_id next, rows), ap suc next)
  apply-Refines (edited id form) s t (rows, next) = (
    Pairwise-write crypto id (with_form form) (λ g. record g { form = form })
        (with_form-Represents form) s.keys t.grants rows,
    next,
  )
  apply-Refines (generated draws) s t r = action_generate_key-Refines draws s t r
  apply-Refines (unlinked id) s t (rows, next) =
      (Pairwise-unlink crypto id s.keys t.grants rows, next)
  apply-Refines (authenticated raw skips succeeds now) s t r =
      verified_key-Refines skips succeeds now (authenticate crypto raw now s) s t r

  run-Refines :
      (es : List Event) (s : KeyStore) (t : Grants)
      → Refines s t
      → Refines (Events.run crypto es s) (Spec.run es t)
  unfolding Events.run Spec.run
  run-Refines [] s t r = r
  run-Refines (e ∷ es) s t r =
      run-Refines es (Events.apply crypto e s) (Spec.apply e t) (apply-Refines e s t r)

  verified_key-answer :
      {R : Type 0} (skips succeeds : Bool) (now : ℕ) (s : KeyStore) (o : Option Key)
      (p : Option Grant)
      → Agree crypto exact o p
      → (verified_key {R = R} skips succeeds now o s).0 ≡ answer p
  unfolding verified_key
  verified_key-answer skips succeeds now s none none a = refl
  verified_key-answer skips succeeds now s (some k) (some g) a = rw a.user (rw a.profile refl)
  verified_key-answer skips succeeds now s none (some _) a = absurd a
  verified_key-answer skips succeeds now s (some _) none a = absurd a

  -- If passlib verifies the text that was hashed and no other, and no hash is empty, then after
  -- any creations, edits, generations, deletions and authenticated requests, starting without
  -- keys, the provider answers a text as the specification does that stores the keys themselves:
  -- with the user and the one profile of the newest key that is active, not expired and was last
  -- generated as that text, and with 401 if there is none.
  pub apikey_provider-refines :
      {R : Type 0} (es : List Event) (header : Option String) (skips succeeds : Bool) (now : ℕ)
      (raw : String)
      → ((apikey_provider {R = R} crypto header skips succeeds now).rest_auth_verify raw
          (Events.run crypto es no_keys)).0
        ≡ verify_text raw now (Spec.run es no_grants)
  unfolding apikey_provider verify_text
  apikey_provider-refines es header skips succeeds now raw =
      let s = Events.run crypto es no_keys in
      let t = Spec.run es no_grants in
      verified_key-answer skips succeeds now s (authenticate crypto raw now s)
        (first_where (accepts raw now) t.grants)
        (authenticate-Agree crypto exact raw now s t.grants
          (run-Refines es no_keys no_grants (tt, refl)).0)
