-- ===== src/Errors/Messages.antt =====
-- What an error answer tells the client (ssi_rest_api/lib/errors.py): the code of each class, and
-- which messages stay on the server.
use ssi_rest_api.Prelude.{ℕ, String, ◌≡◌, refl, ◌↔◌, true, Option, none, some, arith, eq_iff, ap}
use ssi_rest_api.Errors.{
  UserErrorClass, user_error, missing_error, lock_error, access_denied, access_error, derived,
  Exception, rest_auth_error, http_exception, odoo_error, unclassified, classify_exception, EnvUser,
  Env, user_may_see, traceback_disclosure_allowed,
}

-- The code of a `UserError`, by its class and not by a search in the map.
abbrev pub code_of : UserErrorClass → String
code_of missing_error = "missing_record"
code_of lock_error = "lock_error"
code_of access_denied = "access_denied"
code_of access_error = "access_denied"
code_of user_error = "validation_error"
code_of (derived _) = "validation_error"

module _ {R : Type 0} where
  -- The text of an instance, which only these two kinds of exception may show to a client: those
  -- that the API raises for the client, and Odoo's errors other than denials of access.
  abbrev pub with_text : Exception R → String → Exception R
  with_text (rest_auth_error c d s h) m = rest_auth_error c m s h
  with_text (http_exception c r) m = http_exception c r
  with_text (odoo_error c s _) m = odoo_error c s m
  with_text (unclassified _) m = unclassified m

  abbrev pub IsConfidential : Exception R → Type 0
  IsConfidential (rest_auth_error c d s h) = ⊥
  IsConfidential (http_exception c r) = Unit
  IsConfidential (odoo_error access_denied s m) = Unit
  IsConfidential (odoo_error access_error s m) = Unit
  IsConfidential (odoo_error _ s m) = ⊥
  IsConfidential (unclassified m) = Unit

-- Every Odoo UserError is answered with its own http_status and the code of its class:
-- missing_record, lock_error, access_denied for both denials, and validation_error for UserError
-- and every other subclass.
pub classify_exception-odoo_error :
    (R : Type 0) (c : UserErrorClass) (s : ℕ) (m : String)
    → ((classify_exception {R = R} (odoo_error c s m)).status ≡ s)
      × ((classify_exception {R = R} (odoo_error c s m)).code ≡ code_of c)
unfolding classify_exception
classify_exception-odoo_error R user_error s m = (refl, refl)
classify_exception-odoo_error R missing_error s m = (refl, refl)
classify_exception-odoo_error R lock_error s m = (refl, refl)
classify_exception-odoo_error R access_denied s m = (refl, refl)
classify_exception-odoo_error R access_error s m = (refl, refl)
classify_exception-odoo_error R (derived n) s m = (refl, refl)

-- For a denial of access, an exception of werkzeug and an unknown exception the classification is
-- the same whatever the text of the exception; for every other exception the message is that text.
pub classify_exception_text :
    {R : Type 0} (e : Exception R)
    → (IsConfidential e → (m : String) → classify_exception (with_text e m) ≡ classify_exception e)
      × (¬ IsConfidential e → (m : String) → (classify_exception (with_text e m)).message ≡ m)
unfolding classify_exception
classify_exception_text (rest_auth_error c d s h) = (λ k. absurd k, λ _ m. refl)
classify_exception_text (http_exception c r) = (λ _ m. refl, λ k. absurd (k tt))
classify_exception_text (odoo_error user_error s t) = (λ k. absurd k, λ _ m. refl)
classify_exception_text (odoo_error missing_error s t) = (λ k. absurd k, λ _ m. refl)
classify_exception_text (odoo_error lock_error s t) = (λ k. absurd k, λ _ m. refl)
classify_exception_text (odoo_error access_denied s t) = (λ _ m. refl, λ k. absurd (k tt))
classify_exception_text (odoo_error access_error s t) = (λ _ m. refl, λ k. absurd (k tt))
classify_exception_text (odoo_error (derived n) s t) = (λ k. absurd k, λ _ m. refl)
classify_exception_text (unclassified t) = (λ _ m. refl, λ k. absurd (k tt))

-- What the two conditions on a user and the parameter say.
user_may_see-true :
    (user : Option EnvUser) (param : Option String)
    → user_may_see user param ≡ true
    → (u : EnvUser) × (user ≡ some u) × (u.in_group_system ≡ true) × (param ≡ some "True")
unfolding user_may_see
user_may_see-true none param h = cc
user_may_see-true (some u) none h = ground arith
user_may_see-true (some u) (some v) h =
    (u, refl, ground arith, ap some ((eq_iff v "True").0 (ground arith)))

user_may_see_of :
    (user : Option EnvUser) (param : Option String) (u : EnvUser)
    → user ≡ some u
    → u.in_group_system ≡ true
    → param ≡ some "True"
    → user_may_see user param ≡ true
unfolding user_may_see
user_may_see_of user param u a b c = rw (a, b, c)

-- A traceback may be disclosed exactly when there is an environment with a user in the system group
-- and the parameter is stored as "True".
pub traceback_disclosure_allowed_iff :
    (env : Option Env)
    → (traceback_disclosure_allowed env ≡ true) ↔ (
        (e : Env) × (u : EnvUser) × (env ≡ some e)
        × (e.user ≡ some u)
        × (u.in_group_system ≡ true)
        × (e.expose_traceback ≡ some "True"))
unfolding traceback_disclosure_allowed
traceback_disclosure_allowed_iff none = (λ h. cc, λ (e, u, same, _, _, _). cc)
traceback_disclosure_allowed_iff (some e) = (
  λ h. let (u, a, b, c) = user_may_see-true e.user e.expose_traceback h in (e, u, refl, a, b, c),
  λ (x, u, same, a, b, c).
      let found : e ≡ x = cc in rw found (user_may_see_of x.user x.expose_traceback u a b c),
)
