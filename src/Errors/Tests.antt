-- ===== src/Errors/Tests.antt =====
-- Error answers at concrete exceptions.
use ssi_rest_api.Prelude.{ℕ, ◌≡◌, refl, true, false, none, some, []}
use ssi_rest_api.Errors.{
  missing_error, access_error, request_entity_too_large, other_status, Exception, rest_auth_error,
  http_exception, odoo_error, classify_exception, Env, traceback_disclosure_allowed, internal_error,
}

abbrev hidden : Exception ℕ
hidden = odoo_error access_error 403 "res.partner is forbidden"

classify_tests :
    (classify_exception hidden ≡ record {
      status = 403;
      code = "access_denied";
      message = "You are not allowed to perform this action.";
    })
    × (classify_exception {R = ℕ} (odoo_error missing_error 404 "gone")
        ≡ record { status = 404; code = "missing_record"; message = "gone" })
    × ((classify_exception {R = ℕ} (http_exception request_entity_too_large none)).status ≡ 413)
    × (classify_exception {R = ℕ} (http_exception (other_status 400) none) ≡ internal_error)
    × (classify_exception {R = ℕ} (rest_auth_error "expired" "Expired." 401 [])
        ≡ record { status = 401; code = "expired"; message = "Expired." })
unfolding classify_exception
classify_tests = (refl, refl, refl, refl, refl)

abbrev admin : Env
admin = record { user = some (record { in_group_system = true }); expose_traceback = some "True" }

disclosure_tests :
    (traceback_disclosure_allowed (some admin) ≡ true)
    × (traceback_disclosure_allowed (some (record admin { expose_traceback = none })) ≡ false)
    × (traceback_disclosure_allowed none ≡ false)
unfolding traceback_disclosure_allowed
disclosure_tests = (refl, refl, refl)
