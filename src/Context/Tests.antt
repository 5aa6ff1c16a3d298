-- ===== src/Context/Tests.antt =====
-- Tests of Context, and the use of its theorem on a concrete request.
use ssi_rest_api.Prelude.{
  ℕ, String, ◌≡◌, ◌↔◌, refl, Option, none, some, [], ◌∷◌, ◌==◌, if◌then◌else◌,
}
use ssi_rest_api.Prelude.Int.{pos, negsuc}
use ssi_rest_api.Errors.{rest_auth_error}
use ssi_rest_api.Dispatcher.Arguments.{returns, raises}
use ssi_rest_api.Context.{
  User, Context, parse_int, language_code, resolve_lang, first_given, resolve_company,
  requested_company,
}
use ssi_rest_api.Context.Company.{MayRunIn, resolve_company_iff}

int_tests :
    (parse_int " 1_0\n" ≡ some (pos 10))
    × (parse_int "-2" ≡ some (negsuc 1))
    × (parse_int "+007" ≡ some (pos 7))
    × (parse_int "1__0" ≡ none)
    × (parse_int "_1" ≡ none)
    × (parse_int "1_" ≡ none)
    × (parse_int "" ≡ none)
    × (parse_int "+" ≡ none)
    × (parse_int "+-1" ≡ none)
unfolding parse_int
int_tests = (refl, refl, refl, refl, refl, refl, refl, refl, refl)

abbrev ann : User
ann = record { company_id = 1; company_ids = 1 ∷ 3 ∷ [] }

abbrev before : Context
before = record { allowed_company_ids = none; lang = some "en_US" }

company_tests :
    (requested_company {R = ℕ} none ann (1 ∷ 2 ∷ 3 ∷ []) ≡ returns 1)
    × (requested_company {R = ℕ} (some "3") ann (1 ∷ 2 ∷ 3 ∷ []) ≡ returns 3)
    × (requested_company {R = ℕ} (some "2") ann (1 ∷ 2 ∷ 3 ∷ [])
        ≡ raises
            (rest_auth_error "access_denied" "You are not allowed to access this company." 403 []))
unfolding requested_company
company_tests = (refl, refl, refl)

abbrev known_language : String → Option String
known_language code = if code == "id_ID" then some "id_ID" else none

language_tests :
    (language_code "id-ID;q=0.9, en" ≡ "id_ID")
    × (resolve_lang known_language (some "id-ID,en") before ≡ record before { lang = some "id_ID" })
    × (resolve_lang known_language (some "fr") before ≡ before)
unfolding language_code resolve_lang
language_tests = (refl, refl, refl)

resolve_company_iff_example :
    (resolve_company {R = Unit {0}} (some "3") none ann (1 ∷ 2 ∷ 3 ∷ []) before
      ≡ (returns tt, record before { allowed_company_ids = some (3 ∷ []) }))
    ↔ ((c : ℕ) × MayRunIn (first_given (some "3") none) ann (1 ∷ 2 ∷ 3 ∷ []) c
        × (record before { allowed_company_ids = some (c ∷ []) }
            ≡ record before { allowed_company_ids = some (3 ∷ []) }))
resolve_company_iff_example =
    resolve_company_iff (some "3") none ann (1 ∷ 2 ∷ 3 ∷ []) before
      (record before { allowed_company_ids = some (3 ∷ []) })
