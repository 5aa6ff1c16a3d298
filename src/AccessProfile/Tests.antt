-- ===== src/AccessProfile/Tests.antt =====
-- Access profiles at concrete rules, users and requests.
use ssi_rest_api.Prelude.{◌≡◌, refl, ◌↔◌, ◌⊎◌, inr, true, false, none, some, [], ◌∷◌, arith}
use ssi_rest_api.Prelude.Int.{pos, negsuc}
use ssi_rest_api.Prelude.Text.{split, strip, upper}
use ssi_rest_api.Prelude.Members.{Memᴰ}
use ssi_rest_api.AccessProfile.{
  Effect, Operation, Rule, Request, Profile, User, matches_request, path_matched, method_matched,
  model_matched, operation_matched, evaluate_request, check_request_access,
}
use ssi_rest_api.AccessProfile.Glob.{fnmatchcase}
use ssi_rest_api.AccessProfile.Evaluation.{least_matching_rule_decides}
use ssi_rest_api.AccessProfile.Access.{Applies, check_request_access_iff}
use ssi_rest_api.AccessProfile.Patterns.{HasPrefix, prefix_rule_iff}

matching : Unit {0}
unfolding matches_request path_matched method_matched model_matched operation_matched fnmatchcase
    split strip upper
matching = tt

abbrev deny_all : Rule
deny_all = record {
  sequence = pos 20;
  effect = Effect.deny;
  path_pattern = none;
  invert = false;
  http_methods = none;
  model_pattern = none;
  operation = Operation.any;
}

abbrev read_partner : Rule
read_partner = record {
  sequence = negsuc 0;
  effect = Effect.allow;
  path_pattern = some "/api/v1/orm/*";
  invert = false;
  http_methods = some " get, HEAD,";
  model_pattern = some "res.*";
  operation = Operation.read;
}

abbrev orm_only : Rule
orm_only = record deny_all { path_pattern = some "/api/v1/orm/*"; effect = Effect.allow }

abbrev reading : Request
reading = record {
  path = "/api/v1/orm/res.partner/read";
  http_method = "GET";
  model = some "res.partner";
  operation = some "read";
}

abbrev writing : Request
writing = record reading { http_method = "POST"; operation = some "write" }

match_tests :
    (matches_request read_partner reading ≡ true)
    × (matches_request read_partner writing ≡ false)
    × (matches_request (record read_partner { invert = true }) reading ≡ false)
    × (matches_request read_partner (record reading { model = none }) ≡ false)
    × (matches_request (record deny_all { http_methods = some " ," }) reading ≡ false)
unfolding matching
match_tests = (refl, refl, refl, refl, refl)

abbrev partner_profile : Profile
partner_profile = record {
  id = 1;
  active = true;
  default_effect = Effect.deny;
  rule_ids = deny_all ∷ read_partner ∷ [];
  user_ids = [];
  group_ids = 7 ∷ [];
}

abbrev empty_profile : Profile
empty_profile = record partner_profile { id = 2; rule_ids = []; user_ids = 3 ∷ [] }

abbrev ann : User
ann = record { id = 3; all_group_ids = 1 ∷ 7 ∷ [] }

check_tests :
    (check_request_access (partner_profile ∷ []) ann reading ≡ true)
    × (check_request_access (partner_profile ∷ []) ann writing ≡ false)
    × (check_request_access (empty_profile ∷ []) ann reading ≡ false)
    × (check_request_access (record empty_profile { active = false } ∷ []) ann reading ≡ true)
    × (check_request_access [] ann writing ≡ true)
unfolding matching check_request_access
check_tests = (refl, refl, refl, refl, refl)

least_matching_rule_decides_example : evaluate_request partner_profile reading ≡ true
unfolding matching
least_matching_rule_decides_example =
    least_matching_rule_decides partner_profile reading (deny_all ∷ []) [] read_partner refl refl
      ((λ _. refl), tt) tt

Applies-ann : Applies ann partner_profile
Applies-ann = (refl, inr (7, Memᴰ.head refl, Memᴰ.tail (Memᴰ.head refl)))

check_request_access_iff_example :
    (check_request_access (partner_profile ∷ []) ann reading ≡ true) ↔ (
      ((p : Profile) → Memᴰ p (partner_profile ∷ []) → ¬ Applies ann p)
      ⊎ ((p : Profile) × Memᴰ p (partner_profile ∷ [])
          × Applies ann p
          × (evaluate_request p reading ≡ true)))
check_request_access_iff_example = check_request_access_iff (partner_profile ∷ []) ann reading

in_both :
    (x : Profile) → Memᴰ x (partner_profile ∷ []) → Memᴰ x (empty_profile ∷ partner_profile ∷ [])
in_both x m = Memᴰ.tail m

prefix_rule_iff_example :
    (orm_only.invert ≡ false
      → (matches_request orm_only reading ≡ true) ↔ HasPrefix "/api/v1/orm/" reading.path)
    × (orm_only.invert ≡ true
        → (matches_request orm_only reading ≡ true) ↔ (¬ HasPrefix "/api/v1/orm/" reading.path))
prefix_rule_iff_example =
    prefix_rule_iff orm_only reading "/api/v1/orm/" (omega arith) refl (refl, refl, refl)
