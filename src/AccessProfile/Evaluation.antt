-- ===== src/AccessProfile/Evaluation.antt =====
-- `_evaluate_request` of ssi_rest_access_profile.py: which rule of a profile decides a request.
use ssi_rest_api.Prelude.{
  ◌≡◌, refl, ◌∙◌, ap, Bool, true, false, Option, none, some, List, [], ◌∷◌, ◌++◌, arith, All,
}
use ssi_rest_api.Prelude.Int.{leb_ℤ}
use ssi_rest_api.AccessProfile.{
  Effect, Rule, Request, Profile, is_allow, matches_request, sorted_rules, first_effect,
  evaluate_request,
}
use ssi_rest_api.AccessProfile.Selection.{
  first_match, least_match, first_match-sorted_rules, least_match-middle, least_match-none,
}

abbrev effect_of : Effect → Option Rule → Bool
effect_of default none = is_allow default
effect_of default (some r) = is_allow r.effect

abbrev matching : Request → Rule → Bool
matching q r = matches_request r q

first_effect-first_match :
    (q : Request) (d : Effect) (rs : List Rule)
    → first_effect q d rs ≡ effect_of d (first_match (matching q) rs)
unfolding first_effect
first_effect-first_match q d [] = refl
first_effect-first_match q d (r ∷ rs) = ground (arith, first_effect-first_match q d rs)

evaluate_request-least_match :
    (p : Profile) (q : Request)
    → evaluate_request p q ≡ effect_of p.default_effect (least_match (matching q) p.rule_ids)
unfolding evaluate_request
evaluate_request-least_match p q =
    first_effect-first_match q p.default_effect (sorted_rules p.rule_ids)
    ∙ ap (effect_of p.default_effect) (first_match-sorted_rules (matching q) p.rule_ids)

-- A matching rule decides the request, in whatever order the rules are listed, if every matching
-- rule listed before it has a greater sequence and every one listed after it has a sequence that
-- is not less.
pub least_matching_rule_decides :
    (p : Profile) (q : Request) (before after : List Rule) (r : Rule)
    → p.rule_ids ≡ before ++ r ∷ after
    → matches_request r q ≡ true
    → All (λ x. matches_request x q ≡ true → leb_ℤ x.sequence r.sequence ≡ false) before
    → All (λ x. matches_request x q ≡ true → leb_ℤ r.sequence x.sequence ≡ true) after
    → evaluate_request p q ≡ is_allow r.effect
least_matching_rule_decides p q before after r e h k l =
    evaluate_request-least_match p q
    ∙ rw e (ap (effect_of p.default_effect) (least_match-middle (matching q) before after r h k l))

-- If no rule of a profile matches the request, the profile's default effect decides it.
pub default_effect_decides :
    (p : Profile) (q : Request)
    → All (λ x. matches_request x q ≡ false) p.rule_ids
    → evaluate_request p q ≡ is_allow p.default_effect
default_effect_decides p q h =
    evaluate_request-least_match p q
    ∙ ap (effect_of p.default_effect) (least_match-none (matching q) p.rule_ids h)
