-- ===== src/AccessProfile.antt =====
-- ssi_rest_api/models/ssi_rest_access_profile_rule.py and ssi_rest_access_profile.py: the rules that
-- narrow which requests a user may make. Python's `fnmatch.fnmatchcase` is in AccessProfile/Glob.
-- An empty or missing `Char` field is `none` or `some ""`.
pub mod Glob
pub mod Selection
pub mod Evaluation
pub mod Access
pub mod Patterns
mod Tests
use ssi_rest_api.Prelude.{
  ℕ, String, Bool, true, false, not, ◌&&◌, ◌||◌, Option, none, some, List, [], ◌∷◌, map, ◌==◌,
  nat_eq, any_of, keep_if, contains, if◌then◌else◌,
}
use ssi_rest_api.Prelude.Int.{ℤ, leb_ℤ}
use ssi_rest_api.Prelude.Text.{strip, split, upper}
use Glob.{fnmatchcase}

pub data Effect : Type 0 where
  allow deny : Effect

pub data Operation : Type 0 where
  read write create unlink call any : Operation

pub record Rule : Type 0 where
  pub sequence : ℤ
  pub effect : Effect
  pub path_pattern : Option String
  pub invert : Bool
  pub http_methods : Option String
  pub model_pattern : Option String
  pub operation : Operation

-- The request description that `_matches_request` takes.
pub record Request : Type 0 where
  pub path : String
  pub http_method : String
  pub model : Option String
  pub operation : Option String

-- A field that Python's `if self.field` lets through.
abbrev pub filled : Option String → Option String
filled none = none
filled (some s) = if s == "" then none else some s

abbrev pub is_allow : Effect → Bool
is_allow allow = true
is_allow deny = false

abbrev operation_key : Operation → String
operation_key read = "read"
operation_key write = "write"
operation_key create = "create"
operation_key unlink = "unlink"
operation_key call = "call"
operation_key any = "any"

unfoldable pub path_matched : Option String → Bool → String → Bool
path_matched none invert path = not invert
path_matched (some p) invert path = if invert then not (fnmatchcase path p) else fnmatchcase path p

-- The set comprehension over `self.http_methods.split(",")`.
unfoldable pub allowed_methods : String → List String
allowed_methods methods =
    map (λ m. upper (strip m)) (keep_if (λ m. not (strip m == "")) (split b',' methods))

unfoldable pub method_matched : Option String → String → Bool
unfolding allowed_methods
method_matched none method = true
method_matched (some methods) method = contains (upper method) (allowed_methods methods)

abbrev or_empty : Option String → String
or_empty none = ""
or_empty (some s) = s

unfoldable pub model_matched : Option String → Option String → Bool
model_matched none model = true
model_matched (some p) model = fnmatchcase (or_empty model) p

abbrev is_operation : Option String → Operation → Bool
is_operation none o = false
is_operation (some key) o = key == operation_key o

unfoldable pub operation_matched : Operation → Option String → Bool
operation_matched any operation = true
operation_matched o operation = is_operation operation o

unfoldable pub matches_request : Rule → Request → Bool
matches_request r q =
    if not (path_matched (filled r.path_pattern) r.invert q.path)
    then false
    else if not (method_matched (filled r.http_methods) q.http_method)
    then false
    else if not (model_matched (filled r.model_pattern) q.model)
    then false
    else if not (operation_matched r.operation q.operation)
    then false
    else true

-- `rule_ids.sorted("sequence")`, a stable sort.
unfoldable pub insert_rule : Rule → List Rule → List Rule
insert_rule r [] = r ∷ []
insert_rule r (x ∷ xs) = if leb_ℤ r.sequence x.sequence then r ∷ x ∷ xs else x ∷ insert_rule r xs

unfoldable pub sorted_rules : List Rule → List Rule
unfolding insert_rule
sorted_rules [] = []
sorted_rules (r ∷ rs) = insert_rule r (sorted_rules rs)

pub record Profile : Type 0 where
  pub id : ℕ
  pub active : Bool
  pub default_effect : Effect
  pub rule_ids : List Rule
  pub user_ids : List ℕ
  pub group_ids : List ℕ

-- `user.all_group_ids` holds the implied groups.
pub record User : Type 0 where
  pub id : ℕ
  pub all_group_ids : List ℕ

-- The loop of `_evaluate_request`.
unfoldable pub first_effect : Request → Effect → List Rule → Bool
first_effect q default_effect [] = is_allow default_effect
first_effect q default_effect (r ∷ rs) =
    if matches_request r q then is_allow r.effect else first_effect q default_effect rs

unfoldable pub evaluate_request : Profile → Request → Bool
unfolding first_effect sorted_rules
evaluate_request p q = first_effect q p.default_effect (sorted_rules p.rule_ids)

-- The search domain, with the filter on `active` that `search` adds for itself.
unfoldable pub is_applicable : User → Profile → Bool
is_applicable u p =
    p.active
    && (any_of (nat_eq u.id) p.user_ids
        || any_of (λ g. any_of (nat_eq g) u.all_group_ids) p.group_ids)

unfoldable pub applicable_profiles : List Profile → User → List Profile
unfolding is_applicable
applicable_profiles stored u = keep_if (is_applicable u) stored

abbrev any_allows : Request → List Profile → Bool
any_allows q [] = true
any_allows q ps = any_of (λ p. evaluate_request p q) ps

unfoldable pub check_request_access : List Profile → User → Request → Bool
unfolding applicable_profiles evaluate_request
check_request_access stored u q = any_allows q (applicable_profiles stored u)
