-- ===== src/ApiKey/Spec.antt =====
-- What the module of API keys promises: a key opens what was asked for when it was made. The specification
-- remembers the key itself, and no index, hash or date of use.
use ssi_rest_api.ApiKey.{is_later, is_text, generate_raw_key, invalid_credential, key_result}
use ssi_rest_api.ApiKey.Events.{Event, Form, created, edited, generated, unlinked, authenticated}
use ssi_rest_api.Auth.{RestAuthResult}
use ssi_rest_api.Dispatcher.Arguments.{Outcome, returns, raises}
use ssi_rest_api.Oauth.{Draw, first_where}
use ssi_rest_api.Prelude.{
  ℕ, suc, String, Bool, not, ◌&&◌, Option, none, some, List, [], ◌∷◌, map, nat_eq, keep_if,
  if◌then◌else◌,
}

pub record Grant : Type 0 where
  pub id : ℕ
  pub form : Form
  pub secret : Option String

-- The newest first, and the id of the next one.
pub record Grants : Type 0 where
  pub grants : List Grant
  pub next_id : ℕ

abbrev pub change_grant : ℕ → (Grant → Grant) → Grants → Grants
change_grant id change s = record s {
  grants = map (λ g. if nat_eq g.id id then change g else g) s.grants;
}

abbrev pub with_secret : String → Grant → Grant
with_secret raw g = record g { secret = some raw }

abbrev pub accepts : String → ℕ → Grant → Bool
accepts raw now g = is_text raw g.secret && g.form.active && is_later now g.form.expiration_date

abbrev pub answer : {R : Type 0} → Option Grant → Outcome R RestAuthResult
answer none = raises invalid_credential
answer (some g) = returns (key_result g.form.user_id g.form.profile_id)

-- The newest key that is the text itself, active and not expired.
unfoldable pub verify_text : {R : Type 0} → String → ℕ → Grants → Outcome R RestAuthResult
verify_text raw now s = answer (first_where (accepts raw now) s.grants)

-- A request changes nothing.
unfoldable pub grant_all : List (ℕ × Draw) → Grants → Grants
unfolding generate_raw_key
grant_all [] s = s
grant_all ((id, d) ∷ more) s = grant_all more (change_grant id (with_secret (generate_raw_key d)) s)

unfoldable pub apply : Event → Grants → Grants
unfolding grant_all
apply (created form) s = record {
  grants = record { id = s.next_id; form = form; secret = none } ∷ s.grants;
  next_id = suc s.next_id;
}
apply (edited id form) s = change_grant id (λ g. record g { form = form }) s
apply (generated draws) s = grant_all draws s
apply (unlinked id) s = record s { grants = keep_if (λ g. not (nat_eq g.id id)) s.grants }
apply (authenticated raw skips succeeds now) s = s

unfoldable pub run : List Event → Grants → Grants
unfolding apply
run [] s = s
run (e ∷ es) s = run es (apply e s)

abbrev pub no_grants : Grants
no_grants = record { grants = []; next_id = 1 }
