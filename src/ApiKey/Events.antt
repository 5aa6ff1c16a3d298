-- ===== src/ApiKey/Events.antt =====
-- What happens to the keys, one request at a time: their administration, the generation of a key, and
-- requests that are authenticated with one. Copying a key copies neither its hash nor its index.
use ssi_rest_api.ApiKey.{Key, KeyStore, write, action_generate_key, authenticate, verified_key}
use ssi_rest_api.Oauth.{Crypto, Draw}
use ssi_rest_api.Prelude.{ℕ, suc, String, Bool, not, Option, none, List, [], ◌∷◌, nat_eq, keep_if}

-- What the form of a key shows.
pub record Form : Type 0 where
  pub user_id : ℕ
  pub profile_id : ℕ
  pub expiration_date : Option ℕ
  pub active : Bool

pub data Event : Type 0 where
  created : Form → Event
  edited : (id : ℕ) → Form → Event
  generated : (draws : List (ℕ × Draw)) → Event
  unlinked : (id : ℕ) → Event
  authenticated : (raw : String) (skips succeeds : Bool) (now : ℕ) → Event

abbrev pub new_key : ℕ → Form → Key
new_key id form = record {
  id = id;
  user_id = form.user_id;
  profile_id = form.profile_id;
  key_index = none;
  key_hash = none;
  expiration_date = form.expiration_date;
  active = form.active;
  last_used_date = none;
}

abbrev pub with_form : Form → Key → Key
with_form form k = record k {
  user_id = form.user_id;
  profile_id = form.profile_id;
  expiration_date = form.expiration_date;
  active = form.active;
}

module _ (crypto : Crypto) where
  unfoldable pub apply : Event → KeyStore → KeyStore
  unfolding action_generate_key authenticate verified_key
  apply (created form) s = record {
    keys = new_key s.next_id form ∷ s.keys;
    next_id = suc s.next_id;
  }
  apply (edited id form) s = write id (with_form form) s
  apply (generated draws) s = (action_generate_key crypto draws s).1
  apply (unlinked id) s = record s { keys = keep_if (λ k. not (nat_eq k.id id)) s.keys }
  apply (authenticated raw skips succeeds now) s =
      (verified_key {R = Unit {0}} skips succeeds now (authenticate crypto raw now s) s).1

  unfoldable pub run : List Event → KeyStore → KeyStore
  unfolding apply
  run [] s = s
  run (e ∷ es) s = run es (apply e s)

abbrev pub no_keys : KeyStore
no_keys = record { keys = []; next_id = 1 }
