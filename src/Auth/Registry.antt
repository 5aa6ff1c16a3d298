-- ===== src/Auth/Registry.antt =====
-- ssi_rest_api/models/ssi_rest_auth_scheme.py: the registry of authentication schemes and the cache
-- of its active ones. The database is the list of records; ids are given by the database.
use ssi_rest_api.Prelude.{
  ℕ, String, Bool, true, false, not, Option, none, some, List, [], ◌∷◌, ◌++◌, map, leb, nat_eq,
  any_of, keep_if, if◌then◌else◌,
}
use ssi_rest_api.Prelude.Int.{ℤ, leb_ℤ}

pub record Scheme : Type 0 where
  pub id : ℕ
  pub code : String
  pub provider_model : String
  pub sequence : ℤ
  pub active : Bool

-- The values of a `write`; `none` leaves the field alone.
pub record Vals : Type 0 where
  pub new_code : Option String
  pub new_provider_model : Option String
  pub new_sequence : Option ℤ
  pub new_active : Option Bool

-- The stored records, and the entry of `ormcache` for `_get_active_schemes`.
pub record Registry : Type 0 where
  pub schemes : List Scheme
  pub cache : Option (List (String × String))

-- `_order = "sequence, id"`
unfoldable pub precedes : Scheme → Scheme → Bool
precedes a b =
    if leb_ℤ a.sequence b.sequence
    then (if leb_ℤ b.sequence a.sequence then leb a.id b.id else true)
    else false

unfoldable pub insert_scheme : Scheme → List Scheme → List Scheme
insert_scheme a [] = a ∷ []
insert_scheme a (b ∷ bs) = if precedes a b then a ∷ b ∷ bs else b ∷ insert_scheme a bs

unfoldable pub ordered : List Scheme → List Scheme
unfolding insert_scheme precedes
ordered [] = []
ordered (a ∷ as_) = insert_scheme a (ordered as_)

-- The body of `_get_active_schemes`: `search([])` finds the active records in the model's order.
unfoldable pub read_active_schemes : List Scheme → List (String × String)
unfolding ordered
read_active_schemes schemes =
    map (λ s. (s.code, s.provider_model)) (ordered (keep_if (λ s. s.active) schemes))

unfoldable pub cached_or_read :
    Option (List (String × String)) → Registry → List (String × String) × Registry
cached_or_read (some found) r = (found, r)
cached_or_read none r =
    (read_active_schemes r.schemes, record r { cache = some (read_active_schemes r.schemes) })

-- `_get_active_schemes` behind its `ormcache`.
unfoldable pub get_active_schemes : Registry → List (String × String) × Registry
unfolding cached_or_read read_active_schemes
get_active_schemes r = cached_or_read r.cache r

unfoldable pub clear_cache : Registry → Registry
clear_cache r = record r { cache = none }

unfoldable pub create : List Scheme → Registry → Registry
unfolding clear_cache
create new r = clear_cache (record r { schemes = r.schemes ++ new })

abbrev pub given {ℓ} : {A : Type ℓ} → Option A → A → A
given none old = old
given (some new) old = new

write_one : Vals → Scheme → Scheme
write_one v s = record s {
  code = given v.new_code s.code;
  provider_model = given v.new_provider_model s.provider_model;
  sequence = given v.new_sequence s.sequence;
  active = given v.new_active s.active;
}

abbrev pub selects : List ℕ → Scheme → Bool
selects ids s = any_of (nat_eq s.id) ids

unfoldable pub write : List ℕ → Vals → Registry → Registry
unfolding write_one clear_cache
write ids v r =
    clear_cache
      (record r { schemes = map (λ s. if selects ids s then write_one v s else s) r.schemes })

unfoldable pub unlink : List ℕ → Registry → Registry
unfolding clear_cache
unlink ids r = clear_cache (record r { schemes = keep_if (λ s. not (selects ids s)) r.schemes })
