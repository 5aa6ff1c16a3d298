-- ===== src/Oauth/Events.antt =====
-- What happens to the clients and the tokens of the OAuth2 module, one request or maintenance step at
-- a time: the endpoints, the vacuum, the revocation by hand, and the administration of clients, whose
-- tokens a deletion cascades to (`ondelete="cascade"`). An authorized request whose registered address
-- `urlsplit` refuses is rolled back (Oauth/Endpoints/Location) and is no event.
use ssi_rest_api.Prelude.{ℕ, String, ◌≢◌, not, Option, List, [], ◌∷◌, nat_eq, keep_if}
use ssi_rest_api.Prelude.Dict.{Dict}
use ssi_rest_api.Oauth.{Crypto, Draw, Client, Store, revoke_rows, gc_expired, raw_value}
use ssi_rest_api.Oauth.Endpoints.{authorize, token, revoke}

pub record State : Type 0 where
  pub clients : List Client
  pub store : Store

pub data Event : Type 0 where
  authorized : (user : ℕ) (kw : Dict String) (now : ℕ) (d : Draw) → Event
  exchanged : (header : Option String) (kw : Dict String) (now : ℕ) (d1 d2 : Draw) → Event
  revoked_by_client : (header : Option String) (kw : Dict String) → Event
  revoked_by_hand : (ids : List ℕ) → Event
  collected : (now : ℕ) → Event
  clients_edited : (clients : List Client) → Event
  client_deleted : (id : ℕ) → Event

unfoldable pub drop_client : ℕ → Store → Store
drop_client id s = record s { tokens = keep_if (λ t. not (nat_eq t.client id)) s.tokens }

module _ (crypto : Crypto) (decode : String → Option String) where
  unfoldable pub apply : Event → State → State
  unfolding authorize token revoke revoke_rows gc_expired drop_client
  apply (authorized user kw now d) st = record st {
    store = (authorize crypto decode {R = Unit {0}} st.clients user kw now d st.store).1;
  }
  apply (exchanged header kw now d1 d2) st = record st {
    store = (token crypto decode {R = Unit {0}} st.clients header kw now d1 d2 st.store).1;
  }
  apply (revoked_by_client header kw) st = record st {
    store = (revoke crypto decode {R = Unit {0}} st.clients header kw st.store).1;
  }
  apply (revoked_by_hand ids) st = record st { store = revoke_rows ids st.store }
  apply (collected now) st = record st { store = gc_expired now st.store }
  apply (clients_edited clients) st = record st { clients = clients }
  apply (client_deleted id) st = record {
    clients = keep_if (λ c. not (nat_eq c.id id)) st.clients;
    store = drop_client id st.store;
  }

  unfoldable pub run : List Event → State → State
  unfolding apply
  run [] st = st
  run (e ∷ es) st = run es (apply e st)

-- No issue of the event draws the text `raw`.
abbrev pub Avoids : String → Event → Type 0
Avoids raw (authorized user kw now d) = raw_value d ≢ raw
Avoids raw (exchanged header kw now d1 d2) = (raw_value d1 ≢ raw) × (raw_value d2 ≢ raw)
Avoids raw _ = Unit
