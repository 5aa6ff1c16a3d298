-- ===== src/Jwt/Events.antt =====
-- What happens to the issuers and the cache of one process: edits of the records, and requests whose token
-- the provider verifies, each a step of its own.
use ssi_rest_api.Jwt.{PyJwt, Issuer, State}
use ssi_rest_api.Jwt.Issuers.{Vals, create, write, unlink}
use ssi_rest_api.Jwt.Provider.{jwt_verify}
use ssi_rest_api.Prelude.{ℕ, String, List, [], ◌∷◌}

pub data Event : Type 0 where
  created : Issuer → Event
  written : List ℕ → Vals → Event
  unlinked : List ℕ → Event
  requested : (now : ℕ) (token : String) → Event

module _ {V Key Client : Type 0} (jwt : PyJwt V Key Client) where
  unfoldable pub apply : Event → State Client → State Client
  unfolding create write unlink jwt_verify
  apply (created i) s = (create i s).1
  apply (written ids v) s = (write ids v s).1
  apply (unlinked ids) s = unlink ids s
  apply (requested now token) s = (jwt_verify {R = Unit} jwt now token s).1

  unfoldable pub run : List Event → State Client → State Client
  unfolding apply
  run [] s = s
  run (e ∷ es) s = run es (apply e s)
