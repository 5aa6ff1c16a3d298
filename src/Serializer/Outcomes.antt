-- ===== src/Serializer/Outcomes.antt =====
-- What a call can come to when Odoo may refuse a read.
use ssi_rest_api.Serializer.{Result, ok, fails, bind, Failure, refused, ValidationError}
use ssi_rest_api.Prelude.{Option, none, some, ◌≡◌, refl, String, Bool, true, false, if◌then◌else◌}

module _ (Refused : String → Type 0) {A : Type 0} where
  -- The call gives a value with the property, or raises what Odoo raises for a read, for a reason of
  -- which `Refused` holds.
  abbrev pub Yields : (A → Type 0) → Result A → Type 0
  Yields P (ok a) = P a
  Yields P (fails (refused reason)) = Refused reason
  Yields P (fails (Failure.invalid e)) = ⊥
  Yields P (fails (Failure.key_error name)) = ⊥
  Yields P (fails Failure.not_singleton) = ⊥
  Yields P (fails Failure.index_error) = ⊥
  Yields P (fails Failure.bad_base64) = ⊥

-- The same for a call that validates first: it raises what the validation raises.
abbrev pub Answers :
    (Refused : String → Type 0) {A : Type 0}
    → Option ValidationError
    → (A → Type 0)
    → Result A
    → Type 0
Answers Refused none P r = Yields Refused P r
Answers Refused (some e) P r = r ≡ fails (Failure.invalid e)

pub Yields-bind :
    (Refused : String → Type 0) {A B : Type 0} (P : A → Type 0) (Q : B → Type 0) (r : Result A)
    (f : A → Result B)
    → Yields Refused P r
    → ((a : A) → P a → Yields Refused Q (f a))
    → Yields Refused Q (bind r f)
Yields-bind Refused P Q (ok a) f h next = next a h
Yields-bind Refused P Q (fails (refused reason)) f h next = h
Yields-bind Refused P Q (fails (Failure.invalid e)) f h next = absurd h
Yields-bind Refused P Q (fails (Failure.key_error name)) f h next = absurd h
Yields-bind Refused P Q (fails Failure.not_singleton) f h next = absurd h
Yields-bind Refused P Q (fails Failure.index_error) f h next = absurd h
Yields-bind Refused P Q (fails Failure.bad_base64) f h next = absurd h

pub Yields-map :
    (Refused : String → Type 0) {A : Type 0} (P Q : A → Type 0) (r : Result A)
    → Yields Refused P r
    → ((a : A) → P a → Q a)
    → Yields Refused Q r
Yields-map Refused P Q (ok a) h weaken = weaken a h
Yields-map Refused P Q (fails (refused reason)) h weaken = h
Yields-map Refused P Q (fails (Failure.invalid e)) h weaken = absurd h
Yields-map Refused P Q (fails (Failure.key_error name)) h weaken = absurd h
Yields-map Refused P Q (fails Failure.not_singleton) h weaken = absurd h
Yields-map Refused P Q (fails Failure.index_error) h weaken = absurd h
Yields-map Refused P Q (fails Failure.bad_base64) h weaken = absurd h

-- What a call yields is what it returned.
pub Yields-returned :
    (Refused : String → Type 0) {A : Type 0} (P : A → Type 0) (r : Result A)
    → Yields Refused P r
    → Yields Refused (λ a. P a × (r ≡ ok a)) r
Yields-returned Refused P (ok a) h = (h, refl)
Yields-returned Refused P (fails (refused reason)) h = h
Yields-returned Refused P (fails (Failure.invalid e)) h = absurd h
Yields-returned Refused P (fails (Failure.key_error name)) h = absurd h
Yields-returned Refused P (fails Failure.not_singleton) h = absurd h
Yields-returned Refused P (fails Failure.index_error) h = absurd h
Yields-returned Refused P (fails Failure.bad_base64) h = absurd h

pub Yields-if :
    (Refused : String → Type 0) {A : Type 0} (b : Bool) (P Q : A → Type 0) (r s : Result A)
    → Yields Refused P r
    → Yields Refused Q s
    → Yields Refused (if b then P else Q) (if b then r else s)
Yields-if Refused true P Q r s h k = h
Yields-if Refused false P Q r s h k = k

pub if-if :
    {A : Type 0} (b : Bool) (P Q : A → Type 0) {x y : A}
    → P x
    → Q y
    → (if b then P else Q) (if b then x else y)
if-if true P Q h k = h
if-if false P Q h k = k
