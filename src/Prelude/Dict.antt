-- ===== src/Prelude/Dict.antt =====
-- Python's `dict` with text keys, as an association list; its order is not modelled.
use ssi_rest_api.Prelude.Tests.{if◌then◌else◌}
use Prim.Native.String.{String}
use mathlib.Core.Path.{◌≡◌, refl}
use mathlib.Core.Option.{Option, none, some}
use mathlib.Core.List.{List, [], ◌∷◌}
use native.Mathlib.Omega.{arith}
use text.Mathlib.Text.{◌==◌}
use text.Mathlib.TextEquality.{eq_iff}

abbrev pub Dict {ℓ} : Type ℓ → Type ℓ
Dict V = List (String × V)

module _ {ℓ} {V : Type ℓ} where
  -- `d.get(key)`
  unfoldable pub lookup : String → Dict V → Option V
  lookup key [] = none
  lookup key (entry ∷ rest) = if entry.0 == key then some entry.1 else lookup key rest

  -- `d[new.0] = new.1`
  unfoldable pub insert : String × V → Dict V → Dict V
  insert new [] = new ∷ []
  insert new (entry ∷ rest) = if entry.0 == new.0 then new ∷ rest else entry ∷ insert new rest

  -- `{**d, **more}`, for `more` without repeated keys the same as inserting its entries from the last
  -- to the first.
  unfoldable pub update : Dict V → Dict V → Dict V
  unfolding insert
  update d [] = d
  update d (new ∷ more) = insert new (update d more)

  abbrev pub or_else : Option V → Option V → Option V
  or_else none b = b
  or_else (some v) b = some v

  pub lookup-insert :
      (new : String × V) (d : Dict V) (key : String)
      → lookup key (insert new d) ≡ (if new.0 == key then some new.1 else lookup key d)
  unfolding insert lookup
  lookup-insert new [] key = refl
  lookup-insert new (entry ∷ rest) key = ground (
    arith,
    eq_iff entry.0 new.0,
    eq_iff entry.0 key,
    eq_iff new.0 key,
    lookup-insert new rest key,
  )

  -- What `more` binds wins, and the rest is as in `d`.
  pub lookup-update :
      (d more : Dict V) (key : String)
      → lookup key (update d more) ≡ or_else (lookup key more) (lookup key d)
  unfolding update lookup
  lookup-update d [] key = refl
  lookup-update d (new ∷ more) key =
      ground (arith, lookup-insert new (update d more) key, lookup-update d more key)
