-- ===== src/Prelude/Keys.antt =====
-- The keys of a dictionary: literals that write no key twice, and what their entries say of `lookup`.
use ssi_rest_api.Prelude.Dict.{Dict, lookup}
use ssi_rest_api.Prelude.Members.{Memᴰ, any_of-mem}
use ssi_rest_api.Prelude.Tests.{Bool-cases}
use ssi_rest_api.Prelude.Lists.{any_of}
use Prim.Native.String.{String}
use mathlib.Core.Path.{◌≡◌, sym, ap}
use mathlib.Core.Logic.{◌↔◌, inl, inr}
use mathlib.Core.Bool.{Bool, true, not, ◌&&◌}
use mathlib.Core.Option.{Option, some}
use mathlib.Core.List.{[], ◌∷◌}
use native.Mathlib.Omega.{arith}
use text.Mathlib.Text.{◌==◌}
use text.Mathlib.TextEquality.{eq_iff}
use text.Mathlib.TextPositions.{eq_refl}

module _ {V : Type 0} where
  abbrev pub has_key : String → Dict V → Bool
  has_key key d = any_of (λ entry. entry.0 == key) d

  -- Whether an object literal writes no key twice.
  abbrev pub distinct_keys : Dict V → Bool
  distinct_keys [] = true
  distinct_keys (entry ∷ rest) = not (has_key entry.0 rest) && distinct_keys rest

  pub lookup-mem : (d : Dict V) (key : String) (v : V) → lookup key d ≡ some v → Memᴰ (key, v) d
  unfolding lookup
  lookup-mem [] key v h = cc
  lookup-mem ((k, w) ∷ rest) key v h = elim (Bool-cases (k == key)) [
    | inl e ↦
        let same_key : k ≡ key = (eq_iff k key).0 e in
        let same_value : Option.some w ≡ some v = rw e at h in Memᴰ.head cc
    | inr e ↦ Memᴰ.tail (lookup-mem rest key v (rw e at h))
  ]

  pub has_key-mem : {d : Dict V} {key : String} {v : V} → Memᴰ (key, v) d → has_key key d ≡ true
  has_key-mem {d} {key} {v} m = any_of-mem (λ entry. entry.0 == key) m (eq_refl key)

  pub mem-lookup :
      {key : String} {v : V} {d : Dict V}
      → Memᴰ (key, v) d
      → distinct_keys d ≡ true
      → lookup key d ≡ some v
  unfolding lookup
  mem-lookup {key} {v} (Memᴰ.head {x = entry} {xs = rest} same) h =
      let same_key : (entry.0 == key) ≡ true = (eq_iff entry.0 key).1 (sym (ap (λ x. x.0) same)) in
      rw same_key (ap (λ x. some (x.1)) (sym same))
  mem-lookup {key} {v} (Memᴰ.tail {x = entry} {xs = rest} m) h =
      ground (arith, eq_iff entry.0 key, has_key-mem m, mem-lookup m)

  pub mem_iff-lookup :
      (d : Dict V) (key : String) (v : V)
      → distinct_keys d ≡ true
      → (lookup key d ≡ some v) ↔ Memᴰ (key, v) d
  mem_iff-lookup d key v h = (lookup-mem d key v, λ m. mem-lookup m h)
