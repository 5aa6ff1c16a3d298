-- ===== src/SwaggerUi/Counting.antt =====
-- How many times swagger_ui_init.js calls `SwaggerUIBundle` in one run, and by each listener.
use ssi_rest_api.Prelude.{
  ℕ, suc, ◌+◌, ◌≤◌, ◌≡◌, ◌≢◌, refl, ap, Bool, true, false, none, List, [], ◌∷◌, ◌++◌, arith, length,
  length-append, Option-cases, inl, inr,
}
use ssi_rest_api.SwaggerUi.{
  ReadyState, loading, interactive, complete, Listener, boot_callback, foreign, Bundle, Page,
  get_element_by_id, root_id, config, boot_at, boot, add_content_loaded, start,
}
use ssi_rest_api.SwaggerUi.Browser.{fire}

abbrev pub boots : List Listener → ℕ
boots [] = 0
boots (boot_callback ∷ ls) = suc (boots ls)
boots (foreign _ ∷ ls) = boots ls

pub boots-append : (ls ms : List Listener) → boots (ls ++ ms) ≡ boots ls + boots ms
boots-append [] ms = omega arith
boots-append (boot_callback ∷ ls) ms = omega (arith, boots-append ls ms)
boots-append (foreign _ ∷ ls) ms = boots-append ls ms

module _ (b : Bundle) where
  abbrev pub calls_of : Page b → ℕ
  calls_of p = length p.calls

  boot-le-suc : (p : Page b) → calls_of (boot b p) ≤ suc (calls_of p)
  unfolding boot
  boot-le-suc p = elim (Option-cases (get_element_by_id root_id p.elements)) [
    | inl e ↦ rw (e, boot_at) (omega arith)
    | inr (root, e) ↦ rw (e, boot_at) (omega (arith, length-append p.calls (config b root ∷ [])))
  ]

  boot-eq-suc :
      (p : Page b)
      → get_element_by_id root_id p.elements ≢ none
      → calls_of (boot b p) ≡ suc (calls_of p)
  unfolding boot
  boot-eq-suc p h = elim (Option-cases (get_element_by_id root_id p.elements)) [
    | inl e ↦ absurd (h e)
    | inr (root, e) ↦ rw (e, boot_at) (omega (arith, length-append p.calls (config b root ∷ [])))
  ]

  boot_keeps :
      (p : Page b)
      → ((boot b p).elements ≡ p.elements)
        × ((boot b p).content_loaded ≡ p.content_loaded)
        × ((boot b p).ready_state ≡ p.ready_state)
  unfolding boot
  boot_keeps p = ground arith

  pub fire_keeps :
      (ls : List Listener) (p : Page b)
      → ((fire b ls p).elements ≡ p.elements)
        × ((fire b ls p).content_loaded ≡ p.content_loaded)
        × ((fire b ls p).ready_state ≡ p.ready_state)
  unfolding fire
  fire_keeps [] p = (refl, refl, refl)
  fire_keeps (boot_callback ∷ ls) p = ground (arith, boot_keeps p, fire_keeps ls (boot b p))
  fire_keeps (foreign _ ∷ ls) p = fire_keeps ls p

  pub fire-le : (ls : List Listener) (p : Page b) → calls_of (fire b ls p) ≤ calls_of p + boots ls
  unfolding fire
  fire-le [] p = omega arith
  fire-le (boot_callback ∷ ls) p = omega (arith, boot-le-suc p, fire-le ls (boot b p))
  fire-le (foreign _ ∷ ls) p = fire-le ls p

  pub fire-eq :
      (ls : List Listener) (p : Page b)
      → get_element_by_id root_id p.elements ≢ none
      → calls_of (fire b ls p) ≡ calls_of p + boots ls
  unfolding fire
  fire-eq [] p h = omega arith
  fire-eq (boot_callback ∷ ls) p h =
      omega (arith, boot-eq-suc p h, fire-eq ls (boot b p) (rw (boot_keeps p).0 h))
  fire-eq (foreign _ ∷ ls) p h = fire-eq ls p h

  -- The starts that DOMContentLoaded will still make.
  abbrev pub waiting : Bool → List Listener → ℕ
  waiting true ls = 0
  waiting false ls = boots ls

  pub start_keeps :
      (r : ReadyState) (p : Page b)
      → ((start b r p).elements ≡ p.elements) × ((start b r p).ready_state ≡ p.ready_state)
  unfolding start add_content_loaded
  start_keeps loading p = (refl, refl)
  start_keeps interactive p = ((boot_keeps p).0, (boot_keeps p).2)
  start_keeps complete p = ((boot_keeps p).0, (boot_keeps p).2)

  -- The script makes one start due, now or at DOMContentLoaded.
  pub start-due-le :
      (r : ReadyState) (p : Page b) (fired : Bool)
      → (r ≡ loading → fired ≡ false)
      → (boots p.content_loaded ≡ 0) × (calls_of p ≡ 0)
      → calls_of (start b r p) + waiting fired (start b r p).content_loaded ≤ 1
  unfolding start add_content_loaded
  start-due-le loading p fired h k =
      rw (h refl) (omega (arith, boots-append p.content_loaded (boot_callback ∷ [])))
  start-due-le interactive p true h k = omega (arith, boot-le-suc p)
  start-due-le interactive p false h k = omega (arith, boot-le-suc p, ap boots (boot_keeps p).1)
  start-due-le complete p true h k = omega (arith, boot-le-suc p)
  start-due-le complete p false h k = omega (arith, boot-le-suc p, ap boots (boot_keeps p).1)

  pub start-due-eq :
      (r : ReadyState) (p : Page b) (fired : Bool)
      → (r ≡ loading → fired ≡ false)
      → (boots p.content_loaded ≡ 0) × (calls_of p ≡ 0)
      → get_element_by_id root_id p.elements ≢ none
      → calls_of (start b r p) + waiting fired (start b r p).content_loaded ≡ 1
  unfolding start add_content_loaded
  start-due-eq loading p fired h k g =
      rw (h refl) (omega (arith, boots-append p.content_loaded (boot_callback ∷ [])))
  start-due-eq interactive p true h k g = omega (arith, boot-eq-suc p g)
  start-due-eq interactive p false h k g = omega (arith, boot-eq-suc p g, ap boots (boot_keeps p).1)
  start-due-eq complete p true h k g = omega (arith, boot-eq-suc p g)
  start-due-eq complete p false h k g = omega (arith, boot-eq-suc p g, ap boots (boot_keeps p).1)
