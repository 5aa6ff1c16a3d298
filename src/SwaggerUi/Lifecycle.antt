-- ===== src/SwaggerUi/Lifecycle.antt =====
-- How often the script starts Swagger UI in the life of a page (swagger_ui_init.js, the branch on
-- `document.readyState`).
use ssi_rest_api.Prelude.{
  ℕ, ◌+◌, ◌≤◌, ◌≡◌, ◌≢◌, sym, ap, ◌∙◌, true, false, none, [], ◌∷◌, arith, length,
}
use ssi_rest_api.SwaggerUi.{
  loading, foreign, Bundle, get_element_by_id, root_id, add_content_loaded, run_script,
}
use ssi_rest_api.SwaggerUi.Browser.{
  Browser, Step, parse, mutate, listen, script, parse_end, content_loaded, load_end, Reach, here,
  next, blank,
}
use ssi_rest_api.SwaggerUi.Counting.{
  boots, boots-append, calls_of, waiting, fire_keeps, fire-le, fire-eq, start_keeps, start-due-le,
  start-due-eq,
}

module _ (b : Bundle) where
  abbrev pub HasRoot : Browser b → Type 0
  HasRoot s = get_element_by_id root_id s.page.elements ≢ none

  -- The number of starts that were made or are registered.
  abbrev due : Browser b → ℕ
  due s = calls_of b s.page + waiting b s.fired s.page.content_loaded

  record IsTracked (s : Browser b) : Type 0 where
    early : s.page.ready_state ≡ loading → s.fired ≡ false
    not_run : s.ran ≡ false → (boots s.page.content_loaded ≡ 0) × (calls_of b s.page ≡ 0)
    bounded : due s ≤ 1

  Step-IsTracked : {s t : Browser b} → Step b s t → IsTracked s → IsTracked t
  unfolding add_content_loaded run_script
  Step-IsTracked (parse s e l) h = ground arith
  Step-IsTracked (mutate s es) h = ground arith
  Step-IsTracked (listen s name) h =
      ground (arith, boots-append s.page.content_loaded (foreign name ∷ []))
  Step-IsTracked (script s e) h = record {
    early = λ l. h.early ((sym (start_keeps b s.page.ready_state s.page).1) ∙ l);
    not_run = λ c. cc;
    bounded = start-due-le b s.page.ready_state s.page s.fired h.early (h.not_run e);
  }
  Step-IsTracked (parse_end s e) h = ground arith
  Step-IsTracked (content_loaded s e f) h = ground (
    arith,
    fire_keeps b s.page.content_loaded s.page,
    fire-le b s.page.content_loaded s.page,
    ap boots (fire_keeps b s.page.content_loaded s.page).1,
  )
  Step-IsTracked (load_end s e f) h = ground arith

  Reach-IsTracked :
      {K : Browser b → Type 0} {s t : Browser b} → IsTracked s → Reach b K s t → IsTracked t
  Reach-IsTracked h here = h
  Reach-IsTracked h (next r st _) = Step-IsTracked st (Reach-IsTracked h r)

  IsTracked-blank : IsTracked (blank b)
  IsTracked-blank = ground arith

  -- With the root element in the document throughout, the start that is due is certain.
  abbrev IsExact : Browser b → Type 0
  IsExact s = s.ran ≡ true → due s ≡ 1

  Step-IsExact : {s t : Browser b} → Step b s t → IsTracked s → HasRoot s → IsExact s → IsExact t
  unfolding add_content_loaded run_script
  Step-IsExact (parse s e l) h g x = x
  Step-IsExact (mutate s es) h g x = x
  Step-IsExact (listen s name) h g x =
      ground (arith, boots-append s.page.content_loaded (foreign name ∷ []))
  Step-IsExact (script s e) h g x =
      λ _. start-due-eq b s.page.ready_state s.page s.fired h.early (h.not_run e) g
  Step-IsExact (parse_end s e) h g x = x
  Step-IsExact (content_loaded s e f) h g x =
      ground (arith, fire-eq b s.page.content_loaded s.page g)
  Step-IsExact (load_end s e f) h g x = x

  Reach-HasRoot : {s t : Browser b} → HasRoot s → Reach b HasRoot s t → HasRoot t
  Reach-HasRoot h here = h
  Reach-HasRoot h (next _ _ k) = k

  Reach-IsExact :
      {s t : Browser b} → IsTracked s → HasRoot s → IsExact s → Reach b HasRoot s t → IsExact t
  Reach-IsExact h g x here = x
  Reach-IsExact h g x (next r st _) =
      Step-IsExact st (Reach-IsTracked h r) (Reach-HasRoot g r) (Reach-IsExact h g x r)

  -- From a new document, whatever elements, scripts and changes of state follow, `SwaggerUIBundle`
  -- is called at most once.
  pub starts_at_most_once :
      (s : Browser b) → Reach b (λ _. Unit {0}) (blank b) s → length s.page.calls ≤ 1
  starts_at_most_once s r = omega (arith, (Reach-IsTracked IsTracked-blank r).bounded)

  -- In a document that holds the element with the id "swagger-ui" throughout, in which the script
  -- had not run, DOMContentLoaded had not been fired, no start was registered and no start was
  -- made, SwaggerUIBundle has been called exactly once as soon as both the script has run and
  -- DOMContentLoaded has been fired, whatever elements, changes of the document and other scripts
  -- come in between.
  pub starts_exactly_once :
      (s t : Browser b)
      → s.ran ≡ false
      → s.fired ≡ false
      → boots s.page.content_loaded ≡ 0
      → s.page.calls ≡ []
      → HasRoot s
      → Reach b HasRoot s t
      → t.ran ≡ true
      → t.fired ≡ true
      → length t.page.calls ≡ 1
  starts_exactly_once s t n f l c g r ran fired =
      let start : IsTracked s = record {
        early = λ _. f;
        not_run = λ _. (l, ap length c);
        bounded = ground (arith, ap length c);
      } in
      let exact = Reach-IsExact start g (λ e. cc) r ran in ground arith
