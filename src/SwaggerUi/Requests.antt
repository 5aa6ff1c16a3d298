-- ===== src/SwaggerUi/Requests.antt =====
-- Which requests the Swagger UI of the page makes, started now or at DOMContentLoaded
-- (swagger_ui_init.js, `boot` and its options).
use mathlib.Core.Path.{subst}
use ssi_rest_api.Prelude.{
  String, ◌≡◌, refl, some, List, [], ◌∷◌, ◌++◌, arith, All, Option-cases, inl, inr, sym,
}
use ssi_rest_api.SwaggerUi.{
  null, value, ReadyState, loading, interactive, complete, Element, Listener, boot_callback,
  foreign, Config, Bundle, Page, get_element_by_id, get_attribute, root_id, config, boot_at, boot,
  add_content_loaded, start, run_script,
}
use ssi_rest_api.SwaggerUi.Browser.{
  fire, Browser, Step, parse, mutate, listen, script, parse_end, content_loaded, load_end, Reach,
  here, next, blank,
}
use ssi_rest_api.SwaggerUi.Counting.{boots}

module _ (b : Bundle) where
  All-append {ℓ} :
      {A : Type ℓ} (P : A → Type 0) (xs ys : List A) → All P xs → All P ys → All P (xs ++ ys)
  All-append P [] ys h k = k
  All-append P (x ∷ xs) ys (p, h) k = (p, All-append P xs ys h k)

  abbrev pub requests_of : (Config b.Preset → List String) → List (Config b.Preset) → List String
  requests_of requests [] = []
  requests_of requests (c ∷ cs) = requests c ++ requests_of requests cs

  module _ (Named : String → Type 0) where
    -- The address that the element with the id "swagger-ui" names, if the page has it and it names one.
    abbrev pub NamesOnly : List Element → Type 0
    NamesOnly elements =
        (root : Element) (address : String)
        → get_element_by_id root_id elements ≡ some root
        → get_attribute "data-openapi-url" root.attributes ≡ value address
        → Named address

    -- Options that name no validator and an address for the document.
    pub record IsOwn (c : Config b.Preset) : Type 0 where
      pub named : (address : String) → c.url ≡ value address → Named address
      pub no_validator : c.validator_url ≡ null

    boot-IsOwn :
        (p : Page b) → NamesOnly p.elements → All IsOwn p.calls → All IsOwn (boot b p).calls
    unfolding boot config
    boot-IsOwn p names h = elim (Option-cases (get_element_by_id root_id p.elements)) [
      | inl e ↦ rw (e, boot_at) h
      | inr (root, e) ↦
          rw (e, boot_at)
            (All-append IsOwn p.calls (config b root ∷ []) h
              (record { named = λ address k. names root address e k; no_validator = refl }, tt))
    ]

    boot-elements : (p : Page b) → (boot b p).elements ≡ p.elements
    unfolding boot
    boot-elements p = elim (Option-cases (get_element_by_id root_id p.elements)) [
      | inl e ↦ rw (e, boot_at) refl
      | inr (root, e) ↦ rw (e, boot_at) refl
    ]

    fire-IsOwn :
        (ls : List Listener) (p : Page b)
        → NamesOnly p.elements
        → All IsOwn p.calls
        → All IsOwn (fire b ls p).calls
    unfolding fire
    fire-IsOwn [] p names h = h
    fire-IsOwn (boot_callback ∷ ls) p names h =
        fire-IsOwn ls (boot b p) (subst NamesOnly (sym (boot-elements p)) names)
          (boot-IsOwn p names h)
    fire-IsOwn (foreign _ ∷ ls) p names h = fire-IsOwn ls p names h

    start-IsOwn :
        (r : ReadyState) (p : Page b)
        → NamesOnly p.elements
        → All IsOwn p.calls
        → All IsOwn (start b r p).calls
    unfolding start add_content_loaded
    start-IsOwn loading p names h = h
    start-IsOwn interactive p names h = boot-IsOwn p names h
    start-IsOwn complete p names h = boot-IsOwn p names h

    Step-IsOwn :
        {s t : Browser b}
        → Step b s t
        → NamesOnly s.page.elements
        → All IsOwn s.page.calls
        → All IsOwn t.page.calls
    unfolding add_content_loaded run_script
    Step-IsOwn (parse s e l) names h = h
    Step-IsOwn (mutate s es) names h = h
    Step-IsOwn (listen s name) names h = h
    Step-IsOwn (script s e) names h = start-IsOwn s.page.ready_state s.page names h
    Step-IsOwn (parse_end s e) names h = h
    Step-IsOwn (content_loaded s e f) names h = fire-IsOwn s.page.content_loaded s.page names h
    Step-IsOwn (load_end s e f) names h = h

    -- The page of the browser names only these addresses.
    abbrev pub HasNames : Browser b → Type 0
    HasNames s = NamesOnly s.page.elements

    Reach-IsOwn :
        {s t : Browser b}
        → HasNames s × All IsOwn s.page.calls
        → Reach b HasNames s t
        → HasNames t × All IsOwn t.page.calls
    Reach-IsOwn h here = h
    Reach-IsOwn h (next r st names) =
        let (before, own) = Reach-IsOwn h r in (names, Step-IsOwn st before own)

    module _ (requests : Config b.Preset → List String)
        (no_validation : (c : Config b.Preset)
          → c.validator_url ≡ null
          → All (λ r. value r ≡ c.url) (requests c)) where
      All-named :
          (c : Config b.Preset) (rs : List String)
          → IsOwn c
          → All (λ r. value r ≡ c.url) rs
          → All Named rs
      All-named c [] o h = tt
      All-named c (r ∷ rs) o (e, h) = (o.named r (sym e), All-named c rs o h)

      requests_of-named :
          (cs : List (Config b.Preset)) → All IsOwn cs → All Named (requests_of requests cs)
      requests_of-named [] h = tt
      requests_of-named (c ∷ cs) (o, h) =
          All-append Named (requests c) (requests_of requests cs)
            (All-named c (requests c) o (no_validation c o.no_validator)) (requests_of-named cs h)

      -- If the bundle, told validatorUrl: null, requests nothing but the document at url, then
      -- from a new page on, as long as the element that the page has for the id "swagger-ui"
      -- names in its data-openapi-url only addresses of some set, the Swagger UIs that were
      -- started request only addresses of that set.
      pub requests_of-All :
          (s : Browser b)
          → Reach b HasNames (blank b) s
          → All Named (requests_of requests s.page.calls)
      unfolding get_element_by_id
      requests_of-All s r =
          requests_of-named s.page.calls
            (Reach-IsOwn ((λ root address found k. absurd (cc)), tt) r).1

  -- Firing listeners none of which is the script's changes nothing.
  fire_foreign : (ls : List Listener) (p : Page b) → boots ls ≡ 0 → fire b ls p ≡ p
  unfolding fire
  fire_foreign [] p h = refl
  fire_foreign (boot_callback ∷ ls) p h = absurd (omega arith)
  fire_foreign (foreign _ ∷ ls) p h = fire_foreign ls p h

  fire_last :
      (ls : List Listener) (p : Page b)
      → boots ls ≡ 0
      → fire b (ls ++ boot_callback ∷ []) p ≡ boot b p
  unfolding fire
  fire_last [] p h = refl
  fire_last (boot_callback ∷ ls) p h = absurd (omega arith)
  fire_last (foreign _ ∷ ls) p h = fire_last ls p h

  abbrev pub parsed : List Element → Page b → Page b
  parsed es p = record p { elements = p.elements ++ es; ready_state = interactive }

  boot-parsed :
      (p : Page b) (es : List Element) (l : Listener)
      → ((boot b (parsed es (add_content_loaded b l p))).ui ≡ (boot b (parsed es p)).ui)
        × ((boot b (parsed es (add_content_loaded b l p))).calls ≡ (boot b (parsed es p)).calls)
  unfolding boot add_content_loaded
  boot-parsed p es l = ground arith

  fire_deferred :
      (p : Page b) (es : List Element)
      → boots p.content_loaded ≡ 0
      → fire b (start b loading p).content_loaded (parsed es (start b loading p))
        ≡ boot b (parsed es (add_content_loaded b boot_callback p))
  unfolding start add_content_loaded
  fire_deferred p es h =
      fire_last p.content_loaded (parsed es (add_content_loaded b boot_callback p)) h

  -- For a script run while the page loads, with no start registered before, parsing more elements
  -- and firing DOMContentLoaded gives the same window.ui and the same calls of SwaggerUIBundle as
  -- running the script only after these elements are parsed.
  pub deferred-eq-immediate :
      (p : Page b) (es : List Element)
      → p.ready_state ≡ loading
      → boots p.content_loaded ≡ 0
      → ((fire b (run_script b p).content_loaded (parsed es (run_script b p))).ui
          ≡ (run_script b (parsed es p)).ui)
        × ((fire b (run_script b p).content_loaded (parsed es (run_script b p))).calls
            ≡ (run_script b (parsed es p)).calls)
  unfolding run_script
  deferred-eq-immediate p es l h = rw l (rw (fire_deferred p es h) (boot-parsed p es boot_callback))
