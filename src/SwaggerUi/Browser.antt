-- ===== src/SwaggerUi/Browser.antt =====
-- The browser around swagger_ui_init.js: when a page parses elements, runs the script once, changes
-- `document.readyState` and fires DOMContentLoaded, in the order that the HTML standard prescribes.
use ssi_rest_api.Prelude.{◌≡◌, Bool, true, false, none, List, [], ◌∷◌, ◌++◌, String}
use ssi_rest_api.SwaggerUi.{
  loading, interactive, complete, Element, Listener, boot_callback, foreign, Bundle, Page, boot,
  add_content_loaded, run_script,
}

module _ (b : Bundle) where
  -- Calls the listeners of DOMContentLoaded in order. What foreign listeners do to the document is a
  -- `mutate` step.
  unfoldable pub fire : List Listener → Page b → Page b
  fire [] p = p
  fire (boot_callback ∷ ls) p = fire ls (boot b p)
  fire (foreign _ ∷ ls) p = fire ls p

  -- `ran`: the script element was executed. `fired`: DOMContentLoaded was dispatched.
  pub record Browser : Type 0 where
    pub page : Page b
    pub ran : Bool
    pub fired : Bool

  pub data Step : Browser → Browser → Type 0 where
    parse :
        (s : Browser) (e : Element)
        → s.page.ready_state ≡ loading
        → Step s (record s { page = record s.page { elements = s.page.elements ++ e ∷ [] } })
    mutate :
        (s : Browser) (es : List Element)
        → Step s (record s { page = record s.page { elements = es } })
    listen :
        (s : Browser) (name : String)
        → Step s (record s { page = add_content_loaded b (foreign name) s.page })
    script :
        (s : Browser) → s.ran ≡ false → Step s (record s { page = run_script b s.page; ran = true })
    parse_end :
        (s : Browser)
        → s.page.ready_state ≡ loading
        → Step s (record s { page = record s.page { ready_state = interactive } })
    content_loaded :
        (s : Browser)
        → s.page.ready_state ≡ interactive
        → s.fired ≡ false
        → Step s (record s { page = fire s.page.content_loaded s.page; fired = true })
    load_end :
        (s : Browser)
        → s.page.ready_state ≡ interactive
        → s.fired ≡ true
        → Step s (record s { page = record s.page { ready_state = complete } })

  -- The states that can follow `s` while every later state satisfies `K`.
  pub data Reach (K : Browser → Type 0) (s : Browser) : Browser → Type 0 where
    here : Reach K s s
    next : {t u : Browser} → Reach K s t → Step t u → K u → Reach K s u

  -- A new document: nothing parsed, nothing run.
  abbrev pub blank : Browser
  blank = record {
    page = record {
      ready_state = loading;
      elements = [];
      content_loaded = [];
      ui = none;
      calls = [];
    };
    ran = false;
    fired = false;
  }
