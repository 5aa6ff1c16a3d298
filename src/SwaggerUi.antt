-- ===== src/SwaggerUi.antt =====
-- ssi_rest_api_doc/static/src/js/swagger_ui_init.js: the script that starts the vendored Swagger UI.
-- The page is the part of `document` and `window` that the script reads and writes. The bundle
-- (`SwaggerUIBundle`, `SwaggerUIStandalonePreset`) is vendored code, and a parameter.
pub mod Browser
pub mod Counting
pub mod Lifecycle
pub mod Requests
mod Tests
use ssi_rest_api.Prelude.{
  String, ◌≡◌, Bool, Option, none, some, List, [], ◌∷◌, ◌++◌, ◌==◌, if◌then◌else◌,
}

-- A JavaScript value that may be missing: `undefined` is not `null`.
pub data Nullable (A : Type 0) : Type 0 where
  undefined null : Nullable A
  value : A → Nullable A

pub data ReadyState : Type 0 where
  loading interactive complete : ReadyState

pub record Element : Type 0 where
  pub id : String
  pub attributes : List (String × String)

-- `boot_callback` is the closure that the script registers; the others belong to other scripts.
pub data Listener : Type 0 where
  boot_callback : Listener
  foreign : String → Listener

-- The argument object of `SwaggerUIBundle`.
pub record Config (Preset : Type 0) : Type 0 where
  pub url : Nullable String
  pub dom_id : String
  pub presets : List Preset
  pub layout : String
  pub validator_url : Nullable String

-- What the vendored scripts put in scope.
pub record Bundle : Type 1 where
  pub Preset : Type 0
  pub Ui : Type 0
  pub apis : Preset
  pub standalone : Preset
  pub create : Config Preset → Ui

-- `elements` is in document order; `calls` lists the arguments of `SwaggerUIBundle`, latest last.
pub record Page (b : Bundle) : Type 0 where
  pub ready_state : ReadyState
  pub elements : List Element
  pub content_loaded : List Listener
  pub ui : Option b.Ui
  pub calls : List (Config b.Preset)

-- `document.getElementById`: the first element in document order.
unfoldable pub get_element_by_id : String → List Element → Option Element
get_element_by_id key [] = none
get_element_by_id key (e ∷ es) = if e.id == key then some e else get_element_by_id key es

-- `element.getAttribute`: `null` when the attribute is missing.
unfoldable pub get_attribute : String → List (String × String) → Nullable String
get_attribute name [] = null
get_attribute name ((n, v) ∷ rest) = if n == name then value v else get_attribute name rest

abbrev pub root_id : String
root_id = "swagger-ui"

module _ (b : Bundle) where
  -- The object literal of `boot`.
  unfoldable pub config : Element → Config b.Preset
  unfolding get_attribute
  config root = record {
    url = get_attribute "data-openapi-url" root.attributes;
    dom_id = "#swagger-ui";
    presets = b.apis ∷ b.standalone ∷ [];
    layout = "StandaloneLayout";
    validator_url = null;
  }

  -- `window.ui = SwaggerUIBundle({…})`, unless the root element is missing.
  unfoldable pub boot_at : Option Element → Page b → Page b
  unfolding config
  boot_at none p = p
  boot_at (some root) p = record p {
    ui = some (b.create (config root));
    calls = p.calls ++ config root ∷ [];
  }

  unfoldable pub boot : Page b → Page b
  unfolding boot_at get_element_by_id
  boot p = boot_at (get_element_by_id root_id p.elements) p

  unfoldable pub add_content_loaded : Listener → Page b → Page b
  add_content_loaded l p = record p { content_loaded = p.content_loaded ++ l ∷ [] }

  -- The body of the immediately invoked function.
  unfoldable pub start : ReadyState → Page b → Page b
  unfolding boot add_content_loaded
  start loading p = add_content_loaded boot_callback p
  start _ p = boot p

  unfoldable pub run_script : Page b → Page b
  unfolding start
  run_script p = start p.ready_state p
