-- ===== src/SwaggerUi/Tests.antt =====
-- Runs of swagger_ui_init.js on a concrete page.
use ssi_rest_api.Prelude.{
  String, ◌≡◌, refl, sym, ap, ◌∙◌, true, false, none, some, List, [], ◌∷◌, All, length,
}
use ssi_rest_api.SwaggerUi.{
  Nullable, undefined, null, value, loading, interactive, complete, Element, foreign, Config,
  Bundle, get_element_by_id, get_attribute, config, boot, add_content_loaded, run_script,
}
use ssi_rest_api.SwaggerUi.Browser.{
  fire, Browser, parse, listen, script, parse_end, content_loaded, Reach, here, next, blank,
}
use ssi_rest_api.SwaggerUi.Lifecycle.{HasRoot, starts_exactly_once}
use ssi_rest_api.SwaggerUi.Requests.{
  HasNames, NamesOnly, requests_of, requests_of-All, deferred-eq-immediate, parsed,
}

abbrev demo : Bundle
demo = record {
  Preset = String;
  Ui = Nullable String;
  apis = "apis";
  standalone = "standalone";
  create = λ c. c.url;
}

abbrev root : Element
root = record { id = "swagger-ui"; attributes = ("data-openapi-url", "/api/v1/openapi.json") ∷ [] }

abbrev with_root : Browser demo
with_root = record {
  page = record {
    ready_state = loading;
    elements = root ∷ [];
    content_loaded = foreign "analytics" ∷ [];
    ui = none;
    calls = [];
  };
  ran = false;
  fired = false;
}

abbrev scripted : Browser demo
scripted = record with_root { page = run_script demo with_root.page; ran = true }

abbrev interactive_page : Browser demo
interactive_page = record scripted { page = record scripted.page { ready_state = interactive } }

abbrev shown : Browser demo
shown = record interactive_page {
  page = fire demo interactive_page.page.content_loaded interactive_page.page;
  fired = true;
}

shown_ui : shown.page.ui ≡ some (value "/api/v1/openapi.json")
unfolding run_script fire boot config
shown_ui = refl

-- Without the root element nothing starts.
no_root :
    (run_script demo (record with_root.page { elements = []; ready_state = complete })).calls ≡ []
unfolding run_script
no_root = refl

HasRoot-with_root : HasRoot demo with_root
unfolding get_element_by_id
HasRoot-with_root e = cc

with_root-shown : Reach demo (HasRoot demo) with_root shown
unfolding get_element_by_id run_script fire boot add_content_loaded
with_root-shown =
    next (next (next here (script with_root refl) (λ e. cc)) (parse_end scripted refl) (λ e. cc))
      (content_loaded interactive_page refl refl) (λ e. cc)

abbrev IsDocument : String → Type 0
IsDocument address = address ≡ "/api/v1/openapi.json"

root-NamesOnly : NamesOnly demo IsDocument (root ∷ [])
unfolding get_element_by_id get_attribute
root-NamesOnly e address found names =
    let same : get_attribute "data-openapi-url" e.attributes ≡ value "/api/v1/openapi.json" =
      ap
        (λ o. elim o [
          | none ↦ value "/api/v1/openapi.json"
          | some x ↦ get_attribute "data-openapi-url" x.attributes
        ])
        (sym found) in
    ap (λ v. elim v [ value x ↦ x | _ ↦ address ]) (sym names ∙ same)

blank-shown : Reach demo (HasNames demo IsDocument) (blank demo) shown
unfolding get_element_by_id run_script fire boot add_content_loaded
blank-shown =
    next
      (next
        (next
          (next (next here (parse (blank demo) root refl) root-NamesOnly)
            (listen
              (record (blank demo) { page = record (blank demo).page { elements = root ∷ [] } })
              "analytics")
            root-NamesOnly)
          (script with_root refl) root-NamesOnly)
        (parse_end scripted refl) root-NamesOnly)
      (content_loaded interactive_page refl refl) root-NamesOnly

starts_exactly_once_example : length shown.page.calls ≡ 1
unfolding run_script fire
starts_exactly_once_example =
    starts_exactly_once demo with_root shown refl refl refl refl HasRoot-with_root with_root-shown
      refl refl

abbrev fetched : Nullable String → List String
fetched (value u) = u ∷ []
fetched _ = []

-- A bundle that also asks the public validator unless it is told `null`.
abbrev demo_requests : Config String → List String
demo_requests c = elim c.validator_url [
  | null ↦ fetched c.url
  | _ ↦ "https://validator.swagger.io/validator" ∷ fetched c.url
]

fetched_url : (u : Nullable String) → All (λ r. value r ≡ u) (fetched u)
fetched_url undefined = tt
fetched_url null = tt
fetched_url (value u) = (refl, tt)

demo_no_validation :
    (c : Config String) → c.validator_url ≡ null → All (λ r. value r ≡ c.url) (demo_requests c)
demo_no_validation c h = rw h (fetched_url c.url)

requests_of-All_example : All IsDocument (requests_of demo demo_requests shown.page.calls)
requests_of-All_example =
    requests_of-All demo IsDocument demo_requests demo_no_validation shown blank-shown

deferred-eq-immediate_example :
    ((fire demo scripted.page.content_loaded (parsed demo [] scripted.page)).ui
      ≡ (run_script demo (parsed demo [] with_root.page)).ui)
    × ((fire demo scripted.page.content_loaded (parsed demo [] scripted.page)).calls
        ≡ (run_script demo (parsed demo [] with_root.page)).calls)
deferred-eq-immediate_example = deferred-eq-immediate demo with_root.page [] refl refl
