-- ===== src/Serializer/Paths.antt =====
-- ssi_rest_api/models/ssi_rest_serializer.py: which dotted paths the specification of a query holds.
use ssi_rest_api.Serializer.{Spec, empty, bare, nested}
use ssi_rest_api.Serializer.Query.{
  Query, is_given, if_rest, put, merge_dotted_path, path_parts, merge_fields, field_items,
  given_specification, options_key, without_options, specification_from_query,
}
use ssi_rest_api.Prelude.{
  String, ◌≡◌, refl, ◌∙◌, ap, sym, Bool, true, false, not, ◌&&◌, ◌||◌, Option, none, some, List, [],
  ◌∷◌, any_of, arith, ◌==◌, eq_iff, if◌then◌else◌, Bool-cases, if_same, inl, inr,
}
use mathlib.Core.Bool.{or_assoc, or-false}
use ssi_rest_api.Prelude.Text.{strip}

-- The specification nested under a name.
unfoldable find : String → Spec → Option Spec
find key empty = none
find key (bare name more) = if name == key then some empty else find key more
find key (nested name inner more) = if name == key then some inner else find key more

abbrev holds : (Spec → Bool) → Option Spec → Bool
holds p none = false
holds p (some inner) = p inner

-- Whether the names of a path are nested in each other.
unfoldable pub has_path : List String → Spec → Bool
unfolding find
has_path [] spec = true
has_path (p ∷ ps) spec = holds (has_path ps) (find p spec)

abbrev or_empty : Option Spec → Spec
or_empty none = empty
or_empty (some inner) = inner

-- Whether `path` continues `prefix`.
abbrev pub is_prefix : List String → List String → Bool
is_prefix [] path = true
is_prefix (p ∷ ps) [] = false
is_prefix (p ∷ ps) (q ∷ qs) = (q == p) && is_prefix ps qs

not-given :
    (o : Option Spec) (items : List String)
    → is_given o ≡ false
    → given_specification o items ≡ merge_fields items empty
unfolding given_specification
not-given none items h = refl
not-given (some empty) items h = refl
not-given (some (bare name more)) items h = cc
not-given (some (nested name inner more)) items h = cc

holds-if :
    (b : Bool) (p : Spec → Bool) (o : Option Spec)
    → holds p (if b then none else o) ≡ (not b && holds p o)
holds-if true p o = refl
holds-if false p o = refl

find-put :
    (head : String) (rest : List String) (f : Spec → Spec) (spec : Spec) (key : String)
    → find key (put head rest f spec) ≡ (
        if head == key
        then some (if_rest rest (or_empty (find head spec)) (f (or_empty (find head spec))))
        else find key spec)
unfolding find put
find-put head [] f empty key = refl
find-put head (_ ∷ _) f empty key = refl
find-put head [] f (bare name more) key =
    ground (arith, eq_iff name head, eq_iff name key, eq_iff head key, find-put head [] f more key)
find-put head (r ∷ rs) f (bare name more) key =
    ground
      (arith, eq_iff name head, eq_iff name key, eq_iff head key, find-put head (r ∷ rs) f more key)
find-put head [] f (nested name inner more) key =
    ground (arith, eq_iff name head, eq_iff name key, eq_iff head key, find-put head [] f more key)
find-put head (r ∷ rs) f (nested name inner more) key =
    ground
      (arith, eq_iff name head, eq_iff name key, eq_iff head key, find-put head (r ∷ rs) f more key)

find-merge_dotted_path :
    (head : String) (rest : List String) (spec : Spec) (key : String)
    → find key (merge_dotted_path (head ∷ rest) spec) ≡ (
        if head == key
        then some (merge_dotted_path rest (or_empty (find head spec)))
        else find key spec)
unfolding merge_dotted_path
find-merge_dotted_path head [] spec key = find-put head [] (λ s. s) spec key
find-merge_dotted_path head (r ∷ rs) spec key =
    find-put head (r ∷ rs) (merge_dotted_path (r ∷ rs)) spec key

-- A path is in what is nested under a name, or `q` continues it with nothing to spare.
holds-or_empty :
    (q : List String) (o : Option Spec) (path : List String)
    → (has_path q (or_empty o) || is_prefix q path) ≡ (holds (has_path q) o || is_prefix q path)
unfolding has_path find
holds-or_empty [] none path = refl
holds-or_empty (q ∷ qs) none path = refl
holds-or_empty q (some inner) path = refl

has_path-merge_dotted_path :
    (path q : List String) (spec : Spec)
    → has_path q (merge_dotted_path path spec) ≡ has_path q spec || is_prefix q path
unfolding has_path merge_dotted_path
has_path-merge_dotted_path path [] spec = refl
has_path-merge_dotted_path [] (q ∷ qs) spec = sym (or-false (has_path (q ∷ qs) spec))
has_path-merge_dotted_path (p ∷ path) (q ∷ qs) spec =
    ap (holds (has_path qs)) (find-merge_dotted_path p path spec q) ∙ elim (Bool-cases (p == q)) [
      | inl same ↦ rw same (
          has_path-merge_dotted_path path qs (or_empty (find p spec))
          ∙ holds-or_empty qs (find p spec) path
          ∙ ap (λ key. holds (has_path qs) (find key spec) || is_prefix qs path)
              ((eq_iff p q).0 same))
      | inr different ↦ rw different (sym (or-false (holds (has_path qs) (find q spec))))
    ]

-- The loop over the items of `fields`.
has_path-merge_fields :
    (items q : List String) (spec : Spec)
    → has_path q (merge_fields items spec)
      ≡ has_path q spec || any_of (λ item. is_prefix q (path_parts (strip item))) items
unfolding merge_fields
has_path-merge_fields [] q spec = sym (or-false (has_path q spec))
has_path-merge_fields (item ∷ items) q spec =
    has_path-merge_fields items q (merge_dotted_path (path_parts (strip item)) spec)
    ∙ ap (λ b. b || any_of (λ i. is_prefix q (path_parts (strip i))) items)
        (has_path-merge_dotted_path (path_parts (strip item)) q spec)
    ∙ or_assoc (has_path q spec) _ _

find-without_options :
    (key : String) (spec : Spec)
    → find key (without_options spec) ≡ (if key == options_key then none else find key spec)
unfolding find without_options
find-without_options key empty = sym (if_same (key == options_key))
find-without_options key (bare name more) = ground (
  arith,
  eq_iff name options_key,
  eq_iff name key,
  eq_iff key options_key,
  find-without_options key more,
)
find-without_options key (nested name inner more) = ground (
  arith,
  eq_iff name options_key,
  eq_iff name key,
  eq_iff key options_key,
  find-without_options key more,
)

-- Without a specification of its own, the specification of a query holds a path exactly when one
-- of the comma-separated items of fields, stripped, is that path or a dotted continuation of it,
-- whatever their order and repetitions; only a path that starts with __options__ is never held.
pub has_path-specification_from_query :
    (query : Query) (p : String) (ps : List String)
    → is_given query.specification ≡ false
    → has_path (p ∷ ps) (specification_from_query query)
      ≡ not (p == options_key)
        && any_of (λ item. is_prefix (p ∷ ps) (path_parts (strip item))) (field_items query.fields)
unfolding specification_from_query has_path
has_path-specification_from_query query p ps h =
    let items = field_items query.fields in
    ap (holds (has_path ps))
      (find-without_options p (given_specification query.specification items))
    ∙ holds-if (p == options_key) (has_path ps)
        (find p (given_specification query.specification items))
    ∙ ap (λ spec. not (p == options_key) && has_path (p ∷ ps) spec)
        (not-given query.specification items h)
    ∙ ap (λ b. not (p == options_key) && b) (has_path-merge_fields items (p ∷ ps) empty)
