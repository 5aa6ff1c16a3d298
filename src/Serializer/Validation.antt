-- ===== src/Serializer/Validation.antt =====
-- ssi_rest_api/models/ssi_rest_serializer.py, `_validate_specification`: what it says of a specification that it
-- accepts.
use ssi_rest_api.Serializer.{Field, Orm, ValidationError}
use ssi_rest_api.Serializer.Records.{or_error, check_field, check_nested}
use ssi_rest_api.Prelude.{String, ◌≡◌, refl, Bool, true, false, Option, none, some, arith}

pub or_error-none : (a b : Option ValidationError) → or_error a b ≡ none → (a ≡ none) × (b ≡ none)
or_error-none none b h = (refl, h)
or_error-none (some e) b h = cc

module _ {Raw : Type 0} (orm : Orm Raw) where
  check_nested-none :
      (model name : String) (field : Field) (is_bare : Bool) (f : String → Option ValidationError)
      → check_nested orm model name field is_bare f ≡ none
      → is_bare ≡ false
      → f field.comodel ≡ none
  check_nested-none model name field true f k e = cc
  check_nested-none model name field false f k e = ground arith

  pub check_field-none :
      (model name : String) (o : Option Field) (is_bare : Bool)
      (f : String → Option ValidationError)
      → check_field orm model name o is_bare f ≡ none
      → (field : Field) × (o ≡ some field) × (is_bare ≡ false → f field.comodel ≡ none)
  check_field-none model name none is_bare f k = cc
  check_field-none model name (some field) is_bare f k =
      (field, refl, check_nested-none model name field is_bare f k)
