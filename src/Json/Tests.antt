-- ===== src/Json/Tests.antt =====
-- {"a": [1, {"b": null}], "c": "d"}, and a document with a doubled field.
use unlock_catalog_publisher.Base.{
  ◌≡◌, ◌≢◌, ◌↔◌, refl, true, List, [], ◌∷◌, codes, contains, ok, err, ◌>>=◌, ◌>>◌, ◌==◌,
}
use unlock_catalog_publisher.Json.Walk.{
  Token, open_object, close_object, open_array, close_array, text, scalar, broken, duplicate_field,
  malformed, trailing, out_of_fuel, walk_value, at_end, reject_duplicate_json_fields,
}
use unlock_catalog_publisher.Json.Values.{Value, emit, unique}
use unlock_catalog_publisher.Json.Complete.{reject_duplicate_json_fields_iff}
use unlock_catalog_publisher.Json.Ends.{reject_duplicate_json_fields-ends}

abbrev document : List Token
document =
    open_object
    ∷ text (codes "a")
    ∷ open_array
    ∷ scalar
    ∷ open_object
    ∷ text (codes "b")
    ∷ scalar
    ∷ close_object
    ∷ close_array
    ∷ text (codes "c")
    ∷ text (codes "d")
    ∷ close_object
    ∷ []

abbrev doubled : List Token
doubled =
    open_array
    ∷ open_object
    ∷ text (codes "a")
    ∷ scalar
    ∷ text (codes "a")
    ∷ scalar
    ∷ close_object
    ∷ close_array
    ∷ []

document_accepted : reject_duplicate_json_fields document ≡ ok tt
unfolding reject_duplicate_json_fields walk_value at_end contains ◌==◌ ◌>>=◌ ◌>>◌
document_accepted = refl

doubled_refused : reject_duplicate_json_fields doubled ≡ err duplicate_field
unfolding reject_duplicate_json_fields walk_value at_end contains ◌==◌ ◌>>=◌ ◌>>◌
doubled_refused = refl

trailing_refused : reject_duplicate_json_fields (scalar ∷ scalar ∷ []) ≡ err trailing
unfolding reject_duplicate_json_fields walk_value at_end ◌>>=◌ ◌>>◌
trailing_refused = refl

broken_refused : reject_duplicate_json_fields (open_array ∷ scalar ∷ broken ∷ []) ≡ err malformed
unfolding reject_duplicate_json_fields walk_value at_end ◌>>=◌ ◌>>◌
broken_refused = refl

reject_duplicate_json_fields_iff_example :
    (reject_duplicate_json_fields document ≡ ok tt)
    ↔ ((v : Value) × (document ≡ emit v []) × (unique v ≡ true))
reject_duplicate_json_fields_iff_example = reject_duplicate_json_fields_iff document

reject_duplicate_json_fields-ends_example : reject_duplicate_json_fields doubled ≢ err out_of_fuel
reject_duplicate_json_fields-ends_example = reject_duplicate_json_fields-ends doubled
