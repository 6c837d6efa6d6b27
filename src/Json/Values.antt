-- ===== src/Json/Values.antt =====
-- Documents as trees, the tokens of a document, and the documents in which no object has two fields of
-- one name: what the walk over the tokens is to find out.
use unlock_catalog_publisher.Base.{Bool, true, not, ◌&&◌, List, [], ◌∷◌, Bytes, contains}
use unlock_catalog_publisher.Json.Walk.{
  Token, open_object, close_object, open_array, close_array, text, scalar,
}

mutual
  pub data Value : Type 0 where
    text_value : Bytes → Value
    scalar_value : Value
    array_value : Items → Value
    object_value : Fields → Value

  pub data Items : Type 0 where
    no_items : Items
    item : Value → Items → Items

  pub data Fields : Type 0 where
    no_fields : Fields
    field : Bytes → Value → Fields → Fields

-- The tokens of a value, followed by others.
unfoldable mutual
  pub emit : Value → List Token → List Token
  emit (text_value s) rest = text s ∷ rest
  emit scalar_value rest = scalar ∷ rest
  emit (array_value xs) rest = open_array ∷ emit_items xs rest
  emit (object_value fs) rest = open_object ∷ emit_fields fs rest

  pub emit_items : Items → List Token → List Token
  emit_items no_items rest = close_array ∷ rest
  emit_items (item v xs) rest = emit v (emit_items xs rest)

  pub emit_fields : Fields → List Token → List Token
  emit_fields no_fields rest = close_object ∷ rest
  emit_fields (field k v fs) rest = text k ∷ emit v (emit_fields fs rest)

-- No object, at any depth, has two fields of one name, nor one of the names given.
unfoldable mutual
  pub unique : Value → Bool
  unique (text_value s) = true
  unique scalar_value = true
  unique (array_value xs) = unique_items xs
  unique (object_value fs) = unique_fields [] fs

  pub unique_items : Items → Bool
  unique_items no_items = true
  unique_items (item v xs) = unique v && unique_items xs

  pub unique_fields : List Bytes → Fields → Bool
  unique_fields seen no_fields = true
  unique_fields seen (field k v fs) =
      not (contains k seen) && unique v && unique_fields (k ∷ seen) fs
