-- ===== src/Json/Unique.antt =====
-- The walk over a document's tokens accepts exactly the documents in which no object has two fields of one
-- name, and it ends.
use unlock_catalog_publisher.Base.{
  ℕ, zero, suc, ◌≡◌, refl, ap, ◌∙◌, true, false, List, [], ◌∷◌, Bytes, arith, contains, ok, ◌>>=◌,
  bind_elim, refuse_elim,
}
use unlock_catalog_publisher.Json.Walk.{
  Token, open_object, close_object, open_array, close_array, text, scalar, broken, duplicate_field,
  next_token, walk_value, walk_fields, walk_items,
}
use unlock_catalog_publisher.Json.Values.{
  Value, Items, Fields, text_value, scalar_value, array_value, object_value, no_items, item,
  no_fields, field, emit, emit_items, emit_fields, unique, unique_items, unique_fields,
}

pub next_token-ok :
    (tokens : List Token) {token : Token} {rest : List Token}
    → next_token tokens ≡ ok (token, rest)
    → tokens ≡ token ∷ rest
unfolding next_token
next_token-ok [] h = absurd (cc)
next_token-ok (broken ∷ rest) h = absurd (cc)
next_token-ok (open_object ∷ rest) h = cc
next_token-ok (close_object ∷ rest) h = cc
next_token-ok (open_array ∷ rest) h = cc
next_token-ok (close_array ∷ rest) h = cc
next_token-ok (text s ∷ rest) h = cc
next_token-ok (scalar ∷ rest) h = cc

-- What the walk leaves stands after a document without doubled fields.
abbrev pub ReadsValue : Token → List Token → List Token → Type 0
ReadsValue token rest left = (v : Value) × (token ∷ rest ≡ emit v left) × (unique v ≡ true)

abbrev pub ReadsFields : List Bytes → List Token → List Token → Type 0
ReadsFields seen tokens left =
    (fs : Fields) × (tokens ≡ emit_fields fs left) × (unique_fields seen fs ≡ true)

abbrev pub ReadsItems : List Token → List Token → Type 0
ReadsItems tokens left = (xs : Items) × (tokens ≡ emit_items xs left) × (unique_items xs ≡ true)

field-Reads :
    (seen : List Bytes) (key : Bytes) (rest : List Token) (value : Token)
    (after middle left : List Token)
    → contains key seen ≡ false
    → rest ≡ value ∷ after
    → ReadsValue value after middle
    → ReadsFields (key ∷ seen) middle left
    → ReadsFields seen (text key ∷ rest) left
unfolding emit unique
field-Reads seen key rest value after middle left fresh next (v, r, u) (fs, s, w) =
    (field key v fs, ap (λ l. text key ∷ l) (next ∙ r ∙ ap (emit v) s), ground (arith, fresh, u, w))

item-Reads :
    (tokens : List Token) (value : Token) (after middle left : List Token)
    → tokens ≡ value ∷ after
    → ReadsValue value after middle
    → ReadsItems middle left
    → ReadsItems tokens left
unfolding emit unique
item-Reads tokens value after middle left next (v, r, u) (xs, s, w) =
    (item v xs, next ∙ r ∙ ap (emit v) s, ground (arith, u, w))

items-Read :
    (f : ℕ) (tokens left : List Token)
    → ((t : Token) (after middle : List Token)
        → walk_value f t after ≡ ok middle
        → ReadsValue t after middle)
    → ((middle : List Token) → walk_items f middle ≡ ok left → ReadsItems middle left)
    → (next_token tokens >>= λ (t, after). walk_value f t after >>= λ middle. walk_items f middle)
      ≡ ok left
    → ReadsItems tokens left
items-Read f tokens left values items h = bind_elim (next_token tokens) _ h λ (t, after) next h₂.
    bind_elim (walk_value f t after) _ h₂ λ middle first more.
      item-Reads tokens t after middle left (next_token-ok tokens next)
        (values t after middle first) (items middle more)

mutual
  unfolding walk_value emit unique

  pub walk_value-Reads :
      (f : ℕ) (token : Token) (rest : List Token) {left : List Token}
      → walk_value f token rest ≡ ok left
      → ReadsValue token rest left
  walk_value-Reads zero token rest h = absurd (cc)
  walk_value-Reads (suc f) open_object rest h =
      let (fs, r, u) = walk_fields-Reads f [] rest h in
      (object_value fs, ap (λ l. open_object ∷ l) r, u)
  walk_value-Reads (suc f) open_array rest h =
      let (xs, r, u) = walk_items-Reads f rest h in (array_value xs, ap (λ l. open_array ∷ l) r, u)
  walk_value-Reads (suc f) (text s) rest h = (text_value s, cc, refl)
  walk_value-Reads (suc f) scalar rest h = (scalar_value, cc, refl)
  walk_value-Reads (suc f) close_object rest h = absurd (cc)
  walk_value-Reads (suc f) close_array rest h = absurd (cc)
  walk_value-Reads (suc f) broken rest h = absurd (cc)

  walk_fields-Reads :
      (f : ℕ) (seen : List Bytes) (tokens : List Token) {left : List Token}
      → walk_fields f seen tokens ≡ ok left
      → ReadsFields seen tokens left
  walk_fields-Reads zero seen tokens h = absurd (cc)
  walk_fields-Reads (suc f) seen (close_object ∷ rest) h = (no_fields, cc, refl)
  walk_fields-Reads (suc f) seen (text key ∷ rest) {left} h =
      refuse_elim (contains key seen) duplicate_field _ h λ fresh h₁.
        bind_elim (next_token rest) _ h₁ λ (value, after) next h₂.
          bind_elim (walk_value f value after) _ h₂ λ middle first more.
            field-Reads seen key rest value after middle left fresh (next_token-ok rest next)
              (walk_value-Reads f value after first) (walk_fields-Reads f (key ∷ seen) middle more)
  walk_fields-Reads (suc f) seen [] h = absurd (cc)
  walk_fields-Reads (suc f) seen (open_object ∷ rest) h = absurd (cc)
  walk_fields-Reads (suc f) seen (open_array ∷ rest) h = absurd (cc)
  walk_fields-Reads (suc f) seen (close_array ∷ rest) h = absurd (cc)
  walk_fields-Reads (suc f) seen (scalar ∷ rest) h = absurd (cc)
  walk_fields-Reads (suc f) seen (broken ∷ rest) h = absurd (cc)

  walk_items-Reads :
      (f : ℕ) (tokens : List Token) {left : List Token}
      → walk_items f tokens ≡ ok left
      → ReadsItems tokens left
  walk_items-Reads zero tokens h = absurd (cc)
  walk_items-Reads (suc f) [] h = absurd (cc)
  walk_items-Reads (suc f) (close_array ∷ rest) h = (no_items, cc, refl)
  walk_items-Reads (suc f) (close_object ∷ rest) h = absurd (cc)
  walk_items-Reads (suc f) (open_object ∷ rest) {left} h =
      items-Read f (open_object ∷ rest) left (λ t a m e. walk_value-Reads f t a e)
        (λ m e. walk_items-Reads f m e) h
  walk_items-Reads (suc f) (open_array ∷ rest) {left} h =
      items-Read f (open_array ∷ rest) left (λ t a m e. walk_value-Reads f t a e)
        (λ m e. walk_items-Reads f m e) h
  walk_items-Reads (suc f) (text s ∷ rest) {left} h =
      items-Read f (text s ∷ rest) left (λ t a m e. walk_value-Reads f t a e)
        (λ m e. walk_items-Reads f m e) h
  walk_items-Reads (suc f) (scalar ∷ rest) {left} h =
      items-Read f (scalar ∷ rest) left (λ t a m e. walk_value-Reads f t a e)
        (λ m e. walk_items-Reads f m e) h
  walk_items-Reads (suc f) (broken ∷ rest) {left} h =
      items-Read f (broken ∷ rest) left (λ t a m e. walk_value-Reads f t a e)
        (λ m e. walk_items-Reads f m e) h
