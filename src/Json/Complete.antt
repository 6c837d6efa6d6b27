-- ===== src/Json/Complete.antt =====
-- The walk accepts the tokens of every document in which no object has two fields of one name.
use unlock_catalog_publisher.Base.{
  ℕ, zero, suc, ◌+◌, ◌*◌, ◌≤◌, ◌<◌, ◌≡◌, ◌↔◌, refl, sym, subst, ap, ◌∙◌, true, false, List, [], ◌∷◌,
  Bytes, arith, contains, length, Result, ok, ◌>>=◌, ◌>>◌, bind_elim,
}
use unlock_catalog_publisher.Json.Walk.{
  Token, open_object, close_object, open_array, close_array, text, scalar, broken, JsonError,
  next_token, walk_value, walk_fields, walk_items, at_end, reject_duplicate_json_fields,
}
use unlock_catalog_publisher.Json.Values.{
  Value, Items, Fields, text_value, scalar_value, array_value, object_value, no_items, item,
  no_fields, field, emit, emit_items, emit_fields, unique, unique_items, unique_fields,
}
use unlock_catalog_publisher.Json.Unique.{next_token-ok, walk_value-Reads}

mutual
  unfolding emit

  emit-longer : (v : Value) (rest : List Token) → length rest < length (emit v rest)
  emit-longer (text_value s) rest = omega arith
  emit-longer scalar_value rest = omega arith
  emit-longer (array_value xs) rest = omega (arith, emit_items-longer xs rest)
  emit-longer (object_value fs) rest = omega (arith, emit_fields-longer fs rest)

  emit_items-longer : (xs : Items) (rest : List Token) → length rest < length (emit_items xs rest)
  emit_items-longer no_items rest = omega arith
  emit_items-longer (item v xs) rest =
      omega (arith, emit-longer v (emit_items xs rest), emit_items-longer xs rest)

  emit_fields-longer :
      (fs : Fields) (rest : List Token) → length rest < length (emit_fields fs rest)
  emit_fields-longer no_fields rest = omega arith
  emit_fields-longer (field k v fs) rest =
      omega (arith, emit-longer v (emit_fields fs rest), emit_fields-longer fs rest)

-- A value that is read and leaves `left` is longer than what it leaves.
pub walk_value-shorter :
    (f : ℕ) (token : Token) (rest : List Token) {left : List Token}
    → walk_value f token rest ≡ ok left
    → length left ≤ length rest
walk_value-shorter f token rest {left} h =
    let (v, read, _) = walk_value-Reads f token rest h in
    let same : length (token ∷ rest) ≡ length (emit v left) = ap length read in
    omega (arith, same, emit-longer v left)

-- `next_token`, and then the walk.
abbrev walk_next : ℕ → List Token → Result JsonError (List Token)
walk_next f tokens = next_token tokens >>= λ (token, rest). walk_value f token rest

walk_items-emit_item :
    (f : ℕ) (v : Value) (rest : List Token)
    → walk_items (suc f) (emit v rest) ≡ (walk_next f (emit v rest) >>= λ left. walk_items f left)
unfolding walk_value next_token emit ◌>>=◌
walk_items-emit_item f (text_value s) rest = refl
walk_items-emit_item f scalar_value rest = refl
walk_items-emit_item f (array_value xs) rest = refl
walk_items-emit_item f (object_value fs) rest = refl

walk_fields-emit_field :
    (f : ℕ) (seen : List Bytes) (key : Bytes) (v : Value) (rest : List Token)
    → contains key seen ≡ false
    → walk_fields (suc f) seen (text key ∷ emit v rest)
      ≡ (walk_next f (emit v rest) >>= λ left. walk_fields f (key ∷ seen) left)
unfolding walk_value next_token emit ◌>>=◌ ◌>>◌
walk_fields-emit_field f seen key (text_value s) rest h = rw h
walk_fields-emit_field f seen key scalar_value rest h = rw h
walk_fields-emit_field f seen key (array_value xs) rest h = rw h
walk_fields-emit_field f seen key (object_value fs) rest h = rw h

mutual
  unfolding walk_value next_token emit unique ◌>>=◌

  walk_value-emit :
      (f : ℕ) (v : Value) (rest : List Token)
      → 2 * length (emit v rest) ≤ f
      → unique v ≡ true
      → walk_next f (emit v rest) ≡ ok rest
  walk_value-emit zero v rest h u = absurd (omega (arith, emit-longer v rest))
  walk_value-emit (suc f) (text_value s) rest h u = refl
  walk_value-emit (suc f) scalar_value rest h u = refl
  walk_value-emit (suc f) (array_value xs) rest h u = walk_items-emit f xs rest (omega arith) u
  walk_value-emit (suc f) (object_value fs) rest h u = walk_fields-emit f [] fs rest (omega arith) u

  walk_items-emit :
      (f : ℕ) (xs : Items) (rest : List Token)
      → 2 * length (emit_items xs rest) + 1 ≤ f
      → unique_items xs ≡ true
      → walk_items f (emit_items xs rest) ≡ ok rest
  walk_items-emit zero xs rest h u = absurd (omega arith)
  walk_items-emit (suc f) no_items rest h u = refl
  walk_items-emit (suc f) (item v xs) rest h u =
      let longer = emit-longer v (emit_items xs rest) in
      let first = walk_value-emit f v (emit_items xs rest) (omega arith) (ground (arith, u)) in
      walk_items-emit_item f v (emit_items xs rest)
      ∙ rw first (walk_items-emit f xs rest (omega (arith, longer)) (ground (arith, u)))

  walk_fields-emit :
      (f : ℕ) (seen : List Bytes) (fs : Fields) (rest : List Token)
      → 2 * length (emit_fields fs rest) + 1 ≤ f
      → unique_fields seen fs ≡ true
      → walk_fields f seen (emit_fields fs rest) ≡ ok rest
  walk_fields-emit zero seen fs rest h u = absurd (omega arith)
  walk_fields-emit (suc f) seen no_fields rest h u = refl
  walk_fields-emit (suc f) seen (field k v fs) rest h u =
      let longer = emit-longer v (emit_fields fs rest) in
      let first = walk_value-emit f v (emit_fields fs rest) (omega arith) (ground (arith, u)) in
      walk_fields-emit_field f seen k v (emit_fields fs rest) (ground (arith, u))
      ∙ rw first (walk_fields-emit f (k ∷ seen) fs rest (omega (arith, longer)) (ground (arith, u)))

at_end-ok : (tokens : List Token) → at_end tokens ≡ ok tt → tokens ≡ []
unfolding at_end
at_end-ok [] h = refl
at_end-ok (open_object ∷ rest) h = cc
at_end-ok (close_object ∷ rest) h = cc
at_end-ok (open_array ∷ rest) h = cc
at_end-ok (close_array ∷ rest) h = cc
at_end-ok (text s ∷ rest) h = cc
at_end-ok (scalar ∷ rest) h = cc
at_end-ok (broken ∷ rest) h = cc

-- The tokens are accepted exactly when they are those of one document, in which no object has two fields
-- of one name at any depth.
pub reject_duplicate_json_fields_iff :
    (tokens : List Token)
    → (reject_duplicate_json_fields tokens ≡ ok tt)
      ↔ ((v : Value) × (tokens ≡ emit v []) × (unique v ≡ true))
unfolding reject_duplicate_json_fields ◌>>=◌ at_end
reject_duplicate_json_fields_iff tokens = (accepted, found)
  where
    accepted :
        reject_duplicate_json_fields tokens ≡ ok tt
        → (v : Value) × (tokens ≡ emit v []) × (unique v ≡ true)
    accepted h = bind_elim (next_token tokens) _ h λ (first, rest) next h₁.
        bind_elim (walk_value (2 * length tokens + 2) first rest) _ h₁ λ left walked last.
          let (v, read, u) = walk_value-Reads (2 * length tokens + 2) first rest walked in
          (v, next_token-ok tokens next ∙ read ∙ ap (emit v) (at_end-ok left last), u)

    found :
        ((v : Value) × (tokens ≡ emit v []) × (unique v ≡ true))
        → reject_duplicate_json_fields tokens ≡ ok tt
    found (v, same, u) =
        let whole : walk_next (2 * length tokens + 2) tokens ≡ ok [] =
          subst (λ l. walk_next (2 * length l + 2) l ≡ ok []) (sym same)
            (walk_value-emit (2 * length (emit v []) + 2) v [] (omega arith) u) in
        bind_elim (next_token tokens) _ whole λ (first, rest) next walked. rw (next, walked) refl
