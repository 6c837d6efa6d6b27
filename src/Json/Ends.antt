-- ===== src/Json/Ends.antt =====
-- The walk over a document's tokens ends before its fuel does.
use unlock_catalog_publisher.Base.{
  ℕ, zero, suc, ◌+◌, ◌*◌, ◌≤◌, ◌≡◌, ◌≢◌, refl, ap, Bool, true, false, List, [], ◌∷◌, Bytes, arith,
  contains, length, Result, ok, err, ◌>>=◌, ◌>>◌, refuse,
}
use unlock_catalog_publisher.Json.Walk.{
  Token, open_object, close_object, open_array, close_array, text, scalar, broken, JsonError,
  duplicate_field, out_of_fuel, next_token, walk_value, walk_fields, walk_items, at_end,
  reject_duplicate_json_fields,
}
use unlock_catalog_publisher.Json.Unique.{next_token-ok}
use unlock_catalog_publisher.Json.Complete.{walk_value-shorter}

abbrev Ends {ℓ} : {A : Type ℓ} → Result JsonError A → Type ℓ
Ends r = r ≢ err out_of_fuel

>>=-Ends {ℓ κ} :
    {A : Type ℓ} {B : Type κ} (m : Result JsonError A) (k : A → Result JsonError B)
    → Ends m
    → ((a : A) → m ≡ ok a → Ends (k a))
    → Ends (m >>= k)
unfolding ◌>>=◌
>>=-Ends (ok a) k h n = n a refl
>>=-Ends (err e) k h n = λ (p : err e ≡ err out_of_fuel). h (cc)

refuse-Ends {ℓ} :
    {B : Type ℓ} (bad : Bool) (k : Result JsonError B)
    → Ends k
    → Ends (refuse bad duplicate_field >> k)
unfolding ◌>>◌
refuse-Ends true k h = cc
refuse-Ends false k h = h

next_token-Ends : (tokens : List Token) → Ends (next_token tokens)
unfolding next_token
next_token-Ends [] = cc
next_token-Ends (broken ∷ rest) = cc
next_token-Ends (open_object ∷ rest) = cc
next_token-Ends (close_object ∷ rest) = cc
next_token-Ends (open_array ∷ rest) = cc
next_token-Ends (close_array ∷ rest) = cc
next_token-Ends (text s ∷ rest) = cc
next_token-Ends (scalar ∷ rest) = cc

-- A value is walked, and then what is left, which is shorter.
then-Ends :
    (f : ℕ) (tokens : List Token) (k : List Token → Result JsonError (List Token))
    → ((t : Token) (after : List Token)
        → suc (length after) ≤ length tokens
        → Ends (walk_value f t after))
    → ((left : List Token) → suc (length left) ≤ length tokens → Ends (k left))
    → Ends (next_token tokens >>= λ (t, after). walk_value f t after >>= k)
then-Ends f tokens k value more =
    >>=-Ends (next_token tokens) _ (next_token-Ends tokens) λ (t, after) next.
      let same : length tokens ≡ length (t ∷ after) = ap length (next_token-ok tokens next) in
      >>=-Ends (walk_value f t after) k (value t after (omega (arith, same)))
        λ left walked. more left (omega (arith, same, walk_value-shorter f t after walked))

mutual
  unfolding walk_value

  walk_value-Ends :
      (f : ℕ) (token : Token) (rest : List Token)
      → 2 * length rest + 2 ≤ f
      → Ends (walk_value f token rest)
  walk_value-Ends zero token rest h = absurd (omega arith)
  walk_value-Ends (suc f) open_object rest h = walk_fields-Ends f [] rest (omega arith)
  walk_value-Ends (suc f) open_array rest h = walk_items-Ends f rest (omega arith)
  walk_value-Ends (suc f) (text s) rest h = cc
  walk_value-Ends (suc f) scalar rest h = cc
  walk_value-Ends (suc f) close_object rest h = cc
  walk_value-Ends (suc f) close_array rest h = cc
  walk_value-Ends (suc f) broken rest h = cc

  walk_fields-Ends :
      (f : ℕ) (seen : List Bytes) (tokens : List Token)
      → 2 * length tokens + 1 ≤ f
      → Ends (walk_fields f seen tokens)
  walk_fields-Ends zero seen tokens h = absurd (omega arith)
  walk_fields-Ends (suc f) seen (text key ∷ rest) h = refuse-Ends (contains key seen) _ (
      then-Ends f rest (λ left. walk_fields f (key ∷ seen) left)
        (λ t after short. walk_value-Ends f t after (omega arith))
        (λ left short. walk_fields-Ends f (key ∷ seen) left (omega arith)))
  walk_fields-Ends (suc f) seen (close_object ∷ rest) h = cc
  walk_fields-Ends (suc f) seen [] h = cc
  walk_fields-Ends (suc f) seen (open_object ∷ rest) h = cc
  walk_fields-Ends (suc f) seen (open_array ∷ rest) h = cc
  walk_fields-Ends (suc f) seen (close_array ∷ rest) h = cc
  walk_fields-Ends (suc f) seen (scalar ∷ rest) h = cc
  walk_fields-Ends (suc f) seen (broken ∷ rest) h = cc

  walk_items-Ends :
      (f : ℕ) (tokens : List Token) → 2 * length tokens + 1 ≤ f → Ends (walk_items f tokens)
  walk_items-Ends zero tokens h = absurd (omega arith)
  walk_items-Ends (suc f) [] h = cc
  walk_items-Ends (suc f) (close_array ∷ rest) h = cc
  walk_items-Ends (suc f) (close_object ∷ rest) h = cc
  walk_items-Ends (suc f) (open_object ∷ rest) h =
      then-Ends f (open_object ∷ rest) (λ left. walk_items f left)
        (λ t after short. walk_value-Ends f t after (omega arith))
        (λ left short. walk_items-Ends f left (omega arith))
  walk_items-Ends (suc f) (open_array ∷ rest) h =
      then-Ends f (open_array ∷ rest) (λ left. walk_items f left)
        (λ t after short. walk_value-Ends f t after (omega arith))
        (λ left short. walk_items-Ends f left (omega arith))
  walk_items-Ends (suc f) (text s ∷ rest) h =
      then-Ends f (text s ∷ rest) (λ left. walk_items f left)
        (λ t after short. walk_value-Ends f t after (omega arith))
        (λ left short. walk_items-Ends f left (omega arith))
  walk_items-Ends (suc f) (scalar ∷ rest) h =
      then-Ends f (scalar ∷ rest) (λ left. walk_items f left)
        (λ t after short. walk_value-Ends f t after (omega arith))
        (λ left short. walk_items-Ends f left (omega arith))
  walk_items-Ends (suc f) (broken ∷ rest) h =
      then-Ends f (broken ∷ rest) (λ left. walk_items f left)
        (λ t after short. walk_value-Ends f t after (omega arith))
        (λ left short. walk_items-Ends f left (omega arith))

at_end-Ends : (tokens : List Token) → Ends (at_end tokens)
unfolding at_end
at_end-Ends [] = cc
at_end-Ends (broken ∷ rest) = cc
at_end-Ends (open_object ∷ rest) = cc
at_end-Ends (close_object ∷ rest) = cc
at_end-Ends (open_array ∷ rest) = cc
at_end-Ends (close_array ∷ rest) = cc
at_end-Ends (text s ∷ rest) = cc
at_end-Ends (scalar ∷ rest) = cc

-- The fuel of the walk is enough for every sequence of tokens, well formed or not: the walk ends with the
-- program's own answer.
pub reject_duplicate_json_fields-ends :
    (tokens : List Token) → reject_duplicate_json_fields tokens ≢ err out_of_fuel
unfolding reject_duplicate_json_fields
reject_duplicate_json_fields-ends tokens =
    >>=-Ends (next_token tokens) _ (next_token-Ends tokens) λ (first, rest) next.
      let same : length tokens ≡ length (first ∷ rest) = ap length (next_token-ok tokens next) in
      >>=-Ends (walk_value (2 * length tokens + 2) first rest) at_end
        (walk_value-Ends (2 * length tokens + 2) first rest (omega (arith, same)))
        (λ left walked. at_end-Ends left)
