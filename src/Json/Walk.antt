-- ===== src/Json/Walk.antt =====
-- `rejectDuplicateJSONFields` and `walkJSONValue` (internal/package/package.go), and
-- `rejectDuplicateJSONMembers` of internal/signing/candidate.go. The tokens are those that a
-- `json.Decoder` returns one after the other.
use unlock_catalog_publisher.Base.{
  ℕ, zero, suc, ◌+◌, ◌*◌, List, [], ◌∷◌, Bytes, contains, length, Result, ok, err, ◌>>=◌, ◌>>◌,
  refuse,
}

-- A scalar is a number, a Boolean or null, and `broken` is the error of the decoder at a place that it does
-- not understand; the list ends where the input does.
pub data Token : Type 0 where
  open_object close_object open_array close_array : Token
  text : Bytes → Token
  scalar : Token
  broken : Token

-- `out_of_fuel` has no counterpart in the program.
pub data JsonError : Type 0 where
  duplicate_field malformed trailing out_of_fuel : JsonError

-- `decoder.Token()`
unfoldable pub next_token : List Token → Result JsonError (Token × List Token)
next_token [] = err malformed
next_token (broken ∷ rest) = err malformed
next_token (token ∷ rest) = ok (token, rest)

-- `walkJSONValue` after the value's first token, and its two loops. They return what is left.
unfoldable mutual
  unfolding next_token

  pub walk_value : ℕ → Token → List Token → Result JsonError (List Token)
  walk_value zero token rest = err out_of_fuel
  walk_value (suc fuel) open_object rest = walk_fields fuel [] rest
  walk_value (suc fuel) open_array rest = walk_items fuel rest
  walk_value (suc fuel) (text s) rest = ok rest
  walk_value (suc fuel) scalar rest = ok rest
  walk_value (suc fuel) token rest = err malformed

  pub walk_fields : ℕ → List Bytes → List Token → Result JsonError (List Token)
  walk_fields zero seen tokens = err out_of_fuel
  walk_fields (suc fuel) seen (close_object ∷ rest) = ok rest
  walk_fields (suc fuel) seen (text key ∷ rest) = do
    refuse (contains key seen) duplicate_field
    (value, after_value) ← next_token rest
    left ← walk_value fuel value after_value
    walk_fields fuel (key ∷ seen) left
  walk_fields (suc fuel) seen tokens = err malformed

  pub walk_items : ℕ → List Token → Result JsonError (List Token)
  walk_items zero tokens = err out_of_fuel
  walk_items (suc fuel) [] = err malformed
  walk_items (suc fuel) (close_array ∷ rest) = ok rest
  walk_items (suc fuel) (close_object ∷ rest) = err malformed
  walk_items (suc fuel) (value ∷ rest) = do
    (token, after_token) ← next_token (value ∷ rest)
    left ← walk_value fuel token after_token
    walk_items fuel left

-- Nothing but the end may follow the value.
unfoldable pub at_end : List Token → Result JsonError (Unit {0})
at_end [] = ok tt
at_end (broken ∷ rest) = err malformed
at_end (token ∷ rest) = err trailing

-- Two calls for each token are enough.
unfoldable pub reject_duplicate_json_fields : List Token → Result JsonError (Unit {0})
reject_duplicate_json_fields tokens = do
  (first, rest) ← next_token tokens
  left ← walk_value (2 * length tokens + 2) first rest
  at_end left
