-- ===== src/Base/Paths.antt =====
-- `path.Clean` and `path.Base` of Go's standard library (`filepath` on Linux), `strings.TrimSpace`
-- as a test, and joins.
pub mod Split
pub mod Dir
use unlock_catalog_publisher.Base.{
  ◌≡◌, refl, Bool, true, false, not, ◌&&◌, ◌||◌, List, [], ◌∷◌, ◌++◌, Bytes, codes, contains, eqb,
  ltb, leb, length, ◌==◌, if◌then◌else◌,
}

-- `strings.Split(s, "/")`; the part that is being read comes first.
pub split_from : Bytes → Bytes → List Bytes
split_from part [] = part ∷ []
split_from part (c ∷ s) = elim (eqb c b'/') [
  | true ↦ part ∷ split_from [] s
  | false ↦ split_from (part ++ c ∷ []) s
]

unfoldable pub split : Bytes → List Bytes
unfolding split_from
split = split_from []

-- `strings.Join(parts, "/")`
unfoldable pub join : List Bytes → Bytes
join [] = []
join (p ∷ []) = p
join (p ∷ q ∷ parts) = p ++ b'/' ∷ join (q ∷ parts)

abbrev pub parent : Bytes
parent = codes ".."

-- One element, with those that `Clean` has kept so far, the last first: `.` and empty ones go, `..`
-- takes the last away.
pub clean_step : Bool → List Bytes → Bytes → List Bytes
clean_step rooted [] p = if p == [] || p == codes "." || (p == parent && rooted) then [] else p ∷ []
clean_step rooted (last ∷ before) p =
    if p == [] || p == codes "."
    then last ∷ before
    else if p == parent && not (last == parent)
    then before
    else p ∷ last ∷ before

pub clean_parts : Bool → List Bytes → List Bytes → List Bytes
unfolding clean_step
clean_parts rooted out [] = out
clean_parts rooted out (p ∷ parts) = clean_parts rooted (clean_step rooted out p) parts

pub reverse_onto : List Bytes → List Bytes → List Bytes
reverse_onto out [] = out
reverse_onto out (p ∷ parts) = reverse_onto (p ∷ out) parts

-- `path.IsAbs`
unfoldable pub is_abs : Bytes → Bool
is_abs [] = false
is_abs (c ∷ s) = eqb c b'/'

-- `path.Clean`
unfoldable pub clean : Bytes → Bytes
unfolding clean_parts reverse_onto join split is_abs
clean s =
    let rooted = is_abs s in
    let body = join (reverse_onto [] (clean_parts rooted [] (split s))) in
    if rooted then b'/' ∷ body else if body == [] then codes "." else body

-- `path.Join` of two elements.
unfoldable pub join_path : Bytes → Bytes → Bytes
unfolding clean
join_path [] [] = []
join_path [] (c ∷ s) = clean (c ∷ s)
join_path (c ∷ s) relative = clean (c ∷ s ++ b'/' ∷ relative)

last_part : Bytes → List Bytes → Bytes
last_part found [] = found
last_part found (p ∷ parts) = elim (p == []) [
  | true ↦ last_part found parts
  | false ↦ last_part p parts
]

-- `path.Base`
unfoldable pub base : Bytes → Bytes
unfolding last_part split
base s =
    let last = last_part [] (split s) in
    if s == [] then codes "." else if last == [] then codes "/" else last

-- The white space of Unicode in UTF-8.
abbrev spaces : List Bytes
spaces =
    (9 ∷ [])
    ∷ (10 ∷ [])
    ∷ (11 ∷ [])
    ∷ (12 ∷ [])
    ∷ (13 ∷ [])
    ∷ (32 ∷ [])
    ∷ (194 ∷ 133 ∷ [])
    ∷ (194 ∷ 160 ∷ [])
    ∷ (225 ∷ 154 ∷ 128 ∷ [])
    ∷ (226 ∷ 128 ∷ 168 ∷ [])
    ∷ (226 ∷ 128 ∷ 169 ∷ [])
    ∷ (226 ∷ 128 ∷ 175 ∷ [])
    ∷ (226 ∷ 129 ∷ 159 ∷ [])
    ∷ (227 ∷ 128 ∷ 128 ∷ [])
    ∷ []

-- U+2000 to U+200A.
is_wide_space : Bytes → Bool
is_wide_space (a ∷ b ∷ c ∷ []) = eqb a 226 && eqb b 128 && leb 128 c && leb c 138
is_wide_space _ = false

blank_after : Bytes → Bytes → Bool
unfolding is_wide_space contains
blank_after pending [] = pending == []
blank_after pending (c ∷ s) =
    let now = pending ++ c ∷ [] in
    elim (contains now spaces || is_wide_space now) [
      | true ↦ blank_after [] s
      | false ↦ ltb (length now) 3 && blank_after now s
    ]

-- `strings.TrimSpace(s) == ""`
unfoldable pub is_blank : Bytes → Bool
unfolding blank_after
is_blank = blank_after []

clean_example : clean (codes "/a/./b//../c/") ≡ codes "/a/c"
unfolding clean ◌==◌
clean_example = refl

clean_up : clean (codes "../a/../../b") ≡ codes "../../b"
unfolding clean ◌==◌
clean_up = refl

base_example : base (codes "/a/bc/") ≡ codes "bc"
unfolding base ◌==◌
base_example = refl

blank_example : is_blank (32 ∷ 226 ∷ 128 ∷ 130 ∷ 10 ∷ []) ≡ true
unfolding is_blank ◌==◌ contains
blank_example = refl
