-- ===== src/Signing/Candidate/Held.antt =====
-- What `readRegularFile` and `validateObjects` (internal/signing/candidate.go) have read when they accept.
use unlock_catalog_publisher.Base.{
  ℕ, zero, suc, ◌≤◌, ◌≡◌, refl, sym, ap, subst, ◌∙◌, Bool, true, false, not, ◌&&◌, ◌==◌, ==_iff,
  List, [], ◌∷◌, Bytes, Dict, Option, none, some, arith, eqb, ltb, length, take, all, lookup, ok,
  refuse_elim, or_fail_elim, bind_elim, ok-injective, not-eq-false, refuse-eq-ok, Bool-cases, inl,
  inr,
}
use unlock_catalog_publisher.Base.Growth.{for_each-all}
use unlock_catalog_publisher.Base.Int.{ℤ, pos, negsuc, int_eq, int_eq_iff}
use unlock_catalog_publisher.Base.Items.{Item, symlink, folder, plain, special}
use unlock_catalog_publisher.Primitives.{Primitives, digest_bytes}
use unlock_catalog_publisher.Catalog.Types.{SigningObject, ArtifactDescriptor}
use unlock_catalog_publisher.Signing.Candidate.Reading.{
  mode_file, max_int64, valid_candidate_file_mode, content_of, read_limited, open_no_symlinks,
  natural, read_regular_file, validate_object, validate_objects,
}
use unlock_catalog_publisher.Signing.Candidate.Request.{describes, match_objects}

length-take : (n : ℕ) (xs : Bytes) → length (take (suc n) xs) ≤ n → take (suc n) xs ≡ xs
unfolding take
length-take n [] h = refl
length-take zero (x ∷ xs) h = absurd (omega arith)
length-take (suc n) (x ∷ xs) h = ap (λ l. x ∷ l) (length-take n xs (omega arith))

read_limited-whole :
    (n : ℕ) (content : Bytes)
    → eqb n max_int64 ≡ false
    → ltb n (length (read_limited n content)) ≡ false
    → read_limited n content ≡ content
read_limited-whole n content e h =
    let same : read_limited n content ≡ take (suc n) content = rw e refl in
    same ∙ length-take n content (ground (arith, subst (λ l. ltb n (length l) ≡ false) same h))

-- What is read of a file.
record IsRead (items : Dict Item) (relative : Bytes) (maximum : ℤ) (exact_limit : Bool)
    (content : Bytes) : Type 0 where
  limit : ℕ
  whole : Bytes
  is_limit : maximum ≡ pos limit
  there : lookup relative items ≡ some (plain mode_file whole)
  cut : content ≡ read_limited limit whole
  short : ltb limit (length content) ≡ false
  exact : (exact_limit && not (eqb (length content) limit)) ≡ false

candidate_file :
    (item : Item) → valid_candidate_file_mode item ≡ true → item ≡ plain mode_file (content_of item)
unfolding valid_candidate_file_mode
candidate_file symlink v = absurd (cc)
candidate_file (folder mode) v = absurd (cc)
candidate_file special v = absurd (cc)
candidate_file (plain mode content) v = ap (λ m. plain m content) (ground (arith, v))

opened_item :
    (found : Option Item) (item : Item) → open_no_symlinks found ≡ some item → found ≡ some item
opened_item none item h = absurd (cc)
opened_item (some symlink) item h = absurd (cc)
opened_item (some (folder mode)) item h = h
opened_item (some special) item h = h
opened_item (some (plain mode content)) item h = h

natural-pos : (m : ℤ) (n : ℕ) → natural m ≡ some n → m ≡ pos n
natural-pos (pos k) n h = cc
natural-pos (negsuc k) n h = absurd (cc)

read_regular_file-IsRead :
    (items : Dict Item) (relative : Bytes) (maximum : ℤ) (exact_limit : Bool) (content : Bytes)
    → read_regular_file items relative maximum exact_limit ≡ ok content
    → IsRead items relative maximum exact_limit content
unfolding read_regular_file
read_regular_file-IsRead items relative maximum exact_limit content h =
    or_fail_elim _ _ _ h λ item opened h₁. refuse_elim _ _ _ h₁ λ regular h₂.
      or_fail_elim _ _ _ h₂ λ limit natural_limit h₃. refuse_elim _ _ _ h₃ λ short h₄.
        refuse_elim _ _ _ h₄ λ exact out.
          let same = ok-injective out in
          record {
            limit = limit;
            whole = content_of item;
            is_limit = natural-pos maximum limit natural_limit;
            there =
                opened_item (lookup relative items) item opened
                ∙ ap some (candidate_file item (not-eq-false _ regular));
            cut = sym same;
            short = subst (λ c. ltb limit (length c) ≡ false) same short;
            exact = subst (λ c. (exact_limit && not (eqb (length c) limit)) ≡ false) same exact;
          }

-- A file that is shorter than the limit is read to its end.
pub IsRead-there :
    (items : Dict Item) (relative : Bytes) (maximum : ℕ) (content : Bytes)
    → eqb maximum max_int64 ≡ false
    → read_regular_file items relative (pos maximum) false ≡ ok content
    → lookup relative items ≡ some (plain mode_file content)
IsRead-there items relative maximum content e h =
    let r = read_regular_file-IsRead items relative (pos maximum) false content h in
    let same : r.limit ≡ maximum = cc (r.is_limit) in
    let whole =
      read_limited-whole r.limit r.whole (subst (λ n. eqb n max_int64 ≡ false) (sym same) e)
        (subst (λ c. ltb r.limit (length c) ≡ false) r.cut r.short) in
    r.there ∙ ap (λ c. some (plain mode_file c)) (sym (r.cut ∙ whole))

-- There is a regular file of mode 0644 with this digest and length.
abbrev pub held : Primitives → Dict Item → Bytes → Bytes → ℤ → Bool
held P items path sha256 size = elim (lookup path items) [
  | none ↦ false
  | some item ↦
      valid_candidate_file_mode item
      && digest_bytes P (content_of item) == sha256
      && int_eq (pos (length (content_of item))) size
]

abbrev pub object_held : Primitives → Dict Item → SigningObject → Bool
object_held P items object = held P items object.path object.sha256 object.length

abbrev pub artifact_held : Primitives → Dict Item → ArtifactDescriptor → Bool
artifact_held P items artifact = held P items artifact.path artifact.sha256 artifact.length

not_limit :
    (n : ℕ) (whole : Bytes) → eqb (length (read_limited n whole)) n ≡ true → eqb n max_int64 ≡ false
not_limit n whole h = elim (Bool-cases (eqb n max_int64)) [
  | inr e ↦ e
  | inl e ↦
      let nothing : read_limited n whole ≡ [] = rw e refl in
      absurd (ground (arith, e, subst (λ l. eqb (length l) n ≡ true) nothing h))
]

module _ (P : Primitives) (items : Dict Item) where
  validate_object-held :
      (s : Unit {0}) (object : SigningObject) (t : Unit {0})
      → validate_object P items s object ≡ ok t
      → object_held P items object ≡ true
  unfolding validate_object valid_candidate_file_mode
  validate_object-held s object t h = bind_elim _ _ h λ content read h₁.
      refuse_elim _ _ _ h₁ λ long h₂.
        let r = read_regular_file-IsRead items object.path object.length true content read in
        let full : eqb (length (read_limited r.limit r.whole)) r.limit ≡ true =
          subst (λ c. eqb (length c) r.limit ≡ true) r.cut (ground (arith, r.exact)) in
        let whole =
          r.cut
          ∙ read_limited-whole r.limit r.whole (not_limit r.limit r.whole full)
              (subst (λ c. ltb r.limit (length c) ≡ false) r.cut r.short) in
        let digest =
          subst (λ c. digest_bytes P c == object.sha256 ≡ true) whole
            (not-eq-false _ (refuse-eq-ok _ _ h₂)) in
        let size =
          subst (λ c. int_eq (pos (length c)) object.length ≡ true) whole (not-eq-false _ long) in
        rw (object_held, held, r.there, digest, size) refl

  pub match_objects-held :
      (previous : Option Bytes) (artifacts : List ArtifactDescriptor) (objects : List SigningObject)
      → match_objects previous artifacts objects ≡ ok tt
      → eqb (length objects) (length artifacts) ≡ true
      → all (object_held P items) objects ≡ true
      → all (artifact_held P items) artifacts ≡ true
  unfolding match_objects all describes
  match_objects-held previous [] objects h e k = refl
  match_objects-held previous (artifact ∷ artifacts) [] h e k = absurd (ground (arith, e))
  match_objects-held previous (artifact ∷ artifacts) (object ∷ objects) h e k =
      refuse_elim _ _ _ h λ same h₁. refuse_elim _ _ _ h₁ λ sorted rest.
        let path : object.path ≡ artifact.path = (==_iff _ _).0 (ground (arith, same)) in
        let sha256 : object.sha256 ≡ artifact.sha256 = (==_iff _ _).0 (ground (arith, same)) in
        let size : object.length ≡ artifact.length = (int_eq_iff _ _).0 (ground (arith, same)) in
        let first : object_held P items object ≡ true = ground (arith, k) in
        let here : artifact_held P items artifact ≡ true =
          ap (λ p. held P items p artifact.sha256 artifact.length) (sym path)
          ∙ ap (λ d. held P items object.path d artifact.length) (sym sha256)
          ∙ ap (held P items object.path object.sha256) (sym size)
          ∙ first in
        let more =
          match_objects-held (some object.artifact_id) artifacts objects rest (ground (arith, e))
            (ground (arith, k)) in
        ground (arith, here, more)

  pub validate_objects-held :
      (objects : List SigningObject)
      → validate_objects P items objects ≡ ok tt
      → all (object_held P items) objects ≡ true
  unfolding validate_objects
  validate_objects-held objects h =
      for_each-all (validate_object P items) (object_held P items) validate_object-held objects tt h
