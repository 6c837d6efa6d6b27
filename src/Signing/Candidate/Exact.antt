-- ===== src/Signing/Candidate/Exact.antt =====
-- The tree that `validateCandidateTree` (internal/signing/candidate.go) accepts.
use mathlib.Core.List.{append-nil, append_assoc}
use unlock_catalog_publisher.Base.{
  ◌+◌, ◌≡◌, ◌↔◌, refl, sym, ap, subst, ◌∙◌, Bool, true, not, List, [], ◌∷◌, ◌++◌, map, Nodup, Bytes,
  Dict, some, arith, length, all, contains, ok, ◌>>=◌, ◌>>◌, refuse, for_each, refuse_elim,
  bind_elim, ok-injective, not-eq-false, refuse-eq-ok,
}
use unlock_catalog_publisher.Base.Growth.{flat_map, for_each-all}
use unlock_catalog_publisher.Base.Paths.{split}
use unlock_catalog_publisher.Base.Paths.Split.{is_name, no_slash, split_from-no_slash}
use unlock_catalog_publisher.Base.Paths.Dir.{ancestors, parent_paths, ancestors-names}
use unlock_catalog_publisher.Base.Items.{Item, file_paths}
use unlock_catalog_publisher.Catalog.Types.{SigningObject}
use unlock_catalog_publisher.Signing.Candidate.Types.{missing_file}
use unlock_catalog_publisher.Signing.Candidate.Visited.{
  allowed, for_each-visit, for_each-visit_complete,
}
use unlock_catalog_publisher.Signing.Candidate.Tree.{
  valid_part, valid_relative_path, expect_object, document_names, visit, validate_candidate_tree,
}

all-is_name :
    (ps : List Bytes) → all valid_part ps ≡ true → all no_slash ps ≡ true → all is_name ps ≡ true
unfolding all
all-is_name [] h k = refl
all-is_name (p ∷ ps) h k =
    ground (arith, h, k, all-is_name ps (ground (arith, h)) (ground (arith, k)))

-- The walk over the parents of a valid path ends, at the top.
pub ancestors-valid :
    (p : Bytes) → valid_relative_path p ≡ true → ancestors (length p + 1) p ≡ some (parent_paths p)
unfolding valid_relative_path split all
ancestors-valid p h =
    ancestors-names p (all-is_name (split p) (ground (arith, h)) (split_from-no_slash [] p refl))

abbrev pub object_paths : List SigningObject → List Bytes
object_paths = map λ o. o.path

abbrev pub object_parents : List SigningObject → List Bytes
object_parents = flat_map λ o. parent_paths o.path

abbrev pub valid_paths : List SigningObject → Bool
valid_paths = all λ o. valid_relative_path o.path

-- The files and the directories that a candidate with these objects has.
abbrev pub expected_files : List SigningObject → List Bytes
expected_files objects = document_names ++ object_paths objects

expect_object-valid :
    (s : List Bytes × List Bytes) (o : SigningObject) (t : List Bytes × List Bytes)
    → expect_object s o ≡ ok t
    → valid_relative_path o.path ≡ true
unfolding expect_object
expect_object-valid s o t h = refuse_elim _ _ _ h λ valid rest. not-eq-false _ valid

expect_object-eq :
    (files directories : List Bytes) (o : SigningObject)
    → valid_relative_path o.path ≡ true
    → expect_object (files, directories) o
      ≡ ok (files ++ o.path ∷ [], directories ++ parent_paths o.path)
unfolding expect_object ◌>>=◌ ◌>>◌
expect_object-eq files directories o h = rw (h, ancestors-valid o.path h) refl

for_each-expect_object :
    (files directories : List Bytes) (objects : List SigningObject)
    → valid_paths objects ≡ true
    → for_each expect_object (files, directories) objects
      ≡ ok (files ++ object_paths objects, directories ++ object_parents objects)
unfolding for_each all ◌>>=◌
for_each-expect_object files directories [] h = rw (append-nil files, append-nil directories) refl
for_each-expect_object files directories (o ∷ objects) h =
    ap (λ r. r >>= λ s. for_each expect_object s objects)
      (expect_object-eq files directories o (ground (arith, h)))
    ∙ for_each-expect_object (files ++ o.path ∷ []) (directories ++ parent_paths o.path) objects
        (ground (arith, h))
    ∙ ap (λ l. ok (l, (directories ++ parent_paths o.path) ++ object_parents objects))
        (append_assoc files (o.path ∷ []) (object_paths objects))
    ∙ ap (λ l. ok (files ++ o.path ∷ object_paths objects, l))
        (append_assoc directories (parent_paths o.path) (object_parents objects))

-- The tree holds the expected files, each once and readable by all, and nothing but directories on the way to
-- them.
pub record IsExact (items : Dict Item) (objects : List SigningObject) : Type 0 where
  pub paths_valid : valid_paths objects ≡ true
  pub nothing_else : all (allowed (expected_files objects) (object_parents objects)) items ≡ true
  pub each_once : Nodup (file_paths items)
  pub none_missing : all (λ p. contains p (file_paths items)) (expected_files objects) ≡ true

validate_candidate_tree-IsExact :
    (items : Dict Item) (objects : List SigningObject)
    → validate_candidate_tree items objects ≡ ok tt
    → IsExact items objects
unfolding validate_candidate_tree
validate_candidate_tree-IsExact items objects h = bind_elim _ _ h λ (files, directories) first h₁.
    let valid =
      for_each-all expect_object (λ o. valid_relative_path o.path) expect_object-valid objects
        (document_names, []) first in
    let sets = ok-injective (sym first ∙ for_each-expect_object document_names [] objects valid) in
    let h₂ =
      subst
        (λ r.
          (for_each (visit (r.0) (r.1)) [] items >>= λ seen.
          refuse (not (all (λ p. contains p seen) (r.0))) missing_file)
          ≡ ok tt)
        sets h₁ in
    bind_elim _ _ h₂ λ seen walked h₃.
      let (right, same, once) =
        for_each-visit (expected_files objects) (object_parents objects) items walked in
      record {
        paths_valid = valid;
        nothing_else = right;
        each_once = subst Nodup same once;
        none_missing =
            subst (λ l. all (λ p. contains p l) (expected_files objects) ≡ true) same
              (not-eq-false _ (refuse-eq-ok _ _ h₃));
      }

validate_candidate_tree_complete :
    (items : Dict Item) (objects : List SigningObject)
    → IsExact items objects
    → validate_candidate_tree items objects ≡ ok tt
unfolding validate_candidate_tree ◌>>=◌
validate_candidate_tree_complete items objects e =
    rw
      (
        for_each-expect_object document_names [] objects e.paths_valid,
        for_each-visit_complete (expected_files objects) (object_parents objects) [] items
            e.nothing_else e.each_once,
        e.none_missing,
      )
      refl

-- The check of the tree accepts exactly the trees that hold the two documents and each object's file, each
-- once, regular and of mode 0644, at valid paths, and besides them only directories of mode 0755 above the objects.
pub validate_candidate_tree_iff :
    (items : Dict Item) (objects : List SigningObject)
    → (validate_candidate_tree items objects ≡ ok tt) ↔ IsExact items objects
validate_candidate_tree_iff items objects =
    (validate_candidate_tree-IsExact items objects, validate_candidate_tree_complete items objects)
