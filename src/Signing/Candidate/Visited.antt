-- ===== src/Signing/Candidate/Visited.antt =====
-- What the walk of `validateCandidateTree` (internal/signing/candidate.go) lets pass.
use mathlib.Core.List.{
  append-nil, append_assoc, Nodup-cons, Nodup-nil, mem-cons_self, mem-cons_of_mem,
}
use unlock_catalog_publisher.Base.{
  ℕ, ◌≡◌, refl, sym, ap, subst, ◌∙◌, Bool, true, false, ◌&&◌, ◌==◌, ==_iff, List, [], ◌∷◌, ◌++◌,
  Mem, Nodup, Bytes, Dict, arith, eqb, all, contains, ok, ◌>>=◌, ◌>>◌, for_each, refuse_elim,
  ok-injective, Bool-cases, inl, inr,
}
use unlock_catalog_publisher.Base.Growth.{
  flat_map, Grows, Grows-nil, Grows-one, for_each-Grows, for_each-all,
}
use unlock_catalog_publisher.Base.Items.{Item, symlink, folder, plain, special, file_paths}
use unlock_catalog_publisher.Signing.Candidate.Reading.{
  mode_file, mode_directory, valid_candidate_file_mode,
}
use unlock_catalog_publisher.Signing.Candidate.Tree.{visit}

-- What may stand in the tree.
abbrev pub allowed : List Bytes → List Bytes → Bytes × Item → Bool
allowed files directories (relative, symlink) = false
allowed files directories (relative, folder mode) =
    eqb mode mode_directory && contains relative directories
allowed files directories (relative, plain mode content) =
    eqb mode mode_file && contains relative files
allowed files directories (relative, special) = false

abbrev own_path : Bytes × Item → List Bytes
own_path item = file_paths (item ∷ [])

module _ (files directories : List Bytes) where
  visit-ok :
      (seen : List Bytes) (item : Bytes × Item) (t : List Bytes)
      → visit files directories seen item ≡ ok t
      → (allowed files directories item ≡ true) × Grows seen t (own_path item)
  unfolding visit valid_candidate_file_mode
  visit-ok seen (relative, symlink) t h = absurd (cc)
  visit-ok seen (relative, folder mode) t h = refuse_elim _ _ _ h λ mode_right h₁.
      refuse_elim _ _ _ h₁ λ known out. (
        ground (arith, mode_right, known),
        subst (λ r. Grows seen r []) (ok-injective out) (Grows-nil seen),
      )
  visit-ok seen (relative, plain mode content) t h = refuse_elim _ _ _ h λ mode_right h₁.
      refuse_elim _ _ _ h₁ λ known h₂. refuse_elim _ _ _ h₂ λ fresh out. (
        ground (arith, mode_right, known),
        subst (λ r. Grows seen r (relative ∷ [])) (ok-injective out)
            (Grows-one seen relative fresh),
      )
  visit-ok seen (relative, special) t h =
      refuse_elim _ _ _ h λ (mode_right : true ≡ false) h₁. absurd (cc)

  file_paths-flat : (items : Dict Item) → flat_map own_path items ≡ file_paths items
  file_paths-flat [] = refl
  file_paths-flat ((relative, symlink) ∷ items) = file_paths-flat items
  file_paths-flat ((relative, folder mode) ∷ items) = file_paths-flat items
  file_paths-flat ((relative, plain mode content) ∷ items) =
      ap (λ l. relative ∷ l) (file_paths-flat items)
  file_paths-flat ((relative, special) ∷ items) = ap (λ l. relative ∷ l) (file_paths-flat items)

  pub for_each-visit :
      (items : Dict Item) {t : List Bytes}
      → for_each (visit files directories) [] items ≡ ok t
      → (all (allowed files directories) items ≡ true) × (t ≡ file_paths items) × Nodup t
  for_each-visit items h =
      let (same, fresh) =
        for_each-Grows (visit files directories) (λ s. s) own_path (λ s x t k. (visit-ok s x t k).1)
          items [] h in
      (
        for_each-all (visit files directories) (allowed files directories)
            (λ s x t k. (visit-ok s x t k).0) items [] h,
        same ∙ file_paths-flat items,
        fresh Nodup-nil,
      )

  mem_middle : (xs : List Bytes) (k : Bytes) (ys : List Bytes) → Mem k (xs ++ k ∷ ys)
  mem_middle [] k ys = mem-cons_self
  mem_middle (x ∷ xs) k ys = mem-cons_of_mem x (mem_middle xs k ys)

  Nodup-fresh :
      (xs : List Bytes) (k : Bytes) (ys : List Bytes) → Nodup (xs ++ k ∷ ys) → contains k xs ≡ false
  unfolding contains
  Nodup-fresh [] k ys n = refl
  Nodup-fresh (x ∷ xs) k ys n = elim (Bool-cases (x == k)) [
    | inl e ↦ absurd (
        (Nodup-cons.0 n).0
          (subst (λ l. Mem l (xs ++ k ∷ ys)) (sym ((==_iff x k).0 e)) (mem_middle xs k ys)))
    | inr e ↦ rw e (Nodup-fresh xs k ys (Nodup-cons.0 n).1)
  ]

  visit-folder :
      (seen : List Bytes) (relative : Bytes) (mode : ℕ)
      → (eqb mode mode_directory && contains relative directories) ≡ true
      → visit files directories seen (relative, folder mode) ≡ ok seen
  unfolding visit ◌>>◌
  visit-folder seen relative mode h =
      let right : eqb mode mode_directory ≡ true = ground (arith, h) in
      let known : contains relative directories ≡ true = ground (arith, h) in rw (right, known) refl

  visit-file :
      (seen : List Bytes) (relative : Bytes) (mode : ℕ) (content : Bytes) (rest : List Bytes)
      → (eqb mode mode_file && contains relative files) ≡ true
      → Nodup (seen ++ relative ∷ rest)
      → visit files directories seen (relative, plain mode content) ≡ ok (seen ++ relative ∷ [])
  unfolding visit valid_candidate_file_mode ◌>>◌
  visit-file seen relative mode content rest h n =
      let right : eqb mode mode_file ≡ true = ground (arith, h) in
      let known : contains relative files ≡ true = ground (arith, h) in
      rw (right, known, Nodup-fresh seen relative rest n) refl

  pub for_each-visit_complete :
      (seen : List Bytes) (items : Dict Item)
      → all (allowed files directories) items ≡ true
      → Nodup (seen ++ file_paths items)
      → for_each (visit files directories) seen items ≡ ok (seen ++ file_paths items)
  unfolding for_each all ◌>>=◌
  for_each-visit_complete seen [] h n = ap ok (sym (append-nil seen))
  for_each-visit_complete seen ((relative, symlink) ∷ items) h n = absurd (cc)
  for_each-visit_complete seen ((relative, special) ∷ items) h n = absurd (cc)
  for_each-visit_complete seen ((relative, folder mode) ∷ items) h n =
      ap (λ r. r >>= λ s. for_each (visit files directories) s items)
        (visit-folder seen relative mode (ground (arith, h)))
      ∙ for_each-visit_complete seen items (ground (arith, h)) n
  for_each-visit_complete seen ((relative, plain mode content) ∷ items) h n =
      let turned = append_assoc seen (relative ∷ []) (file_paths items) in
      ap (λ r. r >>= λ s. for_each (visit files directories) s items)
        (visit-file seen relative mode content (file_paths items) (ground (arith, h)) n)
      ∙ for_each-visit_complete (seen ++ relative ∷ []) items (ground (arith, h))
          (subst Nodup (sym turned) n)
      ∙ ap ok turned
