-- ===== src/Cohort/Published.antt =====
-- `writeCandidate` (internal/cohort/builder.go) of the right objects: it succeeds, and the tree that it leaves
-- is the one that the signer expects (internal/signing/candidate.go).
use mathlib.Core.List.{Nodup-nil}
use unlock_catalog_publisher.Base.{
  ◌≡◌, refl, sym, ap, ◌∙◌, true, false, ◌==◌, ==_iff, List, [], ◌∷◌, Mem, Nodup, Bytes, Dict, some,
  arith, all, all-mem, contains, keys, lookup, ok, ◌>>=◌, if◌then◌else◌,
}
use unlock_catalog_publisher.Base.Growth.{contains-append}
use unlock_catalog_publisher.Base.Items.{Item, plain, file_paths}
use unlock_catalog_publisher.Primitives.{Primitives}
use unlock_catalog_publisher.Signing.Candidate.Types.{manifest_payload_name, signing_request_name}
use unlock_catalog_publisher.Signing.Candidate.Reading.{mode_file}
use unlock_catalog_publisher.Signing.Candidate.Visited.{allowed}
use unlock_catalog_publisher.Signing.Candidate.Tree.{document_names}
use unlock_catalog_publisher.Signing.Candidate.Exact.{
  object_paths, object_parents, expected_files, IsExact,
}
use unlock_catalog_publisher.Cohort.Types.{VerifiedObject}
use unlock_catalog_publisher.Cohort.Write.{write_candidate}
use unlock_catalog_publisher.Cohort.Build.{signing_object}
use unlock_catalog_publisher.Cohort.Objects.{right, source_content}
use unlock_catalog_publisher.Cohort.Layout.{
  signed_objects, lookup-file_paths, file_paths-Nodup, right-IsStored, all-valid_paths, all-long,
  all-short, object_paths-contains, object_parents-contains,
}
use unlock_catalog_publisher.Cohort.Checked.{AllThere}
use unlock_catalog_publisher.Cohort.Written.{
  IsWritten, write_file-Step, Fits, AllHas, for_each-write_object,
}

-- The content of each file of the candidate.
abbrev content_at : Dict Item → Bytes → Bytes → Bytes → Bytes
content_at items payload request_bytes path =
    if manifest_payload_name == path
    then payload
    else if signing_request_name == path
    then request_bytes
    else source_content items path

module _ (P : Primitives) (items : Dict Item) (payload request_bytes : Bytes)
    (objects : List VerifiedObject) (all_right : all (right P items) objects ≡ true) where
  abbrev files : List Bytes
  files = expected_files (signed_objects objects)

  abbrev directories : List Bytes
  directories = object_parents (signed_objects objects)

  abbrev content : Bytes → Bytes
  content = content_at items payload request_bytes

  object-content :
      (o : VerifiedObject) → right P items o ≡ true → o.content ≡ content o.descriptor.path
  unfolding contains
  object-content o h =
      let stored = right-IsStored P items o h in
      let other : (manifest_payload_name == o.descriptor.path) ≡ false =
        ground (arith, stored.no_document) in
      let other' : (signing_request_name == o.descriptor.path) ≡ false =
        ground (arith, stored.no_document) in
      let same : o.content ≡ source_content items o.descriptor.path =
        (==_iff _ _).0 (ground (arith, h)) in
      rw (content_at, other, other') same

  object-Fits :
      (o : VerifiedObject)
      → Mem o objects
      → Fits files directories content
          (all-short P items objects all_right)
          (all-long P items objects all_right)
          o
  object-Fits o m =
      let h = all-mem (right P items) objects all_right o m in
      (
        right-IsStored P items o h,
        ground (
          arith,
          contains-append o.descriptor.path document_names (object_paths (signed_objects objects)),
          object_paths-contains o objects m,
        ),
        object_parents-contains o objects m,
        object-content o h,
      )

  AllHas-AllThere :
      (written : Dict Item) (some_objects : List VerifiedObject)
      → all (right P items) some_objects ≡ true
      → AllHas files directories content
          (all-short P items objects all_right)
          (all-long P items objects all_right)
          written
          some_objects
      → AllThere P items written some_objects
  unfolding all
  AllHas-AllThere written [] h there = tt
  AllHas-AllThere written (o ∷ rest) h (there, more) = (
    there ∙ ap (λ c. some (plain mode_file c)) (sym (object-content o (ground (arith, h)))),
    AllHas-AllThere written rest (ground (arith, h)) more,
  )

  -- What is written, in full: no write meets something of another kind.
  pub record IsPublished (written : Dict Item) : Type 0 where
    pub payload_there : lookup manifest_payload_name written ≡ some (plain mode_file payload)
    pub request_there : lookup signing_request_name written ≡ some (plain mode_file request_bytes)
    pub sound : all (allowed files directories) written ≡ true
    pub keys_once : Nodup (keys written)
    pub all_there : AllThere P items written objects

  pub write_candidate-IsPublished :
      (written : Dict Item) × (write_candidate payload request_bytes objects ≡ ok written)
      × IsPublished written
  unfolding write_candidate contains ◌==◌ ◌>>=◌ all
  write_candidate-IsPublished =
      let short = all-short P items objects all_right in
      let long = all-long P items objects all_right in
      let empty : IsWritten files directories content short long [] = record {
        sound = refl;
        keys_once = Nodup-nil;
      } in
      let (first, payload_there) =
        write_file-Step files directories content short long [] manifest_payload_name payload empty
          refl refl in
      let (second, request_there) =
        write_file-Step files directories content short long first.after signing_request_name
          request_bytes first.written refl refl in
      let (third, all_there) =
        for_each-write_object files directories content short long second.after objects
          second.written object-Fits in
      (
        third.after,
        rw (first.succeeds, second.succeeds) third.succeeds,
        record {
          payload_there =
              third.keeps manifest_payload_name (second.keeps manifest_payload_name payload_there);
          request_there = third.keeps signing_request_name request_there;
          sound = third.written.sound;
          keys_once = third.written.keys_once;
          all_there = AllHas-AllThere third.after objects all_right all_there;
        },
      )

  AllThere-contains :
      (written : Dict Item) (some_objects : List VerifiedObject)
      → AllThere P items written some_objects
      → all (λ p. contains p (file_paths written)) (object_paths (signed_objects some_objects))
        ≡ true
  unfolding all signing_object
  AllThere-contains written [] there = refl
  AllThere-contains written (o ∷ rest) (there, more) =
      let here = lookup-file_paths o.descriptor.path mode_file o.content written there in
      ground (arith, here, AllThere-contains written rest more)

  pub IsPublished-IsExact :
      (written : Dict Item) → IsPublished written → IsExact written (signed_objects objects)
  unfolding all
  IsPublished-IsExact written w =
      let payload_listed =
        lookup-file_paths manifest_payload_name mode_file payload written w.payload_there in
      let request_listed =
        lookup-file_paths signing_request_name mode_file request_bytes written w.request_there in
      record {
        paths_valid = all-valid_paths P items objects all_right;
        nothing_else = w.sound;
        each_once = file_paths-Nodup written w.keys_once;
        none_missing =
            ground (
              arith,
              payload_listed,
              request_listed,
              AllThere-contains written objects w.all_there,
            );
      }
