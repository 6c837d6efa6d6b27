-- ===== src/Cohort/Written.antt =====
-- What `writeCandidate` (internal/cohort/builder.go) leaves in the new directory, when no file has the path of a
-- directory.
use mathlib.Core.List.{mem-cons_self, mem-cons_of_mem}
use unlock_catalog_publisher.Base.{
  ◌≡◌, refl, sym, ap, subst, ◌∙◌, Bool, true, ◌==◌, ==_iff, ==_refl, List, [], ◌∷◌, Mem, Nodup,
  Bytes, Dict, Option, none, some, arith, leb, ltb, length, all, all-mem, contains, contains-mem,
  keys, lookup, insert, lookup-insert, Result, ok, ◌>>=◌, for_each, Bool-cases, inl, inr,
}
use unlock_catalog_publisher.Base.Growth.{lookup-mem, Nodup-keys-insert}
use unlock_catalog_publisher.Base.Paths.Dir.{parent_paths}
use unlock_catalog_publisher.Base.Items.{Item, symlink, folder, plain, special}
use unlock_catalog_publisher.Signing.Candidate.Reading.{mode_file, mode_directory}
use unlock_catalog_publisher.Signing.Candidate.Visited.{allowed}
use unlock_catalog_publisher.Signing.Candidate.Exact.{ancestors-valid}
use unlock_catalog_publisher.Cohort.Types.{VerifiedObject, CohortError}
use unlock_catalog_publisher.Cohort.Write.{make_at, mkdir_all, put_at, write_file, write_object}
use unlock_catalog_publisher.Cohort.ObjectPaths.{longest_directory, IsStored}

all-insert :
    {V : Type 0} (test : Bytes × V → Bool) (k : Bytes) (v : V) (m : Dict V)
    → all test m ≡ true
    → test (k, v) ≡ true
    → all test (insert k v m) ≡ true
unfolding all insert
all-insert test k v [] h t = ground (arith, t)
all-insert test k v ((j, w) ∷ m) h t = elim (Bool-cases (j == k)) [
  | inl e ↦ rw e (ground (arith, h, t))
  | inr e ↦ rw e (ground (arith, h, all-insert test k v m (ground (arith, h)) t))
]

-- The files and the directories that may be written, and the content of each file.
module _ (files directories : List Bytes) (content_at : Bytes → Bytes)
    (short : all (λ p. leb (length p) longest_directory) directories ≡ true)
    (long : all (λ p. ltb longest_directory (length p)) files ≡ true) where
  abbrev pub Has : Dict Item → Bytes → Type 0
  Has written path = lookup path written ≡ some (plain mode_file (content_at path))

  pub record IsWritten (written : Dict Item) : Type 0 where
    pub sound : all (allowed files directories) written ≡ true
    pub keys_once : Nodup (keys written)

  -- A step that succeeds, and loses no file.
  pub record Step (before : Dict Item) (result : Result CohortError (Dict Item)) : Type 0 where
    pub after : Dict Item
    pub succeeds : result ≡ ok after
    pub written : IsWritten after
    pub keeps : (q : Bytes) → Has before q → Has after q

  apart : (p : Bytes) → contains p directories ≡ true → contains p files ≡ true → ⊥
  apart p d f =
      let s =
        all-mem (λ p. leb (length p) longest_directory) directories short p
          (contains-mem p directories d) in
      let l =
        all-mem (λ p. ltb longest_directory (length p)) files long p (contains-mem p files f) in
      ground (arith, s, l)

  found-allowed :
      (written : Dict Item) (p : Bytes) (item : Item)
      → IsWritten written
      → lookup p written ≡ some item
      → allowed files directories (p, item) ≡ true
  found-allowed written p item w e =
      all-mem (allowed files directories) written w.sound (p, item) (lookup-mem p written e)

  insert-IsWritten :
      (written : Dict Item) (p : Bytes) (item : Item)
      → IsWritten written
      → allowed files directories (p, item) ≡ true
      → IsWritten (insert p item written)
  insert-IsWritten written p item w a = record {
    sound = all-insert (allowed files directories) p item written w.sound a;
    keys_once = Nodup-keys-insert p item written w.keys_once;
  }

  make_at-Step :
      (written : Dict Item) (d : Bytes) (found : Option Item)
      → IsWritten written
      → contains d directories ≡ true
      → lookup d written ≡ found
      → Step written (make_at found written d)
  unfolding make_at
  make_at-Step written d none w known e = record {
    after = insert d (folder mode_directory) written;
    succeeds = refl;
    written = insert-IsWritten written d (folder mode_directory) w (ground (arith, known));
    keeps = λ q h. elim (Bool-cases (d == q)) [
      | inl same ↦
          let there : Has written d = subst (Has written) (sym ((==_iff d q).0 same)) h in
          absurd (cc (e, there))
      | inr other ↦ lookup-insert d q (folder mode_directory) written ∙ rw other h
    ];
  }
  make_at-Step written d (some (folder mode)) w known e = record {
    after = written;
    succeeds = refl;
    written = w;
    keeps = λ q h. h;
  }
  make_at-Step written d (some symlink) w known e =
      absurd (cc (found-allowed written d symlink w e))
  make_at-Step written d (some special) w known e =
      absurd (cc (found-allowed written d special w e))
  make_at-Step written d (some (plain mode content)) w known e =
      absurd (apart d known (ground (arith, found-allowed written d (plain mode content) w e)))

  mkdir_all-Step :
      (written : Dict Item) (ds : List Bytes)
      → IsWritten written
      → all (λ d. contains d directories) ds ≡ true
      → Step written (mkdir_all written ds)
  unfolding mkdir_all all ◌>>=◌
  mkdir_all-Step written [] w known = record {
    after = written;
    succeeds = refl;
    written = w;
    keeps = λ q h. h;
  }
  mkdir_all-Step written (d ∷ above) w known =
      let first = mkdir_all-Step written above w (ground (arith, known)) in
      let second =
        make_at-Step first.after d (lookup d first.after) first.written (ground (arith, known))
          refl in
      record {
        after = second.after;
        succeeds =
            ap (λ r. r >>= λ made. make_at (lookup d made) made d) first.succeeds ∙ second.succeeds;
        written = second.written;
        keeps = λ q h. second.keeps q (first.keeps q h);
      }

  insert-keeps :
      (written : Dict Item) (p q : Bytes)
      → Has written q
      → Has (insert p (plain mode_file (content_at p)) written) q
  insert-keeps written p q h =
      lookup-insert p q (plain mode_file (content_at p)) written ∙ elim (Bool-cases (p == q)) [
        | inl same ↦ rw same (ap (λ x. some (plain mode_file (content_at x))) ((==_iff p q).0 same))
        | inr other ↦ rw other h
      ]

  put-Step :
      (written : Dict Item) (p : Bytes) (result : Result CohortError (Dict Item))
      → IsWritten written
      → contains p files ≡ true
      → result ≡ ok (insert p (plain mode_file (content_at p)) written)
      → (s : Step written result) × Has s.after p
  put-Step written p result w known e = (
    record {
      after = insert p (plain mode_file (content_at p)) written;
      succeeds = e;
      written =
          insert-IsWritten written p (plain mode_file (content_at p)) w (ground (arith, known));
      keeps = insert-keeps written p;
    },
    lookup-insert p p (plain mode_file (content_at p)) written ∙ rw (==_refl p) refl,
  )

  put_at-Step :
      (written : Dict Item) (p : Bytes) (found : Option Item)
      → IsWritten written
      → contains p files ≡ true
      → lookup p written ≡ found
      → (s : Step written (put_at found written p (content_at p))) × Has s.after p
  unfolding put_at
  put_at-Step written p none w known e = put-Step written p _ w known refl
  put_at-Step written p (some symlink) w known e = absurd (cc (found-allowed written p symlink w e))
  put_at-Step written p (some special) w known e = absurd (cc (found-allowed written p special w e))
  put_at-Step written p (some (folder mode)) w known e =
      absurd (apart p (ground (arith, found-allowed written p (folder mode) w e)) known)
  put_at-Step written p (some (plain mode old)) w known e =
      let same : mode ≡ mode_file = ground (arith, found-allowed written p (plain mode old) w e) in
      put-Step written p _ w known (ap (λ m. ok (insert p (plain m (content_at p)) written)) same)

  -- A file is written, or written again with the same content.
  pub write_file-Step :
      (written : Dict Item) (p : Bytes) (content : Bytes)
      → IsWritten written
      → contains p files ≡ true
      → content ≡ content_at p
      → (s : Step written (write_file written p content)) × Has s.after p
  unfolding write_file
  write_file-Step written p content w known e =
      subst (λ c. (s : Step written (put_at (lookup p written) written p c)) × Has s.after p)
        (sym e) (put_at-Step written p (lookup p written) w known refl)

  -- What a verified object must be.
  abbrev pub Fits : VerifiedObject → Type 0
  Fits o =
      IsStored o.descriptor.path
      × (contains o.descriptor.path files ≡ true)
      × (all (λ d. contains d directories) (parent_paths o.descriptor.path) ≡ true)
      × (o.content ≡ content_at o.descriptor.path)

  write_object-Step :
      (written : Dict Item) (o : VerifiedObject)
      → IsWritten written
      → Fits o
      → (s : Step written (write_object written o)) × Has s.after o.descriptor.path
  unfolding write_object ◌>>=◌
  write_object-Step written o w (stored, known, above, e) =
      let path = o.descriptor.path in
      let first = mkdir_all-Step written (parent_paths path) w above in
      let (second, there) = write_file-Step first.after path o.content first.written known e in
      let done : write_object written o ≡ ok second.after =
        rw (ancestors-valid path stored.valid, first.succeeds) second.succeeds in
      (
        record {
          after = second.after;
          succeeds = done;
          written = second.written;
          keeps = λ q h. second.keeps q (first.keeps q h);
        },
        there,
      )

  -- The file of each object is there.
  abbrev pub AllHas : Dict Item → List VerifiedObject → Type 0
  AllHas written [] = Unit
  AllHas written (o ∷ objects) = Has written o.descriptor.path × AllHas written objects

  -- The loop over the objects writes them all.
  pub for_each-write_object :
      (written : Dict Item) (objects : List VerifiedObject)
      → IsWritten written
      → ((o : VerifiedObject) → Mem o objects → Fits o)
      → (s : Step written (for_each write_object written objects)) × AllHas s.after objects
  unfolding for_each ◌>>=◌
  for_each-write_object written [] w fits =
      (record { after = written; succeeds = refl; written = w; keeps = λ q h. h }, tt)
  for_each-write_object written (o ∷ objects) w fits =
      let (first, there) = write_object-Step written o w (fits o mem-cons_self) in
      let (rest, all_there) =
        for_each-write_object first.after objects first.written
          (λ x m. fits x (mem-cons_of_mem o m)) in
      (
        record {
          after = rest.after;
          succeeds =
              ap (λ r. r >>= λ t. for_each write_object t objects) first.succeeds ∙ rest.succeeds;
          written = rest.written;
          keeps = λ q h. rest.keeps q (first.keeps q h);
        },
        (rest.keeps o.descriptor.path there, all_there),
      )
