-- ===== src/Package/Toy.antt =====
-- An archive of two files, with simple codecs in the place of tar, zstd and JSON.
use mathlib.Core.List.{append_assoc, append-nil}
use unlock_catalog_publisher.Base.{
  ℕ, zero, suc, ◌+◌, ◌≤◌, ◌≡◌, refl, ap, sym, ◌∙◌, List, [], ◌∷◌, ◌++◌, Bytes, Dict, Option, none,
  some, codes, length, map, take, take-all, arith,
}
use unlock_catalog_publisher.Policy.Artifact.{object_path}
use unlock_catalog_publisher.Release.Tests.{toy, copies, demo}
use unlock_catalog_publisher.Json.Walk.{open_object, close_object}
use unlock_catalog_publisher.Package.Types.{BuildOptions, ArchiveEntry}
use unlock_catalog_publisher.Package.Archive.{Member}
use unlock_catalog_publisher.Package.Verify.{Codec}
use unlock_catalog_publisher.Package.Table.{contract}
use unlock_catalog_publisher.Package.Written.{written}

-- Names and bodies, each ended by a zero.
unfoldable pub pack : List ArchiveEntry → Bytes
pack [] = []
pack (e ∷ es) = map suc e.name ++ zero ∷ (map suc e.body ++ zero ∷ pack es)

unfoldable mutual
  pub read_name : Bytes → Bytes → List Member
  read_name name [] = []
  read_name name (zero ∷ s) = read_body name [] s
  read_name name (suc c ∷ s) = read_name (name ++ c ∷ []) s

  pub read_body : Bytes → Bytes → Bytes → List Member
  read_body name body [] = []
  read_body name body (zero ∷ s) = written (record { name = name; body = body }) ∷ read_name [] s
  read_body name body (suc c ∷ s) = read_body name (body ++ c ∷ []) s

read_name-map :
    (before name rest : Bytes)
    → read_name before (map suc name ++ zero ∷ rest) ≡ read_body (before ++ name) [] rest
unfolding read_name
read_name-map before [] rest = ap (λ n. read_body n [] rest) (sym (append-nil before))
read_name-map before (c ∷ name) rest =
    read_name-map (before ++ c ∷ []) name rest
    ∙ ap (λ n. read_body n [] rest) (append_assoc before (c ∷ []) name)

read_body-map :
    (name before body rest : Bytes)
    → read_body name before (map suc body ++ zero ∷ rest)
      ≡ written (record { name = name; body = before ++ body }) ∷ read_name [] rest
unfolding read_name
read_body-map name before [] rest =
    ap (λ b. written (record { name = name; body = b }) ∷ read_name [] rest)
      (sym (append-nil before))
read_body-map name before (c ∷ body) rest =
    read_body-map name (before ++ c ∷ []) body rest
    ∙ ap (λ b. written (record { name = name; body = b }) ∷ read_name [] rest)
        (append_assoc before (c ∷ []) body)

pub read_name-pack : (es : List ArchiveEntry) → read_name [] (pack es) ≡ map written es
unfolding pack read_name
read_name-pack [] = refl
read_name-pack (e ∷ es) =
    read_name-map [] e.name (map suc e.body ++ zero ∷ pack es)
    ∙ read_body-map e.name [] e.body (pack es)
    ∙ ap (λ l. written e ∷ l) (read_name-pack es)

abbrev pub digest : Bytes
digest = copies 64 b'7'

abbrev pub files : Dict Bytes
files = (object_path digest, 5 ∷ []) ∷ (codes "manifest.json", 1 ∷ 2 ∷ []) ∷ []

abbrev pub options : BuildOptions
options = record {
  root = codes "/r";
  output = codes "/out/unlock-catalog-package-v1.tar.zst";
  source_id = demo;
  manifest_digest = digest;
  manifest_envelope_sha256 = digest;
  root_version = none;
  files = files;
}

abbrev pub open_box : ℕ → Bytes → Option Bytes
open_box limit [] = none
open_box limit (c ∷ s) = some (take (limit + 1) s)

abbrev pub codec : Codec
codec = record {
  read_tar = read_name [];
  write_tar = λ es. some (pack es);
  compress = λ archive. some (1 ∷ archive);
  decompress = open_box;
  tokens = λ json. open_object ∷ close_object ∷ [];
  decode_metadata = λ json. some (contract toy options);
  encode_metadata = λ metadata. some (codes "{}");
}

pub open_box-compress :
    (limit : ℕ) (archive compressed : Bytes)
    → codec.compress archive ≡ some compressed
    → length archive ≤ limit
    → codec.decompress limit compressed ≡ some archive
open_box-compress limit archive [] h k = absurd (cc)
open_box-compress limit archive (c ∷ s) h k =
    let same : s ≡ archive = cc in
    ap (λ l. some (take (limit + 1) l)) same
    ∙ ap some (take-all (limit + 1) archive (omega (arith, k)))

pub read_tar-write_tar :
    (es : List ArchiveEntry) (archive : Bytes)
    → codec.write_tar es ≡ some archive
    → codec.read_tar archive ≡ map written es
read_tar-write_tar es archive h =
    let same : archive ≡ pack es = cc in ap (read_name []) same ∙ read_name-pack es
