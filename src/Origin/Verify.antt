-- ===== src/Origin/Verify.antt =====
-- `VerifyOrigin`, `canonicalOriginBaseURL` and `compareOriginFile` (internal/repository/origin.go). The
-- parser and the printer of URLs and the client's requests are arguments; the client is that of
-- `originClient`, which follows no redirect.
use unlock_catalog_publisher.Base.{
  ℕ, ◌+◌, Bool, true, false, not, ◌&&◌, ◌||◌, [], ◌∷◌, ◌++◌, Bytes, Dict, Option, none, some, codes,
  eqb, leb, ltb, length, map, insert, take, Result, ok, ◌>>=◌, ◌>>◌, refuse, or_fail, wrap,
  for_each, ◌==◌, if◌then◌else◌,
}
use unlock_catalog_publisher.Base.Paths.{join_path, clean}
use unlock_catalog_publisher.Base.Sort.{sort_by}
use unlock_catalog_publisher.Primitives.{Primitives}
use unlock_catalog_publisher.Release.Types.{Tree, max_release_file_bytes, mode_file}
use unlock_catalog_publisher.Release.Paths.{is_unsafe, strip_prefix}
use unlock_catalog_publisher.Release.Disk.{
  Repository, validate_repository_root, read_repository_sources,
}
use unlock_catalog_publisher.Origin.Types.{
  Url, Response, Sentinel, OriginReport, OriginError, context_required, base_not_parsed,
  base_not_anonymous, path_not_canonical, base_not_canonical, root_invalid, tree_unreadable,
  sentinel_missing, sentinel_invalid, unsafe_origin_path, fetch_failed, changed_url,
  status_returned, encoding_returned, content_length_differs, outside_limits, read_failed,
  content_differs,
}

-- `strings.HasSuffix(s, "/")`
unfoldable pub ends_in_slash : Bytes → Bool
ends_in_slash [] = false
ends_in_slash (c ∷ []) = eqb c b'/'
ends_in_slash (c ∷ d ∷ s) = ends_in_slash (d ∷ s)

-- `strings.EqualFold(encoding, "identity")`: no letter outside ASCII folds to one of these.
lower : ℕ → ℕ
lower c = if leb b'A' c && leb c b'Z' then c + 32 else c

unfoldable pub is_identity : Bytes → Bool
unfolding lower
is_identity encoding = map lower encoding == codes "identity"

unfoldable pub add_files : Bytes → Dict Bytes → Tree → Dict Bytes
add_files source_id targets [] = targets
add_files source_id targets ((relative, file) ∷ files) =
    add_files source_id (insert (join_path source_id relative) file.body targets) files

unfoldable pub add_sources : Dict Bytes → Dict Tree → Dict Bytes
add_sources targets [] = targets
add_sources targets ((source_id, files) ∷ sources) =
    add_sources (add_files source_id targets files) sources

-- The `README.md` is a target when there is no source.
unfoldable pub origin_targets : Dict Tree → Option Sentinel → Result OriginError (Dict Bytes)
origin_targets (source ∷ sources) readme = ok (add_sources [] (source ∷ sources))
origin_targets [] readme = do
  sentinel ← or_fail readme sentinel_missing
  refuse (not sentinel.is_regular || not (eqb sentinel.mode mode_file)) sentinel_invalid
  ok (insert (codes "README.md") sentinel.content [])

module _ (parse : Bytes → Option Url) (print : Url → Bytes) where
  unfoldable pub canonical_origin_base_url : Bytes → Result OriginError Url
  canonical_origin_base_url raw = do
    parsed ← or_fail (parse raw) base_not_parsed
    refuse
        (raw == []
          || not (parsed.scheme == codes "https")
          || parsed.host == []
          || parsed.has_user
          || not (parsed.opaque_part == [])
          || not (parsed.raw_query == [])
          || not (parsed.fragment == [])
          || not (parsed.raw_path == [])
          || not (ends_in_slash parsed.path))
        base_not_anonymous
    refuse (not (parsed.path == codes "/") && not (clean parsed.path ++ b'/' ∷ [] == parsed.path))
        path_not_canonical
    refuse (not (print parsed == raw)) base_not_canonical
    ok parsed

-- The checks of the response to a request of `target`.
unfoldable pub check_response : Bytes → Bytes → Response → Result OriginError (Unit {0})
check_response target expected response = do
  refuse (elim response.request_url [ none ↦ true | some url ↦ not (url == target) ]) changed_url
  refuse (not (eqb response.status_code 200)) status_returned
  refuse (not (response.content_encoding == []) && not (is_identity response.content_encoding))
      encoding_returned
  refuse (elim response.content_length [ none ↦ false | some n ↦ not (eqb n (length expected)) ])
      content_length_differs
  refuse (eqb (length expected) 0 || ltb max_release_file_bytes (length expected)) outside_limits
  body ← or_fail response.body read_failed
  refuse
      (ltb max_release_file_bytes (length (take (max_release_file_bytes + 1) body))
        || not (take (max_release_file_bytes + 1) body == expected))
      content_differs

module _ (print : Url → Bytes) (get : Bytes → Option Response) where
  -- `target.String()`
  abbrev pub target_of : Url → Bytes → Bytes
  target_of base relative = print (record base { path = base.path ++ relative })

  unfoldable pub compare_origin_file : Url → Bytes → Bytes → Result OriginError (Unit {0})
  compare_origin_file base relative expected = do
    refuse
        (is_unsafe relative
          || elim (strip_prefix (codes "../") relative) [ none ↦ false | some _ ↦ true ])
        unsafe_origin_path
    response ← or_fail (get (target_of base relative)) fetch_failed
    check_response (target_of base relative) expected response

  -- The body of the loop; it writes the counts of the report.
  unfoldable pub compare_target :
      Url → OriginReport → Bytes × Bytes → Result OriginError OriginReport
  compare_target base report (relative, expected) = do
    compare_origin_file base relative expected
    ok (record report {
      file_count = report.file_count + 1;
      file_bytes = report.file_bytes + length expected;
    })

module _ (P : Primitives) (parse : Bytes → Option Url) (print : Url → Bytes)
    (get : Bytes → Option Response) where
  unfoldable pub verify_origin :
      Bool → Bytes → Repository → Option Sentinel → Bytes → Result OriginError OriginReport
  verify_origin has_context root r readme raw = do
    refuse (not has_context) context_required
    prefix ← wrap root_invalid (validate_repository_root root r)
    base ← canonical_origin_base_url parse print raw
    sources ← wrap tree_unreadable (read_repository_sources P prefix)
    targets ← origin_targets sources readme
    for_each (compare_target print get base)
        (record {
          base_url = print base;
          source_count = length sources;
          file_count = 0;
          file_bytes = 0;
        })
        (sort_by (λ e. e.0) targets)
