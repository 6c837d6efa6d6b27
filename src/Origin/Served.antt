-- ===== src/Origin/Served.antt =====
-- An origin that is accepted serves the protected files (`VerifyOrigin`, internal/repository/origin.go).
use mathlib.Core.List.Perm
use mathlib.Core.List.{mem-cons_self}
use unlock_catalog_publisher.Base.{
  ◌≡◌, subst, Bool, true, false, length-perm, [], ◌∷◌, Bytes, Dict, Option, some, length, all,
  all-mem, all-of_mem, arith, ok, ok-injective, bind_elim, refuse_elim, or_fail_elim, wrap_elim,
  ◌==◌, ◌≢◌, ◌++◌, codes, ==_iff, Mem, insert,
}
use unlock_catalog_publisher.Base.Sort.{sort_by, sort_by-perm}
use unlock_catalog_publisher.Base.Growth.{for_each-all}
use unlock_catalog_publisher.Primitives.{Primitives}
use unlock_catalog_publisher.Release.Types.{Tree, TreeFile}
use unlock_catalog_publisher.Release.Disk.{
  Node, Repository, validate_repository_root, read_repository_sources,
}
use unlock_catalog_publisher.Origin.Types.{Url, Response, Sentinel, OriginReport}
use unlock_catalog_publisher.Release.Joined.{read_repository_sources-joins}
use unlock_catalog_publisher.Mirror.Public.{read_repository_sources-Distinguished}
use unlock_catalog_publisher.Origin.Targets.{origin_targets-each}
use unlock_catalog_publisher.Origin.Verify.{
  ends_in_slash, origin_targets, canonical_origin_base_url, compare_target, verify_origin,
}
use unlock_catalog_publisher.Origin.Delivered.{
  is_served, compare_target-is_served, compare_target-counts,
}

-- What `canonicalOriginBaseURL` returns for a text: a URL of HTTPS without credentials, query and fragment,
-- which is printed as the text.
pub record IsPublicBase (parse : Bytes → Option Url) (print : Url → Bytes) (raw : Bytes)
    (base : Url) : Type 0 where
  pub parsed : parse raw ≡ some base
  pub scheme : base.scheme ≡ codes "https"
  pub host : base.host ≢ []
  pub anonymous : base.has_user ≡ false
  pub no_query : base.raw_query ≡ []
  pub no_fragment : base.fragment ≡ []
  pub slash : ends_in_slash base.path ≡ true
  pub printed : print base ≡ raw

canonical_origin_base_url-IsPublicBase :
    (parse : Bytes → Option Url) (print : Url → Bytes) (raw : Bytes) {base : Url}
    → canonical_origin_base_url parse print raw ≡ ok base
    → IsPublicBase parse print raw base
unfolding canonical_origin_base_url
canonical_origin_base_url-IsPublicBase parse print raw {base} h =
    or_fail_elim (parse raw) _ _ h λ url parsed h₁. refuse_elim _ _ _ h₁ λ anonymous h₂.
      refuse_elim _ _ _ h₂ λ clean h₃. refuse_elim _ _ _ h₃ λ printed out.
        let same : url ≡ base = ok-injective out in
        let there : url.host == [] ≡ false = ground (arith, anonymous) in
        subst (IsPublicBase parse print raw) same (record {
          parsed = parsed;
          scheme = (==_iff url.scheme (codes "https")).0 (ground (arith, anonymous));
          host = λ e. absurd (cc (there, (==_iff url.host []).1 e));
          anonymous = ground (arith, anonymous);
          no_query = (==_iff url.raw_query []).0 (ground (arith, anonymous));
          no_fragment = (==_iff url.fragment []).0 (ground (arith, anonymous));
          slash = ground (arith, anonymous);
          printed = (==_iff (print url) raw).0 (ground (arith, printed));
        })

sentinel_target :
    (readme : Option Sentinel) {targets : Dict Bytes}
    → origin_targets [] readme ≡ ok targets
    → (sentinel : Sentinel) × (readme ≡ some sentinel)
      × (sentinel.is_regular ≡ true)
      × Mem (codes "README.md", sentinel.content) targets
unfolding origin_targets insert
sentinel_target readme {targets} h = or_fail_elim readme _ _ h λ sentinel there h₁.
    refuse_elim _ _ _ h₁ λ valid out. (
      sentinel,
      there,
      ground (arith, valid),
      subst (Mem (codes "README.md", sentinel.content)) (ok-injective out) mem-cons_self,
    )

module _ (P : Primitives) (parse : Bytes → Option Url) (print : Url → Bytes)
    (get : Bytes → Option Response) where
  -- What an accepted origin serves of a protected tree.
  pub record ServesTree (root : Bytes) (r : Repository) (readme : Option Sentinel) (raw : Bytes)
      (report : OriginReport) : Type 0 where
    pub base : Url
    pub prefix : Option (Dict Node)
    pub sources : Dict Tree
    pub targets : Dict Bytes
    pub public_base : IsPublicBase parse print raw base
    pub opened : validate_repository_root root r ≡ ok prefix
    pub read : read_repository_sources P prefix ≡ ok sources
    pub each_file :
        (source_id : Bytes) (files : Tree) (path : Bytes) (file : TreeFile)
        → Mem (source_id, files) sources
        → Mem (path, file) files
        → is_served print get base (source_id ++ b'/' ∷ path, file.body) ≡ true
    pub sentinel_served :
        sources ≡ []
        → (sentinel : Sentinel) × (readme ≡ some sentinel)
          × (sentinel.is_regular ≡ true)
          × (is_served print get base (codes "README.md", sentinel.content) ≡ true)
    pub made : origin_targets sources readme ≡ ok targets
    pub counted : report.file_count ≡ length targets

  serves_tree :
      (root : Bytes) (r : Repository) (readme : Option Sentinel) (raw : Bytes)
      (report : OriginReport) (base : Url) (prefix : Option (Dict Node)) (sources : Dict Tree)
      (targets : Dict Bytes)
      → validate_repository_root root r ≡ ok prefix
      → canonical_origin_base_url parse print raw ≡ ok base
      → read_repository_sources P prefix ≡ ok sources
      → origin_targets sources readme ≡ ok targets
      → all (is_served print get base) targets ≡ true
      → report.file_count ≡ length targets
      → ServesTree root r readme raw report
  serves_tree root r readme raw report base prefix sources targets valid canonical read made served
        counted =
      let (distinct_ids, distinct_paths) = read_repository_sources-Distinguished P prefix read in
      record {
        base = base;
        prefix = prefix;
        sources = sources;
        targets = targets;
        public_base = canonical_origin_base_url-IsPublicBase parse print raw canonical;
        opened = valid;
        read = read;
        each_file = λ source_id files path file m i.
            all-mem (is_served print get base) targets served (source_id ++ b'/' ∷ path, file.body)
              (origin_targets-each sources readme source_id files path file
                (read_repository_sources-joins P prefix read) distinct_ids distinct_paths made m i);
        sentinel_served = λ e.
            let (sentinel, there, regular, m) =
              sentinel_target readme (subst (λ s. origin_targets s readme ≡ ok targets) e made) in
            (
              sentinel,
              there,
              regular,
              all-mem (is_served print get base) targets served
                  (codes "README.md", sentinel.content) m,
            );
        made = made;
        counted = counted;
      }

  -- When an origin is verified, its base URL is of HTTPS, without credentials, query and fragment, and is
  -- printed as it was given; each file of each source of the protected tree is answered below that URL, at
  -- the source's ID and the file's path, from the requested URL, with status 200 and the file's bytes, and
  -- so is the `README.md` when there is no source; the report counts the targets.
  pub verify_origin-served :
      (has_context : Bool) (root : Bytes) (r : Repository) (readme : Option Sentinel) (raw : Bytes)
      {report : OriginReport}
      → verify_origin P parse print get has_context root r readme raw ≡ ok report
      → ServesTree root r readme raw report
  unfolding verify_origin
  verify_origin-served has_context root r readme raw {report} h = refuse_elim _ _ _ h λ context h₁.
      wrap_elim _ (validate_repository_root root r) _ h₁ λ prefix valid h₂.
        bind_elim _ _ h₂ λ base canonical h₃.
          wrap_elim _ (read_repository_sources P prefix) _ h₃ λ sources read h₄.
            bind_elim _ _ h₄ λ targets made loop.
              let sorted = sort_by (λ (e : Bytes × Bytes). e.0) targets in
              let p = sort_by-perm (λ (e : Bytes × Bytes). e.0) targets in
              let each : all (is_served print get base) sorted ≡ true =
                for_each-all (compare_target print get base) (is_served print get base)
                  (λ s x t c. compare_target-is_served print get base s x t c) sorted _ loop in
              let same_length : length sorted ≡ length targets = length-perm p in
              serves_tree root r readme raw report base prefix sources targets valid canonical read
                made
                (all-of_mem (is_served print get base) targets
                  (λ e i. all-mem (is_served print get base) sorted each e ((Perm.mem_iff p).1 i)))
                (omega (arith, compare_target-counts print get base sorted _ loop, same_length))
