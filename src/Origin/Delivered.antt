-- ===== src/Origin/Delivered.antt =====
-- What the checks of one response ascertain (`compareOriginFile`, internal/repository/origin.go).
use unlock_catalog_publisher.Base.{
  take, ℕ, zero, suc, ◌+◌, ◌≡◌, refl, sym, ap, subst, Bool, true, false, not, ◌&&◌, ◌||◌, List, [],
  ◌∷◌, Bytes, Dict, Option, none, some, eqb, ltb, length, arith, ok, for_each, ok-injective, refuse,
  bind_elim, refuse_elim, or_fail_elim, then_elim, ◌==◌,
}
use unlock_catalog_publisher.Release.Types.{max_release_file_bytes}
use unlock_catalog_publisher.Origin.Types.{Url, Response, OriginReport}
use unlock_catalog_publisher.Origin.Verify.{
  check_response, target_of, compare_origin_file, compare_target,
}

take_short {ℓ} :
    {A : Type ℓ} (n : ℕ) (xs : List A) → ltb (length (take n xs)) n ≡ true → take n xs ≡ xs
unfolding take
take_short zero xs h = absurd (ground (arith, h))
take_short (suc n) [] h = refl
take_short (suc n) (x ∷ xs) h = ap (λ l. x ∷ l) (take_short n xs (ground (arith, h)))

-- A body that was read up to the limit and one byte more, and is not too large, was read whole.
take-whole {ℓ} :
    {A : Type ℓ} (n : ℕ) (xs : List A)
    → ltb n (length (take (n + 1) xs)) ≡ false
    → take (n + 1) xs ≡ xs
take-whole n xs h = take_short (n + 1) xs (ground (arith, h))

-- The response is to a request of `target`, with status 200, and its whole body is as expected.
abbrev pub delivers : Bytes → Bytes → Response → Bool
delivers target expected response =
    elim response.request_url [ none ↦ false | some url ↦ url == target ]
    && eqb response.status_code 200
    && elim response.body [ none ↦ false | some body ↦ body == expected ]

has_url :
    (target : Bytes) (url : Option Bytes)
    → elim url [ none ↦ true | some u ↦ not (u == target) ] ≡ false
    → elim url [ none ↦ false | some u ↦ u == target ] ≡ true
has_url target none h = absurd (ground (arith, h))
has_url target (some u) h = ground (arith, h)

refuse-passed {ℓ} : {E : Type ℓ} (bad : Bool) (e : E) → refuse bad e ≡ ok tt → bad ≡ false
refuse-passed true e h = absurd (cc)
refuse-passed false e h = refl

whole_body :
    (limit : ℕ) (body expected : Bytes)
    → ltb limit (length (take (limit + 1) body)) || not (take (limit + 1) body == expected) ≡ false
    → body == expected ≡ true
whole_body limit body expected h =
    let short : ltb limit (length (take (limit + 1) body)) ≡ false = ground (arith, h) in
    let same : take (limit + 1) body == expected ≡ true = ground (arith, h) in
    subst (λ b. b == expected ≡ true) (take-whole limit body short) same

check_response-delivers :
    (target expected : Bytes) (response : Response)
    → check_response target expected response ≡ ok tt
    → delivers target expected response ≡ true
unfolding check_response
check_response-delivers target expected response h = refuse_elim _ _ _ h λ url h₁.
    refuse_elim _ _ _ h₁ λ status h₂. refuse_elim _ _ _ h₂ λ coding h₃.
      refuse_elim _ _ _ h₃ λ size h₄. refuse_elim _ _ _ h₄ λ limits h₅.
        or_fail_elim response.body _ _ h₅ λ body read last.
          let same : body == expected ≡ true =
            whole_body max_release_file_bytes body expected (refuse-passed _ _ last) in
          let there = has_url target response.request_url url in
          let fine : eqb response.status_code 200 ≡ true = ground (arith, status) in
          rw (there, fine, read, same) refl

module _ (print : Url → Bytes) (get : Bytes → Option Response) where
  -- A request for the file below the base URL is answered with the file's bytes.
  abbrev pub is_served : Url → Bytes × Bytes → Bool
  is_served base (relative, expected) = elim (get (target_of print get base relative)) [
    | none ↦ false
    | some response ↦ delivers (target_of print get base relative) expected response
  ]

  pub compare_target-is_served :
      (base : Url) (report : OriginReport) (entry : Bytes × Bytes) (next : OriginReport)
      → compare_target print get base report entry ≡ ok next
      → is_served base entry ≡ true
  unfolding compare_target compare_origin_file
  compare_target-is_served base report (relative, expected) next h =
      then_elim (compare_origin_file print get base relative expected) _ h λ compared _.
        refuse_elim _ _ _ compared λ safe h₁.
          or_fail_elim (get (target_of print get base relative)) _ _ h₁ λ response found checked.
            rw (found, is_served)
              (check_response-delivers (target_of print get base relative) expected response
                checked)

  pub compare_target-counts :
      (base : Url) (entries : Dict Bytes) (report : OriginReport) {last : OriginReport}
      → for_each (compare_target print get base) report entries ≡ ok last
      → last.file_count ≡ report.file_count + length entries
  unfolding for_each compare_target
  compare_target-counts base [] report {last} h =
      let same : report.file_count ≡ last.file_count = ap (λ r. r.file_count) (ok-injective h) in
      omega (arith, same)
  compare_target-counts base ((relative, expected) ∷ entries) report h =
      bind_elim _ _ h λ next first rest.
        then_elim (compare_origin_file print get base relative expected) _ first λ _ out.
          let step = compare_target-counts base entries next rest in
          let counted : next.file_count ≡ report.file_count + 1 =
            sym (ap (λ r. r.file_count) (ok-injective out)) in
          omega (arith, step, counted)
