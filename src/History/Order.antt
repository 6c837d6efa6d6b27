-- ===== src/History/Order.antt =====
-- Revocations only accumulate (`validateRevocationHistory` in internal/assemble/assembler.go and
-- `verifyRevocationsForward` in cmd/catalog-publisher/materialize.go).
use mathlib.Core.List.{mem-cons, mem-cons_of_mem, not-mem-nil, Mem-prop}
use mathlib.Core.Logic.Or
use mathlib.Core.Bool.{Bool-set}
use unlock_catalog_publisher.Base.{
  ◌≤◌, ◌≡◌, ◌↔◌, refl, sym, ap, subst, ◌∙◌, Bool, true, false, not, List, [], ◌∷◌, Mem, Bytes,
  Bytes-set, Dict, none, some, arith, all, all-mem, all-of_mem, lookup, ok, for_each, ok-injective,
  bind_elim, refuse_elim, ◌>>=◌, ==_iff, Option-cases, inl, inr,
}
use unlock_catalog_publisher.Base.Growth.{flat_map, lookup-mem, for_each-appends, insert_fresh}
use unlock_catalog_publisher.Catalog.Types.{Revocation}
use unlock_catalog_publisher.History.Revocations.{
  index_revocation, weakened, check_revocation, validate_revocation_history,
  verify_revocations_forward,
}

abbrev pub by_id : List Revocation → Dict Revocation
by_id = flat_map λ r. (r.revocation_id, r) ∷ []

-- The list has a revocation with the ID, for the same target and reason, that is not older.
abbrev pub carried : Dict Revocation → Revocation → Bool
carried revocations old = elim (lookup old.revocation_id revocations) [
  | none ↦ false
  | some next ↦ not (weakened next old)
]

index-by_id :
    (current : List Revocation) {d : Dict Revocation}
    → for_each index_revocation [] current ≡ ok d
    → d ≡ by_id current
unfolding index_revocation
index-by_id current h =
    for_each-appends index_revocation (λ d. d) (λ r. (r.revocation_id, r) ∷ [])
      (λ s x t e.
        refuse_elim _ _ _ e
          λ fresh out. sym (ok-injective out) ∙ insert_fresh x.revocation_id x s fresh)
      current [] h

check_all :
    (d : Dict Revocation) (prior : List Revocation)
    → for_each (check_revocation d) tt prior ≡ ok tt ↔ (all (carried d) prior ≡ true)
unfolding for_each all check_revocation ◌>>=◌
check_all d [] = (λ h. refl, λ h. refl)
check_all d (old ∷ prior) = elim (Option-cases (lookup old.revocation_id d)) [
  | inl n ↦ (λ h. absurd (ground arith), λ h. absurd (ground arith))
  | inr (next, s) ↦
      (λ h. ground (arith, (check_all d prior).0), λ h. ground (arith, (check_all d prior).1))
]

mem-by_id :
    (k : Bytes) (r : Revocation) (rs : List Revocation)
    → Mem (k, r) (by_id rs)
    → (r.revocation_id ≡ k)
mem-by_id k r [] m = absurd (not-mem-nil m)
mem-by_id k r (x ∷ rs) m =
    Or.elim (Bytes-set _ _) (mem-cons.0 m)
      (λ (e : (k, r) ≡ (x.revocation_id, x)). ap (λ p. p.1.revocation_id) e ∙ sym (ap (λ p. p.0) e))
      (λ (i : Mem (k, r) (by_id rs)). mem-by_id k r rs i)

mem-of_by_id :
    (k : Bytes) (r : Revocation) (rs : List Revocation) (q : Revocation → Bool)
    → all q rs ≡ true
    → Mem (k, r) (by_id rs)
    → q r ≡ true
unfolding all
mem-of_by_id k r [] q h m = absurd (not-mem-nil m)
mem-of_by_id k r (x ∷ rs) q h m =
    Or.elim (Bool-set _ _) (mem-cons.0 m)
      (λ (e : (k, r) ≡ (x.revocation_id, x)). ap q (ap (λ p. p.1) e) ∙ ground arith)
      (λ (i : Mem (k, r) (by_id rs)). mem-of_by_id k r rs q (ground arith) i)

weakened_trans :
    (c b a : Revocation) → weakened b a ≡ false → weakened c b ≡ false → weakened c a ≡ false
unfolding weakened
weakened_trans c b a h k = ground (
  arith,
  ==_iff b.kind a.kind,
  ==_iff c.kind b.kind,
  ==_iff c.kind a.kind,
  ==_iff b.target_id a.target_id,
  ==_iff c.target_id b.target_id,
  ==_iff c.target_id a.target_id,
  ==_iff b.reason a.reason,
  ==_iff c.reason b.reason,
  ==_iff c.reason a.reason,
)

carried_trans :
    (middle last : List Revocation) (old : Revocation)
    → all (carried (by_id last)) middle ≡ true
    → carried (by_id middle) old ≡ true
    → carried (by_id last) old ≡ true
carried_trans middle last old onward h =
    elim (Option-cases (lookup old.revocation_id (by_id middle))) [
      | inl n ↦ absurd (ground arith)
      | inr (next, s) ↦
          let there = lookup-mem old.revocation_id (by_id middle) s in
          let same : next.revocation_id ≡ old.revocation_id =
            mem-by_id old.revocation_id next middle there in
          let step : carried (by_id last) next ≡ true =
            mem-of_by_id old.revocation_id next middle (carried (by_id last)) onward there in
          let first : weakened next old ≡ false = ground arith in
          let found = ap (λ k. lookup k (by_id last)) same in
          elim (Option-cases (lookup next.revocation_id (by_id last))) [
            | inl n ↦ absurd (ground arith)
            | inr (latest, t) ↦
                let second : weakened latest next ≡ false = ground arith in
                let both = weakened_trans latest next old first second in
                rw (sym found ∙ t, both, carried)
          ]
    ]

-- What an accepted history means: the current IDs are distinct, and each prior revocation is carried.
pub validate_revocation_history-carried :
    (current prior : List Revocation)
    → validate_revocation_history current prior ≡ ok tt
    → all (carried (by_id current)) prior ≡ true
unfolding validate_revocation_history
validate_revocation_history-carried current prior h = bind_elim _ _ h λ d first second.
    subst (λ m. all (carried m) prior ≡ true) (index-by_id current first)
      ((check_all d prior).0 second)

-- A revocation is in the list with its ID, kind, target and reason, and is not older.
pub record Persists (revocations : List Revocation) (old : Revocation) : Type 0 where
  pub next : Revocation
  pub listed : Mem next revocations
  pub same_id : next.revocation_id ≡ old.revocation_id
  pub same_kind : next.kind ≡ old.kind
  pub same_target : next.target_id ≡ old.target_id
  pub same_reason : next.reason ≡ old.reason
  pub not_older : old.version ≤ next.version

by_id-Mem : (k : Bytes) (r : Revocation) (rs : List Revocation) → Mem (k, r) (by_id rs) → Mem r rs
by_id-Mem k r [] m = absurd (not-mem-nil m)
by_id-Mem k r (x ∷ rs) m =
    Or.elim Mem-prop (mem-cons.0 m)
      (λ (e : (k, r) ≡ (x.revocation_id, x)). mem-cons.1 (Or.inl (ap (λ p. p.1) e)))
      (λ (i : Mem (k, r) (by_id rs)). mem-cons_of_mem x (by_id-Mem k r rs i))

carried-Persists :
    (rs : List Revocation) (old : Revocation) → carried (by_id rs) old ≡ true → Persists rs old
unfolding weakened
carried-Persists rs old h = elim (Option-cases (lookup old.revocation_id (by_id rs))) [
  | inl n ↦ absurd (ground arith)
  | inr (next, s) ↦
      let there = lookup-mem old.revocation_id (by_id rs) s in
      let strong : not (weakened next old) ≡ true = ground arith in
      record {
        next = next;
        listed = by_id-Mem old.revocation_id next rs there;
        same_id = mem-by_id old.revocation_id next rs there;
        same_kind = (==_iff next.kind old.kind).0 (ground (arith, strong));
        same_target = (==_iff next.target_id old.target_id).0 (ground (arith, strong));
        same_reason = (==_iff next.reason old.reason).0 (ground (arith, strong));
        not_older = ground (arith, strong);
      }
]

accepted_trans :
    (first second third : List Revocation)
    → validate_revocation_history second first ≡ ok tt
    → validate_revocation_history third second ≡ ok tt
    → validate_revocation_history third first ≡ ok tt
unfolding validate_revocation_history ◌>>=◌
accepted_trans first second third h k =
    let onward = validate_revocation_history-carried third second k in
    let before = validate_revocation_history-carried second first h in
    bind_elim (for_each index_revocation [] third) (λ d. for_each (check_revocation d) tt second) k
      λ d indexed rest. rw indexed (
        (check_all d first).1 (
          subst (λ m. all (carried m) first ≡ true) (sym (index-by_id third indexed))
            (all-of_mem (carried (by_id third)) first λ old m.
              carried_trans second third old onward
                (all-mem (carried (by_id second)) first before old m))))

-- Over two accepted steps no revocation is removed or weakened: the last list is accepted after the first, and
-- has each revocation of the first with its ID, kind, target and reason, at the same version or a later one.
pub validate_revocation_history_trans :
    (first second third : List Revocation)
    → validate_revocation_history second first ≡ ok tt
    → validate_revocation_history third second ≡ ok tt
    → (validate_revocation_history third first ≡ ok tt)
      × ((old : Revocation) → Mem old first → Persists third old)
validate_revocation_history_trans first second third h k =
    let whole = accepted_trans first second third h k in
    let all_carried = validate_revocation_history-carried third first whole in
    (
      whole,
      λ old m. carried-Persists third old (all-mem (carried (by_id third)) first all_carried old m),
    )

-- The assembler and the publisher check the same of two lists of revocations.
pub verify_revocations_forward-eq-validate_revocation_history :
    (prior next : List Revocation)
    → verify_revocations_forward prior next ≡ validate_revocation_history next prior
unfolding validate_revocation_history verify_revocations_forward
verify_revocations_forward-eq-validate_revocation_history prior next = refl
