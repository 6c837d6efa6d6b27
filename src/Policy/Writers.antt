-- ===== src/Policy/Writers.antt =====
-- The slots of a variant that `validateEntry` accepts (internal/policy/validate.go).
use mathlib.Core.List.{mem-append, Mem-prop, not-mem-nil, Nodup-nil}
use mathlib.Core.Logic.Or
use unlock_catalog_publisher.Base.{
  ◌≡◌, refl, sym, ap, subst, ◌∙◌, List, [], ◌∷◌, Mem, Nodup, Perm, Bytes, Dict, arith, length, keys,
  contains-mem, ok, for_each-invariant, ok-injective, bind_elim, refuse_elim, length-map,
  not-eq-false,
}
use unlock_catalog_publisher.Base.Growth.{
  mem-one, flat_map, Grows, Grows-one, insert-Grows, for_each-Grows,
}
use unlock_catalog_publisher.Base.Cover.{cover}
use unlock_catalog_publisher.Catalog.Types.{VariantDefinition, BindingDefinition}
use unlock_catalog_publisher.Policy.Entry.{add_required, add_writer, add_binding, validate_variant}

add_required-Grows :
    (required : List Bytes) (slot : Bytes) (t : List Bytes)
    → add_required required slot ≡ ok t
    → Grows required t (slot ∷ [])
unfolding add_required
add_required-Grows required slot t h = refuse_elim _ _ _ h λ valid h₁.
    refuse_elim _ _ _ h₁ λ fresh out.
      subst (λ r. Grows required r (slot ∷ [])) (ok-injective out) (Grows-one required slot fresh)

abbrev Within : List Bytes → Dict Bytes → Type 0
Within required writers = (slot : Bytes) → Mem slot (keys writers) → Mem slot required

add_writer-Grows :
    (required : List Bytes) (id : Bytes) (writers : Dict Bytes) (slot : Bytes) (t : Dict Bytes)
    → add_writer required id writers slot ≡ ok t
    → Grows (keys writers) (keys t) (slot ∷ []) × (Within required writers → Within required t)
unfolding add_writer
add_writer-Grows required id writers slot t h = refuse_elim _ _ _ h λ declared h₁.
    refuse_elim _ _ _ h₁ λ fresh out.
      let grown = insert-Grows slot id writers fresh in
      subst
        (λ r.
          Grows (keys writers) (keys r) (slot ∷ []) × (Within required writers → Within required r))
        (ok-injective out)
        (
          grown,
          λ within x m.
              Or.elim Mem-prop (mem-append.0 (subst (Mem x) grown.0 m)) (within x)
                (λ (i : Mem x (slot ∷ [])).
                  subst (λ y. Mem y required) (sym (mem-one i))
                    (contains-mem slot required (not-eq-false _ declared))),
        )

-- The state of the loop over the bindings has grown by the slots of the binding.
add_binding-Grows :
    (required : List Bytes) (s : Dict Bytes × List Bytes × List Bytes) (binding : BindingDefinition)
    (t : Dict Bytes × List Bytes × List Bytes)
    → add_binding required s binding ≡ ok t
    → Grows (keys (s.0)) (keys (t.0)) (flat_map (λ slot. slot ∷ []) binding.slots)
      × (Within required (s.0) → Within required (t.0))
unfolding add_binding
add_binding-Grows required s binding t h = refuse_elim _ _ _ h λ valid h₁.
    refuse_elim _ _ _ h₁ λ fresh h₂. bind_elim _ _ h₂ λ writers loop out.
      let step = add_writer-Grows required binding.id in
      let same : writers ≡ t.0 = ap (λ r. r.0) (ok-injective out) in
      subst
        (λ r.
          Grows (keys (s.0)) (keys r) (flat_map (λ slot. slot ∷ []) binding.slots)
          × (Within required (s.0) → Within required r))
        same
        (
          for_each-Grows (add_writer required binding.id) keys (λ slot. slot ∷ [])
              (λ r x u e. (step r x u e).0) binding.slots (s.0) loop,
          λ within.
              for_each-invariant (add_writer required binding.id) (Within required)
                (λ r x u w e. (step r x u e).1 w) binding.slots (s.0) within loop,
        )

abbrev slots_of : BindingDefinition → List Bytes
slots_of binding = flat_map (λ slot. slot ∷ []) binding.slots

pub flat_map-singleton : (xs : List Bytes) → flat_map (λ x. x ∷ []) xs ≡ xs
flat_map-singleton [] = refl
flat_map-singleton (x ∷ xs) = ap (λ r. x ∷ r) (flat_map-singleton xs)

flat_map-slots : (bs : List BindingDefinition) → flat_map slots_of bs ≡ flat_map (λ b. b.slots) bs
flat_map-slots [] = refl
flat_map-slots (b ∷ bs) = rw (flat_map-singleton b.slots, flat_map-slots bs)

-- In an accepted variant each required slot is written by exactly one binding, once, and no binding
-- writes another slot.
pub validate_variant-writers :
    (binding_ids : List Bytes) (variant_id : Bytes) (variant : VariantDefinition) {out : List Bytes}
    → validate_variant binding_ids (variant_id, variant) ≡ ok out
    → Perm (flat_map (λ b. b.slots) variant.bindings) variant.required_slots
      × Nodup variant.required_slots
unfolding validate_variant
validate_variant-writers binding_ids variant_id variant h = refuse_elim _ _ _ h λ shape h₁.
    bind_elim _ _ h₁ λ required first h₂. bind_elim _ _ h₂ λ s second h₃.
      refuse_elim _ _ _ h₃ λ complete out.
        let step = add_binding-Grows required in
        let (declared, apart) =
          for_each-Grows add_required (λ r. r) (λ slot. slot ∷ []) add_required-Grows
            variant.required_slots [] first in
        let same : required ≡ variant.required_slots =
          declared ∙ flat_map-singleton variant.required_slots in
        let (written, once) =
          for_each-Grows (add_binding required) (λ r. keys (r.0)) slots_of
            (λ r x u e. (step r x u e).0) variant.bindings ([], [], binding_ids) second in
        let slots : keys (s.0) ≡ flat_map (λ b. b.slots) variant.bindings =
          written ∙ flat_map-slots variant.bindings in
        let within =
          for_each-invariant (add_binding required) (λ r. Within required (r.0))
            (λ r x u w e. (step r x u e).1 w) variant.bindings ([], [], binding_ids)
            (λ x m. absurd (not-mem-nil m)) second in
        let count : length required ≡ length (keys (s.0)) =
          ground (arith, length-map (λ (e : Bytes × Bytes). e.0) (s.0)) in
        (
          subst (λ l. Perm l variant.required_slots) slots
              (subst (Perm (keys (s.0))) same
                (cover (keys (s.0)) required (once Nodup-nil) within (omega (arith, count)))),
          subst Nodup same (apart Nodup-nil),
        )
