-- ===== src/Pm/Entities.antt =====
-- The entities that register for power management, t7xx_pci_pm_entity_register and
-- t7xx_pci_pm_entity_unregister of src/t7xx_pci.c.
use mtk_t7xx_fix.Prelude.{
  ℕ, ◌≡◌, refl, ap, arith, Bool, true, false, List, [], ◌∷◌, ◌++◌, ◌==◌, if◌then◌else◌, ok,
}
use mtk_t7xx_fix.Pm.State.{Entity, Dev, has_id, remove_id, entity_register, entity_unregister}

same_id : (n : ℕ) → n == n ≡ true
same_id n = ground arith

-- An entity whose id is not in the list yet is found and removed behind it.
module _ (e : Entity) where
  has_id-append : (es : List Entity) → has_id e.id (es ++ (e ∷ [])) ≡ true
  has_id-append [] = rw same_id refl
  has_id-append (x ∷ es) = go (x.id == e.id) (has_id-append es)
    where
      go :
          (b : Bool)
          → has_id e.id (es ++ (e ∷ [])) ≡ true
          → (if b then true else has_id e.id (es ++ (e ∷ []))) ≡ true
      go true h = refl
      go false h = h

  remove_id-append :
      (es : List Entity) → has_id e.id es ≡ false → remove_id e.id (es ++ (e ∷ [])) ≡ es
  remove_id-append [] h = rw same_id refl
  remove_id-append (x ∷ es) h = go (x.id == e.id) (remove_id-append es) h
    where
      go :
          (b : Bool)
          → (has_id e.id es ≡ false → remove_id e.id (es ++ (e ∷ [])) ≡ es)
          → (if b then true else has_id e.id es) ≡ false
          → (if b then es ++ (e ∷ []) else x ∷ remove_id e.id (es ++ (e ∷ []))) ≡ x ∷ es
      go true ih h = absurd (true-false h)
        where
          true-false : true ≡ false → ⊥
          true-false y = cc
      go false ih h = ap (λ r. x ∷ r) (ih h)

-- An entity whose id is free registers, and when it unregisters again, the device is as before.
pub unregister-register :
    (e : Entity) (d : Dev)
    → has_id e.id d.entities ≡ false
    → ((entity_register e d).0 ≡ ok) × (entity_unregister e (entity_register e d).1 ≡ (ok, d))
unfolding entity_register entity_unregister
unregister-register e d free =
    rw free (refl, rw (has_id-append e d.entities, remove_id-append e d.entities free) refl)
