-- ===== src/Pm/Aborted.antt =====
-- What a suspend that fails leaves behind, __t7xx_pci_pm_suspend of src/t7xx_pci.c.
use mtk_t7xx_fix.Prelude.{
  ℕ, ◌≡◌, refl, sym, ◌∙◌, Bool, true, false, not, ◌||◌, Option, none, some, List, [], ◌∷◌,
  if◌then◌else◌, if-by, Ret-by, ◌⊎◌, inl, inr, etimedout, Ret, ok, fail, fail-ok, Errno, arith,
}
use mtk_t7xx_fix.Pm.State.{
  pm_suspended, pm_resumed, Entity, aspm_disable, rgu_int_clear, entity_suspend, entity_resume, Dev,
  call, up_to_init, pm_request,
}
use mtk_t7xx_fix.Pm.Suspend.{
  PmEnv, suspend_all, resume_until, abort_suspend, finish_suspend, pm_suspend, is_id, is_ready,
  suspend_req,
}

-- Marked as resumed, and deaf to the RGU interrupt.
abbrev pub Deaf : Dev → Type 0
Deaf d = (d.pm_state ≡ pm_resumed) × (d.rgu_pci_irq_en ≡ false)

suspend_all-rgu :
    (env : PmEnv) (es : List Entity) (d : Dev)
    → (suspend_all env es d).1.rgu_pci_irq_en ≡ d.rgu_pci_irq_en
unfolding suspend_all
suspend_all-rgu env [] d = refl
suspend_all-rgu env (e ∷ es) d =
    let P : Option (Errno × ℕ) × Dev → Type 0 = λ x. x.1.rgu_pci_irq_en ≡ d.rgu_pci_irq_en in
    if-by P (not e.has_suspend) _ _ (λ _. suspend_all-rgu env es d)
      (λ _.
        Ret-by P (env.suspend_ret e.id) _ _
          (λ _. suspend_all-rgu env es (call (entity_suspend e.id (env.suspend_ret e.id)) d))
          (λ x. refl))

resume_until-rgu :
    (env : PmEnv) (failed : Option ℕ) (es : List Entity) (d : Dev)
    → (resume_until env failed es d).rgu_pci_irq_en ≡ d.rgu_pci_irq_en
unfolding resume_until
resume_until-rgu env failed [] d = refl
resume_until-rgu env failed (e ∷ es) d =
    let d₁ = if e.has_resume then call (entity_resume e.id (env.resume_ret e.id)) d else d in
    let P : Dev → Type 0 = λ x. x.rgu_pci_irq_en ≡ d.rgu_pci_irq_en in
    if-by P (is_id failed e.id) _ _ (λ _. refl)
      (λ _. resume_until-rgu env failed es d₁ ∙ if-by P e.has_resume _ _ (λ _. refl) (λ _. refl))

abort_suspend-Deaf :
    (env : PmEnv) (x : Errno) (failed : Option ℕ) (d : Dev)
    → d.rgu_pci_irq_en ≡ false
    → Deaf (abort_suspend env x failed d).1
unfolding abort_suspend
abort_suspend-Deaf env x failed d off = (refl, resume_until-rgu env failed d.entities d ∙ off)

abbrev OkOrDeaf : Ret × Dev → Type 0
OkOrDeaf x = (x.0 ≡ ok) ⊎ Deaf x.1

finish_suspend-Deaf :
    (env : PmEnv) (failed : Option (Errno × ℕ)) (d : Dev)
    → d.rgu_pci_irq_en ≡ false
    → OkOrDeaf (finish_suspend env failed d)
unfolding finish_suspend
finish_suspend-Deaf env (some f) d off = inr (abort_suspend-Deaf env f.0 (some f.1) d off)
finish_suspend-Deaf env none d off =
    Ret-by OkOrDeaf (if env.acked suspend_req then ok else fail etimedout) _ _ (λ _. inl refl)
      (λ x. inr (abort_suspend-Deaf env x none (call (pm_request suspend_req) d) off))

-- A suspend of a device that is ready and past its initialisation, when it fails for whatever reason,
-- leaves the device marked as resumed, but its RGU interrupt, which it took out of service, stays so.
pub pm_suspend-Deaf :
    (env : PmEnv) (d : Dev) (x : Errno)
    → up_to_init d.pm_state ≡ false
    → is_ready d.mode ≡ true
    → (pm_suspend env d).0 ≡ fail x
    → ((pm_suspend env d).1.pm_state ≡ pm_resumed) × ((pm_suspend env d).1.rgu_pci_irq_en ≡ false)
unfolding pm_suspend
pm_suspend-Deaf env d x later ready failed =
    let d₁ = record (call aspm_disable d) { pm_state = pm_suspended } in
    let d₂ = record (call rgu_int_clear d₁) { rgu_pci_irq_en = false } in
    let off = suspend_all-rgu env d₂.entities d₂ in
    let all : OkOrDeaf (pm_suspend env d) =
      if-by OkOrDeaf (up_to_init d.pm_state || not (is_ready d.mode)) _ _
        (λ g. absurd (no_guard (up_to_init d.pm_state) (is_ready d.mode) later ready g))
        (λ _.
          finish_suspend-Deaf env (suspend_all env d₂.entities d₂).0
            (suspend_all env d₂.entities d₂).1 off) in
    elim all [ inl e ↦ absurd (fail-ok x (sym failed ∙ e)) | inr deaf ↦ deaf ]
  where
    no_guard : (a b : Bool) → a ≡ false → b ≡ true → a || not b ≡ true → ⊥
    no_guard a b p q g = ground arith
