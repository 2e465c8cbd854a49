-- ===== src/Pm/Suspend.antt =====
-- __t7xx_pci_pm_suspend of src/t7xx_pci.c.
use mtk_t7xx_fix.Prelude.{
  ℕ, Bool, true, false, not, ◌||◌, Option, none, some, List, [], ◌∷◌, ◌==◌, if◌then◌else◌, Ret, ok,
  fail, Errno, efault, etimedout,
}
use mtk_t7xx_fix.Fsm.State.{Mode, mode_ready}
use mtk_t7xx_fix.Pm.State.{
  pm_suspended, pm_resumed, Entity, entity_suspend, entity_resume, entity_suspend_late,
  aspm_disable, aspm_enable, rgu_int_set, rgu_int_clear, pm_request, Dev, call, up_to_init,
}

-- What the callbacks answer, by the entity's id, and whether the modem acknowledges a request in time.
pub record PmEnv : Type 0 where
  pub suspend_ret : ℕ → Ret
  pub resume_ret : ℕ → Ret
  pub acked : ℕ → Bool

-- H2D_CH_SUSPEND_REQ, H2D_CH_SUSPEND_REQ_AP, H2D_CH_RESUME_REQ and H2D_CH_RESUME_REQ_AP.
abbrev pub suspend_req : ℕ
suspend_req = 9

abbrev pub suspend_req_ap : ℕ
suspend_req_ap = 11

abbrev pub resume_req : ℕ
resume_req = 10

abbrev pub resume_req_ap : ℕ
resume_req_ap = 12

abbrev pub send_pm_request : PmEnv → ℕ → Dev → Ret × Dev
send_pm_request env request d =
    (if env.acked request then ok else fail etimedout, call (pm_request request) d)

-- The first loop: stops at the entity that fails, with its error and its id.
unfoldable pub suspend_all : PmEnv → List Entity → Dev → Option (Errno × ℕ) × Dev
suspend_all env [] d = (none, d)
suspend_all env (e ∷ es) d =
    let ret = env.suspend_ret e.id in
    let called = call (entity_suspend e.id ret) d in
    let skipped = suspend_all env es d in
    let next = suspend_all env es called in
    if not e.has_suspend
    then skipped
    else elim ret [ ok ↦ next | fail x ↦ (some (x, e.id), called) ]

abbrev pub suspend_late_all : List Entity → Dev → Dev
suspend_late_all [] d = d
suspend_late_all (e ∷ es) d =
    suspend_late_all es (if e.has_suspend_late then call (entity_suspend_late e.id) d else d)

abbrev pub is_id : Option ℕ → ℕ → Bool
is_id none i = false
is_id (some j) i = j == i

-- The loop behind abort_suspend, up to the entity that failed; `none` is PM_ENTITY_ID_INVALID.
unfoldable pub resume_until : PmEnv → Option ℕ → List Entity → Dev → Dev
resume_until env failed [] d = d
resume_until env failed (e ∷ es) d =
    let rest =
      resume_until env failed es
        (if e.has_resume then call (entity_resume e.id (env.resume_ret e.id)) d else d) in
    if is_id failed e.id then d else rest

unfoldable pub abort_suspend : PmEnv → Errno → Option ℕ → Dev → Ret × Dev
unfolding resume_until
abort_suspend env x failed d =
    let d₁ = call aspm_enable (resume_until env failed d.entities d) in
    (fail x, call rgu_int_set (record d₁ { pm_state = pm_resumed }))

abbrev pub is_ready : Mode → Bool
is_ready mode_ready = true
is_ready _ = false

-- What follows the first loop.
unfoldable pub finish_suspend : PmEnv → Option (Errno × ℕ) → Dev → Ret × Dev
unfolding abort_suspend
finish_suspend env (some f) d = abort_suspend env f.0 (some f.1) d
finish_suspend env none d =
    let (md_ret, d₁) = send_pm_request env suspend_req d in
    let (ap_ret, d₂) = send_pm_request env suspend_req_ap d₁ in
    elim md_ret [
      | fail x ↦ abort_suspend env x none d₁
      | ok ↦ (ok, call aspm_enable (suspend_late_all d₂.entities d₂))
    ]

-- t7xx_wait_pm_config always returns 0, so the branch behind it is not there.
unfoldable pub pm_suspend : PmEnv → Dev → Ret × Dev
unfolding suspend_all finish_suspend
pm_suspend env d =
    let d₁ = record (call aspm_disable d) { pm_state = pm_suspended } in
    let d₂ = record (call rgu_int_clear d₁) { rgu_pci_irq_en = false } in
    let (failed, d₃) = suspend_all env d₂.entities d₂ in
    if up_to_init d.pm_state || not (is_ready d.mode)
    then (fail efault, d)
    else finish_suspend env failed d₃
