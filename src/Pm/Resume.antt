-- ===== src/Pm/Resume.antt =====
-- __t7xx_pci_pm_resume of src/t7xx_pci.c, and the probe of a device that lost its state.
use mtk_t7xx_fix.Prelude.{
  ℕ, ◌+◌, Bool, true, false, ◌&&◌, List, [], ◌∷◌, ltb, leb, if◌then◌else◌, Ret, ok, fail,
}
use mtk_t7xx_fix.Fsm.State.{Mode, fastboot_download}
use mtk_t7xx_fix.Pm.State.{
  pm_init, pm_suspended, pm_resumed, Entity, entity_resume, entity_resume_early, aspm_disable,
  aspm_enable, rgu_int_set, rgu_int_clear, rgu_int_clear_status, interrupts_en, pcim_enable_device,
  mac_reinit, mhccif_init, runtime_get_noresume, runtime_put_noidle, fsm_stop, fsm_start,
  clear_rgu_irq, mask_clr_exception, Dev, call, up_to_init,
}
use mtk_t7xx_fix.Pm.Suspend.{PmEnv, send_pm_request, resume_req, resume_req_ap}

-- `enum t7xx_pm_resume_state`, and any other value of the register.
pub data ResumeState : Type 0 where
  rs_l3 rs_l1 rs_init rs_exp rs_l2 rs_l2_exp rs_unknown : ResumeState

-- What a resume is told: the register, whether the address translation is lost, and what enabling the
-- device and the commands to the state machine return.
pub record ResumeEnv : Type 0 where
  pub pm : PmEnv
  pub prev_state : ResumeState
  pub atr_lost : Bool
  pub enable_ret : Ret
  pub stop_ret : Ret
  pub start_ret : Ret

abbrev pub max_reprobe : ℕ
max_reprobe = 3

abbrev pub is_download : Mode → Bool
is_download fastboot_download = true
is_download _ = false

-- t7xx_pci_reprobe_early.
abbrev pub reprobe_early : ResumeEnv → Dev → Ret × Dev
reprobe_early env d =
    (env.stop_ret, call fsm_stop (if is_download d.mode then call runtime_put_noidle d else d))

-- t7xx_pcie_reinit; with `is_d3` it ends with t7xx_pci_pm_reinit.
abbrev pub pcie_reinit : ResumeEnv → Bool → Dev → Ret × Dev
pcie_reinit env is_d3 d =
    let d₁ = call pcim_enable_device d in
    let d₂ = call mac_reinit d₁ in
    let d₃ = call runtime_get_noresume (record (call mhccif_init d₂) { pm_state = pm_init }) in
    elim env.enable_ret [
      | fail x ↦ (fail x, d₁)
      | ok ↦ (ok, if is_d3 then call aspm_disable d₃ else d₂)
    ]

-- t7xx_pci_reprobe, with the command that starts the state machine.
abbrev pub reprobe : ResumeEnv → Bool → Dev → Ret × Dev
reprobe env boot d =
    let (ret, d₁) = pcie_reinit env boot d in
    let d₂ = call rgu_int_clear_status (call rgu_int_clear (call clear_rgu_irq d₁)) in
    let d₃ = call fsm_start (call rgu_int_set (record d₂ { rgu_pci_irq_en = true })) in
    elim ret [ fail x ↦ (fail x, d₁) | ok ↦ (env.start_ret, d₃) ]

unfoldable pub reprobe_all : ResumeEnv → Dev → Ret × Dev
reprobe_all env d =
    let (ret, d₁) = reprobe_early env d in
    elim ret [ fail x ↦ (fail x, d₁) | ok ↦ reprobe env true d₁ ]

abbrev pub resume_early_all : List Entity → Dev → Dev
resume_early_all [] d = d
resume_early_all (e ∷ es) d =
    resume_early_all es (if e.has_resume_early then call (entity_resume_early e.id) d else d)

-- The last loop: what the last callback returned.
unfoldable pub resume_all : PmEnv → List Entity → Ret → Dev → Ret × Dev
resume_all env [] ret d = (ret, d)
resume_all env (e ∷ es) ret d =
    let skipped = resume_all env es ret d in
    let r = env.resume_ret e.id in
    let next = resume_all env es r (call (entity_resume e.id r) d) in
    if e.has_resume then next else skipped

abbrev pub is_init : ResumeState → Bool
is_init rs_init = true
is_init _ = false

-- The end of a resume, when the modem answered.
unfoldable pub finish_resume : ResumeEnv → Dev → Ret × Dev
unfolding resume_all
finish_resume env d =
    let (ret, d₁) = resume_all env.pm d.entities ok d in
    let d₂ = call aspm_enable (call rgu_int_set (record d₁ { rgu_pci_irq_en = true })) in
    (ret, record d₂ { pm_state = pm_resumed; resume_reprobe_count = 0 })

unfoldable pub try_reprobe : ResumeEnv → Dev → Ret × Dev
unfolding reprobe_all
try_reprobe env d = reprobe_all env (record d { resume_reprobe_count = d.resume_reprobe_count + 1 })

unfoldable pub handshake : ResumeEnv → Dev → Ret × Dev
unfolding finish_resume try_reprobe
handshake env d =
    let d₁ = resume_early_all d.entities (call aspm_disable d) in
    let (md_ret, d₂) = send_pm_request env.pm resume_req d₁ in
    let (ap_ret, d₃) = send_pm_request env.pm resume_req_ap d₂ in
    let again = is_init env.prev_state && ltb d₃.resume_reprobe_count max_reprobe in
    elim md_ret [
      | fail x ↦
          if leb max_reprobe d₂.resume_reprobe_count then (fail x, d₂) else try_reprobe env d₂
      | ok ↦ elim ap_ret [
        | ok ↦ finish_resume env d₃
        | fail x ↦ if again then try_reprobe env d₃ else finish_resume env d₃
      ]
    ]

-- After an exception of the modem.
abbrev pub excepted : Dev → Ret × Dev
excepted d = (
  ok,
  call mask_clr_exception
      (call rgu_int_set (record d { pm_state = pm_suspended; rgu_pci_irq_en = true })),
)

unfoldable pub checked : ResumeEnv → ResumeState → Dev → Ret × Dev
unfolding reprobe_all handshake
checked env rs_l3 d = reprobe_all env d
checked env rs_init d = if env.atr_lost then reprobe_all env d else handshake env d
checked env rs_l1 d = handshake env d
checked env rs_exp d = excepted d
checked env rs_l2_exp d =
    let (ret, d₁) = pcie_reinit env false d in elim ret [ fail x ↦ (fail x, d₁) | ok ↦ excepted d₁ ]
checked env rs_l2 d =
    let (ret, d₁) = pcie_reinit env false d in
    elim ret [ fail x ↦ (fail x, d₁) | ok ↦ handshake env d₁ ]
checked env rs_unknown d =
    let d₁ = call fsm_stop d in
    elim env.stop_ret [
      | fail x ↦ (fail x, d₁)
      | ok ↦ (ok, record (call clear_rgu_irq d₁) { pm_state = pm_suspended })
    ]

unfoldable pub pm_resume : ResumeEnv → Bool → Dev → Ret × Dev
unfolding checked handshake
pm_resume env state_check d =
    let d₁ = call interrupts_en d in
    if up_to_init d.pm_state
    then (ok, call aspm_enable d)
    else if state_check
    then checked env env.prev_state d₁
    else handshake env d₁
