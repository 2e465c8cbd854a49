-- ===== src/Pm/Bounded.antt =====
-- How often src/t7xx_pci.c probes a device again that does not resume.
use mtk_t7xx_fix.Prelude.{
  ℕ, suc, ◌+◌, ◌≤◌, ◌<◌, ◌≡◌, refl, sym, ◌∙◌, subst, arith, Bool, true, false, ◌&&◌, List, [], ◌∷◌,
  ltb, leb, if◌then◌else◌, if-by, Ret-by, Ret, ok, fail, etimedout,
}
use mtk_t7xx_fix.Pm.State.{
  PmCall, mac_reinit, pcim_enable_device, fsm_stop, pm_request, interrupts_en, Entity, Dev, call,
  up_to_init, aspm_disable, entity_resume_early,
}
use mtk_t7xx_fix.Pm.Suspend.{resume_req, resume_req_ap}
use mtk_t7xx_fix.Pm.Resume.{
  ResumeState, rs_l3, rs_l1, rs_init, rs_exp, rs_l2, rs_l2_exp, rs_unknown, ResumeEnv, max_reprobe,
  is_download, is_init, reprobe_early, reprobe, reprobe_all, resume_early_all, finish_resume,
  try_reprobe, handshake, checked, pm_resume,
}

-- How often the state machine was told to stop for a probe.
abbrev pub probes : List PmCall → ℕ
probes [] = 0
probes (fsm_stop ∷ cs) = suc (probes cs)
probes (_ ∷ cs) = probes cs

abbrev Counts : ℕ → Ret × Dev → Type 0
Counts n x = x.1.resume_reprobe_count ≡ n

pub reprobe_all-Counts :
    (env : ResumeEnv) (d : Dev) → Counts d.resume_reprobe_count (reprobe_all env d)
unfolding reprobe_all
reprobe_all-Counts env d =
    let n = d.resume_reprobe_count in
    let early =
      if-by (λ (x : Dev). x.resume_reprobe_count ≡ n) (is_download d.mode) _ _ (λ _. refl)
        (λ _. refl) in
    Ret-by (Counts n) env.stop_ret _ _ (λ _. again early) (λ _. early)
  where
    again :
        (reprobe_early env d).1.resume_reprobe_count ≡ d.resume_reprobe_count
        → Counts d.resume_reprobe_count (reprobe env true (reprobe_early env d).1)
    again early = reprobed env.enable_ret
      where
        reprobed :
            (r : Ret)
            → Counts d.resume_reprobe_count
                (reprobe (record env { enable_ret = r }) true (reprobe_early env d).1)
        reprobed ok = early
        reprobed (fail x) = early

pub early-Counts :
    (es : List Entity) (d : Dev)
    → (resume_early_all es d).resume_reprobe_count ≡ d.resume_reprobe_count
early-Counts [] d = refl
early-Counts (e ∷ es) d =
    early-Counts es (if e.has_resume_early then call (entity_resume_early e.id) d else d)
    ∙ if-by (λ (x : Dev). x.resume_reprobe_count ≡ d.resume_reprobe_count) e.has_resume_early _ _
        (λ _. refl) (λ _. refl)

abbrev Bounded : Ret × Dev → Type 0
Bounded x = x.1.resume_reprobe_count ≤ max_reprobe

finish_resume-Bounded : (env : ResumeEnv) (d : Dev) → Bounded (finish_resume env d)
unfolding finish_resume
finish_resume-Bounded env d = omega arith

try_reprobe-Bounded :
    (env : ResumeEnv) (d : Dev) → d.resume_reprobe_count < max_reprobe → Bounded (try_reprobe env d)
unfolding try_reprobe
try_reprobe-Bounded env d l =
    omega (
      arith,
      reprobe_all-Counts env (record d { resume_reprobe_count = d.resume_reprobe_count + 1 }),
    )

handshake-Bounded :
    (env : ResumeEnv) (d : Dev) → d.resume_reprobe_count ≤ max_reprobe → Bounded (handshake env d)
unfolding handshake
handshake-Bounded env d b =
    let d₁ = resume_early_all d.entities (call aspm_disable d) in
    let same : d₁.resume_reprobe_count ≡ d.resume_reprobe_count =
      early-Counts d.entities (call aspm_disable d) in
    let bound : d₁.resume_reprobe_count ≤ max_reprobe = omega (arith, same) in
    let d₂ = call (pm_request resume_req) d₁ in
    let d₃ = call (pm_request resume_req_ap) d₂ in
    Ret-by Bounded (if env.pm.acked resume_req then ok else fail etimedout) _ _
      (λ _.
        Ret-by Bounded (if env.pm.acked resume_req_ap then ok else fail etimedout) _ _
          (λ _. finish_resume-Bounded env d₃)
          (λ _.
            if-by Bounded (is_init env.prev_state && ltb d₃.resume_reprobe_count max_reprobe) _ _
              (λ a.
                try_reprobe-Bounded env d₃
                  (room (is_init env.prev_state) d₃.resume_reprobe_count a))
              (λ _. finish_resume-Bounded env d₃)))
      (λ _.
        if-by Bounded (leb max_reprobe d₂.resume_reprobe_count) _ _ (λ _. bound)
          (λ a. try_reprobe-Bounded env d₂ (less d₂.resume_reprobe_count a)))
  where
    room : (b : Bool) (n : ℕ) → b && ltb n 3 ≡ true → n < 3
    room b n a = ground arith

    less : (n : ℕ) → leb 3 n ≡ false → n < 3
    less n a = ground arith

reprobe_all-Bounded :
    (env : ResumeEnv) (d : Dev) → d.resume_reprobe_count ≤ max_reprobe → Bounded (reprobe_all env d)
reprobe_all-Bounded env d b = omega (arith, reprobe_all-Counts env d)

checked-Bounded :
    (env : ResumeEnv) (s : ResumeState) (d : Dev)
    → d.resume_reprobe_count ≤ max_reprobe
    → Bounded (checked env s d)
unfolding checked
checked-Bounded env rs_l3 d b = reprobe_all-Bounded env d b
checked-Bounded env rs_init d b =
    if-by Bounded env.atr_lost _ _ (λ _. reprobe_all-Bounded env d b)
      (λ _. handshake-Bounded env d b)
checked-Bounded env rs_l1 d b = handshake-Bounded env d b
checked-Bounded env rs_exp d b = b
checked-Bounded env rs_l2_exp d b = go env.enable_ret
  where
    go : (r : Ret) → Bounded (checked (record env { enable_ret = r }) rs_l2_exp d)
    go ok = b
    go (fail x) = b
checked-Bounded env rs_l2 d b = go env.enable_ret
  where
    go : (r : Ret) → Bounded (checked (record env { enable_ret = r }) rs_l2 d)
    go ok =
        handshake-Bounded (record env { enable_ret = ok })
          (call mac_reinit (call pcim_enable_device d)) b
    go (fail x) = b
checked-Bounded env rs_unknown d b = Ret-by Bounded env.stop_ret _ _ (λ _. b) (λ _. b)

-- However a resume goes, it leaves the count of the probes that were made for it within its limit.
pub pm_resume-Bounded :
    (env : ResumeEnv) (state_check : Bool) (d : Dev)
    → d.resume_reprobe_count ≤ max_reprobe
    → (pm_resume env state_check d).1.resume_reprobe_count ≤ max_reprobe
unfolding pm_resume
pm_resume-Bounded env state_check d b =
    if-by Bounded (up_to_init d.pm_state) _ _ (λ _. b)
      (λ _.
        if-by Bounded state_check _ _
          (λ _. checked-Bounded env env.prev_state (call interrupts_en d) b)
          (λ _. handshake-Bounded env (call interrupts_en d) b))

pub early-probes :
    (es : List Entity) (d : Dev) → probes (resume_early_all es d).calls ≡ probes d.calls
early-probes [] d = refl
early-probes (e ∷ es) d =
    early-probes es (if e.has_resume_early then call (entity_resume_early e.id) d else d)
    ∙ if-by (λ (x : Dev). probes x.calls ≡ probes d.calls) e.has_resume_early _ _ (λ _. refl)
        (λ _. refl)

GivesUp : Dev → Ret × Dev → Type 0
GivesUp d x = (x.0 ≡ fail etimedout) × (probes x.1.calls ≡ probes d.calls)

handshake-GivesUp :
    (env : ResumeEnv) (d : Dev)
    → d.resume_reprobe_count ≡ max_reprobe
    → env.pm.acked resume_req ≡ false
    → GivesUp d (handshake env d)
unfolding handshake GivesUp
handshake-GivesUp env d full silent =
    let d₁ = resume_early_all d.entities (call aspm_disable d) in
    rw (silent, handshake)
      (if-by (GivesUp d) (leb max_reprobe d₁.resume_reprobe_count) _ _
        (λ _. (refl, early-probes d.entities (call aspm_disable d)))
        (λ l. absurd (
          at_limit d₁.resume_reprobe_count (early-Counts d.entities (call aspm_disable d) ∙ full)
            l)))
  where
    at_limit : (n : ℕ) → n ≡ 3 → leb 3 n ≡ false → ⊥
    at_limit n e l = ground arith

-- When as many probes were made as are allowed, the device was past its initialisation, the resume
-- does not look at the resume state or finds L1 there, and the modem does not answer the resume, then
-- the resume fails with a timeout and does not tell the state machine to stop for another probe.
pub pm_resume-GivesUp :
    (env : ResumeEnv) (state_check : Bool) (d : Dev)
    → up_to_init d.pm_state ≡ false
    → (state_check ≡ true → env.prev_state ≡ rs_l1)
    → d.resume_reprobe_count ≡ max_reprobe
    → env.pm.acked resume_req ≡ false
    → ((pm_resume env state_check d).0 ≡ fail etimedout)
      × (probes (pm_resume env state_check d).1.calls ≡ probes d.calls)
unfolding pm_resume GivesUp checked
pm_resume-GivesUp env state_check d later in_l1 full silent =
    let d₁ = call interrupts_en d in
    let plain = handshake-GivesUp env d₁ full silent in
    if-by (GivesUp d) (up_to_init d.pm_state) _ _ (λ e. absurd (false-true (sym later ∙ e)))
      (λ _.
        if-by (GivesUp d) state_check _ _
          (λ t. subst (λ s. GivesUp d (checked env s d₁)) (sym (in_l1 t)) plain) (λ _. plain))
  where
    false-true : false ≡ true → ⊥
    false-true x = cc
