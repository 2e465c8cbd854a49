-- ===== src/Pm/Streak.antt =====
-- A streak of resumes that the modem does not answer, __t7xx_pci_pm_resume of src/t7xx_pci.c.
use mtk_t7xx_fix.Prelude.{
  suc, ◌+◌, ◌≤◌, ◌≡◌, refl, ap, arith, true, false, List, [], ◌∷◌, leb, if-by, Ret-by, Ret, ok,
  fail, All,
}
use mtk_t7xx_fix.Pm.State.{pm_request, interrupts_en, aspm_disable, Dev, call, up_to_init}
use mtk_t7xx_fix.Pm.Suspend.{resume_req}
use mtk_t7xx_fix.Pm.Resume.{
  ResumeEnv, max_reprobe, is_download, reprobe_early, reprobe, reprobe_all, resume_early_all,
  try_reprobe, handshake, pm_resume,
}
use mtk_t7xx_fix.Pm.Bounded.{
  probes, early-Counts, early-probes, reprobe_all-Counts, pm_resume-Bounded,
}

reprobe_all-probes :
    (env : ResumeEnv) (d : Dev) → probes (reprobe_all env d).1.calls ≡ suc (probes d.calls)
unfolding reprobe_all
reprobe_all-probes env d =
    let P : Dev → Type 0 = λ x. probes x.calls ≡ probes d.calls in
    let early : probes (reprobe_early env d).1.calls ≡ suc (probes d.calls) =
      ap suc (if-by P (is_download d.mode) _ _ (λ _. refl) (λ _. refl)) in
    Ret-by (λ (x : Ret × Dev). probes x.1.calls ≡ suc (probes d.calls)) env.stop_ret _ _
      (λ _. again env.enable_ret early) (λ _. early)
  where
    again :
        (r : Ret)
        → probes (reprobe_early env d).1.calls ≡ suc (probes d.calls)
        → probes (reprobe (record env { enable_ret = r }) true (reprobe_early env d).1).1.calls
          ≡ suc (probes d.calls)
    again ok early = early
    again (fail x) early = early

-- As many probes were made as were counted.
abbrev Counted : Dev → Ret × Dev → Type 0
Counted d x = probes x.1.calls + d.resume_reprobe_count ≡ probes d.calls + x.1.resume_reprobe_count

try_reprobe-Counted : (env : ResumeEnv) (d : Dev) → Counted d (try_reprobe env d)
unfolding try_reprobe
try_reprobe-Counted env d =
    let d₁ = record d { resume_reprobe_count = d.resume_reprobe_count + 1 } in
    omega (arith, reprobe_all-probes env d₁, reprobe_all-Counts env d₁)

handshake-Counted :
    (env : ResumeEnv) (d : Dev) → env.pm.acked resume_req ≡ false → Counted d (handshake env d)
unfolding handshake
handshake-Counted env d silent =
    let d₁ = resume_early_all d.entities (call aspm_disable d) in
    let d₂ = call (pm_request resume_req) d₁ in
    let count : d₁.resume_reprobe_count ≡ d.resume_reprobe_count =
      early-Counts d.entities (call aspm_disable d) in
    let made : probes d₁.calls ≡ probes d.calls = early-probes d.entities (call aspm_disable d) in
    rw (silent, handshake)
      (if-by (Counted d) (leb max_reprobe d₁.resume_reprobe_count) _ _
        (λ _. omega (arith, count, made))
        (λ _. omega (arith, count, made, try_reprobe-Counted env d₂)))

pm_resume-Counted :
    (env : ResumeEnv) (d : Dev)
    → env.pm.acked resume_req ≡ false
    → Counted d (pm_resume env false d)
unfolding pm_resume
pm_resume-Counted env d silent =
    if-by (Counted d) (up_to_init d.pm_state) _ _ (λ _. refl)
      (λ _. handshake-Counted env (call interrupts_en d) silent)

-- One resume after the other.
abbrev pub resumes : List ResumeEnv → Dev → Dev
resumes [] d = d
resumes (env ∷ envs) d = resumes envs (pm_resume env false d).1

abbrev pub Silent : ResumeEnv → Type 0
Silent env = env.pm.acked resume_req ≡ false

-- However many resumes follow each other that do not look at the resume state and that the modem does
-- not answer, and whatever else happens in them: from a count within its limit on, no more probes are
-- made than the limit leaves.
pub resumes-probes :
    (envs : List ResumeEnv) (d : Dev)
    → All Silent envs
    → d.resume_reprobe_count ≤ max_reprobe
    → probes (resumes envs d).calls + d.resume_reprobe_count ≤ probes d.calls + max_reprobe
resumes-probes [] d silent b = omega arith
resumes-probes (env ∷ envs) d silent b =
    let d₁ = (pm_resume env false d).1 in
    omega (
      arith,
      pm_resume-Counted env d silent.0,
      resumes-probes envs d₁ silent.1 (pm_resume-Bounded env false d b),
    )
