-- ===== src/Pm/Examples.antt =====
-- Suspends and resumes of src/t7xx_pci.c at concrete inputs.
use mtk_t7xx_fix.Prelude.{
  ◌+◌, ℕ, ◌≤◌, ◌≡◌, refl, arith, true, false, if◌then◌else◌, [], ◌∷◌, ◌==◌, ok, fail, etimedout,
  einval,
}
use mtk_t7xx_fix.Fsm.State.{mode_ready}
use mtk_t7xx_fix.Pm.State.{
  pm_suspended, pm_resumed, Entity, entity_suspend, entity_resume, aspm_disable, aspm_enable,
  rgu_int_set, rgu_int_clear, Dev,
}
use mtk_t7xx_fix.Pm.Sleep.{disable_sleep, enable_sleep, InStep, sleep-InStep}
use mtk_t7xx_fix.Pm.Suspend.{
  PmEnv, pm_suspend, suspend_all, finish_suspend, abort_suspend, resume_until,
}
use mtk_t7xx_fix.Pm.Resume.{ResumeEnv, rs_l1, rs_l3, pm_resume, checked, reprobe_all}
use mtk_t7xx_fix.Pm.Aborted.{pm_suspend-Deaf}
use mtk_t7xx_fix.Pm.Streak.{resumes, resumes-probes}
use mtk_t7xx_fix.Pm.Bounded.{probes, pm_resume-GivesUp}

abbrev entity : ℕ → Entity
entity i = record {
  id = i;
  has_suspend = true;
  has_suspend_late = true;
  has_resume_early = true;
  has_resume = true;
}

-- A ready device with the entities of both control paths and of the data path.
abbrev running : Dev
running = record {
  entities = entity 0 ∷ entity 1 ∷ entity 2 ∷ [];
  pm_state = pm_resumed;
  mode = mode_ready;
  rgu_pci_irq_en = true;
  sleep_disable_count = 0;
  sleep_lock = true;
  resume_reprobe_count = 0;
  calls = [];
}

-- The same device asleep, after as many probes as are allowed.
abbrev tried : Dev
tried = record running { pm_state = pm_suspended; resume_reprobe_count = 3 }

-- Asleep, after one probe.
abbrev asleep : Dev
asleep = record running { pm_state = pm_suspended; resume_reprobe_count = 1 }

-- The second entity does not suspend, and the modem answers nothing.
abbrev refusing : PmEnv
refusing = record {
  suspend_ret = λ i. if i == 1 then fail einval else ok;
  resume_ret = λ i. ok;
  acked = λ r. false;
}

abbrev silent : ResumeEnv
silent = record {
  pm = refusing;
  prev_state = rs_l1;
  atr_lost = false;
  enable_ret = ok;
  stop_ret = ok;
  start_ret = ok;
}

-- Only the entity in front of the one that failed is resumed.
suspend_refused : (pm_suspend refusing running).1.calls ≡ (
    rgu_int_set
    ∷ aspm_enable
    ∷ entity_resume 0 ok
    ∷ entity_suspend 1 (fail einval)
    ∷ entity_suspend 0 ok
    ∷ rgu_int_clear
    ∷ aspm_disable
    ∷ [])
unfolding pm_suspend suspend_all finish_suspend abort_suspend resume_until
suspend_refused = refl

pm_suspend-Deaf_example :
    ((pm_suspend refusing running).1.pm_state ≡ pm_resumed)
    × ((pm_suspend refusing running).1.rgu_pci_irq_en ≡ false)
unfolding pm_suspend suspend_all finish_suspend abort_suspend resume_until
pm_suspend-Deaf_example = pm_suspend-Deaf refusing running einval refl refl refl

sleep-InStep_example :
    InStep (disable_sleep false running)
    × InStep (enable_sleep (disable_sleep false running))
    × ((enable_sleep (disable_sleep false running)).sleep_disable_count ≡ 0)
sleep-InStep_example = sleep-InStep false running refl (ground arith) refl

resumes-probes_example : probes (resumes (silent ∷ silent ∷ []) asleep).calls + 1 ≤ 3
resumes-probes_example =
    resumes-probes (silent ∷ silent ∷ []) asleep (refl, (refl, tt)) (ground arith)

pm_resume-GivesUp_example :
    ((pm_resume silent true tried).0 ≡ fail etimedout)
    × (probes (pm_resume silent true tried).1.calls ≡ 0)
pm_resume-GivesUp_example = pm_resume-GivesUp silent true tried refl (λ _. refl) refl refl

-- A modem that lost its state is probed again, however often that was done.
resume_l3 : probes (pm_resume (record silent { prev_state = rs_l3 }) true tried).1.calls ≡ 1
unfolding pm_resume checked reprobe_all
resume_l3 = refl
