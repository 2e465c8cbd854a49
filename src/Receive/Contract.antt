-- ===== src/Receive/Contract.antt =====
-- What t7xx_dpmaif_napi_rx_poll of src/t7xx_hif_dpmaif_rx.c promises to the kernel's NAPI, and what it
-- does to the deep sleep lock of src/t7xx_pci.c.
use mtk_t7xx_fix.Prelude.{
  ℕ, zero, suc, ◌+◌, ◌-◌, ◌≤◌, ◌<◌, ◌≡◌, refl, arith, Bool, true, false, not, ◌||◌, ltb, ◌==◌,
  if◌then◌else◌, if-by,
}
use mtk_t7xx_fix.Pm.State.{Dev}
use mtk_t7xx_fix.Pm.Sleep.{disable_sleep}
use mtk_t7xx_fix.Receive.State.{Rxq}
use mtk_t7xx_fix.Receive.Collect.{rx_data_collect}
use mtk_t7xx_fix.Receive.Poll.{PollEnv, count_of, poll_loop, poll_end, napi_rx_poll}
use mtk_t7xx_fix.Receive.Frames.{completions, Frame, Frame-trans}
use mtk_t7xx_fix.Receive.Runs.{rx_data_collect-Counted}

-- Within the budget, and nothing else has changed.
abbrev pub Polled : ℕ → Rxq → ℕ × Bool × Rxq → Type 0
Polled budget a x = Frame a x.2 × (x.0 ≤ budget)

pub poll_loop-Polled :
    (env : PollEnv) (rounds k budget done : ℕ) (flag : Bool) (a : Rxq)
    → budget < 4294967296
    → done ≤ budget
    → Polled budget a (poll_loop env rounds k budget done flag a)
unfolding poll_loop
poll_loop-Polled env zero k budget done flag a small h = ((refl, refl, refl), h)
poll_loop-Polled env (suc rounds) k budget done flag a small h =
    let x = rx_data_collect env.rx (env.pits k) (env.hw_wr_idx k) (budget - done) a in
    let here : Polled budget a (done, flag, a) = ((refl, refl, refl), h) in
    let ran : done < budget → Frame a x.2 × (count_of x.0 ≤ budget - done) = λ l.
      rx_data_collect-Counted env.rx (env.pits k) (env.hw_wr_idx k) (budget - done) a (omega arith)
        (omega arith) in
    if-by (Polled budget a) (not (ltb done budget)) _ _ (λ _. here)
      (λ t.
        let r = ran (less done budget t) in
        if-by (Polled budget a) (count_of x.0 == 0) _ _ (λ _. (r.0, h))
          (λ _.
            let rest =
              poll_loop-Polled env rounds (suc k) budget (done + count_of x.0) (flag || x.1) x.2
                small (omega (arith, r.1, less done budget t)) in
            (
              Frame-trans a x.2
                  (poll_loop env rounds (suc k) budget (done + count_of x.0) (flag || x.1) x.2).2
                  r.0 rest.0,
              rest.1,
            )))
  where
    less : (m n : ℕ) → not (ltb m n) ≡ false → m < n
    less m n t = ground arith

-- The result is within the budget, and the poll was completed if and only if it is below.
abbrev pub Promised : ℕ → Rxq → ℕ × Rxq × Dev → Type 0
Promised budget a x =
    (x.0 ≤ budget)
    × (completions x.1.calls ≡ completions a.calls + (if ltb x.0 budget then 1 else 0))

-- A poll of a started queue with a positive budget returns at most the budget, and completes the poll
-- exactly once if it returns less and not at all if it returns the budget.
pub napi_rx_poll-Promised :
    (env : PollEnv) (budget : ℕ) (rxq : Rxq) (d : Dev)
    → rxq.que_started ≡ true
    → 0 < budget
    → budget < 4294967296
    → (((napi_rx_poll env budget rxq d).0 ≤ budget)
        × (completions (napi_rx_poll env budget rxq d).1.calls
            ≡ completions rxq.calls
              + (if ltb (napi_rx_poll env budget rxq d).0 budget then 1 else 0)))
unfolding napi_rx_poll poll_end
napi_rx_poll-Promised env budget rxq d started pos small =
    let P = Promised budget rxq in
    let d₁ = if rxq.sleep_lock_pending then d else disable_sleep env.locked d in
    let rxq₂ = record rxq { rx_processing = true; sleep_lock_pending = false } in
    let looped = poll_loop-Polled env budget 0 budget 0 false rxq₂ small (omega arith) in
    let x = poll_loop env budget 0 budget 0 false rxq₂ in
    if-by P (not rxq.que_started) _ _ (λ e. absurd (stopped started e))
      (λ _.
        if-by P (not (d₁.sleep_lock || env.acked)) _ _ (λ _. (omega arith, ground arith))
          (λ _.
            if-by P x.1 _ _ (λ _. (omega arith, full budget (completions x.2.calls) looped.0.2))
              (λ _.
                if-by P (ltb x.0 budget) _ _ (λ l. (looped.1, ground (arith, looped.0.2)))
                  (λ l. (looped.1, ground (arith, looped.0.2))))))
  where
    stopped : {b : Bool} → b ≡ true → not b ≡ true → ⊥
    stopped e f = cc

    full :
        (n m : ℕ)
        → m ≡ completions rxq.calls
        → m ≡ completions rxq.calls + (if ltb n n then 1 else 0)
    full n m e = ground arith
