-- ===== src/Receive/Leak.antt =====
-- The deep sleep lock of src/t7xx_pci.c across the polls of src/t7xx_hif_dpmaif_rx.c.
use mtk_t7xx_fix.Prelude.{
  ℕ, ◌+◌, ◌<◌, ◌≡◌, ◌∙◌, arith, Bool, true, false, not, ◌||◌, List, [], ◌∷◌, length, ltb,
  if◌then◌else◌, if-by,
}
use mtk_t7xx_fix.Pm.State.{Dev}
use mtk_t7xx_fix.Pm.Sleep.{disable_sleep, disable_sleep-count, enable_sleep-count}
use mtk_t7xx_fix.Receive.State.{Rxq}
use mtk_t7xx_fix.Receive.Poll.{PollEnv, poll_loop, poll_end, napi_rx_poll}
use mtk_t7xx_fix.Receive.Contract.{poll_loop-Polled}

-- The lock is there when the poll looks.
abbrev pub granted : PollEnv → Dev → Bool
granted env d = (disable_sleep env.locked d).sleep_lock || env.acked

-- The queue may be polled once more, and the lock is held as often as before or once more.
abbrev Locked : ℕ → Dev → ℕ × Rxq × Dev → Type 0
Locked budget d x =
    (x.1.que_started ≡ true)
    × (x.1.sleep_lock_pending ≡ false)
    × (x.2.sleep_disable_count ≡ d.sleep_disable_count + (if ltb x.0 budget then 0 else 1))

-- A poll of a started queue that waits for no lock and is granted it keeps the queue so. If it returns
-- less than its positive budget, it has given the lock back; if it returns the budget, it has not.
pub napi_rx_poll-Locked :
    (env : PollEnv) (budget : ℕ) (rxq : Rxq) (d : Dev)
    → rxq.que_started ≡ true
    → rxq.sleep_lock_pending ≡ false
    → d.sleep_disable_count < 4294967295
    → budget < 4294967296
    → granted env d ≡ true
    → Locked budget d (napi_rx_poll env budget rxq d)
unfolding napi_rx_poll poll_end
napi_rx_poll-Locked env budget rxq d started idle room small grant =
    let P = Locked budget d in
    let d₁ = disable_sleep env.locked d in
    let rxq₂ = record rxq { rx_processing = true; sleep_lock_pending = false } in
    let x = poll_loop env budget 0 budget 0 false rxq₂ in
    let frame = (poll_loop-Polled env budget 0 budget 0 false rxq₂ small (omega arith)).0 in
    let kept = frame.0 ∙ started in
    let taken = disable_sleep-count env.locked d in
    rw (idle) (
      if-by P (not rxq.que_started) _ _ (λ e. absurd (stopped started e))
        (λ _.
          if-by P (not (d₁.sleep_lock || env.acked)) _ _ (λ e. absurd (stopped grant e))
            (λ _.
              if-by P x.1 _ _ (λ _. (kept, frame.1, ground (arith, taken)))
                (λ _.
                  if-by P (ltb x.0 budget) _ _
                    (λ l. (kept, frame.1, ground (arith, enable_sleep-count d₁, taken)))
                    (λ l. (kept, frame.1, ground (arith, taken)))))))
  where
    stopped : {b : Bool} → b ≡ true → not b ≡ true → ⊥
    stopped e f = cc

-- One poll after the other.
abbrev pub polls : List PollEnv → ℕ → Rxq → Dev → Rxq × Dev
polls [] budget rxq d = (rxq, d)
polls (env ∷ envs) budget rxq d =
    let (done, rxq₁, d₁) = napi_rx_poll env budget rxq d in polls envs budget rxq₁ d₁

-- Each of them is granted the lock and uses its budget up.
abbrev pub AllFull : List PollEnv → ℕ → Rxq → Dev → Type 0
AllFull [] budget rxq d = Unit
AllFull (env ∷ envs) budget rxq d =
    (granted env d ≡ true)
    × ((napi_rx_poll env budget rxq d).0 ≡ budget)
    × AllFull envs budget (napi_rx_poll env budget rxq d).1 (napi_rx_poll env budget rxq d).2

-- On a started queue that does not wait for the sleep lock, polls that are each granted the lock at
-- once and use their budget, below 2^32, up one after the other take the lock each time and never give
-- it back: the count of the lock has grown by the number of the polls, if the count does not wrap.
pub polls_leak :
    (envs : List PollEnv) (budget : ℕ) (rxq : Rxq) (d : Dev)
    → rxq.que_started ≡ true
    → rxq.sleep_lock_pending ≡ false
    → d.sleep_disable_count + length envs < 4294967296
    → budget < 4294967296
    → AllFull envs budget rxq d
    → (polls envs budget rxq d).1.sleep_disable_count ≡ d.sleep_disable_count + length envs
polls_leak [] budget rxq d started idle room small full = omega arith
polls_leak (env ∷ envs) budget rxq d started idle room small (grant, used, rest) =
    let (done, rxq₁, d₁) = napi_rx_poll env budget rxq d in
    let (started₁, idle₁, count) =
      napi_rx_poll-Locked env budget rxq d started idle (omega arith) small grant in
    let one : d₁.sleep_disable_count ≡ d.sleep_disable_count + 1 = count ∙ at_budget done used in
    omega
      (arith, one, polls_leak envs budget rxq₁ d₁ started₁ idle₁ (omega (arith, one)) small rest)
  where
    at_budget :
        (n : ℕ)
        → n ≡ budget
        → d.sleep_disable_count + (if ltb n budget then 0 else 1) ≡ d.sleep_disable_count + 1
    at_budget n e = ground arith
