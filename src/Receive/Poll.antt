-- ===== src/Receive/Poll.antt =====
-- The NAPI poll, t7xx_dpmaif_napi_rx_poll of src/t7xx_hif_dpmaif_rx.c, with the deep sleep lock of the
-- PCI device that it takes.
use mtk_t7xx_fix.Prelude.{
  ℕ, zero, suc, ◌+◌, ◌-◌, Bool, true, false, not, ◌||◌, ltb, ◌==◌, if◌then◌else◌,
}
use mtk_t7xx_fix.Pm.State.{Dev}
use mtk_t7xx_fix.Pm.Sleep.{disable_sleep, enable_sleep}
use mtk_t7xx_fix.Receive.State.{
  Pit, napi_complete_done, napi_schedule, napi_gro_flush, clr_ip_busy_sts, unmask_rx_done,
  put_autosuspend, Rxq, RxEnv, call,
}
use mtk_t7xx_fix.Receive.Collect.{RxCount, received, rx_fail, rx_data_collect}

-- What a poll is told: the table and the write index of the hardware in each round, whether the device
-- shows its resources as locked, and whether the lock has been acknowledged.
pub record PollEnv : Type 0 where
  pub rx : RxEnv
  pub pits : ℕ → ℕ → Pit
  pub hw_wr_idx : ℕ → ℕ
  pub locked : Bool
  pub acked : Bool

abbrev pub count_of : RxCount → ℕ
count_of (received n) = n
count_of (rx_fail e) = 0

-- The loop of the poll in round `k`, with so many rounds to come: `work_done` and `once_more`.
unfoldable pub poll_loop : PollEnv → ℕ → ℕ → ℕ → ℕ → Bool → Rxq → ℕ × Bool × Rxq
unfolding rx_data_collect
poll_loop env zero k budget work_done once_more rxq = (work_done, once_more, rxq)
poll_loop env (suc rounds) k budget work_done once_more rxq =
    let (rx_cnt, stale, rxq₁) =
      rx_data_collect env.rx (env.pits k) (env.hw_wr_idx k) (budget - work_done) rxq in
    let flag = once_more || stale in
    let go_on = poll_loop env rounds (suc k) budget (work_done + count_of rx_cnt) flag rxq₁ in
    if not (ltb work_done budget)
    then (work_done, once_more, rxq)
    else if count_of rx_cnt == 0
    then (work_done, flag, rxq₁)
    else go_on

-- The end of a poll.
unfoldable pub poll_end : ℕ → ℕ × Bool × Rxq → Dev → ℕ × Rxq × Dev
poll_end budget (work_done, once_more, rxq) d =
    let idle =
      call put_autosuspend
        (call unmask_rx_done (call clr_ip_busy_sts (call (napi_complete_done work_done) rxq))) in
    if once_more
    then (budget, call clr_ip_busy_sts (call napi_gro_flush rxq), d)
    else if ltb work_done budget
    then (work_done, record idle { rx_processing = false }, enable_sleep d)
    else (work_done, call clr_ip_busy_sts rxq, d)

-- A poll that the sleep lock has not been granted to yet.
abbrev pub poll_again : Rxq → Rxq
poll_again rxq =
    call napi_schedule (record (call (napi_complete_done 0) rxq) { sleep_lock_pending = true })

unfoldable pub napi_rx_poll : PollEnv → ℕ → Rxq → Dev → ℕ × Rxq × Dev
unfolding poll_loop poll_end
napi_rx_poll env budget rxq d =
    let rxq₁ = record rxq { rx_processing = true } in
    let d₁ = if rxq.sleep_lock_pending then d else disable_sleep env.locked d in
    let rxq₂ = record rxq₁ { sleep_lock_pending = false } in
    if not rxq.que_started
    then (0, call put_autosuspend (record rxq { rx_processing = false }), d)
    else if not (d₁.sleep_lock || env.acked)
    then (0, poll_again rxq₁, d₁)
    else poll_end budget (poll_loop env budget 0 budget 0 false rxq₂) d₁
