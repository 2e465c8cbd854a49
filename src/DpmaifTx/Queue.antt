-- ===== src/DpmaifTx/Queue.antt =====
-- The software queue in front of the ring: what the network device hands over, the thread that
-- pushes to the ring, and the work handler of the done interrupt.
use mtk_t7xx_fix.Prelude.{
  ℕ, zero, suc, ◌+◌, ◌-◌, ◌*◌, Bool, true, false, not, ◌||◌, ◌&&◌, Option, none, some, List, [],
  ◌∷◌, ◌++◌, ltb, leb, ◌==◌, test_bit, if◌then◌else◌, Ret, ok, fail, ebusy, eacces, eagain,
}
use mtk_t7xx_fix.Ring.{write, rd_wr_count}
use mtk_t7xx_fix.DpmaifTx.State.{
  Skb, notify_full, wake_tx_thread, queue_tx_work, disable_sleep, enable_sleep, put_autosuspend,
  clr_ip_busy_sts, unmask_ulq_intr, update_hw_drb_cnt, DpmaifState, TxQueue, call,
}
use mtk_t7xx_fix.DpmaifTx.Fill.{skb_drb_cnt, is_pwron, add_skb_to_ring}
use mtk_t7xx_fix.DpmaifTx.Release.{update_drb_rd_idx, tx_release}

abbrev pub tx_burst_cnt : ℕ
tx_burst_cnt = 5

abbrev pub drb_size_word : ℕ
drb_size_word = 4

unfoldable pub send_skb : TxQueue → Skb → Ret × TxQueue
send_skb txq skb =
    if leb txq.tx_budget (skb_drb_cnt skb)
    then (fail ebusy, call txq (notify_full txq.index))
    else (ok, call (record txq { tx_skb_head = txq.tx_skb_head ++ (skb ∷ []) }) wake_tx_thread)

abbrev pub drb_wr_available : TxQueue → ℕ
drb_wr_available txq = rd_wr_count txq.drb_size_cnt txq.drb_release_rd_idx txq.drb_wr_idx write

abbrev is_empty : List Skb → Bool
is_empty [] = true
is_empty (_ ∷ _) = false

unfoldable pub tx_lists_are_all_empty : List TxQueue → Bool
tx_lists_are_all_empty [] = true
tx_lists_are_all_empty (txq ∷ rest) = is_empty txq.tx_skb_head && tx_lists_are_all_empty rest

-- `none` is NULL.
unfoldable pub select_tx_queue : TxQueue → Option TxQueue
select_tx_queue txq = if txq.que_started then some txq else none

-- The result of a burst: the DRBs written if there are any, else the last return code.
pub data Burst : Type 0 where
  sent : ℕ → Burst
  none_sent : Ret → Burst

-- `dma_map_single` is asked with the packet too.
module _ (max_skb_frags : ℕ) (dma_map_single : ℕ → ℕ → ℕ → Option ℕ) (state : DpmaifState) where
  -- The loop of t7xx_txq_burst_send_skb with `rounds` to go: `drb_cnt`, `ret` and the queue.
  unfoldable pub burst_from : ℕ → ℕ → ℕ → Ret → TxQueue → ℕ × Ret × TxQueue
  burst_from zero remain drb_cnt ret txq = (drb_cnt, ret, txq)
  burst_from (suc rounds) remain drb_cnt ret txq = elim txq.tx_skb_head [
    | [] ↦ (drb_cnt, ret, txq)
    | skb ∷ rest ↦
        let send_drb_cnt = skb_drb_cnt skb in
        let again = burst_from rounds (drb_wr_available txq) drb_cnt ret txq in
        let (added, txq') = add_skb_to_ring max_skb_frags (dma_map_single skb.id) state txq skb in
        let more =
          burst_from rounds (remain - send_drb_cnt) (drb_cnt + send_drb_cnt) ok
            (record txq' { tx_skb_head = rest }) in
        if ltb remain send_drb_cnt
        then again
        else elim added [ ok ↦ more | fail e ↦ (drb_cnt, fail e, txq') ]
  ]

  unfoldable pub txq_burst_send_skb : TxQueue → Burst × TxQueue
  txq_burst_send_skb txq =
      let (drb_cnt, ret, txq') = burst_from tx_burst_cnt (drb_wr_available txq) 0 ok txq in
      (if ltb 0 drb_cnt then sent drb_cnt else none_sent ret, txq')

-- What the pushing thread reads from outside in one round of its loop: whether the PCIe sleep lock
-- was taken, kthread_should_stop(), and the data path's state.
pub record Round : Type 0 where
  pub sleep_disabled : Bool
  pub should_stop : Bool
  pub state : DpmaifState

-- How a round of t7xx_do_tx_hw_push ends: the function returns, or the loop goes on with the flag
-- `wait_disable_sleep`.
pub data Pushed : Type 0 where
  returned : TxQueue → Pushed
  again : Bool → TxQueue → Pushed

abbrev pub pushed_queue : Pushed → TxQueue
pushed_queue (returned txq) = txq
pushed_queue (again wait txq) = txq

-- `others` are the queues that are never filled.
module _ (max_skb_frags : ℕ) (dma_map_single : ℕ → ℕ → ℕ → Option ℕ) (others : List TxQueue) where
  -- The condition of the `do … while`.
  unfoldable pub push_more : Round → Bool → TxQueue → Pushed
  push_more r wait_disable_sleep txq =
      if tx_lists_are_all_empty (txq ∷ others) || r.should_stop || not (is_pwron r.state)
      then returned txq
      else again wait_disable_sleep txq

  -- What follows the burst, at the queue that it leaves.
  unfoldable pub after_burst : Round → Bool → Burst → TxQueue → Pushed
  after_burst r wait_disable_sleep (none_sent ret) txq = push_more r wait_disable_sleep txq
  after_burst r wait_disable_sleep (sent drb_cnt) txq =
      if wait_disable_sleep && not r.sleep_disabled
      then returned txq
      else push_more r false (call txq (update_hw_drb_cnt txq.index (drb_cnt * drb_size_word)))

  unfoldable pub push_selected : Round → Bool → TxQueue → Option TxQueue → Pushed
  push_selected r wait_disable_sleep txq none = returned txq
  push_selected r wait_disable_sleep txq (some q) =
      let (burst, q') = txq_burst_send_skb max_skb_frags dma_map_single r.state q in
      after_burst r wait_disable_sleep burst q'

  unfoldable pub push_round : Round → Bool → TxQueue → Pushed
  push_round r wait_disable_sleep txq = push_selected r wait_disable_sleep txq (select_tx_queue txq)

  -- The loop over the rounds that the environment grants; after the last one it may go on.
  unfoldable pub do_tx_hw_push : List Round → Bool → TxQueue → Pushed
  do_tx_hw_push [] wait_disable_sleep txq = again wait_disable_sleep txq
  do_tx_hw_push (r ∷ rest) wait_disable_sleep txq = elim (push_round r wait_disable_sleep txq) [
    | returned q ↦ returned q
    | again wait q ↦ do_tx_hw_push rest wait q
  ]

-- What t7xx_dpmaif_tx_done reads from outside: the power-management result, the sleep lock, the
-- hardware read index twice, and the done flag between.
pub record DoneInput : Type 0 where
  pub resume : Ret
  pub sleep_disabled : Bool
  pub hw_rd_idx : ℕ
  pub ul_clr_done : Bool
  pub hw_rd_idx_after : ℕ

-- `ret < 0 && ret != -EACCES` is false.
abbrev pub may_continue : Ret → Bool
may_continue ok = true
may_continue (fail eacces) = true
may_continue (fail _) = false

abbrev pub is_eagain : Ret → Bool
is_eagain (fail eagain) = true
is_eagain _ = false

-- The handler's middle, with the sleep lock held.
unfoldable pub tx_done_locked : DoneInput → TxQueue → TxQueue
tx_done_locked input txq =
    let (ret, txq₁) = tx_release txq input.hw_rd_idx txq.drb_size_cnt in
    let (left, txq₂) = update_drb_rd_idx txq₁ input.hw_rd_idx_after in
    let txq₃ = if input.ul_clr_done then txq₂ else txq₁ in
    if is_eagain ret
    then call (call txq₁ (queue_tx_work txq.index)) clr_ip_busy_sts
    else if input.ul_clr_done && not (left == 0)
    then call (call txq₃ (queue_tx_work txq.index)) clr_ip_busy_sts
    else call (call txq₃ clr_ip_busy_sts) (unmask_ulq_intr txq.index)

unfoldable pub tx_done : DoneInput → TxQueue → TxQueue
tx_done input txq =
    if not (may_continue input.resume)
    then txq
    else let txq₁ = call txq disable_sleep in
      let txq₂ = if input.sleep_disabled then tx_done_locked input txq₁ else txq₁ in
      call (call txq₂ enable_sleep) put_autosuspend

-- The loop of t7xx_dpmaif_irq_tx_done, from queue `i` on.
unfoldable pub irq_tx_done : ℕ → ℕ → List TxQueue → List TxQueue
irq_tx_done i que_mask [] = []
irq_tx_done i que_mask (txq ∷ rest) =
    (if test_bit i que_mask then call txq (queue_tx_work i) else txq)
    ∷ irq_tx_done (i + 1) que_mask rest
