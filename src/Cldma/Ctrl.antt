-- ===== src/Cldma/Ctrl.antt =====
-- What src/t7xx_hif_cldma.c does to a whole controller: start, stop, reset, its part in suspend and
-- resume, the buffers' configuration and the interrupt.
use mtk_t7xx_fix.Prelude.{
  ℕ, zero, suc, ◌+◌, ◌-◌, ◌/◌, ◌%◌, Bool, false, ◌||◌, not, Option, List, ltb, ◌==◌, test_bit, Ret,
  if◌then◌else◌,
}
use mtk_t7xx_fix.Cldma.State.{
  Queue, Ctrl, Dir, tx, rx, proxy_recv, dedicated_recv, hw_init, hw_start, hw_restore,
  clear_ip_busy, enable_irq, disable_irq, hw_set_start_addr, hw_start_queue, hw_irq_dis_eq,
  hw_irq_dis_txrx, hw_irq_en_eq, hw_irq_en_txrx, hw_done, hw_stop_all_qs, hw_stop, queue_work,
  flush_work, cancel_work_sync, pm_runtime_get, mhccif_mask_set, mhccif_mask_clr, read_clear_l3,
  req_at, txq_at, rxq_at, set_txq, set_rxq, hw, cldma_q_num, cldma_all_q, set_all_qs,
  clear_all_bits,
}
use mtk_t7xx_fix.Cldma.Tx.{txq_empty_hndl}
use mtk_t7xx_fix.Cldma.Rx.{Alloc}
use mtk_t7xx_fix.Cldma.Setup.{RxAlloc, clear_txq, clear_rxq, late_init, late_release}

-- A loop over `n` queues from the queue `i` on.
abbrev pub for_queues : ℕ → ℕ → (Ctrl → ℕ → Ctrl) → Ctrl → Ctrl
for_queues zero i f c = c
for_queues (suc n) i f c = for_queues n (suc i) f (f c i)

-- `polled` is the result of waiting for the queues to stop.
unfoldable pub stop : Ret → Ctrl → Ret × Ctrl
stop polled c =
    let c₁ = hw (record c { rxq_active = 0 }) (hw_stop_all_qs rx) in
    let c₂ = hw (record c₁ { txq_active = 0 }) (hw_stop_all_qs tx) in
    let c₃ = hw (hw (hw (record c₂ { txq_started = 0 }) disable_irq) (hw_stop rx)) (hw_stop tx) in
    let c₄ = hw (hw c₃ (hw_done tx 65535)) (hw_done rx 65535) in
    let flushed =
      for_queues cldma_q_num 0 (λ d i. hw d (flush_work rx i))
        (for_queues cldma_q_num 0 (λ d i. hw d (flush_work tx i)) c₄) in
    (polled, if c.is_late_init then flushed else c₄)

-- md_cd_queue_struct_reset: the queue has no ring, until it is attached again.
abbrev pub queue_struct_reset : Queue → ℕ → Queue
queue_struct_reset q i = record q { index = i; attached = false; tr_done = 0; tx_next = 0 }

unfoldable pub reset : Ctrl → Ctrl
unfolding late_release
reset c =
    let c₁ = hw (record c { txq_active = 0; rxq_active = 0 }) disable_irq in
    let c₂ =
      for_queues cldma_q_num 0
        (λ d i. set_txq (hw d (cancel_work_sync tx i)) i (queue_struct_reset (txq_at d i) i)) c₁ in
    let c₃ =
      for_queues cldma_q_num 0
        (λ d i. set_rxq (hw d (cancel_work_sync rx i)) i (queue_struct_reset (rxq_at d i) i)) c₂ in
    late_release c₃

abbrev pub start_addr : Dir → Ctrl → ℕ → Queue → Ctrl
start_addr dir c i q =
    if q.attached then hw c (hw_set_start_addr dir i (req_at q q.tr_done).gpd_addr) else c

unfoldable pub start : Ctrl → Ctrl
start c =
    let c₁ = for_queues cldma_q_num 0 (λ d i. start_addr tx d i (txq_at d i)) (hw c enable_irq) in
    let c₂ = for_queues cldma_q_num 0 (λ d i. start_addr rx d i (rxq_at d i)) c₁ in
    let c₃ = hw (hw c₂ (hw_start_queue rx cldma_all_q)) hw_start in
    let c₄ = record c₃ {
      txq_started = 0;
      txq_active = set_all_qs c.txq_active;
      rxq_active = set_all_qs c.rxq_active;
    } in
    if c.is_late_init then c₄ else c

-- The result of t7xx_cldma_clear_rxq is not looked at. `answers` is what the allocators tell each queue.
unfoldable pub clear_all_qs : (ℕ → List Alloc) → Dir → Ctrl → Ctrl
unfolding clear_txq clear_rxq
clear_all_qs answers tx c = for_queues cldma_q_num 0 (λ d i. set_txq d i (clear_txq (txq_at d i))) c
clear_all_qs answers rx c =
    for_queues cldma_q_num 0 (λ d i. set_rxq d i (clear_rxq (answers i) (rxq_at d i)).1) c

unfoldable pub stop_all_qs : Dir → Ctrl → Ctrl
stop_all_qs dir c =
    let c₁ = hw (hw c (hw_irq_dis_eq dir cldma_all_q)) (hw_irq_dis_txrx dir cldma_all_q) in
    let c₂ = elim dir as (λ _. Ctrl) [
      | rx ↦ record c₁ { rxq_active = clear_all_bits c.rxq_active }
      | tx ↦ record c₁ { txq_active = clear_all_bits c.txq_active }
    ] in
    hw c₂ (hw_stop_all_qs dir)

-- The power management entity.
unfoldable pub suspend : Ctrl → Ctrl
suspend c =
    let c₀ = if c.hif_id == 0 then hw c (mhccif_mask_set) else c in
    let c₁ = hw (hw c₀ (hw_irq_dis_eq tx cldma_all_q)) (hw_irq_dis_txrx tx cldma_all_q) in
    record (hw c₁ (hw_stop_all_qs tx)) { txq_active = clear_all_bits c.txq_active; txq_started = 0 }

unfoldable pub suspend_late : Ctrl → Ctrl
suspend_late c =
    let c₁ = hw (hw c (hw_irq_dis_eq rx cldma_all_q)) (hw_irq_dis_txrx rx cldma_all_q) in
    let c₂ = record c₁ { rxq_active = clear_all_bits c.rxq_active } in
    hw (hw (hw c₂ (hw_stop_all_qs rx)) clear_ip_busy) disable_irq

abbrev pub restore_addrs : Ctrl → ℕ → Ctrl
restore_addrs c i =
    let t = txq_at c i in
    let r = rxq_at c i in
    hw (hw c (hw_set_start_addr tx i (req_at t t.tx_next).gpd_addr))
      (hw_set_start_addr rx i (req_at r r.tr_done).gpd_addr)

unfoldable pub resume_early : Ctrl → Ctrl
resume_early c =
    let c₁ = for_queues cldma_q_num 0 restore_addrs (hw c hw_restore) in
    let c₂ = hw (hw c₁ enable_irq) (hw_start_queue rx cldma_all_q) in
    let c₃ = record c₂ { rxq_active = set_all_qs c.rxq_active } in
    hw (hw c₃ (hw_irq_en_eq rx cldma_all_q)) (hw_irq_en_txrx rx cldma_all_q)

unfoldable pub resume : Ctrl → Ctrl
resume c =
    let c₁ = record c { txq_active = set_all_qs c.txq_active } in
    let c₂ = hw (hw c₁ (hw_irq_en_txrx tx cldma_all_q)) (hw_irq_en_eq tx cldma_all_q) in
    if c.hif_id == 0 then hw c₂ (mhccif_mask_clr) else c₂

-- CLDMA_SHARED_Q_BUFF_SZ, CLDMA_DEDICATED_Q_BUFF_SZ, CLDMA_JUMBO_BUFF_SZ (with the 16 bytes of a
-- header) and CLDMA_Q_IDX_DUMP.
abbrev pub shared_buff_sz : ℕ
shared_buff_sz = 3584

abbrev pub dedicated_buff_sz : ℕ
dedicated_buff_sz = 2048

abbrev pub jumbo_buff_sz : ℕ
jumbo_buff_sz = 64528

abbrev pub q_idx_dump : ℕ
q_idx_dump = 1

abbrev pub adjust_rxq : Bool → ℕ → Queue → Queue
adjust_rxq dedicated i q =
    if i == q_idx_dump
    then if dedicated
      then record q { pkt_size = dedicated_buff_sz; recv_skb_by = dedicated_recv }
      else record q { pkt_size = shared_buff_sz; recv_skb_by = proxy_recv }
    else if i == cldma_q_num - 1
    then record q { pkt_size = jumbo_buff_sz; recv_skb_by = proxy_recv }
    else record q { pkt_size = shared_buff_sz; recv_skb_by = proxy_recv }

abbrev pub adjust_txq : Bool → ℕ → Queue → Queue
adjust_txq dedicated i q =
    if i == q_idx_dump
    then record q { pkt_size = if dedicated then dedicated_buff_sz else shared_buff_sz }
    else record q { pkt_size = shared_buff_sz }

-- `dedicated` is the configuration CLDMA_DEDICATED_Q_CFG.
unfoldable pub adjust_config : Bool → Ctrl → Ctrl
adjust_config dedicated c =
    for_queues cldma_q_num 0 (λ d i. set_txq d i (adjust_txq dedicated i (txq_at d i)))
      (for_queues cldma_q_num 0 (λ d i. set_rxq d i (adjust_rxq dedicated i (rxq_at d i))) c)

-- The result of t7xx_cldma_late_init is not looked at.
unfoldable pub switch_cfg : Bool → List (List (Option ℕ)) → List (List RxAlloc) → Bool → Ctrl → Ctrl
unfolding adjust_config late_init late_release
switch_cfg pool tx_answers rx_answers dedicated c =
    (late_init pool tx_answers rx_answers (adjust_config dedicated (late_release c))).1

unfoldable pub hif_hw_init : Ctrl → Ctrl
hif_hw_init c =
    hw (hw (hw (hw (hw c (hw_stop tx)) (hw_stop rx)) (hw_done rx 65535)) (hw_done tx 65535)) hw_init

-- The queue's work is started, with its interrupts off.
abbrev pub start_work : Dir → Ctrl → ℕ → Ctrl
start_work dir c i =
    hw (hw (hw (hw c pm_runtime_get) (hw_irq_dis_eq dir i)) (hw_irq_dis_txrx dir i))
      (queue_work dir i)

abbrev pub tx_irq_bit : (ℕ → ℕ) → ℕ → Ctrl → ℕ → Ctrl
tx_irq_bit curr_addr l2 c i =
    if not (test_bit i l2)
    then c
    else if ltb i cldma_q_num
    then start_work tx c i
    else txq_empty_hndl (curr_addr (i - cldma_q_num)) c (i - cldma_q_num)

abbrev pub rx_irq_bit : ℕ → Ctrl → ℕ → Ctrl
rx_irq_bit l2 c i = if test_bit i l2 || test_bit (i + cldma_q_num) l2 then start_work rx c i else c

-- Bits 16 to 31 of a status are its errors, bits 0 to 15 are the queues that are done or empty.
abbrev pub irq_dir : Dir → ℕ → (Ctrl → Ctrl) → Ctrl → Ctrl
irq_dir dir l2 loop c =
    let c₁ = if l2 / 65536 % 65536 == 0 then c else hw c (read_clear_l3 dir) in
    let c₂ = hw c₁ (hw_done dir l2) in
    if l2 == 0 then c else if l2 % 65536 == 0 then c₂ else loop c₂

-- `l2_tx` and `l2_rx` are the interrupt status words without the masked bits, `curr_addr` the
-- descriptor each transmit queue is at.
unfoldable pub irq_work_cb : ℕ → ℕ → (ℕ → ℕ) → Ctrl → Ctrl
unfolding txq_empty_hndl
irq_work_cb l2_tx l2_rx curr_addr c =
    irq_dir rx l2_rx (for_queues cldma_q_num 0 (rx_irq_bit l2_rx))
      (irq_dir tx l2_tx (for_queues 16 0 (tx_irq_bit curr_addr l2_tx)) c)
