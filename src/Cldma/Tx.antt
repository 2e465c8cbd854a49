-- ===== src/Cldma/Tx.antt =====
-- Sending on a queue and collecting what the hardware has sent: src/t7xx_hif_cldma.c.
use mtk_t7xx_fix.Prelude.{
  ℕ, zero, suc, ◌+◌, ◌-◌, ◌%◌, ◌^◌, Bool, not, ◌&&◌, ◌||◌, Option, none, some, length, ltb, ◌==◌,
  test_bit, Ret, ok, fail, enomem, if◌then◌else◌,
}
use mtk_t7xx_fix.Cldma.State.{
  Skb, Request, Queue, Ctrl, tx, dma_map_single, dma_unmap_single, dev_kfree_skb, wake_up_nr,
  hw_resume_queue, hw_done, queue_work, clear_ip_busy, hw_irq_en_eq, hw_irq_en_txrx, pm_runtime_put,
  req_at, set_req, call, next, has_skb, txq_at, set_txq, hw,
}

-- What t7xx_cldma_gpd_set_data_ptr and the fields after it write.
abbrev pub fill_gpd : Bool → Skb → ℕ → Request → Request
fill_gpd active skb addr r = record r {
  data_ptr = addr;
  data_buff_len = skb.len % 65536;
  hwo = active || r.hwo;
  skb = some skb;
  mapped_buff = addr;
}

-- `dma` is the bus address, if the mapping succeeds; a failed one leaves the error address, 2^64 - 1.
-- `active` is the queue's bit of `txq_active`.
unfoldable pub handle_tx_request : Bool → Option ℕ → Queue → ℕ → Skb → Ret × Queue
handle_tx_request active none q i skb =
    (fail enomem, set_req q i (record (req_at q i) { mapped_buff = 18446744073709551615 }))
handle_tx_request active (some addr) q i skb =
    (ok, call (set_req q i (fill_gpd active skb addr (req_at q i))) (dma_map_single skb.len))

abbrev pub can_send : Queue → Bool
can_send q = ltb 0 q.budget && not (has_skb (req_at q q.tx_next))

-- The part of t7xx_cldma_send_skb that takes a descriptor. The result of the call is not looked at.
unfoldable pub take_descriptor : Bool → Option ℕ → Queue → Skb → Queue
unfolding handle_tx_request
take_descriptor active dma q skb =
    let (ret, q₁) =
      handle_tx_request active dma (record q { budget = q.budget - 1 }) q.tx_next skb in
    record q₁ { tx_next = next (length q.ring) q.tx_next }

-- The head of the ring can be taken back: its skb was sent.
abbrev pub collectable : Queue → Bool
collectable q = not (req_at q q.tr_done).hwo && has_skb (req_at q q.tr_done)

-- One round of t7xx_cldma_gpd_tx_collect.
abbrev pub collect_skb : Queue → Option Skb → Queue
collect_skb q none = q
collect_skb q (some skb) =
    let r = req_at q q.tr_done in
    call
      (call
        (record (set_req q q.tr_done (record r { skb = none })) {
          budget = q.budget + 1;
          tr_done = next (length q.ring) q.tr_done;
        })
        (dma_unmap_single r.mapped_buff r.data_buff_len))
      (dev_kfree_skb skb.id)

unfoldable pub collect_one : Queue → Queue
collect_one q = collect_skb q (req_at q q.tr_done).skb

-- The loop, with `count` rounds done; no round is made for more descriptors than the ring has. The
-- worker's thread is not stopped while it works.
unfoldable pub collect_from : ℕ → ℕ → Queue → ℕ × Queue
unfolding collect_one
collect_from zero count q = (count, q)
collect_from (suc fuel) count q =
    let more = collect_from fuel (suc count) (collect_one q) in
    if q.attached && collectable q then more else (count, q)

unfoldable pub gpd_tx_collect : Queue → ℕ × Queue
unfolding collect_from
gpd_tx_collect q =
    let (count, q₁) = collect_from (length q.ring) 0 q in
    (count, if count == 0 then q₁ else call q₁ (wake_up_nr count))

-- list_prev_entry_circular, in a ring of `len` entries.
abbrev pub prev : ℕ → ℕ → ℕ
prev len i = if i == 0 then len - 1 else i - 1

-- `ul_curr_addr` is the descriptor the hardware is at.
unfoldable pub txq_empty_hndl : ℕ → Ctrl → ℕ → Ctrl
txq_empty_hndl ul_curr_addr c i =
    let q = txq_at c i in
    let req = req_at q (prev (length q.ring) q.tx_next) in
    if not (test_bit i c.txq_active)
    then c
    else if not (req.hwo && has_skb req)
    then c
    else if not (req.gpd_addr == ul_curr_addr)
    then c
    else hw c (hw_resume_queue tx i)

-- `l2_tx_int` is the interrupt status of the queue, the bit of its index or of its index + 8.
unfoldable pub tx_done : ℕ → ℕ → Ctrl → ℕ → Ctrl
unfolding gpd_tx_collect txq_empty_hndl
tx_done l2_tx_int ul_curr_addr c i =
    let c₁ = set_txq c i (gpd_tx_collect (txq_at c i)).1 in
    let c₂ =
      if test_bit (i + 8) l2_tx_int
      then txq_empty_hndl ul_curr_addr (hw c₁ (hw_done tx (2 ^ (i + 8)))) i
      else c₁ in
    if test_bit i l2_tx_int
    then hw (hw c₂ (hw_done tx (2 ^ i))) (queue_work tx i)
    else hw
        (if test_bit i c₂.txq_active
          then hw (hw (hw c₂ clear_ip_busy) (hw_irq_en_eq tx i)) (hw_irq_en_txrx tx i)
          else c₂)
        pm_runtime_put
