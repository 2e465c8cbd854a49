-- ===== src/DpmaifTx/Release.antt =====
-- Taking done DRBs back: the read index of the hardware, the release loop, and the clearing of a
-- stopped queue.
use mtk_t7xx_fix.Prelude.{
  ℕ, zero, suc, ◌+◌, ◌-◌, ◌/◌, false, not, Option, none, some, List, min, ltb, leb, ◌==◌, u32,
  if◌then◌else◌, Ret, ok, fail, eagain, map,
}
use mtk_t7xx_fix.Ring.{read, get_next_wr_idx, rd_wr_count}
use mtk_t7xx_fix.DpmaifTx.State.{
  DrbSkb, dma_unmap_single, dev_kfree_skb, notify_irq, TxQueue, drb_list_len, dtyp_pd, hdr_dtyp,
  hdr_cont, drb_at, drb_skb_at, set_drb_skb, call,
}

-- `new_hw_rd_idx` is what t7xx_dpmaif_ul_get_rd_idx reads from the register.
unfoldable pub update_drb_rd_idx : TxQueue → ℕ → ℕ × TxQueue
update_drb_rd_idx txq new_hw_rd_idx =
    if not txq.que_started then (0, txq) else if leb drb_list_len new_hw_rd_idx then (0, txq) else (
      if leb txq.drb_rd_idx new_hw_rd_idx
          then new_hw_rd_idx - txq.drb_rd_idx
          else txq.drb_size_cnt - txq.drb_rd_idx + new_hw_rd_idx,
      record txq { drb_rd_idx = new_hw_rd_idx },
    )

-- The end of a round: the index moves on, the budget grows, and a large budget is announced.
unfoldable pub step_release : TxQueue → ℕ → TxQueue × ℕ
step_release txq cur_idx =
    let next = get_next_wr_idx txq.drb_size_cnt cur_idx in
    let budget = u32 (txq.tx_budget + 1) in
    let txq₁ = record txq { drb_release_rd_idx = next; tx_budget = budget } in
    (if ltb (txq.drb_size_cnt / 8) budget then call txq₁ (notify_irq txq.index) else txq₁, next)

abbrev pub unmap_payload : TxQueue → DrbSkb → TxQueue
unmap_payload txq d = if d.is_msg then txq else call txq (dma_unmap_single d.bus_addr d.data_len)

-- A round at a payload DRB that ends a packet: without an skb the round is left by `continue`,
-- before the index moves.
unfoldable pub release_last : TxQueue → DrbSkb → ℕ → Option ℕ → TxQueue × ℕ
release_last txq d cur_idx none = (txq, cur_idx)
release_last txq d cur_idx (some skb) =
    step_release (set_drb_skb (call txq (dev_kfree_skb skb)) cur_idx (record d { skb = none }))
      cur_idx

-- A round of the loop in t7xx_dpmaif_release_tx_buffer.
unfoldable pub release_one : TxQueue → ℕ → TxQueue × ℕ
release_one txq cur_idx =
    let header = (drb_at txq cur_idx).header in
    let d = drb_skb_at txq cur_idx in
    if hdr_dtyp header == dtyp_pd
    then if hdr_cont header == 0
      then release_last (unmap_payload txq d) d cur_idx d.skb
      else step_release (set_drb_skb (unmap_payload txq d) cur_idx (record d { skb = none }))
          cur_idx
    else step_release txq cur_idx

unfoldable pub release_from : ℕ → TxQueue → ℕ → TxQueue
release_from zero txq cur_idx = txq
release_from (suc n) txq cur_idx =
    let (txq', cur_idx') = release_one txq cur_idx in release_from n txq' cur_idx'

-- The returned count is the loop's counter, which is `release_cnt` when the loop ends.
unfoldable pub release_tx_buffer : TxQueue → ℕ → ℕ × TxQueue
unfolding release_from
release_tx_buffer txq release_cnt =
    (release_cnt, release_from release_cnt txq txq.drb_release_rd_idx)

-- The kernel's `min_not_zero`.
abbrev pub min_not_zero : ℕ → ℕ → ℕ
min_not_zero a b = if a == 0 then b else if b == 0 then a else min a b

unfoldable pub tx_release : TxQueue → ℕ → ℕ → Ret × TxQueue
tx_release txq hw_rd_idx budget =
    let txq₁ = (update_drb_rd_idx txq hw_rd_idx).1 in
    let rel_cnt = rd_wr_count txq₁.drb_size_cnt txq₁.drb_release_rd_idx txq₁.drb_rd_idx read in
    let real_rel_cnt = min_not_zero budget rel_cnt in
    (
      if ltb real_rel_cnt rel_cnt then fail eagain else ok,
      if real_rel_cnt == 0 then txq₁ else (release_tx_buffer txq₁ real_rel_cnt).1,
    )

-- A round of t7xx_dpmaif_tx_free_drb_skb: a record with an skb is unmapped, and the last one of a
-- packet frees it.
unfoldable pub free_skb : TxQueue → ℕ → DrbSkb → Option ℕ → TxQueue
free_skb txq i d none = txq
free_skb txq i d (some skb) =
    let txq₁ = unmap_payload txq d in
    if d.is_last
    then set_drb_skb (call txq₁ (dev_kfree_skb skb)) i (record d { skb = none })
    else txq₁

unfoldable pub free_from : ℕ → ℕ → TxQueue → TxQueue
unfolding free_skb
free_from zero i txq = txq
free_from (suc n) i txq =
    free_from n (suc i) (free_skb txq i (drb_skb_at txq i) (drb_skb_at txq i).skb)

unfoldable pub tx_free_drb_skb : TxQueue → TxQueue
tx_free_drb_skb txq = free_from txq.drb_size_cnt 0 txq

unfoldable pub txq_flush_rel : TxQueue → TxQueue
txq_flush_rel txq = record (tx_free_drb_skb (record txq { que_started = false })) {
  drb_rd_idx = 0;
  drb_wr_idx = 0;
  drb_release_rd_idx = 0;
}

unfoldable pub tx_clear : List TxQueue → List TxQueue
tx_clear = map txq_flush_rel

abbrev stop_one : TxQueue → TxQueue
stop_one txq = record txq { que_started = false }

-- The wait for `tx_processing` ends by itself and writes nothing.
unfoldable pub tx_stop : List TxQueue → List TxQueue
tx_stop = map stop_one
