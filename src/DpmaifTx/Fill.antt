-- ===== src/DpmaifTx/Fill.antt =====
-- Writing one packet into the ring: the message DRB, a payload DRB for the linear data and one for
-- each fragment, and the way back when a DMA mapping fails.
use mtk_t7xx_fix.Prelude.{
  ℕ, zero, suc, ◌+◌, ◌-◌, ◌/◌, ◌%◌, ◌^◌, Bool, true, false, not, ◌||◌, Option, none, some, List, [],
  ◌∷◌, length, leb, ◌==◌, is_neg, u32, sub32, field_prep, if◌then◌else◌, Ret, ok, fail, enodev,
  enomem,
}
use mtk_t7xx_fix.Ring.{get_next_wr_idx}
use mtk_t7xx_fix.DpmaifTx.State.{
  Skb, dma_unmap_single, notify_full, DpmaifState, pwron, TxQueue, dtyp_pd, dtyp_msg, drb_at,
  drb_skb_at, set_drb, set_drb_skb, call,
}

unfoldable pub setup_msg_drb : TxQueue → ℕ → ℕ → ℕ → ℕ → TxQueue
setup_msg_drb txq cur_idx pkt_len count_l channel_id =
    set_drb txq cur_idx (record (drb_at txq cur_idx) {
      header = field_prep 0 2 dtyp_msg + field_prep 2 1 1 + field_prep 16 16 pkt_len;
      word1 = field_prep 0 16 count_l + field_prep 16 8 channel_id + field_prep 29 1 1;
    })

unfoldable pub setup_payload_drb : TxQueue → ℕ → ℕ → ℕ → Bool → TxQueue
setup_payload_drb txq cur_idx data_addr pkt_size last_one = set_drb txq cur_idx (record {
  header =
      field_prep 0 2 dtyp_pd
      + field_prep 16 16 pkt_size
      + (if last_one then 0 else field_prep 2 1 1);
  word1 = data_addr % 2 ^ 32;
  word2 = data_addr / 2 ^ 32 % 2 ^ 32;
})

unfoldable pub record_drb_skb : TxQueue → ℕ → Option ℕ → Bool → Bool → Bool → ℕ → ℕ → TxQueue
record_drb_skb txq cur_idx skb is_msg is_frag is_last_one bus_addr data_len =
    set_drb_skb txq cur_idx (record {
      skb = skb;
      bus_addr = bus_addr;
      data_len = data_len;
      index = cur_idx % 2 ^ 13;
      is_msg = is_msg;
      is_frag = is_frag;
      is_last = is_last_one;
    })

-- How the payload loop ends: the queue, `cur_idx`, and at a mapping error `wr_cnt`.
pub data Mapped : Type 0 where
  mapped : TxQueue → ℕ → Mapped
  map_failed : TxQueue → ℕ → ℕ → Mapped

-- The round of the loop that has its mapping: the DRB and its record at `cur_idx`.
unfoldable pub put_payload : TxQueue → Skb → ℕ → ℕ → ℕ → ℕ → Bool → TxQueue
unfolding setup_payload_drb record_drb_skb
put_payload txq skb wr_cnt cur_idx bus_addr data_len is_last_one =
    record_drb_skb (setup_payload_drb txq cur_idx bus_addr data_len is_last_one) cur_idx
      (some skb.id) false (not (wr_cnt == 0)) is_last_one bus_addr data_len

-- `dma_map_single` answers an address, or `none` for a mapping error; it is asked with the number
-- of the payload and its length. The list holds the lengths still to map.
module _ (dma_map_single : ℕ → ℕ → Option ℕ) where
  unfoldable pub map_payloads : List ℕ → TxQueue → Skb → ℕ → ℕ → Mapped
  map_payloads [] txq skb wr_cnt cur_idx = mapped txq cur_idx
  map_payloads (data_len ∷ rest) txq skb wr_cnt cur_idx = elim (dma_map_single wr_cnt data_len) [
    | none ↦ map_failed txq cur_idx wr_cnt
    | some bus_addr ↦
        let next_idx = get_next_wr_idx txq.drb_size_cnt cur_idx in
        map_payloads rest (put_payload txq skb wr_cnt next_idx bus_addr data_len (length rest == 0))
          skb (suc wr_cnt) next_idx
  ]

-- `while (wr_cnt--)` of the label `unmap_buffers`.
unfoldable pub unmap_buffers : ℕ → TxQueue → ℕ → TxQueue
unmap_buffers zero txq cur_idx = txq
unmap_buffers (suc wr_cnt) txq cur_idx =
    let prev = if cur_idx == 0 then txq.drb_size_cnt - 1 else cur_idx - 1 in
    let drb_skb = drb_skb_at txq prev in
    unmap_buffers wr_cnt (call txq (dma_unmap_single drb_skb.bus_addr drb_skb.data_len)) prev

abbrev pub payload_sizes : Skb → List ℕ
payload_sizes skb = skb.head_len ∷ skb.frags

abbrev pub skb_drb_cnt : Skb → ℕ
skb_drb_cnt skb = length skb.frags + 2

-- The part under `tx_lock`: the write index moves over the whole packet, and the message DRB is
-- written.
unfoldable pub reserve : TxQueue → Skb → TxQueue
unfolding setup_msg_drb record_drb_skb
reserve txq skb =
    let cur_idx = txq.drb_wr_idx in
    let wr_idx = u32 (cur_idx + skb_drb_cnt skb) in
    let txq₁ = record txq {
      tx_processing = true;
      drb_wr_idx = if leb txq.drb_size_cnt wr_idx then wr_idx - txq.drb_size_cnt else wr_idx;
    } in
    record_drb_skb (setup_msg_drb txq₁ cur_idx skb.len 0 skb.netif_idx) cur_idx (some skb.id) true
      false false 0 0

-- `MAX_SKB_FRAGS` is a constant of the kernel's configuration.
unfoldable pub finish_add : ℕ → ℕ → TxQueue → TxQueue
finish_add max_skb_frags send_cnt txq =
    let budget = sub32 txq.tx_budget send_cnt in
    let txq₁ = record txq { tx_budget = budget; tx_processing = false } in
    if is_neg budget || leb budget (max_skb_frags + 2)
    then call txq₁ (notify_full txq.index)
    else txq₁

abbrev pub is_pwron : DpmaifState → Bool
is_pwron pwron = true
is_pwron _ = false

unfoldable pub end_add : ℕ → ℕ → ℕ → Mapped → Ret × TxQueue
unfolding finish_add
end_add max_skb_frags send_cnt backup (mapped txq cur_idx) =
    (ok, finish_add max_skb_frags send_cnt txq)
end_add max_skb_frags send_cnt backup (map_failed txq cur_idx wr_cnt) = (
  fail enomem,
  record (unmap_buffers wr_cnt txq cur_idx) { drb_wr_idx = backup; tx_processing = false },
)

module _ (max_skb_frags : ℕ) (dma_map_single : ℕ → ℕ → Option ℕ) where
  unfoldable pub add_skb_to_ring : DpmaifState → TxQueue → Skb → Ret × TxQueue
  add_skb_to_ring state txq skb =
      if not txq.que_started || not (is_pwron state)
      then (fail enodev, txq)
      else end_add max_skb_frags (skb_drb_cnt skb) txq.drb_wr_idx
          (map_payloads dma_map_single (payload_sizes skb) (reserve txq skb) skb 0 txq.drb_wr_idx)
