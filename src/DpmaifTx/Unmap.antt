-- ===== src/DpmaifTx/Unmap.antt =====
-- The error path of t7xx_dpmaif_add_skb_to_ring: which mappings the label `unmap_buffers` undoes.
use mtk_t7xx_fix.Prelude.{
  ℕ, ◌-◌, ◌≤◌, ◌≢◌, ◌<◌, ◌≡◌, refl, ap, ◌∙◌, arith, true, false, Option, none, some, List, ◌∷◌,
  get_or-set_self, get_or-set_ne, fail, enomem, ◌==◌, if◌then◌else◌,
}
use mtk_t7xx_fix.Ring.{get_next_wr_idx}
use mtk_t7xx_fix.Ring.Count.{max_len, get_next_wr_idx_lem}
use mtk_t7xx_fix.DpmaifTx.State.{Skb, dma_unmap_single, pwron, TxQueue, zero_drb_skb}
use mtk_t7xx_fix.DpmaifTx.Fill.{
  payload_sizes, skb_drb_cnt, map_failed, put_payload, map_payloads, unmap_buffers, reserve,
  end_add, add_skb_to_ring,
}
use mtk_t7xx_fix.DpmaifTx.Account.{IsValid}

-- The slot before the next one.
prev_next :
    (size cur : ℕ)
    → size ≤ max_len
    → 1 < size
    → cur < size
    → (if get_next_wr_idx size cur == 0 then size - 1 else get_next_wr_idx size cur - 1) ≡ cur
prev_next size cur small big h = ground (arith, get_next_wr_idx_lem size cur small h)

next-ne : (size cur : ℕ) → size ≤ max_len → 1 < size → cur < size → get_next_wr_idx size cur ≢ cur
next-ne size cur small big h = ground (arith, get_next_wr_idx_lem size cur small h)

module _ (dma : ℕ → ℕ → Option ℕ) (skb : Skb) (first second addr : ℕ) (rest : List ℕ)
    (mapped_first : dma 0 first ≡ some addr) (failed_second : dma 1 second ≡ none) where
  second_fails :
      (txq : TxQueue) (cur : ℕ)
      → let next = get_next_wr_idx txq.drb_size_cnt cur in
        map_payloads dma (first ∷ second ∷ rest) txq skb 0 cur
        ≡ map_failed (put_payload txq skb 0 next addr first false) next 1
  unfolding map_payloads
  second_fails txq cur = ground arith

-- The record that the first round of `unmap_buffers` reads.
first_unmapped :
    (txq : TxQueue) (skb : Skb) (addr first : ℕ)
    → IsValid txq
    → 1 < txq.drb_size_cnt
    → let next = get_next_wr_idx txq.drb_size_cnt txq.drb_wr_idx in
      (unmap_buffers 1 (put_payload (reserve txq skb) skb 0 next addr first false) next).calls
      ≡ dma_unmap_single 0 0 ∷ txq.calls
unfolding unmap_buffers put_payload reserve
first_unmapped txq skb addr first v big =
    rw (prev_next txq.drb_size_cnt txq.drb_wr_idx v.size_small big v.wr_in) (
      rw
        (get_or-set_ne (reserve txq skb).drb_skb_base
          (get_next_wr_idx txq.drb_size_cnt txq.drb_wr_idx) txq.drb_wr_idx _ zero_drb_skb
          (next-ne txq.drb_size_cnt txq.drb_wr_idx v.size_small big v.wr_in))
        (rw (get_or-set_self txq.drb_skb_base txq.drb_wr_idx _ zero_drb_skb (omega arith))))

add_skb_to_ring-run :
    (max_skb_frags : ℕ) (dma : ℕ → ℕ → Option ℕ) (txq : TxQueue) (skb : Skb)
    → txq.que_started ≡ true
    → add_skb_to_ring max_skb_frags dma pwron txq skb
      ≡ end_add max_skb_frags
          (skb_drb_cnt skb)
          txq.drb_wr_idx
          (map_payloads dma (payload_sizes skb) (reserve txq skb) skb 0 txq.drb_wr_idx)
unfolding add_skb_to_ring
add_skb_to_ring-run max_skb_frags dma txq skb started = ground arith

-- If the first payload is mapped and the mapping of the second fails, the packet is refused with
-- -ENOMEM, and the only buffer that is unmapped is the message record's, at address 0 and of length
-- 0: the address that was mapped for the first payload stays mapped.
pub unmap_wrong_slot :
    (max_skb_frags : ℕ) (dma : ℕ → ℕ → Option ℕ) (txq : TxQueue) (skb : Skb) (frag addr : ℕ)
    (rest : List ℕ)
    → IsValid txq
    → 1 < txq.drb_size_cnt
    → txq.que_started ≡ true
    → skb.frags ≡ frag ∷ rest
    → dma 0 skb.head_len ≡ some addr
    → dma 1 frag ≡ none
    → let (r, txq') = add_skb_to_ring max_skb_frags dma pwron txq skb in
      (r ≡ fail enomem) × (txq'.calls ≡ dma_unmap_single 0 0 ∷ txq.calls)
unfolding end_add reserve
unmap_wrong_slot max_skb_frags dma txq skb frag addr rest v big started fr h0 h1 =
    rw (add_skb_to_ring-run max_skb_frags dma txq skb started) (
      rw
        (ap (λ fs. map_payloads dma (skb.head_len ∷ fs) (reserve txq skb) skb 0 txq.drb_wr_idx) fr
          ∙ second_fails dma skb skb.head_len frag addr rest h0 h1 (reserve txq skb) txq.drb_wr_idx)
        (refl, first_unmapped txq skb addr skb.head_len v big))
