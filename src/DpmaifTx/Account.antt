-- ===== src/DpmaifTx/Account.antt =====
-- The accounting of a TX queue: the budget and the occupied slots make up the ring.
use mtk_t7xx_fix.Prelude.{
  ℕ, zero, suc, ◌+◌, ◌≤◌, ◌<◌, ◌≡◌, refl, Bool, Option, List, [], ◌∷◌, arith, length, length-set,
  length-replicate, Option-cases, Bool-cases, inl, inr, ◌==◌,
}
use mtk_t7xx_fix.Ring.{read, rd_wr_count, get_next_wr_idx}
use mtk_t7xx_fix.Ring.Count.{one_slot_free, max_len}
use mtk_t7xx_fix.DpmaifTx.State.{
  set_drb_skb, dev_kfree_skb, Drb, DrbSkb, zero_drb, zero_drb_skb, Skb, TxQueue, txq_init, call,
}
use mtk_t7xx_fix.DpmaifTx.Queue.{drb_wr_available}
use mtk_t7xx_fix.DpmaifTx.Release.{unmap_payload}
use mtk_t7xx_fix.DpmaifTx.Fill.{
  Mapped, mapped, map_failed, put_payload, map_payloads, unmap_buffers,
}

-- The slots written and not yet released.
abbrev pub used : TxQueue → ℕ
used txq = rd_wr_count txq.drb_size_cnt txq.drb_release_rd_idx txq.drb_wr_idx read

pub record IsValid (txq : TxQueue) : Type 0 where
  pub size_pos : 0 < txq.drb_size_cnt
  pub size_small : txq.drb_size_cnt ≤ max_len
  pub drbs : length txq.drb_base ≡ txq.drb_size_cnt
  pub records : length txq.drb_skb_base ≡ txq.drb_size_cnt
  pub wr_in : txq.drb_wr_idx < txq.drb_size_cnt
  pub release_in : txq.drb_release_rd_idx < txq.drb_size_cnt
  pub account : txq.tx_budget + used txq ≡ txq.drb_size_cnt

-- Two queues that differ in the contents of their slots and in `calls` at most.
pub record SameShape (a b : TxQueue) : Type 0 where
  pub index : b.index ≡ a.index
  pub started : b.que_started ≡ a.que_started
  pub size : b.drb_size_cnt ≡ a.drb_size_cnt
  pub budget : b.tx_budget ≡ a.tx_budget
  pub wr : b.drb_wr_idx ≡ a.drb_wr_idx
  pub rd : b.drb_rd_idx ≡ a.drb_rd_idx
  pub release : b.drb_release_rd_idx ≡ a.drb_release_rd_idx
  pub drbs : length b.drb_base ≡ length a.drb_base
  pub records : length b.drb_skb_base ≡ length a.drb_skb_base
  pub pending : b.tx_skb_head ≡ a.tx_skb_head

pub put_payload-SameShape :
    (txq : TxQueue) (skb : Skb) (wr_cnt cur_idx bus_addr data_len : ℕ) (is_last_one : Bool)
    → SameShape txq (put_payload txq skb wr_cnt cur_idx bus_addr data_len is_last_one)
unfolding put_payload
put_payload-SameShape txq skb wr_cnt cur_idx bus_addr data_len is_last_one = record {
  index = refl;
  started = refl;
  size = refl;
  budget = refl;
  wr = refl;
  rd = refl;
  release = refl;
  drbs = length-set txq.drb_base cur_idx _;
  records = length-set txq.drb_skb_base cur_idx _;
  pending = refl;
}

pub SameShape-trans : {a b c : TxQueue} → SameShape a b → SameShape b c → SameShape a c
SameShape-trans p q = ground arith

abbrev pub queue_of : Mapped → TxQueue
queue_of (mapped txq cur_idx) = txq
queue_of (map_failed txq cur_idx wr_cnt) = txq

pub map_payloads-SameShape :
    (dma : ℕ → ℕ → Option ℕ) (sizes : List ℕ) (txq : TxQueue) (skb : Skb) (wr_cnt cur_idx : ℕ)
    → SameShape txq (queue_of (map_payloads dma sizes txq skb wr_cnt cur_idx))
unfolding map_payloads
map_payloads-SameShape dma [] txq skb wr_cnt cur_idx = ground arith
map_payloads-SameShape dma (data_len ∷ rest) txq skb wr_cnt cur_idx =
    elim (Option-cases (dma wr_cnt data_len)) [
      | inl e ↦ rw (e, queue_of) (ground arith)
      | inr (addr, e) ↦
          rw (e, queue_of)
            (SameShape-trans
              (put_payload-SameShape txq skb wr_cnt (get_next_wr_idx txq.drb_size_cnt cur_idx) addr
                data_len (length rest == 0))
              (map_payloads-SameShape dma rest
                (put_payload txq skb wr_cnt (get_next_wr_idx txq.drb_size_cnt cur_idx) addr data_len
                  (length rest == 0))
                skb (suc wr_cnt) (get_next_wr_idx txq.drb_size_cnt cur_idx)))
    ]

pub unmap_buffers-SameShape :
    (n : ℕ) (txq : TxQueue) (cur_idx : ℕ) → SameShape txq (unmap_buffers n txq cur_idx)
unfolding unmap_buffers
unmap_buffers-SameShape zero txq cur_idx = ground arith
unmap_buffers-SameShape (suc n) txq cur_idx =
    SameShape-trans {b = call txq _} (ground arith) (unmap_buffers-SameShape n (call txq _) _)

pub txq_init-IsValid : (index : ℕ) → IsValid (txq_init index)
unfolding txq_init rd_wr_count
txq_init-IsValid index = record {
  size_pos = omega arith;
  size_small = omega arith;
  drbs = length-replicate {A = Drb} 6144 zero_drb;
  records = length-replicate {A = DrbSkb} 6144 zero_drb_skb;
  wr_in = omega arith;
  release_in = omega arith;
  account = refl;
}

pub cleared-SameShape :
    (txq : TxQueue) (d e : DrbSkb) (cur : ℕ)
    → SameShape txq (set_drb_skb (unmap_payload txq d) cur e)
cleared-SameShape txq d e cur = elim (Bool-cases d.is_msg) [
  | inl m ↦ rw m (ground (arith, length-set txq.drb_skb_base cur e))
  | inr m ↦ rw m (ground (arith, length-set txq.drb_skb_base cur e))
]

pub freed-SameShape :
    (txq : TxQueue) (d e : DrbSkb) (cur skb : ℕ)
    → SameShape txq (set_drb_skb (call (unmap_payload txq d) (dev_kfree_skb skb)) cur e)
freed-SameShape txq d e cur skb = elim (Bool-cases d.is_msg) [
  | inl m ↦ rw m (ground (arith, length-set txq.drb_skb_base cur e))
  | inr m ↦ rw m (ground (arith, length-set txq.drb_skb_base cur e))
]

pub unmapped-SameShape : (txq : TxQueue) (d : DrbSkb) → SameShape txq (unmap_payload txq d)
unmapped-SameShape txq d = elim (Bool-cases d.is_msg) [
  | inl m ↦ rw m (ground arith)
  | inr m ↦ rw m (ground arith)
]

-- The occupied and the free slots, and the one that stays free.
pub free_slots :
    (txq : TxQueue) → IsValid txq → used txq + drb_wr_available txq + 1 ≡ txq.drb_size_cnt
free_slots txq v =
    one_slot_free txq.drb_size_cnt txq.drb_release_rd_idx txq.drb_wr_idx v.size_small v.release_in
      v.wr_in
