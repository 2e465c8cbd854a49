-- ===== src/DpmaifTx/Filling.antt =====
-- What t7xx_dpmaif_add_skb_to_ring does to the accounting of its queue.
use mtk_t7xx_fix.Prelude.{
  ℕ, ◌+◌, ◌≤◌, ◌<◌, ◌≡◌, refl, Option, arith, length, length-set, Ret, ok, fail, Bool-cases, not,
  ◌||◌, is_neg, leb, sub32, inl, inr,
}
use mtk_t7xx_fix.Ring.{read, write, rd_wr_count, advance}
use mtk_t7xx_fix.Ring.Count.{one_slot_free}
use mtk_t7xx_fix.Ring.Walk.{advance_lem, advance-lt, rd_wr_count-advance}
use mtk_t7xx_fix.DpmaifTx.State.{Skb, DpmaifState, TxQueue}
use mtk_t7xx_fix.DpmaifTx.Fill.{
  is_pwron, Mapped, mapped, map_failed, map_payloads, payload_sizes, skb_drb_cnt, reserve,
  finish_add, end_add, add_skb_to_ring,
}
use mtk_t7xx_fix.DpmaifTx.Account.{
  used, IsValid, SameShape, queue_of, map_payloads-SameShape, unmap_buffers-SameShape,
}

-- The write index after the part of t7xx_dpmaif_add_skb_to_ring under the lock.
reserve_lem :
    (txq : TxQueue) (skb : Skb)
    → IsValid txq
    → skb_drb_cnt skb < txq.drb_size_cnt
    → (reserve txq skb).drb_wr_idx ≡ advance txq.drb_size_cnt (skb_drb_cnt skb) txq.drb_wr_idx
unfolding reserve
reserve_lem txq skb v h =
    ground
      (arith, advance_lem txq.drb_size_cnt (skb_drb_cnt skb) txq.drb_wr_idx v.size_small v.wr_in)

-- A queue whose write index was moved over the packet, and nothing else of its shape.
record Reserved (txq : TxQueue) (skb : Skb) (b : TxQueue) : Type 0 where
  started : b.que_started ≡ txq.que_started
  size : b.drb_size_cnt ≡ txq.drb_size_cnt
  budget : b.tx_budget ≡ txq.tx_budget
  wr : b.drb_wr_idx ≡ advance txq.drb_size_cnt (skb_drb_cnt skb) txq.drb_wr_idx
  release : b.drb_release_rd_idx ≡ txq.drb_release_rd_idx
  drbs : length b.drb_base ≡ length txq.drb_base
  records : length b.drb_skb_base ≡ length txq.drb_skb_base

reserve-Reserved :
    (txq : TxQueue) (skb : Skb)
    → IsValid txq
    → skb_drb_cnt skb < txq.drb_size_cnt
    → Reserved txq skb (reserve txq skb)
unfolding reserve
reserve-Reserved txq skb v h = record {
  started = refl;
  size = refl;
  budget = refl;
  wr = unfold reserve in reserve_lem txq skb v h;
  release = refl;
  drbs = length-set txq.drb_base txq.drb_wr_idx _;
  records = length-set txq.drb_skb_base txq.drb_wr_idx _;
}

-- What finish_add does to the shape, whatever it reports.
pub record Charged (a : TxQueue) (send_cnt : ℕ) (b : TxQueue) : Type 0 where
  pub size : b.drb_size_cnt ≡ a.drb_size_cnt
  pub budget : b.tx_budget ≡ sub32 a.tx_budget send_cnt
  pub wr : b.drb_wr_idx ≡ a.drb_wr_idx
  pub release : b.drb_release_rd_idx ≡ a.drb_release_rd_idx
  pub drbs : b.drb_base ≡ a.drb_base
  pub records : b.drb_skb_base ≡ a.drb_skb_base

pub finish_add-Charged :
    (max_skb_frags send_cnt : ℕ) (txq : TxQueue)
    → Charged txq send_cnt (finish_add max_skb_frags send_cnt txq)
unfolding finish_add
finish_add-Charged max_skb_frags send_cnt txq =
    elim (Bool-cases (
      is_neg (sub32 txq.tx_budget send_cnt)
      || leb (sub32 txq.tx_budget send_cnt) (max_skb_frags + 2))) [
        | inl e ↦ rw e (ground arith)
        | inr e ↦ rw e (ground arith)
      ]

module _ (txq : TxQueue) (skb : Skb) (v : IsValid txq)
    (room : skb_drb_cnt skb
      ≤ rd_wr_count txq.drb_size_cnt txq.drb_release_rd_idx txq.drb_wr_idx write) where
  below : skb_drb_cnt skb < txq.drb_size_cnt
  below = omega (
    arith,
    one_slot_free txq.drb_size_cnt txq.drb_release_rd_idx txq.drb_wr_idx v.size_small v.release_in
        v.wr_in,
  )

  grown :
      rd_wr_count txq.drb_size_cnt txq.drb_release_rd_idx
        (advance txq.drb_size_cnt (skb_drb_cnt skb) txq.drb_wr_idx)
        read
      ≡ used txq + skb_drb_cnt skb
  grown =
      rd_wr_count-advance txq.drb_size_cnt txq.drb_release_rd_idx txq.drb_wr_idx v.size_small
        v.release_in v.wr_in (skb_drb_cnt skb) room

  end_add-IsValid :
      (max_skb_frags : ℕ) (m : Mapped)
      → Reserved txq skb (queue_of m)
      → IsValid (end_add max_skb_frags (skb_drb_cnt skb) txq.drb_wr_idx m).1
  unfolding end_add
  end_add-IsValid max_skb_frags (mapped q cur_idx) r = ground (
    arith,
    grown,
    below,
    advance-lt txq.drb_size_cnt (skb_drb_cnt skb) txq.drb_wr_idx v.wr_in,
    finish_add-Charged max_skb_frags (skb_drb_cnt skb) q,
    one_slot_free txq.drb_size_cnt txq.drb_release_rd_idx txq.drb_wr_idx v.size_small v.release_in
        v.wr_in,
  )
  end_add-IsValid max_skb_frags (map_failed q cur_idx wr_cnt) r =
      ground (arith, unmap_buffers-SameShape wr_cnt q cur_idx)

  Reserved-SameShape : (a b : TxQueue) → Reserved txq skb a → SameShape a b → Reserved txq skb b
  Reserved-SameShape a b r q = ground arith

  payloads-Reserved :
      (dma : ℕ → ℕ → Option ℕ)
      → Reserved txq skb
          (queue_of (map_payloads dma (payload_sizes skb) (reserve txq skb) skb 0 txq.drb_wr_idx))
  payloads-Reserved dma =
      Reserved-SameShape _ _ (reserve-Reserved txq skb v below)
        (map_payloads-SameShape dma (payload_sizes skb) (reserve txq skb) skb 0 txq.drb_wr_idx)

  -- For a valid queue with room for the packet's DRBs, adding a packet keeps the queue valid,
  -- whether it succeeds, the queue is stopped, the data path is off, or a DMA mapping fails.
  pub add_skb_to_ring-IsValid :
      (max_skb_frags : ℕ) (dma : ℕ → ℕ → Option ℕ) (state : DpmaifState)
      → IsValid (add_skb_to_ring max_skb_frags dma state txq skb).1
  unfolding add_skb_to_ring
  add_skb_to_ring-IsValid max_skb_frags dma state = ground (
    arith,
    end_add-IsValid max_skb_frags
        (map_payloads dma (payload_sizes skb) (reserve txq skb) skb 0 txq.drb_wr_idx)
        (payloads-Reserved dma),
  )

module _ (txq : TxQueue) (skb : Skb) (v : IsValid txq)
    (room : skb_drb_cnt skb
      ≤ rd_wr_count txq.drb_size_cnt txq.drb_release_rd_idx txq.drb_wr_idx write) where
  -- What end_add leaves occupied, by the code it returns.
  abbrev pub Occupied : Ret × TxQueue → Type 0
  Occupied (ok, q) = (used q ≡ used txq + skb_drb_cnt skb) × (q.drb_size_cnt ≡ txq.drb_size_cnt)
  Occupied (fail e, q) = (used q ≡ used txq) × (q.drb_wr_idx ≡ txq.drb_wr_idx)

  end_add-Occupied :
      (max_skb_frags : ℕ) (m : Mapped)
      → Reserved txq skb (queue_of m)
      → Occupied (end_add max_skb_frags (skb_drb_cnt skb) txq.drb_wr_idx m)
  unfolding end_add
  end_add-Occupied max_skb_frags (mapped q cur_idx) r =
      ground (arith, grown txq skb v room, finish_add-Charged max_skb_frags (skb_drb_cnt skb) q)
  end_add-Occupied max_skb_frags (map_failed q cur_idx wr_cnt) r =
      ground (arith, unmap_buffers-SameShape wr_cnt q cur_idx)

  -- For a valid queue with room for the packet's DRBs: if adding the packet succeeds, exactly its
  -- DRBs are added to the occupied slots and the ring keeps its size; if it fails in any way, no slot is occupied and the write
  -- index is where it was.
  pub add_skb_to_ring-Occupied :
      (max_skb_frags : ℕ) (dma : ℕ → ℕ → Option ℕ) (state : DpmaifState)
      → Occupied (add_skb_to_ring max_skb_frags dma state txq skb)
  unfolding add_skb_to_ring
  add_skb_to_ring-Occupied max_skb_frags dma state =
      elim (Bool-cases (not txq.que_started || not (is_pwron state))) [
        | inl e ↦ rw (e, Occupied) (refl, refl)
        | inr e ↦
            rw (e, Occupied)
              (end_add-Occupied max_skb_frags _ (payloads-Reserved txq skb v room dma))
      ]
