-- ===== src/DpmaifTx/Releasing.antt =====
-- What t7xx_dpmaif_tx_release and t7xx_dpmaif_release_tx_buffer do to the accounting.
use mtk_t7xx_fix.Prelude.{
  ℕ, zero, suc, ◌+◌, ◌/◌, ◌≤◌, ◌<◌, ◌≡◌, ◌≢◌, inl, inr, refl, arith, Option, none, some, length,
  Bool-cases, ltb, leb, ◌==◌, u32,
}
use mtk_t7xx_fix.Ring.{read, rd_wr_count, advance, get_next_wr_idx}
use mtk_t7xx_fix.Ring.Count.{get_next_wr_idx-lt, rd_wr_count-lt}
use mtk_t7xx_fix.Ring.Walk.{rd_wr_count-advance_read}
use mtk_t7xx_fix.DpmaifTx.State.{
  DrbSkb, TxQueue, dtyp_pd, hdr_dtyp, hdr_cont, drb_at, drb_skb_at, drb_list_len,
}
use mtk_t7xx_fix.DpmaifTx.Account.{cleared-SameShape, freed-SameShape, used, IsValid, SameShape}
use mtk_t7xx_fix.DpmaifTx.Release.{
  update_drb_rd_idx, step_release, unmap_payload, release_last, release_one, release_from,
  release_tx_buffer, min_not_zero, tx_release,
}

-- After rounds that started at `a` the queue `b` is valid with its cursor at the release index,
-- and between none and `n` slots have been given back.
record Released (a : TxQueue) (n : ℕ) (b : TxQueue) (cur : ℕ) : Type 0 where
  valid : IsValid b
  at : cur ≡ b.drb_release_rd_idx
  size : b.drb_size_cnt ≡ a.drb_size_cnt
  most : used a ≤ used b + n
  least : used b ≤ used a

-- The queue after the bookkeeping of a round, without the notification.
record Stepped (a b : TxQueue) (cur : ℕ) : Type 0 where
  size : b.drb_size_cnt ≡ a.drb_size_cnt
  wr : b.drb_wr_idx ≡ a.drb_wr_idx
  budget : b.tx_budget ≡ u32 (a.tx_budget + 1)
  release : b.drb_release_rd_idx ≡ get_next_wr_idx a.drb_size_cnt cur
  drbs : length b.drb_base ≡ length a.drb_base
  records : length b.drb_skb_base ≡ length a.drb_skb_base

step_release-Stepped :
    (txq : TxQueue) (cur : ℕ)
    → let (txq', cur') = step_release txq cur in
      Stepped txq txq' cur × (cur' ≡ get_next_wr_idx txq.drb_size_cnt cur)
unfolding step_release
step_release-Stepped txq cur =
    elim (Bool-cases (ltb (txq.drb_size_cnt / 8) (u32 (txq.tx_budget + 1)))) [
      | inl e ↦ rw e (ground arith)
      | inr e ↦ rw e (ground arith)
    ]

-- One step of the release index frees one slot.
used-next :
    (txq : TxQueue)
    → IsValid txq
    → 0 < used txq
    → rd_wr_count txq.drb_size_cnt
          (get_next_wr_idx txq.drb_size_cnt txq.drb_release_rd_idx)
          txq.drb_wr_idx
          read
        + 1
      ≡ used txq
unfolding advance
used-next txq v h =
    rd_wr_count-advance_read txq.drb_size_cnt txq.drb_release_rd_idx txq.drb_wr_idx v.size_small
      v.release_in v.wr_in 1 h

Stepped-Released :
    (a m b : TxQueue) (cur cur' : ℕ)
    → IsValid a
    → 0 < used a
    → cur ≡ a.drb_release_rd_idx
    → SameShape a m
    → Stepped m b cur
    → cur' ≡ get_next_wr_idx m.drb_size_cnt cur
    → Released a 1 b cur'
Stepped-Released a m b cur cur' v h e same st e' = record {
  valid = record {
    size_pos = ground arith;
    size_small = ground arith;
    drbs = ground arith;
    records = ground arith;
    wr_in = ground arith;
    release_in = ground (arith, get_next_wr_idx-lt a.drb_size_cnt cur v.size_pos);
    account = ground (
      arith,
      used-next a v h,
      rd_wr_count-lt a.drb_size_cnt a.drb_release_rd_idx a.drb_wr_idx v.size_small v.release_in
          v.wr_in,
    );
  };
  at = ground arith;
  size = ground arith;
  most = ground (arith, used-next a v h);
  least = ground (arith, used-next a v h);
}

unmap_payload-Released :
    (a : TxQueue) (d : DrbSkb) → IsValid a → Released a 1 (unmap_payload a d) a.drb_release_rd_idx
unmap_payload-Released a d v = elim (Bool-cases d.is_msg) [
  | inl m ↦ rw m (ground arith)
  | inr m ↦ rw m (ground arith)
]

module _ (a : TxQueue) (v : IsValid a) (h : 0 < used a) where
  step-Released :
      (m : TxQueue)
      → SameShape a m
      → let (b, cur') = step_release m a.drb_release_rd_idx in Released a 1 b cur'
  step-Released m same =
      let (st, e) = step_release-Stepped m a.drb_release_rd_idx in
      Stepped-Released a m _ a.drb_release_rd_idx _ v h refl same st e

  release_last-Released :
      (d : DrbSkb) (skb : Option ℕ)
      → let (b, cur') = release_last (unmap_payload a d) d a.drb_release_rd_idx skb in
        Released a 1 b cur'
  unfolding release_last
  release_last-Released d none = unmap_payload-Released a d v
  release_last-Released d (some skb) =
      step-Released _ (freed-SameShape a d _ a.drb_release_rd_idx skb)

  release_one-Released : let (b, cur') = release_one a a.drb_release_rd_idx in Released a 1 b cur'
  unfolding release_one
  release_one-Released =
      elim (Bool-cases (hdr_dtyp (drb_at a a.drb_release_rd_idx).header == dtyp_pd)) [
        | inr e ↦ rw (e, release_one) (step-Released a (ground arith))
        | inl e ↦ elim (Bool-cases (hdr_cont (drb_at a a.drb_release_rd_idx).header == 0)) [
          | inl c ↦ rw (e, c, release_one) (release_last-Released _ _)
          | inr c ↦
              rw (e, c, release_one)
                (step-Released _ (cleared-SameShape a (drb_skb_at a a.drb_release_rd_idx) _ _))
        ]
      ]

-- Giving back at most `n` slots of the occupied ones.
pub record Returned (a : TxQueue) (n : ℕ) (b : TxQueue) : Type 0 where
  pub valid : IsValid b
  pub most : used a ≤ used b + n
  pub least : used b ≤ used a

Returned-cons :
    {a b c : TxQueue} {n cur : ℕ} → Released a 1 b cur → Returned b n c → Returned a (suc n) c
Returned-cons p q = ground arith

release_from-Returned :
    (n : ℕ) (a : TxQueue) (cur : ℕ)
    → IsValid a
    → cur ≡ a.drb_release_rd_idx
    → n ≤ used a
    → Returned a n (release_from n a cur)
unfolding release_from
release_from-Returned zero a cur v e h = ground arith
release_from-Returned (suc n) a cur v e h =
    let (b, cur') = release_one a cur in
    let r : Released a 1 b cur' = rw e (release_one-Released a v (omega arith)) in
    Returned-cons r (release_from-Returned n b cur' r.valid r.at (omega (arith, r.most)))

Returned-widen :
    {a q b : TxQueue} {n m : ℕ} → n ≤ m → used q ≡ used a → Returned q n b → Returned a m b
Returned-widen h e r = ground arith

-- The slots that the driver believes done, after it has read `hw_rd_idx`.
abbrev pub done_slots : TxQueue → ℕ → ℕ
done_slots txq hw_rd_idx =
    let q = (update_drb_rd_idx txq hw_rd_idx).1 in
    rd_wr_count q.drb_size_cnt q.drb_release_rd_idx q.drb_rd_idx read

update-IsValid :
    (txq : TxQueue) (hw : ℕ)
    → IsValid txq
    → IsValid (update_drb_rd_idx txq hw).1 × (used (update_drb_rd_idx txq hw).1 ≡ used txq)
unfolding update_drb_rd_idx
update-IsValid txq hw v = elim (Bool-cases txq.que_started) [
  | inr e ↦ rw e (ground arith)
  | inl e ↦ elim (Bool-cases (leb drb_list_len hw)) [
    | inl l ↦ rw (e, l) (ground arith)
    | inr l ↦ rw (e, l) (ground arith)
  ]
]

min_not_zero-le : (a b : ℕ) → b ≢ 0 → min_not_zero a b ≤ b
min_not_zero-le a b h = ground arith

-- For a valid queue, if the slots believed done are some of the occupied ones, a release with any
-- budget leaves the queue valid, occupies no slot, and gives back no more slots than are done.
pub tx_release-Returned :
    (txq : TxQueue) (hw_rd_idx budget : ℕ)
    → IsValid txq
    → done_slots txq hw_rd_idx ≢ 0
    → done_slots txq hw_rd_idx ≤ used txq
    → Returned txq (done_slots txq hw_rd_idx) (tx_release txq hw_rd_idx budget).1
unfolding tx_release release_tx_buffer release_from
tx_release-Returned txq hw_rd_idx budget v some_done few =
    let q = (update_drb_rd_idx txq hw_rd_idx).1 in
    let (vq, eq) = update-IsValid txq hw_rd_idx v in
    let n = min_not_zero budget (done_slots txq hw_rd_idx) in
    let le = min_not_zero-le budget (done_slots txq hw_rd_idx) some_done in
    elim (Bool-cases (n == 0)) [
      | inl z ↦ rw z (
          Returned-widen {n = 0} (omega arith) eq
            (release_from-Returned 0 q q.drb_release_rd_idx vq refl (omega arith)))
      | inr z ↦ rw z (
          Returned-widen le eq
            (release_from-Returned n q q.drb_release_rd_idx vq refl (omega arith)))
    ]
