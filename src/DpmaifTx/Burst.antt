-- ===== src/DpmaifTx/Burst.antt =====
-- The software queue over the ring: admission, the burst loop, the pushing thread, and the flush.
use mtk_t7xx_fix.Prelude.{
  ℕ, zero, suc, ◌+◌, ◌-◌, ◌*◌, ◌≤◌, ◌≡◌, refl, arith, Bool, true, false, Option, none, some, List,
  [], ◌∷◌, List-cases, ltb→le, Bool-cases, inl, inr, ltb, leb, not, ◌||◌, ◌&&◌, if◌then◌else◌, Ret,
  ok, fail, ebusy, ◌↔◌, ◌⊎◌, ◌++◌,
}
use mtk_t7xx_fix.Ring.Count.{rd_wr_count-read}
use mtk_t7xx_fix.DpmaifTx.State.{
  Call, Skb, DrbSkb, DpmaifState, TxQueue, drb_skb_at, call, update_hw_drb_cnt,
}
use mtk_t7xx_fix.DpmaifTx.Fill.{is_pwron, skb_drb_cnt, add_skb_to_ring}
use mtk_t7xx_fix.DpmaifTx.Account.{
  free_slots, used, IsValid, SameShape, SameShape-trans, freed-SameShape, unmapped-SameShape,
}
use mtk_t7xx_fix.DpmaifTx.Filling.{Occupied, add_skb_to_ring-IsValid, add_skb_to_ring-Occupied}
use mtk_t7xx_fix.DpmaifTx.Release.{free_skb, free_from, tx_free_drb_skb, txq_flush_rel}
use mtk_t7xx_fix.DpmaifTx.Queue.{
  send_skb, drb_wr_available, burst_from, txq_burst_send_skb, Burst, sent, none_sent, Round, Pushed,
  returned, again, pushed_queue, push_more, after_burst, push_selected, push_round, select_tx_queue,
  tx_lists_are_all_empty, do_tx_hw_push, tx_burst_cnt, drb_size_word,
}

call-IsValid : (txq : TxQueue) (c : Call) → IsValid txq → IsValid (call txq c)
call-IsValid txq c v = ground arith

-- On a valid queue a packet is refused with -EBUSY exactly when its DRBs do not fit in the free
-- slots of the ring; a packet that is taken joins the end of the software queue, and in both cases
-- the ring stays as it was.
pub send_skb_lem :
    (txq : TxQueue) (skb : Skb)
    → IsValid txq
    → let (r, q) = send_skb txq skb in
      ((r ≡ ok) ↔ (skb_drb_cnt skb ≤ drb_wr_available txq))
      × ((r ≡ ok) ⊎ (r ≡ fail ebusy))
      × (q.tx_skb_head ≡ (
          if leb (skb_drb_cnt skb) (drb_wr_available txq)
          then txq.tx_skb_head ++ (skb ∷ [])
          else txq.tx_skb_head))
      × IsValid q
      × (used q ≡ used txq)
unfolding send_skb
send_skb_lem txq skb v = elim (Bool-cases (leb txq.tx_budget (skb_drb_cnt skb))) [
  | inl e ↦ rw e (ground (arith, free_slots txq v))
  | inr e ↦ rw e (ground (arith, free_slots txq v))
]

-- What a run of the burst loop leaves: a valid queue that holds `n - n₀` more DRBs.
record Bursted (a : TxQueue) (n₀ n : ℕ) (b : TxQueue) : Type 0 where
  valid : IsValid b
  count : used b + n₀ ≡ used a + n

module _ (max_skb_frags : ℕ) (dma : ℕ → ℕ → ℕ → Option ℕ) (state : DpmaifState) where
  -- The round that puts the head of the queue into the ring, given the rest of the loop.
  sent_one :
      (rounds remain n₀ : ℕ) (ret : Ret) (txq : TxQueue) (v : IsValid txq)
      (h : remain ≤ drb_wr_available txq) (skb : Skb) (rest : List Skb)
      → txq.tx_skb_head ≡ skb ∷ rest
      → skb_drb_cnt skb ≤ remain
      → ((q : TxQueue)
          → IsValid q
          → remain - skb_drb_cnt skb ≤ drb_wr_available q
          → let (n, r, b) =
              burst_from max_skb_frags dma state rounds
                (remain - skb_drb_cnt skb)
                (n₀ + skb_drb_cnt skb)
                ok
                q in
            Bursted q (n₀ + skb_drb_cnt skb) n b)
      → let (n, r, b) = burst_from max_skb_frags dma state (suc rounds) remain n₀ ret txq in
        Bursted txq n₀ n b
  unfolding burst_from
  sent_one rounds remain n₀ ret txq v h skb rest e fits ih =
      go (add_skb_to_ring max_skb_frags (dma skb.id) state txq skb) refl
        (add_skb_to_ring-IsValid txq skb v (omega arith) max_skb_frags (dma skb.id) state)
        (add_skb_to_ring-Occupied txq skb v (omega arith) max_skb_frags (dma skb.id) state)
    where
      go :
          (added : Ret × TxQueue)
          → add_skb_to_ring max_skb_frags (dma skb.id) state txq skb ≡ added
          → IsValid added.1
          → Occupied txq skb v (omega arith) added
          → let (n, r, b) = burst_from max_skb_frags dma state (suc rounds) remain n₀ ret txq in
            Bursted txq n₀ n b
      go (ok, q) eq vq occ =
          let q' : TxQueue = record q { tx_skb_head = rest } in
          let more = ih q' (ground arith) (omega (arith, free_slots txq v, free_slots q vq)) in
          ground arith
      go (fail x, q) eq vq occ = ground arith

  burst_from-Bursted :
      (rounds remain n₀ : ℕ) (ret : Ret) (txq : TxQueue)
      → IsValid txq
      → remain ≤ drb_wr_available txq
      → let (n, r, q) = burst_from max_skb_frags dma state rounds remain n₀ ret txq in
        Bursted txq n₀ n q
  unfolding burst_from
  burst_from-Bursted zero remain n₀ ret txq v h = ground arith
  burst_from-Bursted (suc rounds) remain n₀ ret txq v h = elim (List-cases txq.tx_skb_head) [
    | inl e ↦ ground arith
    | inr (skb, rest, e) ↦ elim (Bool-cases (ltb remain (skb_drb_cnt skb))) [
      | inl small ↦
          ground
            (arith, burst_from-Bursted rounds (drb_wr_available txq) n₀ ret txq v (omega arith))
      | inr fits ↦
          sent_one rounds remain n₀ ret txq v h skb rest e (ltb→le remain (skb_drb_cnt skb) fits)
            (λ (q : TxQueue) (vq : IsValid q) (hq : remain - skb_drb_cnt skb ≤ drb_wr_available q).
              burst_from-Bursted rounds (remain - skb_drb_cnt skb) (n₀ + skb_drb_cnt skb) ok q vq
                hq)
    ]
  ]

-- How many slots a burst reports to have filled.
abbrev pub drb_count : Burst → ℕ
drb_count (sent n) = n
drb_count (none_sent ret) = 0

module _ (max_skb_frags : ℕ) (dma : ℕ → ℕ → ℕ → Option ℕ) where
  -- A burst on a valid queue leaves it valid, never fills more slots than are free, and the number
  -- of DRBs that it reports is the number of slots that it filled.
  pub txq_burst_send_skb-IsValid :
      (state : DpmaifState) (txq : TxQueue)
      → IsValid txq
      → let (burst, q) = txq_burst_send_skb max_skb_frags dma state txq in
        IsValid q × (used q ≡ used txq + drb_count burst)
  unfolding txq_burst_send_skb
  txq_burst_send_skb-IsValid state txq v =
      let r =
        burst_from-Bursted max_skb_frags dma state tx_burst_cnt (drb_wr_available txq) 0 ok txq v
          (omega arith) in
      (r.valid, ground arith)

  push_more-IsValid :
      (others : List TxQueue) (r : Round) (wait : Bool) (txq : TxQueue)
      → IsValid txq
      → IsValid (pushed_queue (push_more max_skb_frags dma others r wait txq))
  unfolding push_more
  push_more-IsValid others r wait txq v =
      elim (Bool-cases
        (tx_lists_are_all_empty (txq ∷ others) || r.should_stop || not (is_pwron r.state))) [
          | inl e ↦ rw (e, pushed_queue) v
          | inr e ↦ rw (e, pushed_queue) v
        ]

  after_burst-IsValid :
      (others : List TxQueue) (r : Round) (wait : Bool) (burst : Burst) (txq : TxQueue)
      → IsValid txq
      → IsValid (pushed_queue (after_burst max_skb_frags dma others r wait burst txq))
  unfolding after_burst
  after_burst-IsValid others r wait (none_sent ret) txq v = push_more-IsValid others r wait txq v
  after_burst-IsValid others r wait (sent n) txq v =
      elim (Bool-cases (wait && not r.sleep_disabled)) [
        | inl e ↦ rw (e, pushed_queue) v
        | inr e ↦ rw (e, pushed_queue) (push_more-IsValid others r false _ (call-IsValid txq _ v))
      ]

  push_selected-IsValid :
      (others : List TxQueue) (r : Round) (wait : Bool) (txq : TxQueue) (o : Option TxQueue)
      → IsValid txq
      → ((q : TxQueue) → o ≡ some q → IsValid q)
      → IsValid (pushed_queue (push_selected max_skb_frags dma others r wait txq o))
  unfolding push_selected
  push_selected-IsValid others r wait txq none v h = v
  push_selected-IsValid others r wait txq (some q) v h =
      after_burst-IsValid others r wait _ _ (txq_burst_send_skb-IsValid r.state q (h q refl)).0

  push_round-IsValid :
      (others : List TxQueue) (r : Round) (wait : Bool) (txq : TxQueue)
      → IsValid txq
      → IsValid (pushed_queue (push_round max_skb_frags dma others r wait txq))
  unfolding push_round select_tx_queue
  push_round-IsValid others r wait txq v =
      push_selected-IsValid others r wait txq (if txq.que_started then some txq else none) v
        (λ q e. ground arith)

  -- Whatever the environment answers in each round, at the end of every round of the pushing loop,
  -- and when it returns, a queue that was valid is valid.
  pub do_tx_hw_push-IsValid :
      (others : List TxQueue) (rounds : List Round) (wait : Bool) (txq : TxQueue)
      → IsValid txq
      → IsValid (pushed_queue (do_tx_hw_push max_skb_frags dma others rounds wait txq))
  unfolding do_tx_hw_push
  do_tx_hw_push-IsValid others [] wait txq v = v
  do_tx_hw_push-IsValid others (r ∷ rounds) wait txq v =
      go (push_round max_skb_frags dma others r wait txq) (push_round-IsValid others r wait txq v)
        (λ w q vq. do_tx_hw_push-IsValid others rounds w q vq)
    where
      go :
          (p : Pushed)
          → IsValid (pushed_queue p)
          → ((w : Bool) (q : TxQueue)
              → IsValid q
              → IsValid (pushed_queue (do_tx_hw_push max_skb_frags dma others rounds w q)))
          → IsValid (
              pushed_queue (elim p as (λ _. Pushed) [
                | returned q ↦ returned q
                | again w q ↦ do_tx_hw_push max_skb_frags dma others rounds w q
              ]))
      go (returned q) vp ih = vp
      go (again w q) vp ih = ih w q vp

  push_more_ends :
      (others : List TxQueue) (r : Round) (wait : Bool) (txq : TxQueue)
      → r.should_stop || not (is_pwron r.state) ≡ true
      → push_more max_skb_frags dma others r wait txq ≡ returned txq
  unfolding push_more
  push_more_ends others r wait txq h = elim (Bool-cases (tx_lists_are_all_empty (txq ∷ others))) [
    | inl e ↦ rw e
    | inr e ↦ rw (e, h)
  ]

  -- A round in which the thread is told to stop or the data path is off is the last one: the loop
  -- returns, however many rounds are granted behind it.
  pub do_tx_hw_push_ends :
      (others : List TxQueue) (r : Round) (rounds : List Round) (wait : Bool) (txq : TxQueue)
      → r.should_stop || not (is_pwron r.state) ≡ true
      → (q : TxQueue) × (do_tx_hw_push max_skb_frags dma others (r ∷ rounds) wait txq ≡ returned q)
  unfolding do_tx_hw_push push_round push_selected after_burst
  do_tx_hw_push_ends others r rounds wait txq h = by_queue (select_tx_queue txq)
    where
      stops : (w : Bool) (p : TxQueue) → push_more max_skb_frags dma others r w p ≡ returned p
      stops w p = push_more_ends others r w p h

      burst_ends :
          (b : Burst) (q' : TxQueue)
          → (q : TxQueue) × (elim (after_burst max_skb_frags dma others r wait b q')
                as (λ _. Pushed) [
                  | returned p ↦ returned p
                  | again w p ↦ do_tx_hw_push max_skb_frags dma others rounds w p
                ]
              ≡ returned q)
      burst_ends (none_sent ret) q' = (q', rw (stops wait q'))
      burst_ends (sent n) q' = elim (Bool-cases (wait && not r.sleep_disabled)) [
        | inl e ↦ (q', rw e)
        | inr e ↦ (call q' (update_hw_drb_cnt q'.index (n * drb_size_word)), rw (e, stops false))
      ]

      by_queue :
          (o : Option TxQueue)
          → (q : TxQueue) × (elim (push_selected max_skb_frags dma others r wait txq o)
                as (λ _. Pushed) [
                  | returned p ↦ returned p
                  | again w p ↦ do_tx_hw_push max_skb_frags dma others rounds w p
                ]
              ≡ returned q)
      by_queue none = (txq, refl)
      by_queue (some q) =
          burst_ends (txq_burst_send_skb max_skb_frags dma r.state q).0
            (txq_burst_send_skb max_skb_frags dma r.state q).1

free_skb-SameShape :
    (txq : TxQueue) (i : ℕ) (d : DrbSkb) (skb : Option ℕ) → SameShape txq (free_skb txq i d skb)
unfolding free_skb
free_skb-SameShape txq i d none = ground arith
free_skb-SameShape txq i d (some skb) = elim (Bool-cases d.is_last) [
  | inl e ↦ rw e (freed-SameShape txq d _ i skb)
  | inr e ↦ rw e (unmapped-SameShape txq d)
]

free_from-SameShape : (n i : ℕ) (txq : TxQueue) → SameShape txq (free_from n i txq)
unfolding free_from
free_from-SameShape zero i txq = ground arith
free_from-SameShape (suc n) i txq =
    SameShape-trans (free_skb-SameShape txq i (drb_skb_at txq i) (drb_skb_at txq i).skb)
      (free_from-SameShape n (suc i) _)

-- Clearing a stopped queue empties the ring and leaves the budget as it was, so a valid queue with
-- occupied slots is not valid afterwards: the budget of those slots is lost.
pub txq_flush_rel-budget :
    (txq : TxQueue)
    → IsValid txq
    → ((txq_flush_rel txq).tx_budget ≡ txq.tx_budget)
      × (used (txq_flush_rel txq) ≡ 0)
      × (IsValid (txq_flush_rel txq) ↔ (used txq ≡ 0))
unfolding txq_flush_rel tx_free_drb_skb
txq_flush_rel-budget txq v =
    let same = free_from-SameShape txq.drb_size_cnt 0 (record txq { que_started = false }) in
    ground (arith, rd_wr_count-read txq.drb_size_cnt 0 0 v.size_small v.size_pos v.size_pos)
