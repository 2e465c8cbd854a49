-- ===== src/Cldma/Rx.antt =====
-- Receiving on a queue: src/t7xx_hif_cldma.c.
use mtk_t7xx_fix.Prelude.{
  ℕ, suc, Bool, true, false, not, ◌||◌, Option, none, some, List, [], ◌∷◌, ◌++◌, length, ltb, leb,
  ◌==◌, test_bit, Ret, ok, fail, enomem, enodev, enodata, eagain, if◌then◌else◌,
}
use mtk_t7xx_fix.Cldma.State.{
  Skb, Request, Queue, Ctrl, Call, rx, dma_map_single, dma_unmap_single, dev_kfree_skb, recv_skb,
  alloc_skb, hw_resume_queue, hw_done, queue_work, clear_ip_busy, hw_irq_en_eq, hw_irq_en_txrx,
  pm_runtime_put, req_at, set_req, call, next, rxq_at, set_rxq, hw,
}

-- What the allocators answer: a new skb's name and the bus address of its buffer, or a failure.
pub record Alloc : Type 0 where
  pub skb : Option ℕ
  pub dma : Option ℕ

-- The calls are the latest first.
unfoldable pub alloc_and_map_skb : ℕ → Alloc → Request → Ret × Request × List Call
alloc_and_map_skb size a r = elim a.skb [
  | none ↦ (fail enomem, record r { skb = none }, [])
  | some id ↦ elim a.dma [
    | none ↦ (
      fail enomem,
      record r { skb = none; mapped_buff = 0 },
      dev_kfree_skb id ∷ dma_map_single size ∷ alloc_skb id ∷ [],
    )
    | some addr ↦ (
      ok,
      record r { skb = some (record { id = id; len = 0 }); mapped_buff = addr },
      dma_map_single size ∷ alloc_skb id ∷ [],
    )
  ]
]

-- The hardware gives back the descriptor at a place with so many bytes in its buffer.
abbrev pub filled : Queue → List (ℕ × ℕ) → Queue
filled q [] = q
filled q ((i, n) ∷ rest) =
    filled (set_req q i (record (req_at q i) { hwo = false; data_buff_len = n })) rest

-- What one round of the loop is told: whether the device is there, the descriptor the hardware is at
-- and those it gives back while the round waits, the result of `recv_skb`, of the allocators, and of
-- `need_resched`.
pub record RxRound : Type 0 where
  pub present : Bool
  pub curr_addr : ℕ
  pub given_back : List (ℕ × ℕ)
  pub recv : Ret
  pub alloc : Alloc
  pub need_resched : Bool

-- The buffer of the oldest descriptor goes to `recv_skb`.
unfoldable pub unmap_head : Queue → Skb → Queue
unmap_head q s =
    let r = req_at q q.tr_done in
    let s₁ = record s { len = r.data_buff_len } in
    let q₁ = if r.mapped_buff == 0 then q else call q (dma_unmap_single r.mapped_buff q.pkt_size) in
    call (set_req q₁ q.tr_done (record r { skb = some s₁; mapped_buff = 0 }))
      (recv_skb s₁.id s₁.len)

-- The receiver took it.
unfoldable pub advance_done : Queue → Queue
advance_done q =
    record (set_req q q.tr_done (record (req_at q q.tr_done) { skb = none; data_ptr = 0 })) {
      tr_done = next (length q.ring) q.tr_done;
    }

-- A new buffer for the descriptor at `rx_refill`.
unfoldable pub refill : Alloc → Queue → Ret × Queue
unfolding alloc_and_map_skb
refill a q =
    let (ret, r, calls) = alloc_and_map_skb q.pkt_size a (req_at q q.rx_refill) in
    let q₁ = record q { calls = calls ++ q.calls } in
    elim ret [
      | fail e ↦ (fail e, set_req q₁ q.rx_refill r)
      | ok ↦ (
        ok,
        record (set_req q₁ q.rx_refill
            (record r { data_ptr = r.mapped_buff; data_buff_len = 0; hwo = true; ioc = true })) {
              rx_refill = next (length q.ring) q.rx_refill;
            },
      )
    ]

-- A round that finds a received buffer.
unfoldable pub receive : RxRound → Queue → Skb → Ret × Queue
unfolding unmap_head advance_done refill
receive a q s = elim a.recv [
  | fail e ↦ (fail e, unmap_head q s)
  | ok ↦ refill a.alloc (advance_done (unmap_head q s))
]

-- The received buffer at the head of the ring.
abbrev pub received : Queue → Option Skb
received q = let r = req_at q q.tr_done in if r.hwo then none else r.skb

-- The loop, until the rounds listed are over: the result, `over_budget` and the queue.
unfoldable pub gpd_rx_from_q : List RxRound → ℕ → ℕ → ℕ → Queue → Option (Ret × Bool × Queue)
unfolding receive
gpd_rx_from_q [] polls count budget q = none
gpd_rx_from_q (a ∷ rest) polls count budget q =
    let again = gpd_rx_from_q rest (suc polls) count budget (filled q a.given_back) in
    let more = λ (q₁ : Queue). gpd_rx_from_q rest 0 (suc count) budget q₁ in
    if not q.attached then some (fail enodata, false, q) else elim (received q) [
      | none ↦
          if not a.present
          then some (fail enodev, false, q)
          else if (req_at q q.tr_done).gpd_addr == a.curr_addr || leb 100 polls
          then some (ok, false, q)
          else again
      | some s ↦
          let (ret, q₁) = receive a q s in
          elim ret [
            | fail e ↦ some (fail e, false, q₁)
            | ok ↦
                if ltb (suc count) budget || not a.need_resched
                then more q₁
                else some (ok, true, q₁)
          ]
    ]

-- What a pass of t7xx_cldma_gpd_rx_collect is told: the rounds of its inner loop, whether the queue
-- runs, and the interrupt status of the queue.
pub record RxPass : Type 0 where
  pub rounds : List RxRound
  pub running : Bool
  pub pending : ℕ

-- A pass returns, or goes on with `over_budget`.
pub data After : Type 0 where
  return : Ret → Ctrl → After
  go_on : Bool → Ctrl → After

unfoldable pub after_pass : RxPass → Bool → Ctrl → ℕ → Ret × Bool × Queue → After
after_pass p over c i (fail enodata, _, q) = return ok (set_rxq c i q)
after_pass p over c i (fail e, _, q) = return (fail e) (set_rxq c i q)
after_pass p over c i (ok, o, q) =
    let c₁ = set_rxq c i q in
    let c₂ = if p.running then c₁ else hw c₁ (hw_resume_queue rx i) in
    if not (test_bit i c.rxq_active)
    then return ok c₁
    else if p.pending == 0
    then return ok c₂
    else if over || o
    then return (fail eagain) (hw c₂ (hw_done rx p.pending))
    else go_on (over || o) (hw c₂ (hw_done rx p.pending))

unfoldable pub gpd_rx_collect : List RxPass → Bool → Ctrl → ℕ → ℕ → Option (Ret × Ctrl)
unfolding gpd_rx_from_q after_pass
gpd_rx_collect [] over c i budget = none
gpd_rx_collect (p ∷ rest) over c i budget =
    let later = λ (o : Bool) (c₁ : Ctrl). gpd_rx_collect rest o c₁ i budget in
    elim (gpd_rx_from_q p.rounds 0 0 budget (rxq_at c i)) [
      | none ↦ none
      | some r ↦ elim (after_pass p over c i r) [
        | return ret c₁ ↦ some (ret, c₁)
        | go_on o c₁ ↦ later o c₁
      ]
    ]

-- The work of a receive queue.
abbrev pub rx_worked : ℕ → Ret × Ctrl → Ctrl
rx_worked i (ret, c) =
    let again : Bool = elim ret [ ok ↦ false | fail e ↦ test_bit i c.rxq_active ] in
    if again
    then hw c (queue_work rx i)
    else hw (hw (hw (hw c clear_ip_busy) (hw_irq_en_txrx rx i)) (hw_irq_en_eq rx i)) pm_runtime_put

unfoldable pub rx_done : List RxPass → Ctrl → ℕ → Option Ctrl
unfolding gpd_rx_collect
rx_done passes c i = elim (gpd_rx_collect passes false c i (rxq_at c i).budget) [
  | none ↦ none
  | some r ↦ some (rx_worked i r)
]
