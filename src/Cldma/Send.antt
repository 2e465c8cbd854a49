-- ===== src/Cldma/Send.antt =====
-- t7xx_cldma_send_skb and t7xx_cldma_hw_start_send of src/t7xx_hif_cldma.c.
use mtk_t7xx_fix.Prelude.{
  ℕ, Bool, true, false, not, Option, none, some, List, [], ◌∷◌, leb, test_bit, set_bit, clear_bit,
  Ret, ok, fail, Errno, einval, eio, eacces, etimedout, if◌then◌else◌,
}
use mtk_t7xx_fix.Cldma.State.{
  Skb, Queue, Ctrl, tx, hw_init, hw_set_start_addr, hw_start_queue, hw_resume_queue, req_at, txq_at,
  set_txq, hw, cldma_q_num,
}
use mtk_t7xx_fix.Cldma.Tx.{can_send, take_descriptor}

-- What one round of the loop is told: the result of the mapping, whether the modem woke up
-- (t7xx_pci_sleep_disable_complete), whether the start address is set and the queue runs, the result
-- of the wait (`none` is 0), and what happened to the queue meanwhile.
pub record Round : Type 0 where
  pub dma : Option ℕ
  pub awake : Bool
  pub addr_set : Bool
  pub running : Bool
  pub wait : Option Errno
  pub meanwhile : Queue → Queue

unfoldable pub hw_start_send : Round → Ctrl → ℕ → ℕ → Ctrl
hw_start_send r c qno prev_addr =
    let c₁ =
      if r.addr_set
      then c
      else hw (hw (record c { txq_started = clear_bit qno c.txq_started }) hw_init)
          (hw_set_start_addr tx qno prev_addr) in
    if r.running
    then c₁
    else let cmd =
        if test_bit qno c₁.txq_started then hw_resume_queue tx qno else hw_start_queue tx qno in
      record (hw c₁ cmd) { txq_started = set_bit qno c₁.txq_started }

-- The round that finds room. `ret` is what the function returns if nothing fails.
unfoldable pub place_skb : Round → ℕ → Ret → Ctrl → Skb → Ret × Ctrl
unfolding take_descriptor hw_start_send
place_skb r qno ret c skb =
    let q = txq_at c qno in
    let c₁ = set_txq c qno (take_descriptor (test_bit qno c.txq_active) r.dma q skb) in
    if r.awake
    then (ret, hw_start_send r c₁ qno (req_at q q.tx_next).gpd_addr)
    else (fail etimedout, c₁)

-- The round that finds none and waits.
unfoldable pub wait_room : Round → ℕ → Ctrl → Ctrl
wait_room r qno c =
    let c₁ = if r.running then c else hw c (hw_resume_queue tx qno) in
    set_txq c₁ qno (r.meanwhile (txq_at c₁ qno))

-- The loop, until the rounds listed are over: `none` is a caller that still waits.
unfoldable pub send_rounds : List Round → ℕ → Ret → Ctrl → Skb → Option (Ret × Ctrl)
unfolding place_skb wait_room
send_rounds [] qno ret c skb = none
send_rounds (r ∷ rest) qno ret c skb =
    let later = send_rounds rest qno ok (wait_room r qno c) skb in
    if can_send (txq_at c qno)
    then some (place_skb r qno ret c skb)
    else if not r.awake
    then some (fail etimedout, c)
    else elim r.wait [ none ↦ later | some e ↦ some (fail e, wait_room r qno c) ]

-- `resume` is the result of pm_runtime_resume_and_get.
abbrev pub resume_failed : Ret → Bool
resume_failed ok = false
resume_failed (fail eacces) = false
resume_failed (fail e) = true

unfoldable pub send_skb : Ret → List Round → Ctrl → ℕ → Skb → Option (Ret × Ctrl)
unfolding send_rounds
send_skb resume rounds c qno skb =
    if leb cldma_q_num qno
    then some (fail einval, c)
    else if resume_failed resume
    then some (resume, c)
    else if not (test_bit qno c.txq_active)
    then some (fail eio, c)
    else send_rounds rounds qno resume c skb
