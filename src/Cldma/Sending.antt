-- ===== src/Cldma/Sending.antt =====
-- What t7xx_cldma_send_skb of src/t7xx_hif_cldma.c does with an skb and what it answers.
use mtk_t7xx_fix.Prelude.{
  ℕ, zero, suc, ◌<◌, ◌≡◌, refl, sym, ap, ◌∙◌, arith, true, false, not, Option, some, List, [], ◌∷◌,
  ◌++◌, length, get_or, set, get_or-set_self, leb, ◌==◌, lt→ltb, test_bit, subst, Bool-cases, inl,
  inr, if-by, if◌then◌else◌, Ret, ok, fail, Errno, einval, eio, etimedout,
}
use mtk_t7xx_fix.Cldma.State.{
  Skb, Ctrl, req_at, txq_at, set_txq, no_queue, cldma_q_num, clear_all_bits, set_all_qs,
}
use mtk_t7xx_fix.Cldma.Tx.{can_send, take_descriptor}
use mtk_t7xx_fix.Cldma.Send.{Round, hw_start_send, place_skb, send_rounds, resume_failed, send_skb}
use mtk_t7xx_fix.Cldma.Holds.{Holds, can_send-Holds, take_descriptor-Holds}
use mtk_t7xx_fix.Cldma.Ctrl.{suspend, suspend_late, stop, resume, resume_early}

bit_of_cleared : (k x : ℕ) → k < 8 → test_bit k (clear_all_bits x) ≡ false
bit_of_cleared zero x h = ground arith
bit_of_cleared (suc zero) x h = ground arith
bit_of_cleared (suc (suc zero)) x h = ground arith
bit_of_cleared (suc (suc (suc zero))) x h = ground arith
bit_of_cleared (suc (suc (suc (suc zero)))) x h = ground arith
bit_of_cleared (suc (suc (suc (suc (suc zero))))) x h = ground arith
bit_of_cleared (suc (suc (suc (suc (suc (suc zero)))))) x h = ground arith
bit_of_cleared (suc (suc (suc (suc (suc (suc (suc zero))))))) x h = ground arith
bit_of_cleared (suc (suc (suc (suc (suc (suc (suc (suc k)))))))) x h = absurd (omega arith)

pub bit_of_set : (k x : ℕ) → k < 8 → test_bit k (set_all_qs x) ≡ true
bit_of_set zero x h = ground arith
bit_of_set (suc zero) x h = ground arith
bit_of_set (suc (suc zero)) x h = ground arith
bit_of_set (suc (suc (suc zero))) x h = ground arith
bit_of_set (suc (suc (suc (suc zero)))) x h = ground arith
bit_of_set (suc (suc (suc (suc (suc zero))))) x h = ground arith
bit_of_set (suc (suc (suc (suc (suc (suc zero)))))) x h = ground arith
bit_of_set (suc (suc (suc (suc (suc (suc (suc zero))))))) x h = ground arith
bit_of_set (suc (suc (suc (suc (suc (suc (suc (suc k)))))))) x h = absurd (omega arith)

past_guards :
    (c : Ctrl) (qno : ℕ) (skb : Skb) (ret : Ret) (rounds : List Round)
    → qno < cldma_q_num
    → test_bit qno c.txq_active ≡ true
    → resume_failed ret ≡ false
    → send_skb ret rounds c qno skb ≡ send_rounds rounds qno ret c skb
unfolding send_skb
past_guards c qno skb ret rounds known active e =
    ap
      (λ b.
        if b
        then some (fail einval, c)
        else if resume_failed ret
        then some (ret, c)
        else if not (test_bit qno c.txq_active)
        then some (fail eio, c)
        else send_rounds rounds qno ret c skb)
      (guard qno known)
    ∙ ap
        (λ b.
          if b
          then some (ret, c)
          else if not (test_bit qno c.txq_active)
          then some (fail eio, c)
          else send_rounds rounds qno ret c skb)
        e
    ∙ ap (λ b. if not b then some (fail eio, c) else send_rounds rounds qno ret c skb) active
  where
    guard : (q : ℕ) → q < 8 → leb 8 q ≡ false
    guard q h = ground arith

started-txq : (r : Round) (c : Ctrl) (qno addr : ℕ) → (hw_start_send r c qno addr).txq ≡ c.txq
unfolding hw_start_send
started-txq r c qno addr = elim (Bool-cases r.addr_set) [
  | inl a ↦ elim (Bool-cases r.running) [ inl b ↦ rw (a, b) refl | inr b ↦ rw (a, b) refl ]
  | inr a ↦ elim (Bool-cases r.running) [ inl b ↦ rw (a, b) refl | inr b ↦ rw (a, b) refl ]
]

place_skb-txq :
    (r : Round) (qno : ℕ) (ret : Ret) (c : Ctrl) (skb : Skb)
    → (place_skb r qno ret c skb).1.txq
      ≡ set c.txq qno (take_descriptor (test_bit qno c.txq_active) r.dma (txq_at c qno) skb)
unfolding place_skb
place_skb-txq r qno ret c skb =
    let q = txq_at c qno in
    let c₁ = set_txq c qno (take_descriptor (test_bit qno c.txq_active) r.dma q skb) in
    elim (Bool-cases r.awake) [
      | inl e ↦ rw e (started-txq r c₁ qno (req_at q q.tx_next).gpd_addr)
      | inr e ↦ rw e refl
    ]

place_skb-ret :
    (r : Round) (qno : ℕ) (ret : Ret) (c : Ctrl) (skb : Skb)
    → (place_skb r qno ret c skb).0 ≡ (if r.awake then ret else fail etimedout)
unfolding place_skb
place_skb-ret r qno ret c skb = elim (Bool-cases r.awake) [ inl e ↦ rw e refl | inr e ↦ rw e refl ]

send_rounds-room :
    (r : Round) (rest : List Round) (qno : ℕ) (ret : Ret) (c : Ctrl) (skb : Skb)
    → can_send (txq_at c qno) ≡ true
    → send_rounds (r ∷ rest) qno ret c skb ≡ some (place_skb r qno ret c skb)
unfolding send_rounds
send_rounds-room r rest qno ret c skb e = rw e refl

-- If pm_runtime_resume_and_get succeeds or gives -EACCES, an skb sent on an active queue that has room,
-- with a mapped buffer, is placed behind the others in the first round, whatever the function answers:
-- that same result, or -ETIMEDOUT if the modem did not wake up.
pub send_skb-Holds :
    (c : Ctrl) (qno : ℕ) (skb : Skb) (ret : Ret) (r : Round) (rest : List Round) (len addr : ℕ)
    (l : List Skb)
    → qno < cldma_q_num
    → qno < length c.txq
    → test_bit qno c.txq_active ≡ true
    → resume_failed ret ≡ false
    → r.dma ≡ some addr
    → Holds len (txq_at c qno) l
    → length l < len
    → (d : Ctrl) × (send_skb ret (r ∷ rest) c qno skb
        ≡ some ((if r.awake then ret else fail etimedout), d))
      × Holds len (txq_at d qno) (l ++ (skb ∷ []))
send_skb-Holds c qno skb ret r rest len addr l known here active e mapped h room =
    let d = (place_skb r qno ret c skb).1 in
    let q₁ = take_descriptor (test_bit qno c.txq_active) r.dma (txq_at c qno) skb in
    let placed : txq_at d qno ≡ q₁ =
      ap (λ t. get_or t qno no_queue) (place_skb-txq r qno ret c skb)
      ∙ get_or-set_self c.txq qno q₁ no_queue here in
    let can = can_send-Holds len (txq_at c qno) l h ∙ lt→ltb (length l) len room in
    (
      d,
      past_guards c qno skb ret (r ∷ rest) known active e
          ∙ send_rounds-room r rest qno ret c skb can
          ∙ ap (λ x. some (x, d)) (place_skb-ret r qno ret c skb),
      subst (λ q. Holds len q (l ++ (skb ∷ []))) (sym placed)
          (subst
            (λ o.
              Holds len (take_descriptor (test_bit qno c.txq_active) o (txq_at c qno) skb)
                (l ++ (skb ∷ [])))
            (sym mapped)
            (take_descriptor-Holds len (test_bit qno c.txq_active) addr (txq_at c qno) skb l h
              room)),
    )

inactive-send_skb :
    (c : Ctrl) (ret : Ret) (rounds : List Round) (qno : ℕ) (skb : Skb)
    → (qno < 8 → test_bit qno c.txq_active ≡ false)
    → (e : Errno) × (send_skb ret rounds c qno skb ≡ some (fail e, c))
unfolding send_skb
inactive-send_skb c ret rounds qno skb h =
    let P : Option (Ret × Ctrl) → Type 0 = λ x. (e : Errno) × (x ≡ some (fail e, c)) in
    if-by P (leb cldma_q_num qno) _ _ (λ _. (einval, refl))
      (λ l. if-by P (resume_failed ret) _ _ (failed ret) (λ _.
        if-by P (not (test_bit qno c.txq_active)) _ _ (λ _. (eio, refl))
          (λ t. absurd (wrong (h (below qno l)) t))))
  where
    below : (q : ℕ) → leb 8 q ≡ false → q < 8
    below q l = ground arith

    wrong : test_bit qno c.txq_active ≡ false → not (test_bit qno c.txq_active) ≡ false → ⊥
    wrong e t = true-false (sym (ap not e) ∙ t)
      where
        true-false : true ≡ false → ⊥
        true-false x = cc

    answer : Ret → Option (Ret × Ctrl)
    answer r = some (r, c)

    failed : (r : Ret) → resume_failed r ≡ true → (e : Errno) × (answer r ≡ answer (fail e))
    failed ok x = absurd (false-true x)
      where
        false-true : false ≡ true → ⊥
        false-true x = cc
    failed (fail e) x = (e, refl)

stop-txq_active : (polled : Ret) (c : Ctrl) → (stop polled c).1.txq_active ≡ 0
unfolding stop
stop-txq_active polled c =
    if-by (λ (x : Ctrl). x.txq_active ≡ 0) c.is_late_init _ _ (λ _. refl) (λ _. refl)

-- Once a controller is suspended or stopped, every send, on any queue and whatever power management
-- and the modem answer, fails at once and leaves the controller as it is.
pub send_skb_inactive :
    (c : Ctrl) (polled ret : Ret) (rounds : List Round) (qno : ℕ) (skb : Skb)
    → ((e : Errno) × (send_skb ret rounds (suspend c) qno skb ≡ some (fail e, suspend c)))
      × ((e : Errno) × (send_skb ret rounds (stop polled c).1 qno skb
            ≡ some (fail e, (stop polled c).1)))
unfolding suspend
send_skb_inactive c polled ret rounds qno skb = (
  inactive-send_skb (suspend c) ret rounds qno skb (bit_of_cleared qno c.txq_active),
  inactive-send_skb (stop polled c).1 ret rounds qno skb
      (λ l. ap (test_bit qno) (stop-txq_active polled c) ∙ bit_of_cleared qno 0 l),
)

-- What a controller keeps when it is suspended or resumed.
abbrev Keeps : Ctrl → Ctrl → Type 0
Keeps c d = (d.txq ≡ c.txq) × (d.rxq ≡ c.rxq)

suspend-Keeps : (c : Ctrl) → Keeps c (suspend c) × ((suspend c).txq_started ≡ 0)
unfolding suspend
suspend-Keeps c = elim (Bool-cases (c.hif_id == 0)) [
  | inl e ↦ rw e ((refl, refl), refl)
  | inr e ↦ rw e ((refl, refl), refl)
]

between-Keeps :
    (c : Ctrl)
    → let d = resume_early (suspend_late c) in Keeps c d × (d.txq_started ≡ c.txq_started)
unfolding suspend_late resume_early
between-Keeps c = ((refl, refl), refl)

early_active :
    (c : Ctrl) (qno : ℕ) → qno < cldma_q_num → test_bit qno (resume_early c).rxq_active ≡ true
unfolding resume_early
early_active c qno l = bit_of_set qno c.rxq_active l

resume-Keeps :
    (c : Ctrl)
    → Keeps c (resume c)
      × ((resume c).txq_started ≡ c.txq_started)
      × ((resume c).rxq_active ≡ c.rxq_active)
      × ((resume c).txq_active ≡ set_all_qs c.txq_active)
unfolding resume
resume-Keeps c = elim (Bool-cases (c.hif_id == 0)) [
  | inl e ↦ rw e ((refl, refl), refl, refl, refl)
  | inr e ↦ rw e ((refl, refl), refl, refl, refl)
]

-- A suspend and resume leaves all queues as they were, sets the active bits of all of them in both
-- directions and forgets which transmit queues were started.
pub resume-suspend :
    (c : Ctrl)
    → let d = resume (resume_early (suspend_late (suspend c))) in
      (d.txq ≡ c.txq)
      × (d.rxq ≡ c.rxq)
      × (d.txq_started ≡ 0)
      × ((qno : ℕ)
          → qno < cldma_q_num
          → (test_bit qno d.txq_active ≡ true) × (test_bit qno d.rxq_active ≡ true))
resume-suspend c =
    let s = suspend-Keeps c in
    let b = between-Keeps (suspend c) in
    let d = resume_early (suspend_late (suspend c)) in
    let r = resume-Keeps d in
    (
      r.0.0 ∙ b.0.0 ∙ s.0.0,
      r.0.1 ∙ b.0.1 ∙ s.0.1,
      r.1 ∙ b.1 ∙ s.1,
      λ k l. (
        ap (test_bit k) r.3 ∙ bit_of_set k d.txq_active l,
        ap (test_bit k) r.2 ∙ early_active (suspend_late (suspend c)) k l,
      ),
    )
