-- ===== src/Modem/Recovery.antt =====
-- What the recovery of src/t7xx_modem_ops.c leaves of the transmit queues.
use mtk_t7xx_fix.Prelude.{
  ℕ, zero, suc, ◌+◌, ◌≤◌, ◌<◌, ◌≡◌, refl, sym, ap, ◌∙◌, arith, ◌==◌, true, false, [], length,
  length-set, get_or, get_or-set_self, get_or-set_ne, set, ℕ_discrete, subst, if-by, if◌then◌else◌,
  Ret, test_bit,
}
use mtk_t7xx_fix.Cldma.State.{
  Queue, Ctrl, Call, Dir, tx, rx, hw, hw_init, hw_reset, enable_irq, rxq_at, set_rxq, no_queue,
  txq_at, set_txq, cldma_q_num, set_all_qs,
}
use mtk_t7xx_fix.Cldma.Setup.{clear_txq, clear_rxq}
use mtk_t7xx_fix.Cldma.Ctrl.{for_queues, stop, start, start_addr, clear_all_qs, stop_all_qs}
use mtk_t7xx_fix.Cldma.Holds.{Holds}
use mtk_t7xx_fix.Cldma.Fresh.{clear_txq-Holds}
use mtk_t7xx_fix.Cldma.Sending.{bit_of_set}
use mtk_t7xx_fix.Modem.Exception.{
  ExStage, ex_init, ex_clearq_done, ex_allq_reset, Hif, Recovery, cldma_exception, md_exception,
  exception_handshake,
}

-- What no round of a loop changes, the loop does not change.
for_queues-same {ℓ} :
    {X : Type ℓ} (g : Ctrl → X) (f : Ctrl → ℕ → Ctrl)
    → ((c : Ctrl) (i : ℕ) → g (f c i) ≡ g c)
    → (n i : ℕ) (c : Ctrl) → g (for_queues n i f c) ≡ g c
for_queues-same g f h zero i c = refl
for_queues-same g f h (suc n) i c = for_queues-same g f h n (suc i) (f c i) ∙ h c i

module _ (f : Queue → Queue) where
  abbrev each : Ctrl → ℕ → Ctrl
  each c i = set_txq c i (f (txq_at c i))

  each_before : (n i k : ℕ) (c : Ctrl) → k < i → txq_at (for_queues n i each c) k ≡ txq_at c k
  each_before zero i k c l = refl
  each_before (suc n) i k c l =
      each_before n (suc i) k (each c i) (omega arith)
      ∙ get_or-set_ne c.txq i k (f (txq_at c i)) no_queue (λ e. omega arith)

  -- A loop that changes each queue by itself.
  for_queues-each :
      (n i k : ℕ) (c : Ctrl)
      → i ≤ k
      → k < i + n
      → k < length c.txq
      → txq_at (for_queues n i each c) k ≡ f (txq_at c k)
  for_queues-each zero i k c l m h = absurd (omega arith)
  for_queues-each (suc n) i k c l m h = elim (ℕ_discrete i k) [
    | yes e ↦
        each_before n (suc i) k (each c i) (omega arith)
        ∙ ap (λ j. get_or (set c.txq i (f (txq_at c i))) j no_queue) (sym e)
        ∙ get_or-set_self c.txq i (f (txq_at c i)) no_queue (omega arith)
        ∙ ap (λ j. f (txq_at c j)) e
    | no x ↦
        for_queues-each n (suc i) k (each c i) (omega arith) (omega arith)
          (omega (arith, length-set c.txq i (f (txq_at c i))))
        ∙ ap f (get_or-set_ne c.txq i k (f (txq_at c i)) no_queue x)
  ]

-- The rings of a controller are made.
abbrev pub HasRings : Ctrl → Type 0
HasRings c =
    (c.is_late_init ≡ true)
    × ((qno : ℕ) → qno < cldma_q_num → (qno < length c.txq) × (length (txq_at c qno).ring ≡ 16))

-- Its transmit queues are active, and each is an empty buffer of 16 descriptors.
abbrev pub IsFresh : Ctrl → Type 0
IsFresh c =
    (qno : ℕ) → qno < cldma_q_num → Holds 16 (txq_at c qno) [] × (test_bit qno c.txq_active ≡ true)

abbrev Keeps : Ctrl → Ctrl → Type 0
Keeps c d = (d.txq ≡ c.txq) × (d.is_late_init ≡ c.is_late_init)

stop-Keeps : (polled : Ret) (c : Ctrl) → Keeps c (stop polled c).1
unfolding stop
stop-Keeps polled c = if-by (Keeps c) c.is_late_init _ _ (λ _. (refl, refl)) (λ _. (refl, refl))

start_addr-same {ℓ} :
    {X : Type ℓ} (g : Ctrl → X)
    → ((c : Ctrl) (x : Call) → g (hw c x) ≡ g c)
    → (dir : Dir) (c : Ctrl) (i : ℕ) (q : Queue) → g (start_addr dir c i q) ≡ g c
start_addr-same g h dir c i q = if-by (λ d. g d ≡ g c) q.attached _ _ (λ _. h c _) (λ _. refl)

start-txq : (c : Ctrl) → (start c).txq ≡ c.txq
unfolding start
start-txq c =
    if-by (λ (d : Ctrl). d.txq ≡ c.txq) c.is_late_init _ _
      (λ _.
        loop rx (λ d i. rxq_at d i)
          (for_queues 8 0 (λ d i. start_addr tx d i (txq_at d i)) (hw c enable_irq))
        ∙ loop tx (λ d i. txq_at d i) (hw c enable_irq))
      (λ _. refl)
  where
    loop :
        (dir : Dir) (at : Ctrl → ℕ → Queue) (c : Ctrl)
        → (for_queues 8 0 (λ d i. start_addr dir d i (at d i)) c).txq ≡ c.txq
    loop dir at c =
        for_queues-same (λ d. d.txq) (λ d i. start_addr dir d i (at d i))
          (λ d i. start_addr-same (λ e. e.txq) (λ e x. refl) dir d i (at d i)) 8 0 c

start-active : (c : Ctrl) → c.is_late_init ≡ true → (start c).txq_active ≡ set_all_qs c.txq_active
unfolding start
start-active c e =
    if-by (λ (d : Ctrl). d.txq_active ≡ set_all_qs c.txq_active) c.is_late_init _ _ (λ _. refl)
      (λ f. absurd (true-false (sym e ∙ f)))
  where
    true-false : true ≡ false → ⊥
    true-false x = cc

module _ (env : Recovery) (c : Ctrl) where
  init-txq :
      (qno : ℕ)
      → qno < cldma_q_num
      → qno < length c.txq
      → txq_at (cldma_exception env ex_init c) qno ≡ clear_txq (txq_at c qno)
  unfolding cldma_exception clear_all_qs stop_all_qs
  init-txq qno l h = for_queues-each clear_txq 8 0 qno (stop_all_qs tx c) (omega arith) l h

  init-is_late_init : (cldma_exception env ex_init c).is_late_init ≡ c.is_late_init
  unfolding cldma_exception clear_all_qs stop_all_qs
  init-is_late_init =
      for_queues-same (λ d. d.is_late_init) (each clear_txq) (λ d i. refl) 8 0 (stop_all_qs tx c)

  clearq-Keeps : Keeps c (cldma_exception env ex_clearq_done c)
  unfolding cldma_exception clear_all_qs stop_all_qs
  clearq-Keeps =
      let c₁ = (stop env.polled (stop_all_qs rx c)).1 in
      let stopped = stop-Keeps env.polled (stop_all_qs rx c) in
      let again =
        if-by (Keeps c) (c.hif_id == 0) (hw c₁ hw_reset) c₁ (λ _. stopped) (λ _. stopped) in
      let d = if c.hif_id == 0 then hw c₁ hw_reset else c₁ in
      let step : Ctrl → ℕ → Ctrl = λ e i. set_rxq e i (clear_rxq (env.allocs i) (rxq_at e i)).1 in
      (
        for_queues-same (λ e. e.txq) step (λ e i. refl) 8 0 d ∙ again.0,
        for_queues-same (λ e. e.is_late_init) step (λ e i. refl) 8 0 d ∙ again.1,
      )

  reset-txq : (cldma_exception env ex_allq_reset c).txq ≡ c.txq
  unfolding cldma_exception
  reset-txq = start-txq (hw c hw_init)

  reset-active :
      (qno : ℕ)
      → c.is_late_init ≡ true
      → qno < cldma_q_num
      → test_bit qno (cldma_exception env ex_allq_reset c).txq_active ≡ true
  unfolding cldma_exception
  reset-active qno e l =
      ap (test_bit qno) (start-active (hw c hw_init) e) ∙ bit_of_set qno c.txq_active l

recovered-IsFresh :
    (env : Recovery) (c : Ctrl)
    → HasRings c
    → IsFresh (
        cldma_exception env ex_allq_reset
          (cldma_exception env ex_clearq_done (cldma_exception env ex_init c)))
recovered-IsFresh env c (late, rings) qno l =
    let c₁ = cldma_exception env ex_init c in
    let c₂ = cldma_exception env ex_clearq_done c₁ in
    let keeps = clearq-Keeps env c₁ in
    let same : txq_at (cldma_exception env ex_allq_reset c₂) qno ≡ clear_txq (txq_at c qno) =
      ap (λ t. get_or t qno no_queue) (reset-txq env c₂ ∙ keeps.0)
      ∙ init-txq env c qno l (rings qno l).0 in
    (
      subst (λ q. Holds 16 q []) (sym same)
          (clear_txq-Holds 16 (txq_at c qno) (rings qno l).1 (omega arith)),
      reset-active env c₂ qno (keeps.1 ∙ init-is_late_init env c ∙ late) l,
    )

-- After the recovery from an exception, whether the modem answers in time or not, every transmit queue
-- of both controllers is active again and is an empty buffer of all its descriptors, whatever was in
-- it, if the controllers had their rings.
pub exception_handshake-IsFresh :
    (md ap : Recovery) (exp_id : ExStage → ℕ → ℕ) (h : Hif)
    → HasRings h.md
    → HasRings h.ap
    → let d = (exception_handshake md ap exp_id h).1 in IsFresh d.md × IsFresh d.ap
unfolding exception_handshake md_exception
exception_handshake-IsFresh md ap exp_id h a b =
    (recovered-IsFresh md h.md a, recovered-IsFresh ap h.ap b)
