-- ===== src/Receive/Runs.antt =====
-- The budget of a run over the PIT entries, t7xx_dpmaif_rx_start of src/t7xx_hif_dpmaif_rx.c, and of the
-- loop of a poll.
use mtk_t7xx_fix.Prelude.{
  ℕ, zero, suc, ◌+◌, ◌%◌, ◌≤◌, ◌<◌, ◌≡◌, refl, sym, subst, arith, Bool, false, not, ◌&&◌, leb, ltb,
  ◌==◌, if◌then◌else◌, if-by, Ret-by, Ret, ok, fail,
}
use mtk_t7xx_fix.Receive.State.{Pit, Rxq, RxEnv}
use mtk_t7xx_fix.Receive.Pits.{check_pit_seq, rx_notify_hw, next_pit}
use mtk_t7xx_fix.Receive.Collect.{
  Left, RxCount, take_pit, notify_release_count, rx_loop, stale, left_with, rx_end, rx_start,
  poll_pit, rx_data_collect,
}
use mtk_t7xx_fix.Receive.Poll.{count_of}
use mtk_t7xx_fix.Receive.Frames.{
  Frame, Frame-trans, take_pit-Frame, check_pit_seq-Frame, rx_notify_hw-Frame,
  rx_notify_hw-announced, Fits, take_pit-Fits,
}

check_pit_seq-Fits :
    (pit : Pit) (budget n : ℕ) (a : Rxq) → Fits budget n a → Fits budget n (check_pit_seq pit a).1
unfolding check_pit_seq
check_pit_seq-Fits pit budget n a h = ground arith

room :
    (m : Bool) (n budget : ℕ)
    → n + (if m then 1 else 0) ≤ budget
    → not m && leb budget n ≡ false
    → n < budget
room m n budget h e = ground arith

module _ (env : RxEnv) (pits : ℕ → Pit) (budget : ℕ) where
  -- The state behind the entry that the read index stands at.
  abbrev pub after_pit : Ret → ℕ → Rxq → Ret × ℕ × Rxq
  after_pit r n a = take_pit env (pits a.pit_rd_idx) r n (check_pit_seq (pits a.pit_rd_idx) a).1

  -- What every entry that is taken keeps, with one entry fewer to come, and every notification too,
  -- holds behind the loop.
  pub rx_loop_by {ℓ} :
      (P : ℕ → ℕ → Rxq → Type ℓ)
      → ((m : ℕ) (r : Ret) (n : ℕ) (a : Rxq)
          → not a.rx_data_info.msg_pit_received && leb budget n ≡ false
          → (check_pit_seq (pits a.pit_rd_idx) a).0 ≡ ok
          → P (suc m) n a
          → P m (after_pit r n a).1 (next_pit (after_pit r n a).2))
      → ((m n : ℕ) (a : Rxq) → P m n a → P m n (rx_notify_hw env a).1)
      → (more k : ℕ) (r : Ret) (n : ℕ) (a : Rxq) → P more n a
      → (m : ℕ) × P m
          (rx_loop env pits budget more k r n a).1
          (rx_loop env pits budget more k r n a).2
  unfolding rx_loop
  rx_loop_by P take notify zero k r n a h = (0, h)
  rx_loop_by P take notify (suc more) k r n a h =
      let Q : Left × ℕ × Rxq → Type ℓ = λ x. (m : ℕ) × P m x.1 x.2 in
      let (r₂, n₂, a₂) = after_pit r n a in
      let a₃ = next_pit a₂ in
      let a₄ = (rx_notify_hw env a₃).1 in
      if-by Q (not a.rx_data_info.msg_pit_received && leb budget n) _ _ (λ _. (suc more, h))
        (λ free.
          Ret-by Q (check_pit_seq (pits a.pit_rd_idx) a).0 _ _
            (λ seq.
              let taken = take more r n a free seq h in
              if-by Q (ltb 0 k && (k % notify_release_count == 0)) _ _
                (λ _.
                  Ret-by Q (rx_notify_hw env a₃).0 _ _
                    (λ _. rx_loop_by P take notify more (suc k) ok n₂ a₄ (notify more n₂ a₃ taken))
                    (λ e. (more, notify more n₂ a₃ taken)))
                (λ _. rx_loop_by P take notify more (suc k) r₂ n₂ a₃ taken))
            (λ e. (suc more, h)))

  -- Within the budget, and nothing else has changed.
  abbrev Within : Rxq → ℕ → Rxq → Type 0
  Within a n b = Frame a b × Fits budget n b

  rx_loop-Within :
      budget < 4294967296
      → (a : Rxq) (more k : ℕ) (r : Ret) (n : ℕ) (b : Rxq) → Within a n b
      → Within a (rx_loop env pits budget more k r n b).1 (rx_loop env pits budget more k r n b).2
  unfolding next_pit
  rx_loop-Within small a more k r n b h =
      (rx_loop_by (λ m. Within a) (λ m. taken) (λ m. notified) more k r n b h).1
    where
      taken :
          (r : Ret) (n : ℕ) (b : Rxq)
          → not b.rx_data_info.msg_pit_received && leb budget n ≡ false
          → (check_pit_seq (pits b.pit_rd_idx) b).0 ≡ ok
          → Within a n b
          → Within a (after_pit r n b).1 (next_pit (after_pit r n b).2)
      taken r n b free seq (f, h) =
          let pit = pits b.pit_rd_idx in
          let b₁ = (check_pit_seq pit b).1 in
          let f₁ = Frame-trans a b b₁ f (check_pit_seq-Frame pit b) in
          let more = room b.rx_data_info.msg_pit_received n budget h free in
          (
            Frame-trans a b₁ (after_pit r n b).2 f₁ (take_pit-Frame env pit r n b₁),
            take_pit-Fits env pit budget r n b₁ more small (check_pit_seq-Fits pit budget n b h),
          )

      notified : (n : ℕ) (b : Rxq) → Within a n b → Within a n (rx_notify_hw env b).1
      notified n b (f, h) = (
        Frame-trans a b (rx_notify_hw env b).1 f (rx_notify_hw-Frame env b),
        subst (λ m. n + (if m then 1 else 0) ≤ budget) (sym (rx_notify_hw-announced env b)) h,
      )

-- The same of a whole run, with the count that it returns.
abbrev pub Counted : ℕ → Rxq → RxCount × Bool × Rxq → Type 0
Counted budget a x = Frame a x.2 × (count_of x.0 ≤ budget)

rx_end-Counted :
    (env : RxEnv) (budget : ℕ) (a : Rxq) (x : Left × ℕ × Rxq)
    → Frame a x.2
    → x.1 ≤ budget
    → Counted budget a (rx_end env x)
unfolding rx_end
rx_end-Counted env budget a (stale, n, b) f h = (f, h)
rx_end-Counted env budget a (left_with (fail e), n, b) f h = (f, omega arith)
rx_end-Counted env budget a (left_with ok, n, b) f h =
    let notified = Frame-trans a b (rx_notify_hw env b).1 f (rx_notify_hw-Frame env b) in
    Ret-by (Counted budget a) (rx_notify_hw env b).0 _ _ (λ _. (notified, h))
      (λ e. (notified, omega arith))

pub rx_data_collect-Counted :
    (env : RxEnv) (pits : ℕ → Pit) (hw_wr_idx budget : ℕ) (a : Rxq)
    → 0 < budget
    → budget < 4294967296
    → Counted budget a (rx_data_collect env pits hw_wr_idx budget a)
unfolding rx_data_collect rx_start
rx_data_collect-Counted env pits hw budget a pos small =
    let (cnt, a₁) = poll_pit hw a in
    let frame : Frame a a₁ =
      if-by (λ (x : ℕ × Rxq). Frame a x.1) (not a.que_started) _ _ (λ _. (refl, refl, refl))
        (λ _. (refl, refl, refl)) in
    let fits : Fits budget 0 a₁ = one a₁.rx_data_info.msg_pit_received in
    let ran = rx_loop-Within env pits budget small a cnt 0 ok 0 a₁ (frame, fits) in
    if-by (Counted budget a) (cnt == 0) _ _ (λ _. (frame, omega arith))
      (λ _.
        rx_end-Counted env budget a (rx_loop env pits budget cnt 0 ok 0 a₁) ran.0
          (omega (arith, ran.1)))
  where
    one : (m : Bool) → 0 + (if m then 1 else 0) ≤ budget
    one m = ground arith
