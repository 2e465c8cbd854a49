-- ===== src/Receive/Order.antt =====
-- The PIT entries that are given back are those that were read, src/t7xx_hif_dpmaif_rx.c.
use mtk_t7xx_fix.Prelude.{
  ℕ, suc, ◌+◌, ◌-◌, ◌≤◌, ◌<◌, ◌≡◌, refl, sym, ap, subst, ◌∙◌, arith, Bool, true, false, not, ◌&&◌,
  leb, ltb, ◌==◌, Ret-cases, inl, inr, Errno, if◌then◌else◌, if-by, Ret-by, Ret, ok, fail, u32,
}
use mtk_t7xx_fix.Ring.{read, rd_wr_count}
use mtk_t7xx_fix.Ring.Count.{max_len, get_next_wr_idx_lem, rd_wr_count-read}
use mtk_t7xx_fix.Receive.State.{add_pit_remain_cnt, queue_bat_release, call, Pit, Rxq, RxEnv}
use mtk_t7xx_fix.Receive.Pits.{
  release_pit_entry, pit_release_and_add, rx_notify_hw, next_pit, pit_cnt_threshold,
}
use mtk_t7xx_fix.Receive.Collect.{
  Left, RxCount, received, rx_loop, stale, left_with, rx_end, rx_start, poll_pit, rx_data_collect,
}
use mtk_t7xx_fix.Receive.Frames.{Still, checked_pit-Still}
use mtk_t7xx_fix.Receive.Runs.{after_pit, rx_loop_by}

-- A position on from the start of the ring, for less than two turns.
abbrev pub wrap : ℕ → ℕ → ℕ
wrap size x = if ltb x size then x else x - size

-- From the release index on, the entries that are still to be released lead to the read index, and `m`
-- more entries to the write index, all within one turn.
pub record InOrder (m : ℕ) (a : Rxq) : Type 0 where
  pub started : a.que_started ≡ true
  pub small : a.pit_size_cnt ≤ max_len
  pub release_in : a.pit_release_rd_idx < a.pit_size_cnt
  pub one_turn : a.pit_remain_release_cnt + m < a.pit_size_cnt
  pub reads : a.pit_rd_idx ≡ wrap a.pit_size_cnt (a.pit_release_rd_idx + a.pit_remain_release_cnt)
  pub writes :
      a.pit_wr_idx ≡ wrap a.pit_size_cnt (a.pit_release_rd_idx + a.pit_remain_release_cnt + m)

Still-InOrder : (m : ℕ) (a b : Rxq) → Still a b → InOrder m a → InOrder m b
Still-InOrder m a b (s, z, r, w, l, c) h = record {
  started = s ∙ h.started;
  small = omega (arith, z, h.small);
  release_in = omega (arith, z, l, h.release_in);
  one_turn = omega (arith, z, c, h.one_turn);
  reads = ground (arith, z, r, l, c, h.reads);
  writes = ground (arith, z, w, l, c, h.writes);
}

next_pit-InOrder : (m : ℕ) (a : Rxq) → InOrder (suc m) a → InOrder m (next_pit a)
unfolding next_pit
next_pit-InOrder m a h =
    let rd_in : a.pit_rd_idx < a.pit_size_cnt = ground (arith, h.reads, h.release_in, h.one_turn) in
    let next = get_next_wr_idx_lem a.pit_size_cnt a.pit_rd_idx h.small rd_in in
    let count : u32 (a.pit_remain_release_cnt + 1) ≡ a.pit_remain_release_cnt + 1 =
      omega (arith, h.one_turn, h.small) in
    record {
      started = h.started;
      small = h.small;
      release_in = h.release_in;
      one_turn = omega (arith, h.one_turn, count);
      reads = ground (arith, next, count, h.reads, h.one_turn, h.release_in);
      writes = ground (arith, count, h.writes);
    }

-- The new release index is the read index.
release_idx :
    (size rel rem wr m : ℕ)
    → size ≤ max_len
    → rel < size
    → rem + m < size
    → wr ≡ wrap size (rel + rem + m)
    → (if ltb wr rel && leb size (u32 (rel + rem)) then u32 (rel + rem) - size else u32 (rel + rem))
      ≡ wrap size (rel + rem)
release_idx size rel rem wr m small rel_in turn writes = ground arith

wrap-wrap :
    (size rel rem m : ℕ)
    → rel < size
    → rem + m < size
    → wrap size (wrap size (rel + rem) + m) ≡ wrap size (rel + rem + m)
wrap-wrap size rel rem m rel_in turn = ground arith

wrap-lt : (size rel rem : ℕ) → rel < size → rem < size → wrap size (rel + rem) < size
wrap-lt size rel rem p q = ground arith

-- All entries that were read are given back.
given_back : Rxq → Rxq
given_back a = record a {
  pit_release_rd_idx = wrap a.pit_size_cnt (a.pit_release_rd_idx + a.pit_remain_release_cnt);
  pit_remain_release_cnt = 0;
}

given_back-InOrder : (m : ℕ) (a : Rxq) → InOrder m a → InOrder m (given_back a)
unfolding given_back
given_back-InOrder m a h =
    let in_ring =
      wrap-lt a.pit_size_cnt a.pit_release_rd_idx a.pit_remain_release_cnt h.release_in
        (omega (arith, h.one_turn)) in
    record {
      started = h.started;
      small = h.small;
      release_in = in_ring;
      one_turn = omega (arith, h.one_turn);
      reads = ground (arith, h.reads, in_ring);
      writes =
          h.writes
          ∙ sym (
              wrap-wrap a.pit_size_cnt a.pit_release_rd_idx a.pit_remain_release_cnt m h.release_in
                h.one_turn)
          ∙ ap (λ x. wrap a.pit_size_cnt (x + m)) (omega arith);
    }

release_pit_entry_ok :
    (env : RxEnv) (m : ℕ) (a : Rxq)
    → InOrder m a
    → env.add_remain_cnt a.pit_remain_release_cnt ≡ ok
    → release_pit_entry env a.pit_remain_release_cnt a ≡ (
      ok,
      record (call (add_pit_remain_cnt a.pit_remain_release_cnt) a) {
        pit_release_rd_idx = wrap a.pit_size_cnt (a.pit_release_rd_idx + a.pit_remain_release_cnt);
      },
    )
unfolding release_pit_entry
release_pit_entry_ok env m a h e = ground (
  arith,
  e,
  h.started,
  h.one_turn,
  release_idx a.pit_size_cnt a.pit_release_rd_idx a.pit_remain_release_cnt a.pit_wr_idx m h.small
      h.release_in h.one_turn h.writes,
)

release_pit_entry_fail :
    (env : RxEnv) (m : ℕ) (a : Rxq) (x : Errno)
    → InOrder m a
    → env.add_remain_cnt a.pit_remain_release_cnt ≡ fail x
    → release_pit_entry env a.pit_remain_release_cnt a
      ≡ (fail x, call (add_pit_remain_cnt a.pit_remain_release_cnt) a)
unfolding release_pit_entry
release_pit_entry_fail env m a x h e = ground (arith, e, h.started, h.one_turn)

release_and_add-InOrder :
    (env : RxEnv) (m : ℕ) (a : Rxq) → InOrder m a → InOrder m (pit_release_and_add env a).1
unfolding pit_release_and_add given_back
release_and_add-InOrder env m a h =
    let settled : Ret × Rxq → Type 0 = λ x.
      InOrder m
        (elim x.0 as (λ _. Ret × Rxq) [
          | ok ↦ (ok, record x.1 { pit_remain_release_cnt = 0 })
          | fail e ↦ (fail e, x.1)
        ]).1 in
    if-by (λ (x : Ret × Rxq). InOrder m x.1) (ltb a.pit_remain_release_cnt pit_cnt_threshold) _ _
      (λ _. h)
      (λ _. elim (Ret-cases (env.add_remain_cnt a.pit_remain_release_cnt)) [
        | inl e ↦ subst settled (sym (release_pit_entry_ok env m a h e)) (
            Still-InOrder m (given_back a)
              (call (add_pit_remain_cnt a.pit_remain_release_cnt) (given_back a))
              (refl, refl, refl, refl, refl, refl) (given_back-InOrder m a h))
        | inr e ↦ subst settled (sym (release_pit_entry_fail env m a e.0 h e.1)) (
            Still-InOrder m a (call (add_pit_remain_cnt a.pit_remain_release_cnt) a)
              (refl, refl, refl, refl, refl, refl) h)
      ])

pub rx_notify_hw-InOrder :
    (env : RxEnv) (m : ℕ) (a : Rxq) → InOrder m a → InOrder m (rx_notify_hw env a).1
unfolding rx_notify_hw
rx_notify_hw-InOrder env m a h =
    let b = call queue_bat_release a in
    release_and_add-InOrder env m b (Still-InOrder m a b (refl, refl, refl, refl, refl, refl) h)

-- Behind the loop and what follows it.
abbrev pub Ordered : RxCount × Bool × Rxq → Type 0
Ordered x = (m : ℕ) × InOrder m x.2

rx_end-Ordered : (env : RxEnv) (x : Left × ℕ × Rxq) (m : ℕ) → InOrder m x.2 → Ordered (rx_end env x)
unfolding rx_end
rx_end-Ordered env (stale, n, b) m h = (m, h)
rx_end-Ordered env (left_with (fail e), n, b) m h = (m, h)
rx_end-Ordered env (left_with ok, n, b) m h =
    let notified = rx_notify_hw-InOrder env m b h in
    Ret-by Ordered (rx_notify_hw env b).0 _ _ (λ _. (m, notified)) (λ e. (m, notified))

rx_loop-InOrder :
    (env : RxEnv) (pits : ℕ → Pit) (budget more : ℕ) (a : Rxq)
    → InOrder more a
    → (m : ℕ) × InOrder m (rx_loop env pits budget more 0 ok 0 a).2
rx_loop-InOrder env pits budget more a h =
    rx_loop_by env pits budget (λ m n b. InOrder m b)
      (λ m r n b free seq i. next_pit-InOrder m (after_pit env pits budget r n b).2 (
        Still-InOrder (suc m) b (after_pit env pits budget r n b).2
          (checked_pit-Still env (pits b.pit_rd_idx) r n b) i))
      (λ m n b i. rx_notify_hw-InOrder env m b i) more 0 ok 0 a h

-- The hardware's write index leads `m` entries further.
polled-InOrder :
    (hw_wr_idx m : ℕ) (a : Rxq)
    → InOrder m a
    → hw_wr_idx < a.pit_size_cnt
    → a.pit_remain_release_cnt + rd_wr_count a.pit_size_cnt a.pit_rd_idx hw_wr_idx read
      < a.pit_size_cnt
    → InOrder
        (rd_wr_count a.pit_size_cnt a.pit_rd_idx hw_wr_idx read)
        (record a { pit_wr_idx = hw_wr_idx })
polled-InOrder hw m a h hw_in turn =
    let rd_in : a.pit_rd_idx < a.pit_size_cnt = ground (arith, h.reads, h.release_in, h.one_turn) in
    record {
      started = h.started;
      small = h.small;
      release_in = h.release_in;
      one_turn = turn;
      reads = h.reads;
      writes = ground (
        arith,
        rd_wr_count-read a.pit_size_cnt a.pit_rd_idx hw h.small rd_in hw_in,
        h.reads,
        h.release_in,
        turn,
      );
    }

-- A run over the PIT ring of a started queue keeps its indices in order, whatever the entries hold and
-- whatever the hardware answers: if the entries still to be released lead from the release index to the
-- read index, and the hardware has not written over entries that were not given back, then they do so
-- again afterwards, and the write index is still ahead within one turn.
pub rx_data_collect-Ordered :
    (env : RxEnv) (pits : ℕ → Pit) (hw_wr_idx budget m : ℕ) (a : Rxq)
    → InOrder m a
    → hw_wr_idx < a.pit_size_cnt
    → a.pit_remain_release_cnt + rd_wr_count a.pit_size_cnt a.pit_rd_idx hw_wr_idx read
      < a.pit_size_cnt
    → (k : ℕ) × InOrder k (rx_data_collect env pits hw_wr_idx budget a).2
unfolding rx_data_collect rx_start
rx_data_collect-Ordered env pits hw budget m a h hw_in turn =
    let cnt = rd_wr_count a.pit_size_cnt a.pit_rd_idx hw read in
    let a₁ = record a { pit_wr_idx = hw } in
    let polled = polled-InOrder hw m a h hw_in turn in
    let looped = rx_loop-InOrder env pits budget cnt a₁ polled in
    let polled_pit : (cnt, a₁) ≡ poll_pit hw a =
      ap (λ b. if not b then (0, a) else (cnt, a₁)) (sym h.started) in
    subst
      (λ (x : ℕ × Rxq). Ordered (
        if x.0 == 0
        then (received 0, false, x.1)
        else rx_end env (rx_loop env pits budget x.0 0 ok 0 x.1)))
      polled_pit
      (if-by Ordered (cnt == 0) _ _ (λ _. (cnt, polled))
        (λ _. rx_end-Ordered env (rx_loop env pits budget cnt 0 ok 0 a₁) looped.0 looped.1))
