-- ===== src/DpmaifRx/Armed.antt =====
-- What t7xx_dpmaif_rx_buf_alloc (src/t7xx_hif_dpmaif_rx.c) has given to the modem when it succeeds.
use mtk_t7xx_fix.Prelude.{
  fail-ok, ℕ, ◌≤◌, ◌<◌, ◌≡◌, refl, sym, ap, ap₂, ◌∙◌, arith, Bool, true, false, length, Option,
  subst, get_or, if◌then◌else◌, Ret, ok, fail, einval, enomem, ltb, ◌==◌, ◌||◌,
}
use mtk_t7xx_fix.Ring.{read, rd_wr_count, advance}
use mtk_t7xx_fix.Ring.Walk.{advance-lt, advance-rd_wr_count}
use mtk_t7xx_fix.DpmaifRx.State.{BatRequest, no_skb}
use mtk_t7xx_fix.DpmaifRx.Bat.{bat_idx, fill_from, commit, rx_buf_alloc}
use mtk_t7xx_fix.DpmaifRx.Index.{IsValid, space, space-lt}
use mtk_t7xx_fix.DpmaifRx.Loop.{Armed, ArmedFrom, Filled, fill_from-Filled}
use mtk_t7xx_fix.DpmaifRx.Buffers.{SameSlots, Committed, commit-Committed}

-- A ring with the same slots and a write index inside is valid.
SameSlots-IsValid :
    (a d : BatRequest) → IsValid a → d.bat_wr_idx < a.bat_size_cnt → SameSlots a d → IsValid d
SameSlots-IsValid a d v w (z, r, s, b) = record {
  small = omega (arith, z, v.small);
  wr_in = omega (arith, z);
  rd_in = omega (arith, z, r, v.rd_in);
  skbs = ap length s ∙ v.skbs ∙ sym z;
  entries = ap length b ∙ v.entries ∙ sym z;
}

SameSlots-Armed : (a d : BatRequest) (k : ℕ) → SameSlots a d → Armed a k → Armed d k
SameSlots-Armed a d k (z, r, s, b) (id, has, at) = (
  id,
  ap (λ l. (get_or l k no_skb).skb) s ∙ has,
  ap (λ l. get_or l k 0) b ∙ at ∙ ap (λ l. (get_or l k no_skb).data_bus_addr) (sym s),
)

module _ (alloc_skb : ℕ → Option ℕ) (map_single : ℕ → Option ℕ) (que_started : Bool)
    (snd_hw_bat_cnt : ℕ → Ret) (get_bat_wr_idx : ℕ → ℕ) where
  -- What a successful call has done, with the number of entries that it has filled.
  Given : BatRequest → BatRequest → Type 0
  Given bat d =
      (n : ℕ) × IsValid d
      × (d.bat_wr_idx ≡ advance bat.bat_size_cnt n bat.bat_wr_idx)
      × (n < bat.bat_size_cnt)
      × ArmedFrom n bat.bat_wr_idx d
      × (d.bat_size_cnt ≡ bat.bat_size_cnt)

  rx_buf_alloc-Given :
      (bat d : BatRequest) (buf_cnt : ℕ) (initial : Bool)
      → IsValid bat
      → rx_buf_alloc alloc_skb map_single que_started snd_hw_bat_cnt get_bat_wr_idx buf_cnt initial
          bat
        ≡ (ok, d)
      → Given bat d
  unfolding rx_buf_alloc Filled Committed Given
  rx_buf_alloc-Given bat d buf_cnt initial v h =
      by_count (buf_cnt == 0 || ltb bat.bat_size_cnt buf_cnt) refl h
    where
      filled : ℕ × BatRequest
      filled = fill_from alloc_skb map_single buf_cnt 0 bat.bat_wr_idx bat

      given :
          buf_cnt ≤ bat.bat_size_cnt
          → commit alloc_skb map_single que_started snd_hw_bat_cnt get_bat_wr_idx initial filled
            ≡ (ok, d)
          → Given bat d
      given c k =
          let (z, w, r, l, m, n, armed) =
            fill_from-Filled alloc_skb map_single buf_cnt 0 bat.bat_wr_idx bat v.small v.wr_in
              (omega arith) v.skbs v.entries (λ j x. absurd (omega arith)) in
          let b_valid : IsValid filled.1 = record {
            small = omega (arith, z, v.small);
            wr_in = omega (arith, z, w, v.wr_in);
            rd_in = omega (arith, z, r, v.rd_in);
            skbs = l ∙ v.skbs ∙ sym z;
            entries = m ∙ v.entries ∙ sym z;
          } in
          let (s, moved, same) =
            commit-Committed alloc_skb map_single que_started snd_hw_bat_cnt get_bat_wr_idx initial
              filled.0 filled.1 d b_valid (omega (arith, n, z)) k in
          let wr_in = advance-lt filled.1.bat_size_cnt filled.0 filled.1.bat_wr_idx b_valid.wr_in in
          (
            filled.0,
            SameSlots-IsValid filled.1 d b_valid (omega (arith, moved, wr_in)) same,
            moved ∙ ap₂ (λ x y. advance x filled.0 y) z w,
            omega (arith, s, z, space-lt filled.1 b_valid),
            (λ j x. SameSlots-Armed filled.1 d _ same (
                subst (λ q. Armed filled.1 (bat_idx q bat.bat_wr_idx j)) (sym same.0) (armed j x))),
            same.0 ∙ z,
          )

      by_space :
          (c : Bool)
          → buf_cnt ≤ bat.bat_size_cnt
          → (if c
              then (fail enomem, bat)
              else commit alloc_skb map_single que_started snd_hw_bat_cnt get_bat_wr_idx initial
                  filled)
            ≡ (ok, d)
          → Given bat d
      by_space true c k = absurd (fail-ok enomem (ap (λ r. r.0) k))
      by_space false c k = given c k

      by_count :
          (c : Bool)
          → (buf_cnt == 0 || ltb bat.bat_size_cnt buf_cnt) ≡ c
          → (if c
              then (fail einval, bat)
              else if ltb (space bat) buf_cnt
              then (fail enomem, bat)
              else commit alloc_skb map_single que_started snd_hw_bat_cnt get_bat_wr_idx initial
                  filled)
            ≡ (ok, d)
          → Given bat d
      by_count true e k = absurd (fail-ok einval (ap (λ r. r.0) k))
      by_count false e k = by_space (ltb (space bat) buf_cnt) (ground arith) k

  -- When giving buffers to the modem succeeds on a valid ring, the ring is valid again and its write
  -- index has moved on by fewer slots than the ring has.
  pub rx_buf_alloc-IsValid :
      (bat d : BatRequest) (buf_cnt : ℕ) (initial : Bool)
      → IsValid bat
      → rx_buf_alloc alloc_skb map_single que_started snd_hw_bat_cnt get_bat_wr_idx buf_cnt initial
          bat
        ≡ (ok, d)
      → IsValid d
        × (n : ℕ) × (n < bat.bat_size_cnt)
        × (d.bat_wr_idx ≡ advance bat.bat_size_cnt n bat.bat_wr_idx)
  unfolding Given
  rx_buf_alloc-IsValid bat d buf_cnt initial v h =
      let (n, valid, wr, l, armed, z) = rx_buf_alloc-Given bat d buf_cnt initial v h in
      (valid, n, l, wr)

  -- When giving buffers to the modem succeeds on a valid ring, every entry between the old and the new
  -- write index, around the end of the ring, has a buffer, and the modem's table holds the bus address
  -- of that buffer: no entry handed over is empty or stale.
  pub rx_buf_alloc-Armed :
      (bat d : BatRequest) (buf_cnt : ℕ) (initial : Bool) (j : ℕ)
      → IsValid bat
      → rx_buf_alloc alloc_skb map_single que_started snd_hw_bat_cnt get_bat_wr_idx buf_cnt initial
          bat
        ≡ (ok, d)
      → j < rd_wr_count bat.bat_size_cnt bat.bat_wr_idx d.bat_wr_idx read
      → Armed d (bat_idx bat.bat_size_cnt bat.bat_wr_idx j)
  unfolding Given
  rx_buf_alloc-Armed bat d buf_cnt initial j v h l =
      let (n, valid, wr, n_in, armed, z) = rx_buf_alloc-Given bat d buf_cnt initial v h in
      let count =
        (advance-rd_wr_count bat.bat_size_cnt bat.bat_wr_idx d.bat_wr_idx v.small v.wr_in
            (omega (arith, z, valid.wr_in))).1
          n n_in (sym wr) in
      subst (λ q. Armed d (bat_idx q bat.bat_wr_idx j)) z (armed j (omega (arith, count)))
