-- ===== src/DpmaifRx/Refused.antt =====
-- The error path of t7xx_dpmaif_rx_buf_alloc (src/t7xx_hif_dpmaif_rx.c) when the hardware refuses the
-- new entries.
use mtk_t7xx_fix.Prelude.{
  ℕ, zero, suc, ◌≤◌, ◌<◌, ◌≡◌, ◌≢◌, refl, sym, ap, ap₂, ◌∙◌, arith, Bool, true, false, length,
  length-set, get_or-set_self, get_or-set_ne, Option, none, some, List, [], ◌∷◌, ◌++◌, append_assoc,
  Option-cases, inl, inr, ℕ_discrete, Ret, fail, Errno, ltb, leb, ◌==◌, ◌||◌,
}
use mtk_t7xx_fix.Ring.{write, rd_wr_count, advance}
use mtk_t7xx_fix.DpmaifRx.State.{
  BatSkb, BatRequest, Call, dma_unmap_single, dev_kfree_skb, skb_at, no_skb, call,
  dl_snd_hw_bat_cnt,
}
use mtk_t7xx_fix.DpmaifRx.Bat.{
  fill_from, notify_hw, commit, rx_buf_alloc, unmap_bat_skb, unmap_skbs,
}
use mtk_t7xx_fix.DpmaifRx.Index.{IsValid, space, space-lt, update_bat_wr_idx_lem}
use mtk_t7xx_fix.DpmaifRx.Loop.{Filled, fill_from-Filled}

-- Only entry `k` changes, and no index.
Cleared : ℕ → BatRequest → BatRequest → Type 0
Cleared k a b =
    ((skb_at b k).skb ≡ none)
    × ((j : ℕ) → k ≢ j → skb_at b j ≡ skb_at a j)
    × (b.bat_wr_idx ≡ a.bat_wr_idx)
    × (length b.bat_skb ≡ length a.bat_skb)

-- The calls that give up the buffer of an entry, the latest first.
abbrev pub given_up : BatSkb → List Call
given_up s = elim s.skb [
  | none ↦ []
  | some id ↦ dev_kfree_skb id ∷ dma_unmap_single s.data_bus_addr s.data_len ∷ []
]

-- The same for the first `n` entries of a ring, from the last of them to the first.
abbrev pub first_given_up : ℕ → BatRequest → List Call
first_given_up zero bat = []
first_given_up (suc n) bat = first_given_up n bat ++ given_up (skb_at bat n)

first_given_up-same :
    (n : ℕ) (a b : BatRequest)
    → ((j : ℕ) → j < n → skb_at a j ≡ skb_at b j)
    → first_given_up n a ≡ first_given_up n b
first_given_up-same zero a b h = refl
first_given_up-same (suc n) a b h =
    ap₂ (λ x y. x ++ given_up y) (first_given_up-same n a b (λ j l. h j (omega arith)))
      (h n (omega arith))

unmap_bat_skb-calls :
    (bat : BatRequest) (k : ℕ) → (unmap_bat_skb bat k).calls ≡ given_up (skb_at bat k) ++ bat.calls
unfolding unmap_bat_skb
unmap_bat_skb-calls bat k = elim (Option-cases (skb_at bat k).skb) [
  | inl e ↦ rw (unmap_bat_skb, given_up, e) refl
  | inr e ↦ rw (unmap_bat_skb, given_up, e.1) refl
]

unmap_bat_skb-Cleared :
    (bat : BatRequest) (k : ℕ) → k < length bat.bat_skb → Cleared k bat (unmap_bat_skb bat k)
unfolding unmap_bat_skb Cleared
unmap_bat_skb-Cleared bat k h = elim (Option-cases (skb_at bat k).skb) [
  | inl e ↦ rw (unmap_bat_skb, e) (e, (λ j n. refl), refl, refl)
  | inr e ↦
      rw (unmap_bat_skb, e.1)
        (
          ap (λ x. x.skb) (get_or-set_self bat.bat_skb k _ no_skb h),
          (λ j n. get_or-set_ne bat.bat_skb k j _ no_skb n),
          refl,
          length-set bat.bat_skb k _,
        )
]

unmap_skbs-kept :
    (n : ℕ) (bat : BatRequest)
    → n ≤ length bat.bat_skb
    → ((unmap_skbs n bat).bat_wr_idx ≡ bat.bat_wr_idx)
      × ((j : ℕ) → n ≤ j → skb_at (unmap_skbs n bat) j ≡ skb_at bat j)
unfolding unmap_skbs Cleared
unmap_skbs-kept zero bat h = (refl, λ j l. refl)
unmap_skbs-kept (suc n) bat h =
    let c = unmap_bat_skb-Cleared bat n h in
    let (w, same) = unmap_skbs-kept n (unmap_bat_skb bat n) (omega (arith, c.3)) in
    (w ∙ c.2, λ j l. same j (omega arith) ∙ c.1 j (omega arith))

unmap_skbs-none :
    (n : ℕ) (bat : BatRequest) (j : ℕ)
    → n ≤ length bat.bat_skb
    → j < n
    → (skb_at (unmap_skbs n bat) j).skb ≡ none
unfolding unmap_skbs Cleared
unmap_skbs-none zero bat j h l = absurd (omega arith)
unmap_skbs-none (suc n) bat j h l =
    let c = unmap_bat_skb-Cleared bat n h in
    elim (ℕ_discrete j n) [
      | yes q ↦
          ap (λ x. x.skb)
            ((unmap_skbs-kept n (unmap_bat_skb bat n) (omega (arith, c.3))).1 j (omega arith))
          ∙ ap (λ z. (skb_at (unmap_bat_skb bat n) z).skb) q
          ∙ c.0
      | no x ↦ unmap_skbs-none n (unmap_bat_skb bat n) j (omega (arith, c.3)) (omega arith)
    ]

unmap_skbs-calls :
    (n : ℕ) (bat : BatRequest)
    → n ≤ length bat.bat_skb
    → (unmap_skbs n bat).calls ≡ first_given_up n bat ++ bat.calls
unfolding unmap_skbs Cleared
unmap_skbs-calls zero bat h = refl
unmap_skbs-calls (suc n) bat h =
    let c = unmap_bat_skb-Cleared bat n h in
    unmap_skbs-calls n (unmap_bat_skb bat n) (omega (arith, c.3))
    ∙ ap₂ (λ x y. x ++ y)
        (first_given_up-same n (unmap_bat_skb bat n) bat (λ j l. c.1 j (λ e. omega (arith, e))))
        (unmap_bat_skb-calls bat n)
    ∙ sym (append_assoc (first_given_up n bat) (given_up (skb_at bat n)) bat.calls)

module _ (alloc_skb : ℕ → Option ℕ) (map_single : ℕ → Option ℕ) (snd_hw_bat_cnt : ℕ → Ret)
    (get_bat_wr_idx : ℕ → ℕ) where
  abbrev pub alloc_started : ℕ → Bool → BatRequest → Ret × BatRequest
  alloc_started = rx_buf_alloc alloc_skb map_single true snd_hw_bat_cnt get_bat_wr_idx

  -- The loop's result for a request.
  abbrev pub filled_by : ℕ → BatRequest → ℕ × BatRequest
  filled_by buf_cnt bat = fill_from alloc_skb map_single buf_cnt 0 bat.bat_wr_idx bat

  -- The ring that the hardware is told of, before the error path.
  abbrev told : ℕ → BatRequest → BatRequest
  told n b =
      call (record b { bat_wr_idx = advance b.bat_size_cnt n b.bat_wr_idx }) (dl_snd_hw_bat_cnt n)

  commit_refused :
      (n : ℕ) (b : BatRequest) (e : Errno)
      → IsValid b
      → 0 < n
      → n ≤ space b
      → n ≤ b.bat_size_cnt
      → snd_hw_bat_cnt n ≡ fail e
      → commit alloc_skb map_single true snd_hw_bat_cnt get_bat_wr_idx false (n, b)
        ≡ (fail e, unmap_skbs n (told n b))
  unfolding commit notify_hw
  commit_refused n b e v pos free c refused =
      rw (zero_test, update_bat_wr_idx_lem b n v c, free_test, refused)
    where
      zero_test : (n == 0) ≡ false
      zero_test = ground arith

      free_test : leb n (space b) ≡ true
      free_test = ground arith

  rx_buf_alloc-commit :
      (bat : BatRequest) (buf_cnt : ℕ)
      → 0 < buf_cnt
      → buf_cnt ≤ space bat
      → buf_cnt ≤ bat.bat_size_cnt
      → alloc_started buf_cnt false bat
        ≡ commit alloc_skb map_single true snd_hw_bat_cnt get_bat_wr_idx false
            (filled_by buf_cnt bat)
  unfolding rx_buf_alloc
  rx_buf_alloc-commit bat buf_cnt pos free c = rw (count_test, free_test)
    where
      count_test : (buf_cnt == 0 || ltb bat.bat_size_cnt buf_cnt) ≡ false
      count_test = ground arith

      free_test : ltb (space bat) buf_cnt ≡ false
      free_test = ground arith

  -- On a valid ring of a started queue with enough free entries, when the loop has filled some entries
  -- and the hardware refuses them, the call returns the hardware's error, but the write index stays
  -- moved on over them, and the buffers that it unmaps and frees, one call each, from the last to the
  -- first, are those of the first entries of the ring, as many as the loop has filled, wherever in the
  -- ring it has filled them; these entries are without a buffer then, and all entries behind those keep
  -- theirs.
  pub rx_buf_alloc_refused :
      (bat : BatRequest) (buf_cnt : ℕ) (e : Errno) (j k : ℕ)
      → IsValid bat
      → 0 < buf_cnt
      → buf_cnt ≤ space bat
      → 0 < (filled_by buf_cnt bat).0
      → snd_hw_bat_cnt (filled_by buf_cnt bat).0 ≡ fail e
      → j < (filled_by buf_cnt bat).0
      → (filled_by buf_cnt bat).0 ≤ k
      → ((alloc_started buf_cnt false bat).0 ≡ fail e)
        × ((alloc_started buf_cnt false bat).1.bat_wr_idx
            ≡ advance bat.bat_size_cnt (filled_by buf_cnt bat).0 bat.bat_wr_idx)
        × ((skb_at (alloc_started buf_cnt false bat).1 j).skb ≡ none)
        × (skb_at (alloc_started buf_cnt false bat).1 k ≡ skb_at (filled_by buf_cnt bat).1 k)
        × ((alloc_started buf_cnt false bat).1.calls
            ≡ first_given_up (filled_by buf_cnt bat).0 (filled_by buf_cnt bat).1
              ++ (dl_snd_hw_bat_cnt (filled_by buf_cnt bat).0 ∷ (filled_by buf_cnt bat).1.calls))
  unfolding Filled
  rx_buf_alloc_refused bat buf_cnt e j k v pos free some_filled refused j_in k_out =
      let n = (filled_by buf_cnt bat).0 in
      let b = (filled_by buf_cnt bat).1 in
      let in_ring = space-lt bat v in
      let (z, w, r, l, m, most, armed) =
        fill_from-Filled alloc_skb map_single buf_cnt 0 bat.bat_wr_idx bat v.small v.wr_in
          (omega (arith, in_ring)) v.skbs v.entries (λ x y. absurd (omega arith)) in
      let b_valid : IsValid b = record {
        small = omega (arith, z, v.small);
        wr_in = omega (arith, z, w, v.wr_in);
        rd_in = omega (arith, z, r, v.rd_in);
        skbs = l ∙ v.skbs ∙ sym z;
        entries = m ∙ v.entries ∙ sym z;
      } in
      let same_space : space b ≡ space bat =
        ap₂ (λ x y. rd_wr_count x y b.bat_wr_idx write) z r
        ∙ ap (λ y. rd_wr_count bat.bat_size_cnt bat.bat_release_rd_idx y write) w in
      let whole =
        rx_buf_alloc-commit bat buf_cnt pos free (omega (arith, in_ring))
        ∙ commit_refused n b e b_valid some_filled (omega (arith, most, same_space))
            (omega (arith, most, in_ring, z)) refused in
      let short : n ≤ length b.bat_skb = omega (arith, l, v.skbs, most, in_ring) in
      let kept = unmap_skbs-kept n (told n b) short in
      (
        ap (λ x. x.0) whole,
        ap (λ x. x.1.bat_wr_idx) whole ∙ kept.0 ∙ ap₂ (λ x y. advance x n y) z w,
        ap (λ x. (skb_at x.1 j).skb) whole ∙ unmap_skbs-none n (told n b) j short j_in,
        ap (λ x. skb_at x.1 k) whole ∙ kept.1 k k_out,
        ap (λ x. x.1.calls) whole
            ∙ unmap_skbs-calls n (told n b) short
            ∙ ap (λ l. l ++ (dl_snd_hw_bat_cnt n ∷ b.calls))
                (first_given_up-same n (told n b) b (λ i h. refl)),
      )
