-- ===== src/DpmaifRx/Loop.antt =====
-- What the loop of t7xx_dpmaif_rx_buf_alloc (src/t7xx_hif_dpmaif_rx.c) leaves in the entries.
use mtk_t7xx_fix.Prelude.{
  ℕ, zero, suc, ◌+◌, ◌≤◌, ◌<◌, ◌≡◌, ◌≢◌, refl, sym, ap, ap₂, ◌∙◌, arith, Bool, true, false, length,
  length-set, get_or, get_or-set_self, get_or-set_ne, Bool-cases, ◌⊎◌, inl, inr, Option, some,
  Option-cases, subst, ℕ_discrete,
}
use mtk_t7xx_fix.Ring.Count.{max_len}
use mtk_t7xx_fix.DpmaifRx.State.{BatRequest, no_skb, skb_at}
use mtk_t7xx_fix.DpmaifRx.Bat.{bat_idx, alloc_and_map_skb_info, ensure_skb, write_addr, fill_from}

true-false : true ≡ false → ⊥
true-false e = ground arith

-- The entry has a buffer, and the modem's table gives its address.
abbrev pub Armed : BatRequest → ℕ → Type 0
Armed bat k =
    (id : ℕ) × ((skb_at bat k).skb ≡ some id)
    × (get_or bat.bat_base k 0 ≡ (skb_at bat k).data_bus_addr)

-- Only the entry `k` may differ.
abbrev pub Same : ℕ → BatRequest → BatRequest → Type 0
Same k a b =
    (b.bat_size_cnt ≡ a.bat_size_cnt)
    × (b.bat_wr_idx ≡ a.bat_wr_idx)
    × (b.bat_release_rd_idx ≡ a.bat_release_rd_idx)
    × (length b.bat_skb ≡ length a.bat_skb)
    × (length b.bat_base ≡ length a.bat_base)
    × ((j : ℕ)
        → k ≢ j
        → (skb_at b j ≡ skb_at a j) × (get_or b.bat_base j 0 ≡ get_or a.bat_base j 0))

Same-refl : (k : ℕ) (a : BatRequest) → Same k a a
Same-refl k a = (refl, refl, refl, refl, refl, λ j n. (refl, refl))

-- The first `n` entries from `start` on are armed.
abbrev pub ArmedFrom : ℕ → ℕ → BatRequest → Type 0
ArmedFrom n start bat = (j : ℕ) → j < n → Armed bat (bat_idx bat.bat_size_cnt start j)

module _ (alloc_skb : ℕ → Option ℕ) (map_single : ℕ → Option ℕ) where
  -- A slot is given a buffer, or the loop is left.
  Ensured : ℕ → BatRequest → Bool × BatRequest → Type 0
  Ensured k a r = Same k a r.1 × ((r.0 ≡ false) ⊎ ((id : ℕ) × ((skb_at r.1 k).skb ≡ some id)))

  alloc_and_map-Ensured :
      (bat : BatRequest) (k : ℕ)
      → k < length bat.bat_skb
      → Ensured k bat (alloc_and_map_skb_info alloc_skb map_single bat k)
  unfolding alloc_and_map_skb_info Ensured
  alloc_and_map-Ensured bat k h = elim (Option-cases (alloc_skb k)) [
    | inl e ↦ rw (alloc_and_map_skb_info, e) (Same-refl k bat, inl refl)
    | inr e ↦ elim (Option-cases (map_single k)) [
      | inl f ↦ rw (alloc_and_map_skb_info, e.1, f) (Same-refl k bat, inl refl)
      | inr f ↦
          rw (alloc_and_map_skb_info, e.1, f.1)
            (
              (
                refl,
                refl,
                refl,
                length-set bat.bat_skb k _,
                refl,
                λ j n. (get_or-set_ne bat.bat_skb k j _ no_skb n, refl),
              ),
              inr (e.0, ap (λ s. s.skb) (get_or-set_self bat.bat_skb k _ no_skb h)),
            )
    ]
  ]

  ensure_skb-Ensured :
      (bat : BatRequest) (k : ℕ)
      → k < length bat.bat_skb
      → Ensured k bat (ensure_skb alloc_skb map_single bat k)
  unfolding ensure_skb Ensured
  ensure_skb-Ensured bat k h = elim (Option-cases (skb_at bat k).skb) [
    | inl e ↦ rw (ensure_skb, e) (alloc_and_map-Ensured bat k h)
    | inr e ↦ rw (ensure_skb, e.1) (Same-refl k bat, inr (e.0, e.1))
  ]

  -- The loop moves no index and changes no length.
  unfoldable pub Filled : ℕ → ℕ → BatRequest → ℕ × BatRequest → Type 0
  Filled most start a r =
      (r.1.bat_size_cnt ≡ a.bat_size_cnt)
      × (r.1.bat_wr_idx ≡ a.bat_wr_idx)
      × (r.1.bat_release_rd_idx ≡ a.bat_release_rd_idx)
      × (length r.1.bat_skb ≡ length a.bat_skb)
      × (length r.1.bat_base ≡ length a.bat_base)
      × (r.0 ≤ most)
      × ArmedFrom r.0 start r.1

  bat_idx-lt :
      (size start i : ℕ) → size ≤ max_len → start < size → i < size → bat_idx size start i < size
  bat_idx-lt size start i s h k = ground arith

  bat_idx-ne :
      (size start i j : ℕ)
      → size ≤ max_len
      → start < size
      → i < size
      → j < i
      → bat_idx size start i ≢ bat_idx size start j
  bat_idx-ne size start i j s h k l e = ground arith

  -- Armed entries other than the one in turn stay armed.
  Same-ArmedFrom :
      (a b : BatRequest) (i start : ℕ)
      → a.bat_size_cnt ≤ max_len
      → start < a.bat_size_cnt
      → i < a.bat_size_cnt
      → Same (bat_idx a.bat_size_cnt start i) a b
      → ArmedFrom i start a
      → ArmedFrom i start b
  Same-ArmedFrom a b i start s h k e f j l =
      let m = bat_idx a.bat_size_cnt start j in
      let (skb, addr) = e.5 m (bat_idx-ne a.bat_size_cnt start i j s h k l) in
      let (id, has, at) = f j l in
      subst (λ z. Armed b (bat_idx z start j)) (sym e.0)
        (id, ap (λ x. x.skb) skb ∙ has, addr ∙ at ∙ ap (λ x. x.data_bus_addr) (sym skb))

  write_addr-Same :
      (k : ℕ) (a b : BatRequest) → Same k a b → Same k a (write_addr alloc_skb map_single b k)
  write_addr-Same k a b (z, w, r, l, n, f) = (
    z,
    w,
    r,
    l,
    length-set b.bat_base k _ ∙ n,
    λ j d. ((f j d).0, get_or-set_ne b.bat_base k j _ 0 d ∙ (f j d).1),
  )

  -- The entry in turn is armed once its address is written.
  write_addr-ArmedFrom :
      (a b : BatRequest) (i start : ℕ)
      → a.bat_size_cnt ≤ max_len
      → start < a.bat_size_cnt
      → i < a.bat_size_cnt
      → length a.bat_base ≡ a.bat_size_cnt
      → Same (bat_idx a.bat_size_cnt start i) a b
      → (id : ℕ) → (skb_at b (bat_idx a.bat_size_cnt start i)).skb ≡ some id
      → ArmedFrom i start a
      → ArmedFrom (suc i) start (write_addr alloc_skb map_single b (bat_idx a.bat_size_cnt start i))
  write_addr-ArmedFrom a b i start s h k lb e id has f j l =
      let m = bat_idx a.bat_size_cnt start i in
      let d = write_addr alloc_skb map_single b m in
      let m_in = bat_idx-lt a.bat_size_cnt start i s h k in
      elim (ℕ_discrete j i) [
        | yes q ↦
            subst (λ z. Armed d z) (ap₂ (λ x y. bat_idx x start y) (sym e.0) (sym q))
              (id, has, get_or-set_self b.bat_base m _ 0 (omega (arith, m_in, e.4)))
        | no n ↦ Same-ArmedFrom a d i start s h k (write_addr-Same m a b e) f j (omega arith)
      ]

  pub fill_from-Filled :
      (left i start : ℕ) (a : BatRequest)
      → a.bat_size_cnt ≤ max_len
      → start < a.bat_size_cnt
      → i + left ≤ a.bat_size_cnt
      → length a.bat_skb ≡ a.bat_size_cnt
      → length a.bat_base ≡ a.bat_size_cnt
      → ArmedFrom i start a
      → Filled (i + left) start a (fill_from alloc_skb map_single left i start a)
  unfolding fill_from Filled Ensured
  fill_from-Filled zero i start a s h c ls lb f = (refl, refl, refl, refl, refl, omega arith, f)
  fill_from-Filled (suc left) i start a s h c ls lb f =
      let k = bat_idx a.bat_size_cnt start i in
      let b = (ensure_skb alloc_skb map_single a k).1 in
      let d = write_addr alloc_skb map_single b k in
      let k_in = bat_idx-lt a.bat_size_cnt start i s h (omega arith) in
      let ensured = ensure_skb-Ensured a k (omega (arith, k_in)) in
      let same = ensured.0 in
      let same_d = write_addr-Same k a b same in
      let armed_b = Same-ArmedFrom a b i start s h (omega arith) same f in
      let go_on : ((id : ℕ) × ((skb_at b k).skb ≡ some id))
          → Filled (i + suc left) start a (fill_from alloc_skb map_single left (suc i) start d) =
        λ has.
          let (z, w, r, l, n, m, q) =
            fill_from-Filled left (suc i) start d (omega (arith, same_d.0))
              (omega (arith, same_d.0)) (omega (arith, same_d.0)) (same_d.3 ∙ ls ∙ sym same_d.0)
              (same_d.4 ∙ lb ∙ sym same_d.0)
              (write_addr-ArmedFrom a b i start s h (omega arith) lb same has.0 has.1 f) in
          (
            z ∙ same_d.0,
            w ∙ same_d.1,
            r ∙ same_d.2,
            l ∙ same_d.3,
            n ∙ same_d.4,
            omega (arith, m),
            q,
          ) in
      elim (Bool-cases (ensure_skb alloc_skb map_single a k).0) [
        | inl e ↦ elim ensured.1 [
          | inl x ↦ absurd (true-false (sym e ∙ x))
          | inr has ↦ rw e (go_on has)
        ]
        | inr e ↦ rw e (same.0, same.1, same.2, same.3, same.4, omega arith, armed_b)
      ]
