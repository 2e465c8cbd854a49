-- ===== src/DpmaifRx/Buffers.antt =====
-- What t7xx_dpmaif_rx_buf_alloc (src/t7xx_hif_dpmaif_rx.c) gives to the modem, and what its error path
-- takes back.
use mtk_t7xx_fix.Prelude.{
  fail-ok, ℕ, ◌≤◌, ◌≡◌, refl, sym, ap, ◌∙◌, Bool, true, false, leb, Bool-cases, ◌⊎◌, inl, inr,
  Option, subst, if◌then◌else◌, Ret, ok, fail, Errno, Ret-cases, ◌==◌, einval, enomem, leb→le,
}
use mtk_t7xx_fix.Ring.{advance}
use mtk_t7xx_fix.DpmaifRx.State.{BatRequest}
use mtk_t7xx_fix.DpmaifRx.Bat.{update_bat_wr_idx, notify_hw, or_unmap, then_notify, commit}
use mtk_t7xx_fix.DpmaifRx.Index.{IsValid, space, update_bat_wr_idx_lem}

update_bat_wr_idx_stopped :
    (n : ℕ) (bat : BatRequest) → update_bat_wr_idx false n bat ≡ (fail einval, bat)
unfolding update_bat_wr_idx
update_bat_wr_idx_stopped n bat = refl

-- The write index moves on over free entries, or nothing changes.
update_bat_wr_idx_cases :
    (q : Bool) (bat : BatRequest) (n : ℕ)
    → IsValid bat
    → n ≤ bat.bat_size_cnt
    → ((n ≤ space bat)
        × (update_bat_wr_idx q n bat
            ≡ (ok, record bat { bat_wr_idx = advance bat.bat_size_cnt n bat.bat_wr_idx })))
      ⊎ ((e : Errno) × (update_bat_wr_idx q n bat ≡ (fail e, bat)))
update_bat_wr_idx_cases true bat n v c = elim (Bool-cases (leb n (space bat))) [
  | inl e ↦ inl (leb→le n (space bat) e, rw (update_bat_wr_idx_lem bat n v c, e))
  | inr e ↦ inr (einval, rw (update_bat_wr_idx_lem bat n v c, e))
]
update_bat_wr_idx_cases false bat n v c = inr (einval, update_bat_wr_idx_stopped n bat)

-- The ring but for its write index and the calls.
abbrev pub SameSlots : BatRequest → BatRequest → Type 0
SameSlots a d =
    (d.bat_size_cnt ≡ a.bat_size_cnt)
    × (d.bat_release_rd_idx ≡ a.bat_release_rd_idx)
    × (d.bat_skb ≡ a.bat_skb)
    × (d.bat_base ≡ a.bat_base)

module _ (alloc_skb : ℕ → Option ℕ) (map_single : ℕ → Option ℕ) (que_started : Bool)
    (snd_hw_bat_cnt : ℕ → Ret) (get_bat_wr_idx : ℕ → ℕ) where
  Notified : BatRequest → Ret × BatRequest → Type 0
  Notified a r = (r.1.bat_wr_idx ≡ a.bat_wr_idx) × SameSlots a r.1

  notify_hw-Notified :
      (initial : Bool) (n : ℕ) (a : BatRequest)
      → Notified a
          (notify_hw alloc_skb map_single que_started snd_hw_bat_cnt get_bat_wr_idx initial n a)
  unfolding notify_hw Notified
  notify_hw-Notified true n a = (refl, (refl, refl, refl, refl))
  notify_hw-Notified false n a = elim (Ret-cases (snd_hw_bat_cnt n)) [
    | inl e ↦ elim (Bool-cases (get_bat_wr_idx n == a.bat_wr_idx)) [
      | inl f ↦ rw (notify_hw, e, f) (refl, (refl, refl, refl, refl))
      | inr f ↦ rw (notify_hw, e, f) (refl, (refl, refl, refl, refl))
    ]
    | inr e ↦ rw (notify_hw, e.1) (refl, (refl, refl, refl, refl))
  ]

  or_unmap-ok :
      (n : ℕ) (d : BatRequest) (a : Ret × BatRequest)
      → or_unmap alloc_skb map_single que_started snd_hw_bat_cnt get_bat_wr_idx n a ≡ (ok, d)
      → a ≡ (ok, d)
  or_unmap-ok n d (ok, b) h = h
  or_unmap-ok n d (fail e, b) h = absurd (fail-ok e (ap (λ r. r.0) h))

  -- What a successful call leaves of the ring after the loop.
  unfoldable pub Committed : ℕ → BatRequest → BatRequest → Type 0
  Committed n b d =
      (n ≤ space b) × (d.bat_wr_idx ≡ advance b.bat_size_cnt n b.bat_wr_idx) × SameSlots b d

  pub commit-Committed :
      (initial : Bool) (n : ℕ) (b d : BatRequest)
      → IsValid b
      → n ≤ b.bat_size_cnt
      → commit alloc_skb map_single que_started snd_hw_bat_cnt get_bat_wr_idx initial (n, b)
        ≡ (ok, d)
      → Committed n b d
  unfolding commit Committed Notified
  commit-Committed initial n b d v c h = go (n == 0) h
    where
      update : Ret × BatRequest
      update = update_bat_wr_idx que_started n b

      moved : BatRequest
      moved = record b { bat_wr_idx = advance b.bat_size_cnt n b.bat_wr_idx }

      finish :
          (a : Ret × BatRequest)
          → update ≡ a
          → or_unmap alloc_skb map_single que_started snd_hw_bat_cnt get_bat_wr_idx n (
              then_notify alloc_skb map_single que_started snd_hw_bat_cnt get_bat_wr_idx initial n
                a)
            ≡ (ok, d)
          → Committed n b d
      finish (fail e, x) q k = absurd (fail-ok e (ap (λ r. r.0) (or_unmap-ok n d _ k)))
      finish (ok, x) q k = elim (update_bat_wr_idx_cases que_started b n v c) [
        | inl m ↦
            let note = notify_hw-Notified initial n x in
            let at_d = subst (λ r. Notified x r) (or_unmap-ok n d _ k) note in
            let x_moved : x ≡ moved = ap (λ r. r.1) (sym q ∙ m.1) in
            subst (λ y. Notified y (ok, d) → Committed n b d) (sym x_moved)
              (λ nt. (m.0, nt.0, nt.1)) at_d
        | inr m ↦ absurd (fail-ok m.0 (ap (λ r. r.0) (sym m.1 ∙ q)))
      ]

      go :
          (z : Bool)
          → (if z
              then (fail enomem, b)
              else or_unmap alloc_skb map_single que_started snd_hw_bat_cnt get_bat_wr_idx n (
                  then_notify alloc_skb map_single que_started snd_hw_bat_cnt get_bat_wr_idx initial
                    n update))
            ≡ (ok, d)
          → Committed n b d
      go true k = absurd (fail-ok enomem (ap (λ r. r.0) k))
      go false k = finish update refl k
