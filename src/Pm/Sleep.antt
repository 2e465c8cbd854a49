-- ===== src/Pm/Sleep.antt =====
-- The deep sleep lock of src/t7xx_pci.c.
use mtk_t7xx_fix.Prelude.{
  ℕ, ◌+◌, ◌<◌, ◌≡◌, refl, sym, ap, ◌∙◌, arith, Bool, true, false, not, List, [], ◌∷◌, ◌==◌,
  if◌then◌else◌, if-by, u32, sub32,
}
use mtk_t7xx_fix.Pm.State.{
  pm_resumed, PmCall, set_sleep_capability, swint_ds_lock, Dev, call, before_resumed,
}

-- `locked` is the resource status that the device shows.
unfoldable pub disable_sleep : Bool → Dev → Dev
disable_sleep locked d =
    let d₁ = record d { sleep_disable_count = u32 (d.sleep_disable_count + 1) } in
    let d₂ = call (set_sleep_capability false) (record d₁ { sleep_lock = false }) in
    if before_resumed d.pm_state
    then record d₁ { sleep_lock = true }
    else if not (d₁.sleep_disable_count == 1)
    then d₁
    else if locked
    then record d₂ { sleep_lock = true }
    else call swint_ds_lock d₂

unfoldable pub enable_sleep : Dev → Dev
enable_sleep d =
    let d₁ = record d { sleep_disable_count = sub32 d.sleep_disable_count 1 } in
    if before_resumed d.pm_state
    then d₁
    else if d₁.sleep_disable_count == 0
    then call (set_sleep_capability true) d₁
    else d₁

-- The device may sleep: what was last written.
abbrev pub may_sleep : List PmCall → Bool
may_sleep [] = true
may_sleep (set_sleep_capability b ∷ cs) = b
may_sleep (_ ∷ cs) = may_sleep cs

-- The device may sleep exactly when nobody holds the lock.
abbrev pub InStep : Dev → Type 0
InStep d = may_sleep d.calls ≡ (d.sleep_disable_count == 0)

pub disable_sleep-count :
    (locked : Bool) (d : Dev)
    → (disable_sleep locked d).sleep_disable_count ≡ u32 (d.sleep_disable_count + 1)
unfolding disable_sleep
disable_sleep-count locked d =
    let P : Dev → Type 0 = λ x. x.sleep_disable_count ≡ u32 (d.sleep_disable_count + 1) in
    if-by P (before_resumed d.pm_state) _ _ (λ _. refl)
      (λ _.
        if-by P (not (u32 (d.sleep_disable_count + 1) == 1)) _ _ (λ _. refl)
          (λ _. if-by P locked _ _ (λ _. refl) (λ _. refl)))

pub enable_sleep-count :
    (d : Dev) → (enable_sleep d).sleep_disable_count ≡ sub32 d.sleep_disable_count 1
unfolding enable_sleep
enable_sleep-count d =
    let P : Dev → Type 0 = λ x. x.sleep_disable_count ≡ sub32 d.sleep_disable_count 1 in
    if-by P (before_resumed d.pm_state) _ _ (λ _. refl)
      (λ _. if-by P (sub32 d.sleep_disable_count 1 == 0) _ _ (λ _. refl) (λ _. refl))

-- Facts on the count.
still_held : (n : ℕ) → n < 4294967295 → not (u32 (n + 1) == 1) ≡ true → n == 0 ≡ (u32 (n + 1) == 0)
still_held n b c = ground arith

now_held : (n : ℕ) → n < 4294967295 → false ≡ (u32 (n + 1) == 0)
now_held n b = ground arith

held_before :
    (n : ℕ) → 0 < n → n < 4294967295 → (sub32 n 1 == 0) ≡ false → n == 0 ≡ (sub32 n 1 == 0)
held_before n p b c = ground arith

pub there_and_back : (n : ℕ) → n < 4294967295 → sub32 (u32 (n + 1)) 1 ≡ n
there_and_back n b = omega arith

module _ (d : Dev) (resumed : d.pm_state ≡ pm_resumed) (b : d.sleep_disable_count < 4294967295)
    (h : InStep d) where
  not_before : before_resumed d.pm_state ≡ true → ⊥
  not_before e = false-true (sym (ap before_resumed resumed) ∙ e)
    where
      false-true : false ≡ true → ⊥
      false-true x = cc

  disable_sleep-InStep : (locked : Bool) → InStep (disable_sleep locked d)
  unfolding disable_sleep
  disable_sleep-InStep locked =
      if-by InStep (before_resumed d.pm_state) _ _ (λ e. absurd (not_before e))
        (λ _.
          if-by InStep (not (u32 (d.sleep_disable_count + 1) == 1)) _ _
            (λ c. h ∙ still_held d.sleep_disable_count b c)
            (λ _.
              if-by InStep locked _ _ (λ _. now_held d.sleep_disable_count b)
                (λ _. now_held d.sleep_disable_count b)))

  enable_sleep-InStep : 0 < d.sleep_disable_count → InStep (enable_sleep d)
  unfolding enable_sleep
  enable_sleep-InStep p =
      if-by InStep (before_resumed d.pm_state) _ _ (λ e. absurd (not_before e))
        (λ _.
          if-by InStep (sub32 d.sleep_disable_count 1 == 0) _ _ (λ c. sym c)
            (λ c. h ∙ held_before d.sleep_disable_count p b c))

  disable_sleep-resumed : (locked : Bool) → (disable_sleep locked d).pm_state ≡ pm_resumed
  unfolding disable_sleep
  disable_sleep-resumed locked =
      let P : Dev → Type 0 = λ x. x.pm_state ≡ pm_resumed in
      if-by P (before_resumed d.pm_state) _ _ (λ _. resumed)
        (λ _.
          if-by P (not (u32 (d.sleep_disable_count + 1) == 1)) _ _ (λ _. resumed)
            (λ _. if-by P locked _ _ (λ _. resumed) (λ _. resumed)))

-- While the device is resumed and the count of the holders is below 2 ^ 32 - 2: when the device may
-- sleep exactly if nobody holds the lock, then this is so too after the lock was taken and after it was
-- given back, which also brings the count back to what it was.
pub sleep-InStep :
    (locked : Bool) (d : Dev)
    → d.pm_state ≡ pm_resumed
    → d.sleep_disable_count < 4294967294
    → InStep d
    → InStep (disable_sleep locked d)
      × InStep (enable_sleep (disable_sleep locked d))
      × ((enable_sleep (disable_sleep locked d)).sleep_disable_count ≡ d.sleep_disable_count)
sleep-InStep locked d r b h =
    let less : d.sleep_disable_count < 4294967295 = omega arith in
    let taken = disable_sleep-InStep d r less h locked in
    let one_more = disable_sleep-count locked d in
    (
      taken,
      enable_sleep-InStep (disable_sleep locked d) (disable_sleep-resumed d r less h locked)
          (omega (arith, one_more)) taken (omega (arith, one_more)),
      enable_sleep-count (disable_sleep locked d)
          ∙ ap (λ n. sub32 n 1) one_more
          ∙ there_and_back d.sleep_disable_count less,
    )
