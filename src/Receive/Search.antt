-- ===== src/Receive/Search.antt =====
-- A search that does what the kernel documents of find_next_zero_bit, for the tests of the functions of
-- src/t7xx_hif_dpmaif_rx.c that use it.
use mtk_t7xx_fix.Prelude.{
  ℕ, zero, suc, ◌+◌, ◌-◌, ◌≡◌, ap, ◌∙◌, arith, Bool, false, List, get_or, Bool-cases, inl, inr,
  if◌then◌else◌, ℕ_discrete,
}
use mtk_t7xx_fix.Receive.Refilled.{IsFirstZero, FindsZero}

-- So many positions are still to be looked at.
unfoldable pub scan : List Bool → ℕ → ℕ → ℕ
scan bits zero i = i
scan bits (suc more) i =
    let rest = scan bits more (suc i) in if get_or bits i false then rest else i

scan-IsFirstZero :
    (bits : List Bool) (more i size : ℕ)
    → i + more ≡ size
    → IsFirstZero bits size i (scan bits more i)
unfolding scan
scan-IsFirstZero bits zero i size e =
    (omega arith, omega arith, (λ j h l. absurd (omega arith)), (λ h. absurd (omega arith)))
scan-IsFirstZero bits (suc more) i size e = elim (Bool-cases (get_or bits i false)) [
  | inr clear ↦ rw clear (omega arith, omega arith, (λ j h l. absurd (omega arith)), (λ h. clear))
  | inl marked ↦
      let (from, upto, run, stop) = scan-IsFirstZero bits more (suc i) size (omega arith) in
      rw marked (
        omega (arith, from),
        upto,
        (λ j h l. elim (ℕ_discrete j i) [
          | yes q ↦ ap (λ k. get_or bits k false) q ∙ marked
          | no n ↦ run j (omega arith) l
        ]),
        stop,
      )
]

unfoldable pub find_zero : List Bool → ℕ → ℕ → ℕ
unfolding scan
find_zero bits size from = scan bits (size - from) from

pub find_zero-FindsZero : FindsZero find_zero
unfolding find_zero
find_zero-FindsZero bits size from h = scan-IsFirstZero bits (size - from) from size (omega arith)
