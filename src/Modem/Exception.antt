-- ===== src/Modem/Exception.antt =====
-- The recovery from a modem exception, src/t7xx_modem_ops.c: both CLDMA controllers are stopped, cleared
-- and started again, in step with the modem.
use mtk_t7xx_fix.Prelude.{
  ℕ, zero, suc, ◌==◌, List, [], ◌∷◌, Ret, ok, fail, efault, test_bit, if◌then◌else◌,
}
use mtk_t7xx_fix.Cldma.State.{Ctrl, tx, rx, hw, hw_init, hw_reset}
use mtk_t7xx_fix.Cldma.Rx.{Alloc}
use mtk_t7xx_fix.Cldma.Ctrl.{stop, start, clear_all_qs, stop_all_qs}

-- `enum hif_ex_stage`.
pub data ExStage : Type 0 where
  ex_init ex_init_done ex_clearq_done ex_allq_reset : ExStage

-- What the recovery calls, beside the controllers: t7xx_port_proxy_reset and
-- t7xx_mhccif_h2d_swint_trigger with its channel.
pub data Sign : Type 0 where
  port_proxy_reset : Sign
  h2d_swint_trigger : ℕ → Sign

-- The two controllers of `struct t7xx_modem`, and the calls made, the latest first.
pub record Hif : Type 0 where
  pub md : Ctrl
  pub ap : Ctrl
  pub signs : List Sign

-- H2D_CH_EXCEPTION_ACK and H2D_CH_EXCEPTION_CLEARQ_ACK.
abbrev pub ch_exception_ack : ℕ
ch_exception_ack = 1

abbrev pub ch_exception_clearq_ack : ℕ
ch_exception_clearq_ack = 2

-- What a controller is told while it recovers: whether its queues stop in time, and the answers of the
-- allocators for each receive queue.
pub record Recovery : Type 0 where
  pub polled : Ret
  pub allocs : ℕ → List Alloc

unfoldable pub cldma_exception : Recovery → ExStage → Ctrl → Ctrl
unfolding stop_all_qs clear_all_qs stop start
cldma_exception env ex_init c = clear_all_qs env.allocs tx (stop_all_qs tx c)
cldma_exception env ex_clearq_done c =
    let c₁ = (stop env.polled (stop_all_qs rx c)).1 in
    clear_all_qs env.allocs rx (if c.hif_id == 0 then hw c₁ hw_reset else c₁)
cldma_exception env ex_allq_reset c = start (hw c hw_init)
cldma_exception env ex_init_done c = c

abbrev pub sign : Sign → Hif → Hif
sign s h = record h { signs = s ∷ h.signs }

abbrev pub both : Recovery → Recovery → ExStage → Hif → Hif
unfolding cldma_exception
both md ap stage h = record h {
  md = cldma_exception md stage h.md;
  ap = cldma_exception ap stage h.ap;
}

-- t7xx_md_exception.
unfoldable pub md_exception : Recovery → Recovery → ExStage → Hif → Hif
unfolding both
md_exception md ap ex_init h = sign (h2d_swint_trigger ch_exception_ack) (both md ap ex_init h)
md_exception md ap ex_clearq_done h =
    sign (h2d_swint_trigger ch_exception_clearq_ack)
      (both md ap ex_clearq_done (sign port_proxy_reset h))
md_exception md ap ex_init_done h = both md ap ex_init_done h
md_exception md ap ex_allq_reset h = both md ap ex_allq_reset h

-- EX_HS_TIMEOUT_MS / EX_HS_POLL_DELAY_MS.
abbrev pub ex_polls : ℕ
ex_polls = 500

-- `exp_id` gives the pending interrupts when so many polls are left; `event` is a bit of it.
unfoldable pub wait_hif_ex_hk_event : (ℕ → ℕ) → ℕ → ℕ → Ret
wait_hif_ex_hk_event exp_id event zero = fail efault
wait_hif_ex_hk_event exp_id event (suc polls) =
    let rest = wait_hif_ex_hk_event exp_id event polls in
    if test_bit event (exp_id polls) then ok else rest

-- A wait that fails is only logged, so the recovery goes on either way. With the results of the three
-- waits; the bits 2, 3 and 4 are those of the modem's answers.
unfoldable pub exception_handshake : Recovery → Recovery → (ExStage → ℕ → ℕ) → Hif → List Ret × Hif
unfolding md_exception wait_hif_ex_hk_event
exception_handshake md ap exp_id h =
    let h₁ = md_exception md ap ex_init h in
    let r₁ = wait_hif_ex_hk_event (exp_id ex_init) 2 ex_polls in
    let h₂ = md_exception md ap ex_init_done h₁ in
    let r₂ = wait_hif_ex_hk_event (exp_id ex_init_done) 3 ex_polls in
    let h₃ = md_exception md ap ex_clearq_done h₂ in
    let r₃ = wait_hif_ex_hk_event (exp_id ex_clearq_done) 4 ex_polls in
    (r₁ ∷ r₂ ∷ r₃ ∷ [], md_exception md ap ex_allq_reset h₃)
