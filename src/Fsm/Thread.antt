-- ===== src/Fsm/Thread.antt =====
-- The state machine's thread, and the entry points of the interrupt handlers.
use mtk_t7xx_fix.Prelude.{
  ℕ, ◌+◌, Bool, true, Option, none, some, List, [], ◌∷◌, ◌==◌, field_get, field_prep, if◌then◌else◌,
  Ret, fail, einval,
}
use mtk_t7xx_fix.Fsm.State.{
  FsmState, stopped, CmdId, cmd_invalid, cmd_start, cmd_exception, cmd_pre_stop, cmd_stop, MdState,
  md_invalid, MdIrqType, irq_wdt, irq_ccif_ex, irq_port_enum, Ctl, cmd_at,
}
use mtk_t7xx_fix.Fsm.Queues.{finish_command, flush_event_cmd_qs, queue_cmd}
use mtk_t7xx_fix.Fsm.Routines.{
  Env, ExReason, hs_timeout, ex_event, ex_other, routine_stopped, routine_stopping,
  routine_exception, routine_start,
}

-- FIELD_GET(FSM_CMD_EX_REASON, flag) as the reason that it stands for.
unfoldable pub reason_of : ℕ → ExReason
reason_of flag =
    let reason = field_get 16 8 flag in
    if reason == 0 then hs_timeout else if reason == 1 then ex_event else ex_other

-- `switch (cmd->cmd_id)` of fsm_main_thread.
unfoldable pub run_command : Env → CmdId → ℕ → Ctl → Ctl
run_command env cmd_start p ctl = routine_start env p ctl
run_command env cmd_exception p ctl =
    routine_exception env (some p) (reason_of (cmd_at ctl p).flag) ctl
run_command env cmd_pre_stop p ctl = routine_stopping env p ctl
run_command env cmd_stop p ctl = routine_stopped env p ctl
run_command env cmd_invalid p ctl = flush_event_cmd_qs (finish_command ctl p (fail einval))

-- A round of the thread: with no command it sleeps on.
unfoldable pub take_command : Env → List ℕ → Ctl → Ctl
take_command env [] ctl = ctl
take_command env (p ∷ rest) ctl =
    run_command env (cmd_at ctl p).cmd_id p (record ctl { command_queue = rest })

unfoldable pub main_step : Env → Ctl → Ctl
main_step env ctl = take_command env ctl.command_queue ctl

-- FSM_CMD_FLAG_IN_INTERRUPT, and with the reason EXCEPTION_EVENT.
abbrev pub flag_in_interrupt : ℕ
flag_in_interrupt = 4

abbrev pub flag_exception_event : ℕ
flag_exception_event = flag_in_interrupt + field_prep 16 8 1

unfoldable pub recv_md_intr : Bool → MdIrqType → Ctl → Ret × Ctl
recv_md_intr alloc irq_port_enum ctl = queue_cmd alloc cmd_start flag_in_interrupt ctl
recv_md_intr alloc irq_ccif_ex ctl =
    queue_cmd alloc cmd_exception flag_exception_event (record ctl { exp_flg = true })
recv_md_intr alloc irq_wdt ctl = (fail einval, ctl)

-- `none` is a NULL pointer.
unfoldable pub get_md_state : Option Ctl → MdState
get_md_state none = md_invalid
get_md_state (some ctl) = ctl.md_state

unfoldable pub get_ctl_state : Option Ctl → FsmState
get_ctl_state none = stopped
get_ctl_state (some ctl) = ctl.curr_state
