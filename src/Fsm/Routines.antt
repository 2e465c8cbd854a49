-- ===== src/Fsm/Routines.antt =====
-- The routine of each command, and the modem reset that stopping runs.
use mtk_t7xx_fix.Prelude.{
  ℕ, ◌/◌, Bool, true, false, ◌||◌, ◌&&◌, Option, none, some, List, [], ◌==◌, field_get,
  if◌then◌else◌, Ret, ok, fail, einval, etimedout,
}
use mtk_t7xx_fix.Fsm.State.{
  FsmState, init, pre_start, starting, ready, exception, stopping, stopped, EventId, invalid, md_ex,
  md_ex_rec_ok, md_ex_pass, md_hs2_exit, ap_hs2_exit, cmd_start, waiting_for_hs1, waiting_for_hs2,
  md_exception, waiting_to_stop, md_stopped, Mode, unknown, mode_ready, fastboot_download,
  fastboot_dump, Event, SysInfo, event_notify_pre_start, event_notify_start, event_notify_ready,
  cldma_stop_md, cldma_reset_md, cldma_reset_ap, port_proxy_reset, trigger_drm_disable,
  pm_exp_detected, exception_handshake, pm_init_late, set_cfg_early, set_cfg_normal,
  cldma_hw_init_ap, cldma_hw_init_md, cldma_stop_ap, cldma_switch_dedicated, enable_port_0,
  cldma_start_ap, mask_clr_handshake, Ctl, cmd_at, call,
}
use mtk_t7xx_fix.Fsm.Queues.{
  finish_command, queue_cmd, append_event, fsm_reset, Poll, wait_for_event,
}
use mtk_t7xx_fix.Fsm.Notify.{broadcast_state, broadcast_ready_state, update_mode}

-- What a routine reads from outside: the polled device stage, whether the first handshake
-- message has arrived, what the handshake works and the interrupts have set and made of the event queue
-- when the wait for the handshake ends, the polls of the two waits for exception events, and whether
-- allocations succeed.
pub record Env : Type 0 where
  pub stage_poll : Ret
  pub dev_status : ℕ
  pub hs1_received : Bool
  pub core_md : SysInfo
  pub core_ap : SysInfo
  pub exp_flg : Bool
  pub events_after : List Event → List Event
  pub rec_ok_polls : ℕ → Poll
  pub pass_polls : ℕ → Poll
  pub alloc_event : Bool
  pub alloc_cmd : Bool

-- `enum t7xx_ex_reason`; other values of the field are `ex_other`.
pub data ExReason : Type 0 where
  hs_timeout ex_event ex_other : ExReason

-- FSM_MD_EX_REC_OK_TIMEOUT_MS / FSM_EVENT_POLL_INTERVAL_MS and the same for the pass event.
abbrev pub rec_ok_retries : ℕ
rec_ok_retries = 10000 / 20

abbrev pub pass_retries : ℕ
pass_retries = 45000 / 20

-- The end of t7xx_core_reset, after the event that may have been appended.
unfoldable pub end_core_reset : Ret × Ctl → Ret × Ctl
end_core_reset (ok, ctl) =
    (ok, record ctl { core_md = record (ctl.core_md) { handshake_ongoing = false } })
end_core_reset (fail e, ctl) = (fail e, ctl)

-- t7xx_core_reset of src/t7xx_modem_ops.c.
unfoldable pub core_reset : Bool → Ctl → Ret × Ctl
core_reset alloc ctl =
    let ctl₁ = record ctl { core_md = record (ctl.core_md) { ready = false } } in
    end_core_reset (
      if ctl.core_md.handshake_ongoing
      then append_event alloc md_hs2_exit 0 [] ctl₁
      else (ok, ctl₁))

-- t7xx_md_reset of src/t7xx_modem_ops.c.
unfoldable pub md_reset : Bool → Ctl → Ret × Ctl
md_reset alloc ctl =
    let ctl₁ = fsm_reset (record ctl { md_init_finish = false; exp_id = 0 }) in
    let ctl₂ = call (call (call ctl₁ cldma_reset_md) cldma_reset_ap) port_proxy_reset in
    core_reset alloc (record ctl₂ { md_init_finish = true })

abbrev pub is_fastboot : Mode → Bool
is_fastboot fastboot_download = true
is_fastboot fastboot_dump = true
is_fastboot _ = false

unfoldable pub stopped_handler : Bool → Ctl → Ret × Ctl
stopped_handler alloc ctl =
    let ctl₁ = record ctl { curr_state = stopped } in
    if is_fastboot ctl.mode then (ok, ctl₁) else md_reset alloc (broadcast_state md_stopped ctl₁)

abbrev pub is_stopped : FsmState → Bool
is_stopped stopped = true
is_stopped _ = false

abbrev pub is_stopping : FsmState → Bool
is_stopping stopping = true
is_stopping _ = false

unfoldable pub routine_stopped : Env → ℕ → Ctl → Ctl
routine_stopped env p ctl =
    if is_stopped ctl.curr_state
    then finish_command ctl p (fail einval)
    else let (ret, ctl₁) = stopped_handler env.alloc_event ctl in finish_command ctl₁ p ret

unfoldable pub routine_stopping : Env → ℕ → Ctl → Ctl
routine_stopping env p ctl =
    if is_stopped ctl.curr_state || is_stopping ctl.curr_state
    then finish_command ctl p (fail einval)
    else let ctl₁ = broadcast_state waiting_to_stop (record ctl { curr_state = stopping }) in
      let ctl₂ = call (call ctl₁ cldma_stop_md) trigger_drm_disable in
      let (ret, ctl₃) = stopped_handler env.alloc_event ctl₂ in finish_command ctl₃ p ret

abbrev pub may_except : FsmState → Bool
may_except ready = true
may_except starting = true
may_except _ = false

-- `cmd` is NULL where a routine raises the exception itself.
abbrev pub finish_if : Option ℕ → Ret → Ctl → Ctl
finish_if none result ctl = ctl
finish_if (some p) result ctl = finish_command ctl p result

-- The waits for the two exception events.
unfoldable pub exception_waits : Env → Ctl → Ctl
exception_waits env ctl =
    let q₁ =
      (wait_for_event env.rec_ok_polls md_ex_rec_ok md_ex rec_ok_retries ctl.event_queue).1 in
    let q₂ = (wait_for_event env.pass_polls md_ex_pass invalid pass_retries q₁).1 in
    record ctl { event_queue = q₂ }

unfoldable pub exception_work : Env → ExReason → Ctl → Ctl
exception_work env ex_event ctl =
    exception_waits env
      (call (call (broadcast_state md_exception ctl) pm_exp_detected) exception_handshake)
exception_work env hs_timeout ctl = ctl
exception_work env ex_other ctl = ctl

unfoldable pub routine_exception : Env → Option ℕ → ExReason → Ctl → Ctl
routine_exception env cmd reason ctl =
    if may_except ctl.curr_state
    then finish_if cmd ok (exception_work env reason (record ctl { curr_state = exception }))
    else finish_if cmd (fail einval) ctl

unfoldable pub routine_ready : Ctl → Ctl
routine_ready ctl =
    call (update_mode mode_ready (broadcast_ready_state (record ctl { curr_state = ready })))
      event_notify_ready

-- A core that is not ready in time: its running handshake is told to give up, and the state machine
-- goes to the exception state.
unfoldable pub handshake_timeout : Env → EventId → Bool → Ctl → Ret × Ctl
handshake_timeout env exit_event ongoing ctl =
    let ctl₁ = if ongoing then (append_event env.alloc_event exit_event 0 [] ctl).1 else ctl in
    (fail etimedout, routine_exception env none hs_timeout ctl₁)

-- The broadcast of t7xx_md_hk_wq of src/t7xx_modem_ops.c, if the handshake work has run.
unfoldable pub hs1_broadcast : Bool → Ctl → Ctl
hs1_broadcast true ctl = broadcast_state waiting_for_hs2 ctl
hs1_broadcast false ctl = ctl

-- The state when the wait for the handshake of fsm_routine_starting ends.
unfoldable pub await_handshake : Env → Ctl → Ctl
await_handshake env ctl =
    record (hs1_broadcast env.hs1_received (
      call (broadcast_state waiting_for_hs1 (record ctl { curr_state = starting }))
        event_notify_start)) {
          core_md = env.core_md;
          core_ap = env.core_ap;
          exp_flg = env.exp_flg;
          event_queue = env.events_after ctl.event_queue;
        }

-- The checks after the wait, by the readiness of the modem's core and of the application core.
unfoldable pub check_cores : Env → Bool → Bool → Ctl → Ret × Ctl
check_cores env false ap ctl = handshake_timeout env md_hs2_exit env.core_md.handshake_ongoing ctl
check_cores env true false ctl = handshake_timeout env ap_hs2_exit env.core_ap.handshake_ongoing ctl
check_cores env true true ctl = (ok, routine_ready (call ctl pm_init_late))

unfoldable pub routine_starting : Env → Ctl → Ret × Ctl
routine_starting env ctl =
    check_cores env env.core_md.ready env.core_ap.ready (await_handshake env ctl)

-- The calls that set the application core's queues up for the fastboot port.
unfoldable pub lk_create_port : Ctl → Ctl
lk_create_port ctl =
    call
      (call (call (call (call ctl cldma_hw_init_ap) cldma_stop_ap) cldma_switch_dedicated)
        enable_port_0)
      cldma_start_ap

-- t7xx_lk_stage_event_handling, by the event's number.
unfoldable pub lk_stage_event : ℕ → Ctl → Ctl
lk_stage_event lk_event ctl =
    if lk_event == 1
    then update_mode fastboot_dump (lk_create_port ctl)
    else if lk_event == 2
    then update_mode fastboot_download (lk_create_port ctl)
    else ctl

-- `switch (stage)` of fsm_routine_start.
unfoldable pub start_stage : Env → ℕ → ℕ → Ctl → Ret × Ctl
start_stage env flag stage ctl =
    if stage == 0 || (stage == 1 || stage == 2)
    then queue_cmd env.alloc_cmd cmd_start 0 ctl
    else if stage == 3
    then (ok, lk_stage_event (field_get 8 4 env.dev_status) (call ctl set_cfg_early))
    else if stage == 4
    then if flag == 0
      then (ok, call ctl mask_clr_handshake)
      else routine_starting env (
          call (call (call (call ctl mask_clr_handshake) cldma_hw_init_ap) cldma_hw_init_md)
            set_cfg_normal)
    else (ok, ctl)

abbrev pub may_start : FsmState → Bool
may_start init = true
may_start pre_start = true
may_start stopped = true
may_start _ = false

-- From the polled stage to the label `finish_command`.
unfoldable pub start_polled : Env → ℕ → Ctl → Ret × Ctl
start_polled env flag ctl = elim env.stage_poll [
  | fail e ↦ (fail e, ctl)
  | ok ↦
      if env.dev_status == ctl.status && flag == 0
      then (ok, ctl)
      else let (ret, ctl₁) = start_stage env flag (field_get 0 3 env.dev_status) ctl in
        (ret, record ctl₁ { status = env.dev_status })
]

unfoldable pub end_start : ℕ → Ret × Ctl → Ctl
end_start p (ok, ctl) = finish_command ctl p ok
end_start p (fail e, ctl) = finish_command (update_mode unknown ctl) p (fail e)

unfoldable pub routine_start : Env → ℕ → Ctl → Ctl
routine_start env p ctl =
    if may_start ctl.curr_state
    then end_start p (
        start_polled env (cmd_at ctl p).flag
          (call (record ctl { curr_state = pre_start }) event_notify_pre_start))
    else finish_command ctl p (fail einval)
