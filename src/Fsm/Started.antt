-- ===== src/Fsm/Started.antt =====
-- The state that each routine of the state machine leaves, and what a start takes to get there
-- (src/t7xx_state_monitor.c).
use mtk_t7xx_fix.Prelude.{
  ℕ, Bool, true, false, ◌||◌, Option, none, some, [], ◌≡◌, ◌≢◌, refl, sym, ap, subst, ◌∙◌, arith,
  Bool-cases, inl, inr, Ret, ok, fail, einval, if◌then◌else◌, field_get, ◌==◌, ◌&&◌,
}
use mtk_t7xx_fix.Fsm.State.{
  FsmState, pre_start, starting, ready, exception, stopping, stopped, EventId, CmdId, cmd_start,
  waiting_for_hs1, waiting_for_hs2, md_exception, md_hs2_exit, ap_hs2_exit, Ctl, call, cmd_at,
  pm_init_late,
}
use mtk_t7xx_fix.Fsm.Queues.{finish_command, append_event, queue_cmd}
use mtk_t7xx_fix.Fsm.Notify.{update_mode}
use mtk_t7xx_fix.Fsm.Routines.{
  await_handshake, hs1_broadcast, lk_create_port, Env, ExReason, hs_timeout, ex_event, ex_other,
  may_start, may_except, is_stopped, is_stopping, finish_if, exception_waits, exception_work,
  routine_exception, routine_ready, handshake_timeout, routine_starting, check_cores,
  lk_stage_event, start_stage, start_polled, end_start, routine_start, routine_stopped,
  routine_stopping,
}
use mtk_t7xx_fix.Fsm.Frames.{broadcast_state-Told, broadcast_ready_state-Told, stopped_handler-curr}

pub routine_stopped-curr :
    (env : Env) (p : ℕ) (ctl : Ctl) → (routine_stopped env p ctl).curr_state ≡ stopped
unfolding routine_stopped finish_command
routine_stopped-curr env p ctl = ground (arith, stopped_handler-curr env.alloc_event ctl)

finish_if-curr :
    (cmd : Option ℕ) (r : Ret) (ctl : Ctl) → (finish_if cmd r ctl).curr_state ≡ ctl.curr_state
unfolding finish_command
finish_if-curr none r ctl = refl
finish_if-curr (some p) r ctl = refl

exception_work-curr :
    (env : Env) (reason : ExReason) (ctl : Ctl)
    → (exception_work env reason ctl).curr_state ≡ ctl.curr_state
unfolding exception_work exception_waits
exception_work-curr env ex_event ctl = (broadcast_state-Told md_exception ctl).curr
exception_work-curr env hs_timeout ctl = refl
exception_work-curr env ex_other ctl = refl

pub routine_exception-curr :
    (env : Env) (cmd : Option ℕ) (reason : ExReason) (ctl : Ctl)
    → (routine_exception env cmd reason ctl).curr_state
      ≡ (if may_except ctl.curr_state then exception else ctl.curr_state)
unfolding routine_exception
routine_exception-curr env cmd reason ctl = elim (Bool-cases (may_except ctl.curr_state)) [
  | inl e ↦ rw e (finish_if-curr cmd ok _ ∙ exception_work-curr env reason _)
  | inr e ↦ rw e (finish_if-curr cmd (fail einval) ctl)
]

pub refused_stop :
    (s : FsmState)
    → is_stopped s || is_stopping s ≡ true
    → s ≡ (if is_stopping s then stopping else stopped)
refused_stop s h = ground arith

pub stop_granted : (s : FsmState) → is_stopped s || is_stopping s ≡ false → is_stopping s ≡ false
stop_granted s h = ground arith

pub routine_stopping-curr :
    (env : Env) (p : ℕ) (ctl : Ctl)
    → (routine_stopping env p ctl).curr_state
      ≡ (if is_stopping ctl.curr_state then stopping else stopped)
unfolding routine_stopping finish_command
routine_stopping-curr env p ctl =
    elim (Bool-cases (is_stopped ctl.curr_state || is_stopping ctl.curr_state)) [
      | inl e ↦ rw e (refused_stop ctl.curr_state e)
      | inr e ↦ rw (e, stop_granted ctl.curr_state e) (stopped_handler-curr env.alloc_event _)
    ]

-- Where a start command can lead, and what it takes to get to `ready`, or to `exception` by a timeout of
-- a handshake.
pub data Started (env : Env) (flag : ℕ) : FsmState → Type 0 where
  polling : Started env flag pre_start
  timed_out :
      env.core_md.ready && env.core_ap.ready ≡ false
      → flag ≢ 0
      → field_get 0 3 env.dev_status ≡ 4
      → Started env flag exception
  handshaken :
      env.core_md.ready ≡ true
      → env.core_ap.ready ≡ true
      → flag ≢ 0
      → field_get 0 3 env.dev_status ≡ 4
      → Started env flag ready

pub append_event-curr :
    (alloc : Bool) (e : EventId) (ctl : Ctl)
    → (append_event alloc e 0 [] ctl).1.curr_state ≡ ctl.curr_state
unfolding append_event
append_event-curr alloc e ctl = ground arith

handshake_timeout-curr :
    (env : Env) (e : EventId) (ongoing : Bool) (ctl : Ctl)
    → ctl.curr_state ≡ starting
    → (handshake_timeout env e ongoing ctl).1.curr_state ≡ exception
unfolding handshake_timeout
handshake_timeout-curr env e true ctl h = ground (
  arith,
  append_event-curr env.alloc_event e ctl,
  routine_exception-curr env none hs_timeout (append_event env.alloc_event e 0 [] ctl).1,
)
handshake_timeout-curr env e false ctl h =
    ground (arith, routine_exception-curr env none hs_timeout ctl)

pub hs1_broadcast-curr : (b : Bool) (ctl : Ctl) → (hs1_broadcast b ctl).curr_state ≡ ctl.curr_state
unfolding hs1_broadcast
hs1_broadcast-curr true ctl = (broadcast_state-Told waiting_for_hs2 ctl).curr
hs1_broadcast-curr false ctl = refl

await_handshake-curr : (env : Env) (ctl : Ctl) → (await_handshake env ctl).curr_state ≡ starting
unfolding await_handshake
await_handshake-curr env ctl =
    hs1_broadcast-curr env.hs1_received _
    ∙ (broadcast_state-Told waiting_for_hs1 (record ctl { curr_state = starting })).curr

routine_ready-curr : (ctl : Ctl) → (routine_ready ctl).curr_state ≡ ready
unfolding routine_ready update_mode
routine_ready-curr ctl = (broadcast_ready_state-Told (record ctl { curr_state = ready })).curr

Started-timed_out :
    (env : Env) (flag : ℕ) {s : FsmState}
    → env.core_md.ready && env.core_ap.ready ≡ false
    → flag ≢ 0
    → field_get 0 3 env.dev_status ≡ 4
    → s ≡ exception
    → Started env flag s
Started-timed_out env flag late f st e = rw e (timed_out late f st)

check_cores-Started :
    (env : Env) (flag : ℕ) (md ap : Bool) (ctl : Ctl)
    → env.core_md.ready ≡ md
    → env.core_ap.ready ≡ ap
    → flag ≢ 0
    → field_get 0 3 env.dev_status ≡ 4
    → ctl.curr_state ≡ starting
    → Started env flag (check_cores env md ap ctl).1.curr_state
unfolding check_cores
check_cores-Started env flag false ap ctl m a f s h =
    Started-timed_out env flag (ground (arith, m)) f s
      (handshake_timeout-curr env md_hs2_exit env.core_md.handshake_ongoing ctl h)
check_cores-Started env flag true false ctl m a f s h =
    Started-timed_out env flag (ground (arith, m, a)) f s
      (handshake_timeout-curr env ap_hs2_exit env.core_ap.handshake_ongoing ctl h)
check_cores-Started env flag true true ctl m a f s h =
    subst (λ t. Started env flag t) (sym (routine_ready-curr (call ctl pm_init_late)))
      (handshaken m a f s)

routine_starting-Started :
    (env : Env) (flag : ℕ) (ctl : Ctl)
    → flag ≢ 0
    → field_get 0 3 env.dev_status ≡ 4
    → Started env flag (routine_starting env ctl).1.curr_state
unfolding routine_starting
routine_starting-Started env flag ctl f s =
    check_cores-Started env flag env.core_md.ready env.core_ap.ready (await_handshake env ctl) refl
      refl f s (await_handshake-curr env ctl)

lk_stage_event-curr : (n : ℕ) (ctl : Ctl) → (lk_stage_event n ctl).curr_state ≡ ctl.curr_state
unfolding lk_stage_event lk_create_port update_mode
lk_stage_event-curr n ctl = ground arith

pub queue_cmd-curr :
    (alloc : Bool) (id : CmdId) (flag : ℕ) (ctl : Ctl)
    → (queue_cmd alloc id flag ctl).1.curr_state ≡ ctl.curr_state
unfolding queue_cmd
queue_cmd-curr alloc id flag ctl = ground arith

Started-polling : (env : Env) (flag : ℕ) {s : FsmState} → s ≡ pre_start → Started env flag s
Started-polling env flag e = rw e polling

start_stage-Started :
    (env : Env) (flag stage : ℕ) (ctl : Ctl)
    → field_get 0 3 env.dev_status ≡ stage
    → ctl.curr_state ≡ pre_start
    → Started env flag (start_stage env flag stage ctl).1.curr_state
unfolding start_stage
start_stage-Started env flag stage ctl st h =
    elim (Bool-cases (stage == 0 || (stage == 1 || stage == 2))) [
      | inl e ↦ rw e (Started-polling env flag (queue_cmd-curr env.alloc_cmd cmd_start 0 ctl ∙ h))
      | inr e ↦ elim (Bool-cases (stage == 3)) [
        | inl l ↦ rw (e, l) (Started-polling env flag (lk_stage_event-curr _ _ ∙ h))
        | inr l ↦ elim (Bool-cases (stage == 4)) [
          | inr x ↦ rw (e, l, x) (Started-polling env flag h)
          | inl x ↦ elim (Bool-cases (flag == 0)) [
            | inl z ↦ rw (e, l, x, z) (Started-polling env flag h)
            | inr z ↦
                rw (e, l, x, z) (routine_starting-Started env flag _ (ground arith) (ground arith))
          ]
        ]
      ]
    ]

start_polled-Started :
    (env : Env) (flag : ℕ) (ctl : Ctl)
    → ctl.curr_state ≡ pre_start
    → Started env flag (start_polled env flag ctl).1.curr_state
unfolding start_polled
start_polled-Started env flag ctl h = go env.stage_poll
  where
    go :
        (r : Ret)
        → Started env flag
            (elim r as (λ _. Ret × Ctl) [
              | fail e ↦ (fail e, ctl)
              | ok ↦
                  if env.dev_status == ctl.status && flag == 0
                  then (ok, ctl)
                  else let (ret, ctl₁) = start_stage env flag (field_get 0 3 env.dev_status) ctl in
                    (ret, record ctl₁ { status = env.dev_status })
            ]).1.curr_state
    go (fail e) = Started-polling env flag h
    go ok = elim (Bool-cases (env.dev_status == ctl.status && flag == 0)) [
      | inl e ↦ rw e (Started-polling env flag h)
      | inr e ↦ rw e (start_stage-Started env flag _ ctl refl h)
    ]

end_start-curr : (p : ℕ) (x : Ret × Ctl) → (end_start p x).curr_state ≡ x.1.curr_state
unfolding end_start update_mode finish_command
end_start-curr p (ok, ctl) = refl
end_start-curr p (fail e, ctl) = refl

pub routine_start-Started :
    (env : Env) (p : ℕ) (ctl : Ctl)
    → may_start ctl.curr_state ≡ true
    → Started env (cmd_at ctl p).flag (routine_start env p ctl).curr_state
unfolding routine_start
routine_start-Started env p ctl h =
    rw (h, end_start-curr) (start_polled-Started env (cmd_at ctl p).flag _ refl)

pub routine_start-refused :
    (env : Env) (p : ℕ) (ctl : Ctl)
    → may_start ctl.curr_state ≡ false
    → (routine_start env p ctl).curr_state ≡ ctl.curr_state
unfolding routine_start finish_command
routine_start-refused env p ctl h = rw h
