-- ===== src/Fsm/Transitions.antt =====
-- The transitions of the state machine: which states a command can lead to, and what it takes.
use mtk_t7xx_fix.Prelude.{
  ℕ, Bool, true, false, not, ◌||◌, some, ◌≡◌, refl, sym, ap, subst, ◌∙◌, arith, Bool-cases, inl,
  inr, fail, einval,
}
use mtk_t7xx_fix.Fsm.State.{
  FsmState, exception, stopped, CmdId, cmd_start, cmd_exception, cmd_pre_stop, cmd_stop,
  cmd_invalid, Ctl, cmd_at,
}
use mtk_t7xx_fix.Fsm.Queues.{finish_command, flush_event_cmd_qs}
use mtk_t7xx_fix.Fsm.Routines.{Env, may_start, may_except, is_stopped, is_stopping}
use mtk_t7xx_fix.Fsm.Thread.{run_command, reason_of}
use mtk_t7xx_fix.Fsm.Frames.{finish_all-Finished}
use mtk_t7xx_fix.Fsm.Started.{
  routine_stopped-curr, routine_exception-curr, refused_stop, stop_granted, routine_stopping-curr,
  Started, routine_start-Started, routine_start-refused,
}

-- The commands that are refused in a state.
abbrev pub refused : CmdId → FsmState → Bool
refused cmd_start s = not (may_start s)
refused cmd_exception s = not (may_except s)
refused cmd_pre_stop s = is_stopped s || is_stopping s
refused cmd_stop s = is_stopped s
refused cmd_invalid s = true

-- The transitions of each command.
pub data Edge (env : Env) (flag : ℕ) : CmdId → FsmState → FsmState → Type 0 where
  stay : (id : CmdId) (s : FsmState) → refused id s ≡ true → Edge env flag id s s
  start : (s t : FsmState) → may_start s ≡ true → Started env flag t → Edge env flag cmd_start s t
  except : (s : FsmState) → may_except s ≡ true → Edge env flag cmd_exception s exception
  pre_stop :
      (s : FsmState) → is_stopped s || is_stopping s ≡ false → Edge env flag cmd_pre_stop s stopped
  stop : (s : FsmState) → is_stopped s ≡ false → Edge env flag cmd_stop s stopped

Edge-stay :
    (env : Env) (flag : ℕ) (id : CmdId) {s t : FsmState}
    → refused id s ≡ true
    → t ≡ s
    → Edge env flag id s t
Edge-stay env flag id {s = s} r e = subst (λ u. Edge env flag id s u) (sym e) (stay id s r)

stopped-is_stopped : (s : FsmState) → is_stopped s ≡ true → stopped ≡ s
stopped-is_stopped s h = ground arith

-- Whatever the environment answers, a command that the state refuses leaves the state as it is, and any
-- other follows its own edge. A start, refused but in `init`, `pre_start` and `stopped`, leads to
-- `pre_start`; or, if it came with a flag and the device is in its Linux stage, to `ready` if both
-- cores are ready when the wait for the handshakes ends, and to `exception` only if one is not. An
-- exception, refused but in `ready` and `starting`, leads to `exception`; a pre-stop, refused in
-- `stopped` and `stopping`, and a stop, refused in `stopped`, lead to `stopped`.
pub run_command-Edge :
    (env : Env) (id : CmdId) (p : ℕ) (ctl : Ctl)
    → Edge env (cmd_at ctl p).flag id ctl.curr_state (run_command env id p ctl).curr_state
unfolding run_command flush_event_cmd_qs finish_command
run_command-Edge env cmd_start p ctl = elim (Bool-cases (may_start ctl.curr_state)) [
  | inl e ↦ start _ _ e (routine_start-Started env p ctl e)
  | inr e ↦ Edge-stay env _ cmd_start (ap not e) (routine_start-refused env p ctl e)
]
run_command-Edge env cmd_exception p ctl = elim (Bool-cases (may_except ctl.curr_state)) [
  | inl e ↦
      rw (routine_exception-curr env (some p) (reason_of (cmd_at ctl p).flag) ctl, e) (except _ e)
  | inr e ↦
      rw (routine_exception-curr env (some p) (reason_of (cmd_at ctl p).flag) ctl, e)
        (stay cmd_exception _ (ap not e))
]
run_command-Edge env cmd_pre_stop p ctl =
    elim (Bool-cases (is_stopped ctl.curr_state || is_stopping ctl.curr_state)) [
      | inl e ↦
          Edge-stay env _ cmd_pre_stop e
            (routine_stopping-curr env p ctl ∙ sym (refused_stop ctl.curr_state e))
      | inr e ↦ rw (routine_stopping-curr env p ctl, stop_granted ctl.curr_state e) (pre_stop _ e)
    ]
run_command-Edge env cmd_stop p ctl = elim (Bool-cases (is_stopped ctl.curr_state)) [
  | inl e ↦
      Edge-stay env _ cmd_stop e
        (routine_stopped-curr env p ctl ∙ stopped-is_stopped ctl.curr_state e)
  | inr e ↦ rw (routine_stopped-curr env p ctl) (stop _ e)
]
run_command-Edge env cmd_invalid p ctl =
    Edge-stay env _ cmd_invalid refl
      (finish_all-Finished ctl.command_queue (finish_command ctl p (fail einval))).curr
