-- ===== src/Fsm/Frames.antt =====
-- What the helpers of the state machine leave alone.
use mtk_t7xx_fix.Prelude.{
  ℕ, Bool, List, [], ◌∷◌, ◌≡◌, refl, arith, Bool-cases, inl, inr, Ret, fail, einval, length,
  length-set,
}
use mtk_t7xx_fix.Fsm.State.{stopped, MdState, md_ready, notifier_fn, port_status_notify, Ctl, call}
use mtk_t7xx_fix.Fsm.Queues.{finish_command, finish_all, append_event, fsm_reset}
use mtk_t7xx_fix.Fsm.Notify.{
  notify_each, state_notify, broadcast_state, broadcast_ready_state, is_waiting_for_hs2,
}
use mtk_t7xx_fix.Fsm.Routines.{end_core_reset, core_reset, md_reset, stopped_handler, is_fastboot}

-- Notifications change `md_state` and `calls` at most.
pub record Told (a b : Ctl) : Type 0 where
  pub curr : b.curr_state ≡ a.curr_state
  pub cmds : b.commands ≡ a.commands
  pub cmd_queue : b.command_queue ≡ a.command_queue
  pub evt_queue : b.event_queue ≡ a.event_queue
  pub flag : b.exp_flg ≡ a.exp_flg
  pub stage : b.status ≡ a.status
  pub mode : b.mode ≡ a.mode

pub notify_each-Told : (l : List ℕ) (st : MdState) (ctl : Ctl) → Told ctl (notify_each l st ctl)
unfolding notify_each
notify_each-Told [] st ctl = ground arith
notify_each-Told (n ∷ rest) st ctl =
    ground (arith, notify_each-Told rest st (call ctl (notifier_fn n st)))

pub broadcast_state-Told : (st : MdState) (ctl : Ctl) → Told ctl (broadcast_state st ctl)
unfolding broadcast_state state_notify
broadcast_state-Told st ctl = ground (
  arith,
  notify_each-Told ctl.notifier_list st
      (call (record ctl { md_state = st }) (port_status_notify st)),
)

pub broadcast_ready_state-Told : (ctl : Ctl) → Told ctl (broadcast_ready_state ctl)
unfolding broadcast_ready_state state_notify
broadcast_ready_state-Told ctl =
    let told = notify_each-Told ctl.notifier_list md_ready (record ctl { md_state = md_ready }) in
    elim (Bool-cases (is_waiting_for_hs2 ctl.md_state)) [
      | inl e ↦ rw e (ground arith)
      | inr e ↦ rw e (ground arith)
    ]

-- Finishing commands changes the commands alone, and not their number.
pub record Finished (a b : Ctl) : Type 0 where
  pub curr : b.curr_state ≡ a.curr_state
  pub evt_queue : b.event_queue ≡ a.event_queue
  pub count : length b.commands ≡ length a.commands

pub finish_command-Finished : (ctl : Ctl) (p : ℕ) (r : Ret) → Finished ctl (finish_command ctl p r)
unfolding finish_command
finish_command-Finished ctl p r = record {
  curr = refl;
  evt_queue = refl;
  count = length-set ctl.commands p _;
}

pub finish_all-Finished : (l : List ℕ) (ctl : Ctl) → Finished ctl (finish_all l ctl)
unfolding finish_all
finish_all-Finished [] ctl = ground arith
finish_all-Finished (p ∷ rest) ctl = ground (
  arith,
  finish_command-Finished ctl p (fail einval),
  finish_all-Finished rest (finish_command ctl p (fail einval)),
)

-- However it ends, stopping leaves the state machine stopped.
pub core_reset-curr :
    (alloc : Bool) (ctl : Ctl) → (core_reset alloc ctl).1.curr_state ≡ ctl.curr_state
unfolding core_reset end_core_reset append_event
core_reset-curr alloc ctl = ground arith

pub stopped_handler-curr :
    (alloc : Bool) (ctl : Ctl) → (stopped_handler alloc ctl).1.curr_state ≡ stopped
unfolding stopped_handler md_reset fsm_reset
stopped_handler-curr alloc ctl = elim (Bool-cases (is_fastboot ctl.mode)) [
  | inl e ↦ rw e
  | inr e ↦ rw e (core_reset-curr alloc _)
]
