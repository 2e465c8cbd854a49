-- ===== src/Fsm/Examples.antt =====
-- The theorems of the state machine at concrete states.
use mtk_t7xx_fix.Prelude.{◌≡◌, ◌≢◌, ◌∷◌, [], refl, arith, true, false, All, ok, fail, etimedout}
use mathlib.Core.Logic.{if_pos, if_neg}
use mtk_t7xx_fix.Fsm.State.{
  ready, EventId-discrete, md_hs2, md_ex, md_ex_rec_ok, Event, cmd_start, cmd_stop, cmd_pre_stop,
  waiting_for_hs2, Ctl, cmd_at, fsm_init,
}
use mtk_t7xx_fix.Fsm.Queues.{queue_cmd, wait_cmd, finish_command, Poll, wait_for_event, new_command}
use mtk_t7xx_fix.Fsm.Notify.{
  state_notify, notify_each, update_mode, broadcast_state, broadcast_ready_state,
}
use mtk_t7xx_fix.Fsm.Routines.{
  routine_start, start_polled, start_stage, routine_starting, await_handshake, hs1_broadcast,
  check_cores, routine_ready, end_start, Env,
}
use mtk_t7xx_fix.Fsm.Thread.{run_command, main_step, take_command}
use mtk_t7xx_fix.Fsm.Transitions.{Edge, run_command-Edge}
use mtk_t7xx_fix.Fsm.Refcount.{queued, queued_command_leaks}
use mtk_t7xx_fix.Fsm.Events.{Ignored, wait_for_event-received}
use mtk_t7xx_fix.Fsm.Reach.{
  thread, queue, here, next, Settled, RanStart, Reach-Settled, ready_needs_handshakes,
}

abbrev idle_poll : Poll
idle_poll = record { should_stop = false; arrived = [] }

-- Both cores are ready in time, in the Linux stage.
abbrev good_env : Env
good_env = record {
  stage_poll = ok;
  dev_status = 4;
  hs1_received = true;
  core_md = record { ready = true; handshake_ongoing = false };
  core_ap = record { ready = true; handshake_ongoing = false };
  exp_flg = false;
  events_after = λ q. q;
  rec_ok_polls = λ i. idle_poll;
  pass_polls = λ i. idle_poll;
  alloc_event = true;
  alloc_cmd = true;
}

abbrev port_enum_started : Ctl
port_enum_started = queued cmd_start 4 fsm_init

run_command-Edge_example :
    Edge good_env
      (cmd_at fsm_init 0).flag
      cmd_stop
      fsm_init.curr_state
      (run_command good_env cmd_stop 0 fsm_init).curr_state
run_command-Edge_example = run_command-Edge good_env cmd_stop 0 fsm_init

queued_command_leaks_example :
    let (ret, a) = wait_cmd 0 (finish_command (queued cmd_pre_stop 1 fsm_init) 0 ok) in
    let (late, w) = wait_cmd 0 (queued cmd_pre_stop 1 fsm_init) in
    let b = finish_command w 0 ok in
    (((cmd_at a 0).refcnt ≡ 1) × ((cmd_at a 0).freed ≡ false))
    × (((cmd_at b 0).refcnt ≡ 1) × ((cmd_at b 0).freed ≡ false))
    × (ret ≡ ok)
    × (late ≡ fail etimedout)
unfolding fsm_init
queued_command_leaks_example = queued_command_leaks cmd_pre_stop 1 ok fsm_init

abbrev hs2_event : Event
hs2_event = record { event_id = md_hs2; length = 0; bytes = [] }

abbrev ex_event : Event
ex_event = record { event_id = md_ex; length = 0; bytes = [] }

abbrev rec_ok_event : Event
rec_ok_event = record { event_id = md_ex_rec_ok; length = 0; bytes = [] }

ex-Ignored : All (Ignored md_ex_rec_ok md_ex) (ex_event ∷ [])
ex-Ignored = (
  (
    if_pos (EventId-discrete md_ex md_ex) refl true false,
    if_neg (EventId-discrete md_ex md_ex_rec_ok) (λ e. cc) true false,
  ),
  tt,
)

wait_for_event-received_example :
    (wait_for_event (λ i. idle_poll) md_ex_rec_ok md_ex 500 (ex_event ∷ rec_ok_event ∷ [])).0 ≡ true
wait_for_event-received_example =
    wait_for_event-received (λ i. idle_poll) md_ex_rec_ok md_ex (ex_event ∷ []) rec_ok_event [] 500
      ex-Ignored (if_pos (EventId-discrete md_ex_rec_ok md_ex_rec_ok) refl true false) (λ i. refl)
      (omega arith)

abbrev two_notifiers : Ctl
two_notifiers = record fsm_init { notifier_list = 1 ∷ 2 ∷ []; md_state = waiting_for_hs2 }

Reach-Settled_example : Settled (main_step good_env port_enum_started).curr_state
Reach-Settled_example = Reach-Settled (next (next here (queue true cmd_start 4)) (thread good_env))

becomes_ready : (main_step good_env port_enum_started).curr_state ≡ ready
unfolding fsm_init main_step take_command queue_cmd new_command run_command routine_start
    start_polled start_stage routine_starting await_handshake hs1_broadcast check_cores
    routine_ready end_start finish_command broadcast_state broadcast_ready_state state_notify
    notify_each update_mode
becomes_ready = refl

not_ready_yet : port_enum_started.curr_state ≢ ready
unfolding fsm_init queue_cmd
not_ready_yet e = cc

ready_needs_handshakes_example : RanStart good_env port_enum_started port_enum_started.command_queue
ready_needs_handshakes_example =
    ready_needs_handshakes (thread good_env) becomes_ready not_ready_yet
