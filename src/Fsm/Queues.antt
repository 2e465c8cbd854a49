-- ===== src/Fsm/Queues.antt =====
-- The command queue with its reference counts, and the event queue.
use mtk_t7xx_fix.Prelude.{
  ℕ, zero, suc, ◌-◌, Bool, true, false, ◌||◌, List, [], ◌∷◌, ◌++◌, length, ◌==◌, test_bit,
  if◌then◌else◌, Ret, ok, fail, einval, enomem, etimedout,
}
use mathlib.Core.Logic.{ite}
use mtk_t7xx_fix.Fsm.State.{
  stopped, EventId, invalid, max, EventId-discrete, CmdId, Event, Command, Ctl, cmd_at, set_cmd,
}

-- FSM_CMD_FLAG_WAIT_FOR_COMPLETION
abbrev pub flag_wait : ℕ → Bool
flag_wait flag = test_bit 0 flag

-- kref_put with fsm_release_command: the last reference frees the command.
unfoldable pub kref_put : Command → Command
kref_put cmd =
    if cmd.refcnt == 1
    then record cmd { refcnt = 0; freed = true }
    else record cmd { refcnt = cmd.refcnt - 1 }

unfoldable pub complete : Command → Ret → Command
complete cmd result =
    if flag_wait cmd.flag then record cmd { result = result; done = true } else cmd

unfoldable pub finish_command : Ctl → ℕ → Ret → Ctl
finish_command ctl p result = set_cmd ctl p (kref_put (complete (cmd_at ctl p) result))

-- The loop of fsm_flush_event_cmd_qs over the commands.
unfoldable pub finish_all : List ℕ → Ctl → Ctl
finish_all [] ctl = ctl
finish_all (p ∷ rest) ctl = finish_all rest (finish_command ctl p (fail einval))

unfoldable pub flush_event_cmd_qs : Ctl → Ctl
flush_event_cmd_qs ctl = record (finish_all ctl.command_queue ctl) {
  command_queue = [];
  event_queue = [];
}

-- kref_init, one reference for the waiter if there is one, and one for the queue.
unfoldable pub new_command : CmdId → ℕ → Command
new_command cmd_id flag = record {
  cmd_id = cmd_id;
  flag = flag;
  done = false;
  result = ok;
  refcnt = if flag_wait flag then 3 else 2;
  freed = false;
}

-- The part of t7xx_fsm_append_cmd before the wait: `alloc` says whether kzalloc succeeds.
unfoldable pub queue_cmd : Bool → CmdId → ℕ → Ctl → Ret × Ctl
queue_cmd alloc cmd_id flag ctl =
    if alloc
    then (
      ok,
      record ctl {
        commands = ctl.commands ++ (new_command cmd_id flag ∷ []);
        command_queue = ctl.command_queue ++ (length ctl.commands ∷ []);
      },
    )
    else (fail enomem, ctl)

-- The part after the wait: the waiter reads the result if the command completed in time, and drops
-- its reference.
unfoldable pub wait_cmd : ℕ → Ctl → Ret × Ctl
wait_cmd p ctl =
    let cmd = cmd_at ctl p in
    if flag_wait cmd.flag
    then (if cmd.done then cmd.result else fail etimedout, set_cmd ctl p (kref_put cmd))
    else (ok, ctl)

abbrev pub event_is_bad : EventId → Bool
event_is_bad invalid = true
event_is_bad max = true
event_is_bad _ = false

abbrev pub new_event : EventId → ℕ → List ℕ → Event
new_event event_id n bytes = record { event_id = event_id; length = n; bytes = bytes }

unfoldable pub append_event : Bool → EventId → ℕ → List ℕ → Ctl → Ret × Ctl
append_event alloc event_id n bytes ctl =
    if event_is_bad event_id
    then (fail einval, ctl)
    else if alloc
    then (ok, record ctl { event_queue = ctl.event_queue ++ (new_event event_id n bytes ∷ []) })
    else (fail enomem, ctl)

abbrev pub same_event : EventId → EventId → Bool
same_event a b = ite (EventId-discrete a b) true false

-- The loop of t7xx_fsm_clr_event.
unfoldable pub remove_events : EventId → List Event → List Event
remove_events event_id [] = []
remove_events event_id (e ∷ rest) =
    let kept = remove_events event_id rest in
    if same_event e.event_id event_id then kept else e ∷ kept

unfoldable pub clr_event : EventId → Ctl → Ctl
clr_event event_id ctl = record ctl { event_queue = remove_events event_id ctl.event_queue }

unfoldable pub fsm_reset : Ctl → Ctl
fsm_reset ctl = record (flush_event_cmd_qs ctl) {
  curr_state = stopped;
  exp_flg = false;
  status = 0;
}

-- One poll of fsm_wait_for_event: the events that arrived before it, and kthread_should_stop().
pub record Poll : Type 0 where
  pub should_stop : Bool
  pub arrived : List Event

-- The event at the head of the queue: is it the expected one, and what is left of the queue.
unfoldable pub take_event : EventId → EventId → List Event → Bool × List Event
take_event expected ignore [] = (false, [])
take_event expected ignore (e ∷ rest) = (
  same_event e.event_id expected,
  if same_event e.event_id expected || same_event e.event_id ignore then rest else e ∷ rest,
)

-- `while (cnt++ < retries && !event_received)`; `polls` gives each round its poll by the number of
-- rounds left after it. The result says whether the event was received.
unfoldable pub wait_for_event : (ℕ → Poll) → EventId → EventId → ℕ → List Event → Bool × List Event
wait_for_event polls expected ignore zero queue = (false, queue)
wait_for_event polls expected ignore (suc retries) queue =
    let queue₁ = queue ++ (polls retries).arrived in
    let (received, queue₂) = take_event expected ignore queue₁ in
    let rest = wait_for_event polls expected ignore retries queue₂ in
    if (polls retries).should_stop
    then (false, queue₁)
    else if received
    then (true, queue₂)
    else rest
