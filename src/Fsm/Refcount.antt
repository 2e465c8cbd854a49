-- ===== src/Fsm/Refcount.antt =====
-- The life of a command of src/t7xx_state_monitor.c: what its waiter reads and what is left of its
-- reference count when everybody who holds it has finished.
use mtk_t7xx_fix.Prelude.{
  ℕ, true, false, List, [], ◌∷◌, ◌++◌, ◌≡◌, ◌<◌, refl, ap, ◌∙◌, arith, Bool-cases, inl, inr, Ret,
  ok, fail, etimedout, if◌then◌else◌, length, length-set, get_or, get_or-set_self, length-append,
}
use mtk_t7xx_fix.Fsm.State.{CmdId, Command, Ctl, cmd_at, no_command}
use mtk_t7xx_fix.Fsm.Queues.{
  flag_wait, kref_put, complete, finish_command, new_command, queue_cmd, wait_cmd,
}

get_or-append_end {ℓ} :
    {A : Type ℓ} (xs : List A) (y d : A) → get_or (xs ++ (y ∷ [])) (length xs) d ≡ y
get_or-append_end [] y d = refl
get_or-append_end (x ∷ xs) y d = get_or-append_end xs y d

-- The command that a queueing call has made.
abbrev pub queued : CmdId → ℕ → Ctl → Ctl
queued id flag ctl = (queue_cmd true id flag ctl).1

queued-cmd :
    (id : CmdId) (flag : ℕ) (ctl : Ctl)
    → cmd_at (queued id flag ctl) (length ctl.commands) ≡ new_command id flag
unfolding queue_cmd
queued-cmd id flag ctl = get_or-append_end ctl.commands (new_command id flag) no_command

queued-length :
    (id : CmdId) (flag : ℕ) (ctl : Ctl) → length ctl.commands < length (queued id flag ctl).commands
unfolding queue_cmd
queued-length id flag ctl = omega (arith, length-append ctl.commands (new_command id flag ∷ []))

cmd_at-finish_command :
    (ctl : Ctl) (p : ℕ) (r : Ret)
    → p < length ctl.commands
    → cmd_at (finish_command ctl p r) p ≡ kref_put (complete (cmd_at ctl p) r)
unfolding finish_command
cmd_at-finish_command ctl p r h =
    get_or-set_self ctl.commands p (kref_put (complete (cmd_at ctl p) r)) no_command h

cmd_at-wait_cmd :
    (ctl : Ctl) (p : ℕ)
    → p < length ctl.commands
    → cmd_at (wait_cmd p ctl).1 p
      ≡ (if flag_wait (cmd_at ctl p).flag then kref_put (cmd_at ctl p) else cmd_at ctl p)
unfolding wait_cmd
cmd_at-wait_cmd ctl p h = elim (Bool-cases (flag_wait (cmd_at ctl p).flag)) [
  | inl e ↦ rw e (get_or-set_self ctl.commands p (kref_put (cmd_at ctl p)) no_command h)
  | inr e ↦ rw e
]

wait_cmd-result :
    (ctl : Ctl) (p : ℕ)
    → (wait_cmd p ctl).0 ≡ (
        if flag_wait (cmd_at ctl p).flag
        then (if (cmd_at ctl p).done then (cmd_at ctl p).result else fail etimedout)
        else ok)
unfolding wait_cmd
wait_cmd-result ctl p = elim (Bool-cases (flag_wait (cmd_at ctl p).flag)) [
  | inl e ↦ rw e
  | inr e ↦ rw e
]

wait_cmd-length : (ctl : Ctl) (p : ℕ) → length (wait_cmd p ctl).1.commands ≡ length ctl.commands
unfolding wait_cmd
wait_cmd-length ctl p = elim (Bool-cases (flag_wait (cmd_at ctl p).flag)) [
  | inl e ↦ rw e (length-set ctl.commands p (kref_put (cmd_at ctl p)))
  | inr e ↦ rw e
]

finish_command-length :
    (ctl : Ctl) (p : ℕ) (r : Ret) → length (finish_command ctl p r).commands ≡ length ctl.commands
unfolding finish_command
finish_command-length ctl p r = length-set ctl.commands p _

-- The command that is left when it was finished and its waiter has dropped its reference.
abbrev pub after_wait : Command → Command
after_wait c = if flag_wait c.flag then kref_put c else c

-- What a waiter makes of the command.
abbrev answer : Command → Ret
answer c = if flag_wait c.flag then (if c.done then c.result else fail etimedout) else ok

finished_answer :
    (id : CmdId) (flag : ℕ) (r : Ret)
    → answer (kref_put (complete (new_command id flag) r)) ≡ (if flag_wait flag then r else ok)
unfolding kref_put complete new_command
finished_answer id flag r = ground arith

new_answer :
    (id : CmdId) (flag : ℕ)
    → answer (new_command id flag) ≡ (if flag_wait flag then fail etimedout else ok)
unfolding new_command
new_answer id flag = ground arith

-- The finishing thread and the waiter drop their references in either order.
abbrev pub finished_first : CmdId → ℕ → Ret → Command
finished_first id flag r = after_wait (kref_put (complete (new_command id flag) r))

abbrev pub waited_first : CmdId → ℕ → Ret → Command
waited_first id flag r = kref_put (complete (after_wait (new_command id flag)) r)

finished_new :
    (id : CmdId) (flag : ℕ) (r : Ret)
    → ((finished_first id flag r).refcnt ≡ 1) × ((finished_first id flag r).freed ≡ false)
unfolding kref_put complete new_command
finished_new id flag r = ground arith

waited_new :
    (id : CmdId) (flag : ℕ) (r : Ret)
    → ((waited_first id flag r).refcnt ≡ 1) × ((waited_first id flag r).freed ≡ false)
unfolding kref_put complete new_command
waited_new id flag r = ground arith

-- A queued command keeps one reference that nobody drops: whether the thread finishes it before its
-- waiter gives up or after, and whether anybody waits for it or not, its count ends at 1 and it is
-- not freed. The waiter reads the result of the finish that came before it, and -ETIMEDOUT if none
-- did; without the flag the caller gets 0.
pub queued_command_leaks :
    (id : CmdId) (flag : ℕ) (r : Ret) (ctl : Ctl)
    → let p = length ctl.commands in
      let (ret, a) = wait_cmd p (finish_command (queued id flag ctl) p r) in
      let (late, w) = wait_cmd p (queued id flag ctl) in
      let b = finish_command w p r in
      (((cmd_at a p).refcnt ≡ 1) × ((cmd_at a p).freed ≡ false))
      × (((cmd_at b p).refcnt ≡ 1) × ((cmd_at b p).freed ≡ false))
      × (ret ≡ (if flag_wait flag then r else ok))
      × (late ≡ (if flag_wait flag then fail etimedout else ok))
queued_command_leaks id flag r ctl =
    (rw at_a (finished_new id flag r), rw at_b (waited_new id flag r), ret_lem, late_lem)
  where
    p : ℕ
    p = length ctl.commands

    at_f :
        cmd_at (finish_command (queued id flag ctl) p r) p
        ≡ kref_put (complete (new_command id flag) r)
    at_f =
        rw (cmd_at-finish_command (queued id flag ctl) p r (queued-length id flag ctl))
          (ap (λ c. kref_put (complete c r)) (queued-cmd id flag ctl))

    at_a :
        cmd_at (wait_cmd p (finish_command (queued id flag ctl) p r)).1 p ≡ finished_first id flag r
    at_a =
        cmd_at-wait_cmd _ p
          (omega (arith, finish_command-length (queued id flag ctl) p r, queued-length id flag ctl))
        ∙ ap after_wait at_f

    at_w : cmd_at (wait_cmd p (queued id flag ctl)).1 p ≡ after_wait (new_command id flag)
    at_w = cmd_at-wait_cmd _ p (queued-length id flag ctl) ∙ ap after_wait (queued-cmd id flag ctl)

    at_b :
        cmd_at (finish_command (wait_cmd p (queued id flag ctl)).1 p r) p ≡ waited_first id flag r
    at_b =
        cmd_at-finish_command _ p r
          (omega (arith, wait_cmd-length (queued id flag ctl) p, queued-length id flag ctl))
        ∙ ap (λ c. kref_put (complete c r)) at_w

    ret_lem :
        (wait_cmd p (finish_command (queued id flag ctl) p r)).0
        ≡ (if flag_wait flag then r else ok)
    ret_lem = wait_cmd-result _ p ∙ ap answer at_f ∙ finished_answer id flag r

    late_lem : (wait_cmd p (queued id flag ctl)).0 ≡ (if flag_wait flag then fail etimedout else ok)
    late_lem = wait_cmd-result _ p ∙ ap answer (queued-cmd id flag ctl) ∙ new_answer id flag
