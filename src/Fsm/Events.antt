-- ===== src/Fsm/Events.antt =====
-- The event queue of src/t7xx_state_monitor.c: what clearing removes, and which queues let
-- fsm_wait_for_event succeed.
use mtk_t7xx_fix.Prelude.{
  ℕ, zero, suc, ◌<◌, ◌≡◌, ◌≢◌, refl, sym, ap, ◌∙◌, arith, true, false, List, [], ◌∷◌, ◌++◌,
  append_assoc, length, All, Bool-cases, inl, inr,
}
use mathlib.Core.Logic.{ite, if_pos, if_neg}
use mtk_t7xx_fix.Fsm.State.{EventId, EventId-discrete, Event, Ctl}
use mtk_t7xx_fix.Fsm.Queues.{same_event, remove_events, clr_event, Poll, take_event, wait_for_event}

-- The events of one kind, in order.
abbrev pub events_of : EventId → List Event → List Event
events_of id [] = []
events_of id (e ∷ rest) =
    let others = events_of id rest in ite (EventId-discrete e.event_id id) (e ∷ others) others

remove_events_self : (a : EventId) (q : List Event) → events_of a (remove_events a q) ≡ []
unfolding remove_events
remove_events_self a [] = refl
remove_events_self a (e ∷ rest) = elim (EventId-discrete e.event_id a) [
  | yes h ↦ rw (if_pos (EventId-discrete e.event_id a) h) (remove_events_self a rest)
  | no n ↦
      rw (if_neg (EventId-discrete e.event_id a) n)
        (rw (if_neg (EventId-discrete e.event_id a) n) (remove_events_self a rest))
]

remove_events_ne :
    (a b : EventId) (q : List Event) → a ≢ b → events_of b (remove_events a q) ≡ events_of b q
unfolding remove_events
remove_events_ne a b [] ne = refl
remove_events_ne a b (e ∷ rest) ne = elim (EventId-discrete e.event_id a) [
  | yes h ↦
      rw
        (
          if_pos (EventId-discrete e.event_id a) h,
          if_neg (EventId-discrete e.event_id b) (λ k. ne (sym h ∙ k)),
        )
        (remove_events_ne a b rest ne)
  | no n ↦
      rw (if_neg (EventId-discrete e.event_id a) n)
        (ap (λ l. ite (EventId-discrete e.event_id b) (e ∷ l) l) (remove_events_ne a b rest ne))
]

-- Clearing a kind of event removes all events of that kind, and keeps the events of every other
-- kind, in their order.
pub events_of-clr_event :
    (a : EventId) (ctl : Ctl)
    → (events_of a (clr_event a ctl).event_queue ≡ [])
      × ((b : EventId)
          → a ≢ b
          → events_of b (clr_event a ctl).event_queue ≡ events_of b ctl.event_queue)
unfolding clr_event
events_of-clr_event a ctl =
    (remove_events_self a ctl.event_queue, λ b ne. remove_events_ne a b ctl.event_queue ne)

-- An event that the wait drops: the ignored kind, and not the expected one.
abbrev pub Ignored : EventId → EventId → Event → Type 0
Ignored expected ignore e =
    (same_event e.event_id ignore ≡ true) × (same_event e.event_id expected ≡ false)

module _ (polls : ℕ → Poll) (expected ignore : EventId) where
  -- If the queue holds events of the ignored kind and then the expected event, the thread is not
  -- told to stop, and the retries outnumber the ignored events, the wait receives the event,
  -- whatever arrives meanwhile.
  pub wait_for_event-received :
      (junk : List Event) (e : Event) (rest : List Event) (retries : ℕ)
      → All (Ignored expected ignore) junk
      → same_event e.event_id expected ≡ true
      → ((i : ℕ) → (polls i).should_stop ≡ false)
      → length junk < retries
      → (wait_for_event polls expected ignore retries (junk ++ (e ∷ rest))).0 ≡ true
  unfolding wait_for_event take_event
  wait_for_event-received [] e rest zero h s run lt = absurd (omega arith)
  wait_for_event-received [] e rest (suc n) h s run lt = rw (run n, s)
  wait_for_event-received (j ∷ junk) e rest zero h s run lt = absurd (omega arith)
  wait_for_event-received (j ∷ junk) e rest (suc n) h s run lt =
      rw (run n, h.0.1, h.0.0, append_assoc junk (e ∷ rest) (polls n).arrived)
        (wait_for_event-received junk e (rest ++ (polls n).arrived) n h.1 s run (omega arith))

  -- If the first event behind the ignored ones is neither expected nor ignored, the wait never
  -- receives anything, whatever arrives behind it and however many retries there are.
  pub wait_for_event-blocked :
      (junk : List Event) (e : Event) (rest : List Event) (retries : ℕ)
      → All (Ignored expected ignore) junk
      → same_event e.event_id expected ≡ false
      → same_event e.event_id ignore ≡ false
      → (wait_for_event polls expected ignore retries (junk ++ (e ∷ rest))).0 ≡ false
  unfolding wait_for_event take_event
  wait_for_event-blocked junk e rest zero h s i = refl
  wait_for_event-blocked [] e rest (suc n) h s i = elim (Bool-cases (polls n).should_stop) [
    | inl stop ↦ rw stop
    | inr run ↦ rw (run, s, i) (wait_for_event-blocked [] e (rest ++ (polls n).arrived) n h s i)
  ]
  wait_for_event-blocked (j ∷ junk) e rest (suc n) h s i = elim (Bool-cases (polls n).should_stop) [
    | inl stop ↦ rw stop
    | inr run ↦
        rw (run, h.0.1, h.0.0, append_assoc junk (e ∷ rest) (polls n).arrived)
          (wait_for_event-blocked junk e (rest ++ (polls n).arrived) n h.1 s i)
  ]
