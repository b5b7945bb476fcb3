-- ===== src/Sandbox/Wait/Ending.antt =====
-- How jaim ends when the sandboxed child does, by `Config::exec` of jaim.cc.
use jaim.Prelude.{ℕ, ◌≡◌, Bool, true, false, any, if◌then◌else◌, List, [], ◌∷◌, ◌++◌}
use jaim.Sandbox.Wait.{
  Status, stopped, exited, signaled, continued, Event, at_exit, set_default, unblock, raise, Next,
  killed, is_stop, eintr, Waited, failed, reaped, other, do_exit,
}

-- What does not end the loop: an interrupted call, another process, a child that stops or goes on.
abbrev pub IsPending : Waited → Type 0
IsPending (failed e) = e ≡ eintr
IsPending (reaped (stopped sig)) = Unit {0}
IsPending (reaped continued) = Unit {0}
IsPending (reaped (exited code)) = ⊥
IsPending (reaped (signaled sig)) = ⊥
IsPending other = Unit {0}

-- Whether the sweep has been made.
abbrev pub is_sweep : Event → Bool
is_sweep at_exit = true
is_sweep (set_default sig) = false
is_sweep (unblock sig) = false
is_sweep (raise sig) = false

abbrev pub swept : List Event → Bool
swept events = any is_sweep events

-- The stop signals that jaim has passed on to itself, in order.
abbrev pub raised : List Event → List ℕ
raised [] = []
raised (raise sig ∷ events) = sig ∷ raised events
raised (at_exit ∷ events) = raised events
raised (set_default sig ∷ events) = raised events
raised (unblock sig ∷ events) = raised events

abbrev pub stops : List Waited → List ℕ
stops [] = []
stops (reaped (stopped sig) ∷ ws) = if is_stop sig then sig ∷ stops ws else stops ws
stops (reaped continued ∷ ws) = stops ws
stops (reaped (exited code) ∷ ws) = stops ws
stops (reaped (signaled sig) ∷ ws) = stops ws
stops (failed e ∷ ws) = stops ws
stops (other ∷ ws) = stops ws

-- How the child ended: by its exit, or by a signal.
pub data End : Type 0 where
  with_code by_signal : ℕ → End

abbrev pub status_of : End → Status
status_of (with_code code) = exited code
status_of (by_signal sig) = signaled sig

module _ (is_main : Bool) (kills : ℕ → Bool) where
  abbrev pub IsDeadly : End → Type 0
  IsDeadly (with_code code) = Unit {0}
  IsDeadly (by_signal sig) = kills sig ≡ true

  abbrev pub ending : End → Next
  ending (with_code code) = (do_exit is_main kills code).1
  ending (by_signal sig) = killed sig

  abbrev pub exited_itself : End → Bool
  exited_itself (with_code code) = true
  exited_itself (by_signal sig) = false

  abbrev pub last_raised : End → List ℕ
  last_raised (with_code code) = []
  last_raised (by_signal sig) = sig ∷ []

  abbrev pub Ends : End → List ℕ → List Event × Next → Type 0
  Ends end sigs (events, next) =
      (next ≡ ending end)
      × (swept events ≡ exited_itself end)
      × (raised events ≡ (sigs ++ last_raised end))
