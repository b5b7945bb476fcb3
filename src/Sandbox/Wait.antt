-- ===== src/Sandbox/Wait.antt =====
-- `propagate_termination_status` of jaim.cc, and the loop of `Config::exec` that waits for the
-- sandboxed child.
pub mod Ending
mod Tests
use jaim.Prelude.{ℕ, ◌==◌, ltb, Bool, true, false, ◌||◌, if◌then◌else◌, List, [], ◌∷◌, ◌++◌}

-- The status of a child, by the macros that take it apart: stopped or terminated by a signal, or
-- exited with a code; anything else is a child that goes on.
pub data Status : Type 0 where
  stopped exited signaled : ℕ → Status
  continued : Status

-- What jaim does on the way: the sweep of `atexit_fn`, and its calls on signals.
pub data Event : Type 0 where
  at_exit : Event
  set_default unblock raise : ℕ → Event

-- `exit` or, in a forked process, `_exit`, with the code; a signal that ends jaim; an exception.
pub data Next : Type 0 where
  returns : ℕ → Next
  exits quick_exits killed throws : ℕ → Next
  waiting : Next

-- SIGSTOP, SIGTSTP, SIGTTIN and SIGTTOU of the system.
unfoldable pub is_stop : ℕ → Bool
is_stop sig = sig == 17 || sig == 18 || sig == 21 || sig == 22

-- EINTR of the system.
abbrev pub eintr : ℕ
eintr = 4

-- What one `waitpid` says: that it has failed, with errno, the child's status, or another process.
pub data Waited : Type 0 where
  failed : ℕ → Waited
  reaped : Status → Waited
  other : Waited

-- Whether the process is the one that started, and whether the default action of a signal ends it.
module _ (is_main : Bool) (kills : ℕ → Bool) where
  unfoldable pub do_exit : ℕ → List Event × Next
  do_exit code = (at_exit ∷ [], if is_main then exits code else quick_exits code)

  -- What is done before `rest`.
  abbrev preceded : List Event → List Event × Next → List Event × Next
  preceded events (later, next) = (events ++ later, next)

  -- The exit code -1 is the byte 255.
  unfoldable pub propagate_termination_status : Status → List Event × Next
  propagate_termination_status (stopped sig) = ([], returns (if is_stop sig then sig else 0))
  propagate_termination_status (exited code) = do_exit code
  propagate_termination_status (signaled sig) =
      let calls = set_default sig ∷ unblock sig ∷ raise sig ∷ [] in
      if kills sig then (calls, killed sig) else preceded calls (do_exit 255)
  propagate_termination_status continued = ([], returns 0)

  -- The loop goes on behind a status that does not end it.
  unfoldable pub react : List Event × Next → List Event × Next → List Event × Next
  react (events, returns sig) (later, next) =
      (events ++ (if ltb 0 sig then raise sig ∷ [] else []) ++ later, next)
  react (events, exits code) rest = (events, exits code)
  react (events, quick_exits code) rest = (events, quick_exits code)
  react (events, killed sig) rest = (events, killed sig)
  react (events, throws e) rest = (events, throws e)
  react (events, waiting) rest = (events, waiting)

  unfoldable pub await_child : List Waited → List Event × Next
  await_child [] = ([], waiting)
  await_child (failed e ∷ ws) =
      let rest = await_child ws in if e == eintr then rest else (at_exit ∷ [], throws e)
  await_child (reaped status ∷ ws) = react (propagate_termination_status status) (await_child ws)
  await_child (other ∷ ws) = await_child ws
