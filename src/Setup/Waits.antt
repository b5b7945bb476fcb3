-- ===== src/Setup/Waits.antt =====
-- When a command of dscl is taken to have succeeded.
use jaim.Prelude.{◌≡◌, arith, ok}
use jaim.Setup.System.{
  DirectoryRecord, Wait, interrupted, wait_failed, exited, signaled, unexpected, last_wait,
  last_launch, Launch, no_fork, forked,
}
use jaim.Setup.{await, wait_loop, exit_zero}

wait_loop-exited : (w : Wait) → exit_zero (wait_loop w) ≡ ok tt → last_wait w ≡ exited 0
unfolding wait_loop
wait_loop-exited (interrupted w) e = wait_loop-exited w e
wait_loop-exited (exited n) e = ground arith
wait_loop-exited (wait_failed n) e = ground arith
wait_loop-exited (signaled n) e = ground arith
wait_loop-exited (unexpected n) e = ground arith

wait_loop-zero : (w : Wait) → last_wait w ≡ exited 0 → exit_zero (wait_loop w) ≡ ok tt
unfolding wait_loop
wait_loop-zero (interrupted w) e = wait_loop-zero w e
wait_loop-zero (exited n) e = ground arith
wait_loop-zero (wait_failed n) e = ground arith
wait_loop-zero (signaled n) e = ground arith
wait_loop-zero (unexpected n) e = ground arith

-- A command is taken to have succeeded exactly when it exits with 0, after any interruptions.
pub await-exited :
    (r : DirectoryRecord) (l : Launch)
    → exit_zero (await r l) ≡ ok tt
    → last_launch l ≡ forked (exited 0)
await-exited r no_fork e = cc
await-exited r (forked w) e = cc (wait_loop-exited w e)

pub await-zero :
    (r : DirectoryRecord) (l : Launch)
    → last_launch l ≡ forked (exited 0)
    → exit_zero (await r l) ≡ ok tt
await-zero r no_fork e = cc
await-zero r (forked w) e = wait_loop-zero w (cc)
