-- ===== src/RetryHandler/Race.antt =====
-- What `Stop` can miss: a handler that stands between its check of `stopCh` and the store of its
-- cancel function.
use slingshot_operator.Prelude.{
  ℕ, ◌+◌, ◌≤◌, ◌≡◌, ◌≢◌, refl, true, false, String, Option, none, some, arith,
}
use slingshot_operator.RetryHandler.Handler.{
  starting, executing, Run, start, HandlerStep, StopStep, handler_step, stop_step, Reach, here,
  next, leave, enter, new_context, start_failed, started, exit, write_result, leave_recorded, wait,
  elapsed, leave_waiting, close, cancel_handler,
}
use slingshot_operator.RetryHandler.Stop.{record_exit-cancel}

-- The stored function is one of a context that was made.
abbrev IsOld : ℕ → Option ℕ → Type 0
IsOld context none = Unit {0}
IsOld context (some n) = n ≤ context

HandlerStep-IsOld :
    {r s : Run}
    → HandlerStep r s
    → IsOld r.context r.handler.cancel
    → IsOld s.context s.handler.cancel
HandlerStep-IsOld (leave p q) h = h
HandlerStep-IsOld (enter p q) h = h
HandlerStep-IsOld (new_context p) h = omega arith
HandlerStep-IsOld (start_failed err p) h = h
HandlerStep-IsOld (started p) h = h
HandlerStep-IsOld (exit result p) h = h
HandlerStep-IsOld {r = r} (write_result result p) h = rw (record_exit-cancel result r.handler) h
HandlerStep-IsOld (leave_recorded p q) h = h
HandlerStep-IsOld (wait p q) h = h
HandlerStep-IsOld (elapsed p) h = h
HandlerStep-IsOld (leave_waiting p q) h = h

Reach-IsOld : {device : String} {r : Run} → Reach device r → IsOld r.context r.handler.cancel
unfolding start
Reach-IsOld here = tt
Reach-IsOld (next h (handler_step st)) = HandlerStep-IsOld st (Reach-IsOld h)
Reach-IsOld (next h (stop_step (close p))) = Reach-IsOld h
Reach-IsOld (next h (stop_step (cancel_handler p q))) = Reach-IsOld h

old_not_new : (context : ℕ) (o : Option ℕ) → IsOld context o → o ≢ some (context + 1)
old_not_new context none h e = cc
old_not_new context (some n) h e = ground arith

-- The process runs, `Stop` has passed the handler, and what it has cancelled is not the context of
-- the process.
pub record IsMissed (r : Run) : Type 0 where
  pub runs : r.phase ≡ executing
  pub stopped : r.stopped ≡ true
  pub passed : r.stop_passed ≡ true
  pub not_cancelled : r.cancelled ≢ some r.context

-- `Stop` has nothing more to do for it.
missed_alone : {r s : Run} → IsMissed r → StopStep r s → ⊥
missed_alone m (close p) = cc (m.stopped, p)
missed_alone m (cancel_handler p q) = cc (m.passed, q)

-- `Stop` passes a handler that is about to start, and the handler starts all the same.
abbrev passed_by : Run → Run
passed_by r = record r { stopped = true; stop_passed = true; cancelled = r.handler.cancel }

abbrev started_after : Run → Run
started_after r = record (passed_by r) {
  phase = executing;
  context = r.context + 1;
  handler = record (r.handler) { cancel = some (r.context + 1); running = true };
}

-- Whenever a handler stands between its check of `stopCh` and the store of its cancel function and
-- `Stop` has not begun, a run goes on in which `Stop` passes the handler and its process runs all the
-- same, in a context that `Stop` did not cancel; and no step of `Stop` is left that would end it.
pub stop_misses :
    {device : String} {r : Run}
    → Reach device r
    → r.phase ≡ starting
    → r.stopped ≡ false
    → r.stop_passed ≡ false
    → (s : Run) × Reach device s × IsMissed s × ((t : Run) → StopStep s t → ⊥)
stop_misses {r = r} h p q n =
    let missed : IsMissed (started_after r) = record {
      runs = refl;
      stopped = refl;
      passed = refl;
      not_cancelled = old_not_new r.context r.handler.cancel (Reach-IsOld h);
    } in
    let stop_first : Reach _ (passed_by r) =
      next (next h (stop_step (close q))) (stop_step (cancel_handler refl n)) in
    let reach : Reach _ (started_after r) =
      next (next stop_first (handler_step (new_context p))) (handler_step (started refl)) in
    (started_after r, reach, missed, λ t. missed_alone missed)
