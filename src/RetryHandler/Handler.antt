-- ===== src/RetryHandler/Handler.antt =====
-- `runHandler` and `runCXIRH` of pkg/retryhandler/supervisor.go as a step relation: one handler's
-- goroutine beside the goroutine of `Stop`, with the system's part (the process and the clock) as
-- the choice between steps. A duration is a number of seconds.
use slingshot_operator.Prelude.{
  ℕ, ◌*◌, ◌+◌, ◌≡◌, String, Bool, true, false, Option, none, some, ltb, if◌then◌else◌,
}

abbrev pub restart_backoff_min : ℕ
restart_backoff_min = 1

abbrev pub restart_backoff_max : ℕ
restart_backoff_max = 60

-- Doubled, and cut at the maximum; the factor 2.0 is exact at these sizes.
unfoldable pub next_backoff : ℕ → ℕ
next_backoff backoff =
    if ltb restart_backoff_max (backoff * 2) then restart_backoff_max else backoff * 2

-- The command and the start time are left out; `cancel` is the number of the context that the stored
-- function cancels, none for nil.
pub record HandlerProcess : Type 0 where
  pub device : String
  pub cancel : Option ℕ
  pub restart_count : ℕ
  pub last_error : String
  pub running : Bool

-- Where the loop of `runHandler` is.
pub data Phase : Type 0 where
  checking : Phase  -- before the first `select`
  starting : Phase  -- after it, before `h.cancel` is set
  launching : Phase  -- in `runCXIRH`, before `cmd.Start` has returned
  executing : Phase  -- in `cmd.Wait`
  exited : Option String → Phase  -- `runCXIRH` has returned
  recorded : Phase  -- before the second `select`
  waiting : Phase  -- in the third `select`
  done : Phase  -- the goroutine has returned

-- `stopped` tells whether `stopCh` is closed, `context` is the number of the newest context, and
-- `cancelled` is the context that `Stop` has cancelled.
pub record Run : Type 0 where
  pub phase : Phase
  pub handler : HandlerProcess
  pub backoff : ℕ
  pub stopped : Bool
  pub stop_passed : Bool
  pub context : ℕ
  pub cancelled : Option ℕ

unfoldable pub start : String → Run
start device = record {
  phase = checking;
  handler = record {
    device = device;
    cancel = none;
    restart_count = 0;
    last_error = "";
    running = false;
  };
  backoff = restart_backoff_min;
  stopped = false;
  stop_passed = false;
  context = 0;
  cancelled = none;
}

-- h.running = false and, for an error, its text and its count.
unfoldable pub record_exit : Option String → HandlerProcess → HandlerProcess
record_exit none h = record h { running = false }
record_exit (some err) h = record h {
  running = false;
  last_error = err;
  restart_count = h.restart_count + 1;
}

abbrev pub in_phase : Phase → Run → Run
in_phase p r = record r { phase = p }

-- The steps of `runHandler`.
pub data HandlerStep (r : Run) : Run → Type 0 where
  leave : r.phase ≡ checking → r.stopped ≡ true → HandlerStep r (in_phase done r)
  enter : r.phase ≡ checking → r.stopped ≡ false → HandlerStep r (in_phase starting r)
  new_context :
      r.phase ≡ starting
      → HandlerStep r (record r {
        phase = launching;
        context = r.context + 1;
        handler = record (r.handler) { cancel = some (r.context + 1) };
      })
  start_failed :
      (err : String) → r.phase ≡ launching → HandlerStep r (in_phase (exited (some err)) r)
  started :
      r.phase ≡ launching
      → HandlerStep r
          (record r { phase = executing; handler = record (r.handler) { running = true } })
  exit : (result : Option String) → r.phase ≡ executing → HandlerStep r (in_phase (exited result) r)
  write_result :
      (result : Option String)
      → r.phase ≡ exited result
      → HandlerStep r (record r { phase = recorded; handler = record_exit result r.handler })
  leave_recorded : r.phase ≡ recorded → r.stopped ≡ true → HandlerStep r (in_phase done r)
  wait : r.phase ≡ recorded → r.stopped ≡ false → HandlerStep r (in_phase waiting r)
  elapsed :
      r.phase ≡ waiting
      → HandlerStep r (record r { phase = checking; backoff = next_backoff r.backoff })
  leave_waiting : r.phase ≡ waiting → r.stopped ≡ true → HandlerStep r (in_phase done r)

-- The steps of `Stop`: `close(s.stopCh)`, and then the call of `h.cancel`, if it is set.
pub data StopStep (r : Run) : Run → Type 0 where
  close : r.stopped ≡ false → StopStep r (record r { stopped = true })
  cancel_handler :
      r.stopped ≡ true
      → r.stop_passed ≡ false
      → StopStep r (record r { stop_passed = true; cancelled = r.handler.cancel })

pub data Step (r s : Run) : Type 0 where
  handler_step : HandlerStep r s → Step r s
  stop_step : StopStep r s → Step r s

-- What is reached from the start of a device's goroutine.
pub data Reach (device : String) : Run → Type 0 where
  here : Reach device (start device)
  next : {r s : Run} → Reach device r → Step r s → Reach device s
