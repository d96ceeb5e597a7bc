-- ===== src/Tests/Handlers.antt =====
-- The retry handler's supervisor at concrete inputs.
use slingshot_operator.Prelude.{
  ℕ, ◌^◌, ◌≤◌, ◌≡◌, refl, min, String, true, false, List, [], ◌∷◌, none, some, ◌⊎◌, inl, inr, mem,
  distinct,
}
use slingshot_operator.RetryHandler.Handler.{
  checking, executing, waiting, done, Run, start, StopStep, handler_step, stop_step, Reach, here,
  next, enter, new_context, started, exit, write_result, wait, elapsed, leave_recorded, close,
  cancel_handler, next_backoff, record_exit,
}
use slingshot_operator.RetryHandler.Backoff.{Reach-backoff}
use slingshot_operator.RetryHandler.Stop.{Sure, stop_ends, Trail, none_yet, then_handler, then_stop}
use slingshot_operator.RetryHandler.Race.{IsMissed, stop_misses}
use slingshot_operator.Metrics.{RetryHandlerStatus, new_exporter, series, scrape_all}
use slingshot_operator.Metrics.Restarts.Handlers.{
  Observed, unasked, stepped, failed, alone, restarts_counted,
}
use slingshot_operator.RetryHandler.Supervisor.{
  new_supervisor, start_handlers, start_supervisor, one_handler_each,
}
use slingshot_operator.RetryHandler.Status.{healthz, supervisor_status_page}
use Prim.Native.String.{◌++◌ as cat}

-- The handler of cxi0 whose process has failed once and is started again.
abbrev retried : Run
retried = record {
  phase = waiting;
  handler = record {
    device = "cxi0";
    cancel = some 1;
    restart_count = 1;
    last_error = "exit status 1";
    running = false;
  };
  backoff = 1;
  stopped = false;
  stop_passed = false;
  context = 1;
  cancelled = none;
}

abbrev again : Run
again = record retried { phase = checking; backoff = 2 }

retried-Reach : Reach "cxi0" retried
unfolding start record_exit
retried-Reach =
    next
      (next
        (next
          (next
            (next (next here (handler_step (enter refl refl))) (handler_step (new_context refl)))
            (handler_step (started refl)))
          (handler_step (exit (some "exit status 1") refl)))
        (handler_step (write_result (some "exit status 1") refl)))
      (handler_step (wait refl refl))

-- The exporter asks before the process is started, gets no answer, and asks again after the failure.
retried-Observed : Observed (start "cxi0") retried (inl "connection refused" ∷ []) 1
unfolding start record_exit
retried-Observed =
    stepped
      (stepped
        (stepped
          (stepped
            (stepped
              (failed "connection refused" (stepped unasked (handler_step (enter refl refl))))
              (handler_step (new_context refl)))
            (handler_step (started refl)))
          (handler_step (exit (some "exit status 1") refl)))
        (handler_step (write_result (some "exit status 1") refl)))
      (handler_step (wait refl refl))

abbrev seen : List (String ⊎ List RetryHandlerStatus)
seen = alone (start "cxi0") ∷ inl "connection refused" ∷ alone retried ∷ []

restarts_counted_example : series "cxi0" (scrape_all seen new_exporter).retry_handler_restarts ≡ 1
unfolding start
restarts_counted_example = restarts_counted retried-Observed

again-Reach : Reach "cxi0" again
unfolding next_backoff
again-Reach = next retried-Reach (handler_step (elapsed refl))

Reach-backoff_example :
    ((n : ℕ) × (again.backoff ≡ min (2 ^ n) 60)) × (1 ≤ again.backoff) × (again.backoff ≤ 60)
Reach-backoff_example = Reach-backoff again-Reach

-- Stop comes while the process runs.
abbrev running : Run
running = record {
  phase = executing;
  handler = record {
    device = "cxi0";
    cancel = some 1;
    restart_count = 0;
    last_error = "";
    running = true;
  };
  backoff = 1;
  stopped = false;
  stop_passed = false;
  context = 1;
  cancelled = none;
}

running-Reach : Reach "cxi0" running
unfolding start
running-Reach =
    next (next (next here (handler_step (enter refl refl))) (handler_step (new_context refl)))
      (handler_step (started refl))

abbrev killed_run : Run
killed_run = record running {
  phase = done;
  handler = record (running.handler) {
    running = false;
    last_error = "signal: killed";
    restart_count = 1;
  };
  stopped = true;
  stop_passed = true;
  cancelled = some 1;
}

killed-Trail : Trail (record running { stopped = true }) 3 killed_run
unfolding record_exit
killed-Trail =
    then_handler
      (then_handler
        (then_handler (then_stop none_yet (cancel_handler refl refl))
          (exit (some "signal: killed") refl))
        (write_result (some "signal: killed") refl))
      (leave_recorded refl refl)

stop_ends_example : (3 ≤ 5) × ((killed_run.phase ≡ done) ⊎ ((t : Run) × Sure killed_run t))
stop_ends_example = stop_ends running-Reach (λ e. cc) refl killed-Trail refl

one_handler_each_example :
    let s = start_handlers ("cxi0" ∷ "cxi1" ∷ "cxi0" ∷ []) new_supervisor in
    (distinct s.goroutines ≡ true)
    × ((n : String) → mem n s.goroutines ≡ mem n ("cxi0" ∷ "cxi1" ∷ "cxi0" ∷ []))
one_handler_each_example = one_handler_each ("cxi0" ∷ "cxi1" ∷ "cxi0" ∷ [])

-- `Stop` runs whole between the check of `stopCh` and the assignment of `h.cancel`: the process is
-- started all the same, in a context that is not cancelled.
abbrev missed : Run
missed = record {
  phase = executing;
  handler = record {
    device = "cxi0";
    cancel = some 1;
    restart_count = 0;
    last_error = "";
    running = true;
  };
  backoff = 1;
  stopped = true;
  stop_passed = true;
  context = 1;
  cancelled = none;
}

missed-Reach : Reach "cxi0" missed
unfolding start
missed-Reach =
    next
      (next
        (next (next (next here (handler_step (enter refl refl))) (stop_step (close refl)))
          (stop_step (cancel_handler refl refl)))
        (handler_step (new_context refl)))
      (handler_step (started refl))

stop_misses_example : (s : Run) × Reach "cxi0" s × IsMissed s × ((t : Run) → StopStep s t → ⊥)
unfolding start
stop_misses_example = stop_misses (next here (handler_step (enter refl refl))) refl refl refl

abbrev in_quotes : String → String
in_quotes s = cat "\"" (cat s "\"")

-- Two handlers of which no process runs yet
status_test :
    supervisor_status_page in_quotes (λ h. 0) (start_handlers ("cxi0" ∷ "cxi1" ∷ []) new_supervisor)
    ≡ "{\n  \"handlers\": [\n    {\"device\": \"cxi0\", \"running\": false, \"pid\": 0, \"restarts\": 0},\n    {\"device\": \"cxi1\", \"running\": false, \"pid\": 0, \"restarts\": 0}\n  ],\n  \"healthy\": false\n}\n"
unfolding supervisor_status_page start_handlers
status_test = refl

-- Without handlers the supervisor is healthy, but with no device its health server is not started.
idle_test : healthz new_supervisor ≡ (200, "ok\n")
unfolding healthz
idle_test = refl

no_server_test : (start_supervisor (inr []) new_supervisor).1.health_server ≡ false
unfolding start_supervisor
no_server_test = refl
