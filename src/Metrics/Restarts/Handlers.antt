-- ===== src/Metrics/Restarts/Handlers.antt =====
-- The counter of restarts beside the handler that it is about: `runHandler` of
-- pkg/retryhandler/supervisor.go goes on while the exporter asks for its status again and again.
use slingshot_operator.Prelude.{
  ℕ, ◌+◌, ◌≤◌, ◌≡◌, refl, ap, ◌∙◌, String, List, [], ◌∷◌, ◌++◌, none, some, ◌⊎◌, inl, inr, eq_refl,
  arith,
}
use slingshot_operator.RetryHandler.Handler.{
  HandlerProcess, record_exit, Run, Step, handler_step, stop_step, leave, enter, new_context,
  start_failed, started, exit, write_result, leave_recorded, wait, elapsed, leave_waiting, close,
  cancel_handler,
}
use slingshot_operator.Metrics.{RetryHandlerStatus, new_exporter, series, scrape_all}
use slingshot_operator.Metrics.Restarts.{counts, reported, IsRising, last_of, restarts_once}

-- What the supervisor reports of a handler
abbrev pub status_of : HandlerProcess → RetryHandlerStatus
status_of h = record { device = h.device; running = h.running; restart_count = h.restart_count }

-- The ends of `runCXIRH` with an error that a step records: a failure to start the process, an exit
-- with an error, and a kill
abbrev fails : {r s : Run} → Step r s → ℕ
fails (handler_step (write_result (some err) p)) = 1
fails _ = 0

-- The runs from a state of the handler on, with the answers to the exporter, which asks whenever it
-- likes and may get an error, and where statuses of other devices stand around the one of the handler;
-- and with the number of the failures.
pub data Observed (r : Run) : Run → List (String ⊎ List RetryHandlerStatus) → ℕ → Type 0 where
  unasked : Observed r r [] 0
  stepped :
      {s t : Run} {answers : List (String ⊎ List RetryHandlerStatus)} {n : ℕ}
      → Observed r s answers n
      → (st : Step s t) → Observed r t answers (n + fails st)
  failed :
      {s : Run} {answers : List (String ⊎ List RetryHandlerStatus)} {n : ℕ} (err : String)
      → Observed r s answers n
      → Observed r s (answers ++ inl err ∷ []) n
  asked :
      {s : Run} {answers : List (String ⊎ List RetryHandlerStatus)} {n : ℕ}
      (before after : List RetryHandlerStatus)
      → counts r.handler.device before ≡ []
      → counts r.handler.device after ≡ []
      → Observed r s answers n
      → Observed r s (answers ++ inr (before ++ status_of s.handler ∷ after) ∷ []) n

counts-append :
    (device : String) (xs ys : List RetryHandlerStatus)
    → counts device (xs ++ ys) ≡ counts device xs ++ counts device ys
unfolding counts
counts-append device [] ys = refl
counts-append device (x ∷ xs) ys = ground (arith, counts-append device xs ys)

append_assoc : (xs ys zs : List ℕ) → xs ++ (ys ++ zs) ≡ (xs ++ ys) ++ zs
append_assoc [] ys zs = refl
append_assoc (x ∷ xs) ys zs = ap (λ (l : List ℕ). x ∷ l) (append_assoc xs ys zs)

reported-append :
    (device : String) (xs ys : List (String ⊎ List RetryHandlerStatus))
    → reported device (xs ++ ys) ≡ reported device xs ++ reported device ys
unfolding reported
reported-append device [] ys = refl
reported-append device (inl err ∷ xs) ys = reported-append device xs ys
reported-append device (inr ss ∷ xs) ys =
    ap (λ (l : List ℕ). counts device ss ++ l) (reported-append device xs ys)
    ∙ append_assoc (counts device ss) (reported device xs) (reported device ys)

append_nil : (xs : List ℕ) → xs ++ [] ≡ xs
append_nil [] = refl
append_nil (x ∷ xs) = ap (λ (l : List ℕ). x ∷ l) (append_nil xs)

counts_own :
    (device : String) (s : RetryHandlerStatus) (ss : List RetryHandlerStatus)
    → s.device ≡ device
    → counts device (s ∷ ss) ≡ s.restart_count ∷ counts device ss
unfolding counts
counts_own device s ss named = rw (named, counts) (rw (eq_refl device) refl)

reported-status :
    (device : String) (s : RetryHandlerStatus) (before after : List RetryHandlerStatus)
    → s.device ≡ device
    → counts device before ≡ []
    → counts device after ≡ []
    → reported device (inr (before ++ s ∷ after) ∷ []) ≡ s.restart_count ∷ []
unfolding reported counts
reported-status device s before after named b a =
    append_nil (counts device (before ++ s ∷ after))
    ∙ counts-append device before (s ∷ after)
    ∙ ap (λ (l : List ℕ). l ++ counts device (s ∷ after)) b
    ∙ counts_own device s after named
    ∙ ap (λ (l : List ℕ). s.restart_count ∷ l) a

-- A count that is not below the last one goes on with the rise.
IsRising-further :
    (n m : ℕ) (ms : List ℕ)
    → IsRising n ms
    → last_of n ms ≤ m
    → IsRising n (ms ++ m ∷ []) × (last_of n (ms ++ m ∷ []) ≡ m)
IsRising-further n m [] h le = ((le, tt), refl)
IsRising-further n m (k ∷ ks) (step, h) le =
    let (rise, end) = IsRising-further k m ks h le in ((step, rise), end)

-- A step keeps the name of the handler and counts what fails.
abbrev Counts : HandlerProcess → ℕ → HandlerProcess → Type 0
Counts h n k = (k.device ≡ h.device) × (k.restart_count ≡ h.restart_count + n)

Step-Counts : {r s : Run} (st : Step r s) → Counts r.handler (fails st) s.handler
unfolding record_exit
Step-Counts (handler_step (leave p q)) = (refl, omega arith)
Step-Counts (handler_step (enter p q)) = (refl, omega arith)
Step-Counts (handler_step (new_context p)) = (refl, omega arith)
Step-Counts (handler_step (start_failed err p)) = (refl, omega arith)
Step-Counts (handler_step (started p)) = (refl, omega arith)
Step-Counts (handler_step (exit result p)) = (refl, omega arith)
Step-Counts (handler_step (write_result none p)) = (refl, omega arith)
Step-Counts (handler_step (write_result (some err) p)) = (refl, omega arith)
Step-Counts (handler_step (leave_recorded p q)) = (refl, omega arith)
Step-Counts (handler_step (wait p q)) = (refl, omega arith)
Step-Counts (handler_step (elapsed p)) = (refl, omega arith)
Step-Counts (handler_step (leave_waiting p q)) = (refl, omega arith)
Step-Counts (stop_step (close p)) = (refl, omega arith)
Step-Counts (stop_step (cancel_handler p q)) = (refl, omega arith)

-- What was reported rises from the count at the beginning to at most the count of the handler.
record Reports (r s : Run) (answers : List (String ⊎ List RetryHandlerStatus)) (n : ℕ)
    : Type 0 where
  same_device : s.handler.device ≡ r.handler.device
  counted : s.handler.restart_count ≡ r.handler.restart_count + n
  rising : IsRising r.handler.restart_count (reported r.handler.device answers)
  not_above :
      last_of r.handler.restart_count (reported r.handler.device answers) ≤ s.handler.restart_count

Observed-Reports :
    {r s : Run} {answers : List (String ⊎ List RetryHandlerStatus)} {n : ℕ}
    → Observed r s answers n
    → Reports r s answers n
unfolding reported
Observed-Reports unasked = record {
  same_device = refl;
  counted = omega arith;
  rising = tt;
  not_above = omega arith;
}
Observed-Reports (stepped o st) =
    let h = Observed-Reports o in
    let (same, up) = Step-Counts st in
    record {
      same_device = same ∙ h.same_device;
      counted = omega (arith, h.counted, up);
      rising = h.rising;
      not_above = omega (arith, h.not_above, up);
    }
Observed-Reports {r = r} (failed {answers = answers} err o) =
    let h = Observed-Reports o in
    let none_more =
      reported-append r.handler.device answers (inl err ∷ [])
      ∙ append_nil (reported r.handler.device answers) in
    record {
      same_device = h.same_device;
      counted = h.counted;
      rising = rw none_more h.rising;
      not_above = rw none_more h.not_above;
    }
Observed-Reports {r = r} (asked {s = s} {answers = answers} before after b a o) =
    let h = Observed-Reports o in
    let device = r.handler.device in
    let status = status_of s.handler in
    let one_more =
      reported-append device answers (inr (before ++ status ∷ after) ∷ [])
      ∙ ap (λ (l : List ℕ). reported device answers ++ l)
          (reported-status device status before after h.same_device b a) in
    let (rising, end) =
      IsRising-further r.handler.restart_count s.handler.restart_count (reported device answers)
        h.rising h.not_above in
    record {
      same_device = h.same_device;
      counted = h.counted;
      rising = rw one_more rising;
      not_above = rw one_more (omega (arith, end));
    }

-- The answer to an exporter that asks about one handler only.
abbrev pub alone : Run → String ⊎ List RetryHandlerStatus
alone r = inr (status_of r.handler ∷ [])

-- While a handler goes on, a fresh exporter looks at it first in the state `r`, then any number of
-- times, with or without an answer, and last in the state `s`: its counter tells how many times
-- `runCXIRH` ended with an error from the one state to the other. An end without an error does not
-- count, though the process is started again after it.
pub restarts_counted :
    {r s : Run} {answers : List (String ⊎ List RetryHandlerStatus)} {n : ℕ}
    → Observed r s answers n
    → let seen = alone r ∷ answers ++ alone s ∷ [] in
      series r.handler.device (scrape_all seen new_exporter).retry_handler_restarts ≡ n
unfolding counts reported
restarts_counted {r = r} {s = s} {answers = answers} o =
    let device = r.handler.device in
    let h = Observed-Reports o in
    let last = status_of s.handler in
    let rest = answers ++ alone s ∷ [] in
    let one_more =
      reported-append device answers (alone s ∷ [])
      ∙ ap (λ (l : List ℕ). reported device answers ++ l)
          (reported-status device last [] [] h.same_device refl refl) in
    let (rising, end) =
      IsRising-further r.handler.restart_count s.handler.restart_count (reported device answers)
        h.rising h.not_above in
    let first =
      ap (λ (l : List ℕ). l ++ reported device rest)
        (counts_own device (status_of r.handler) [] refl) in
    let seen = alone r ∷ rest in
    let grown : r.handler.restart_count
          + series device (scrape_all seen new_exporter).retry_handler_restarts
        ≡ s.handler.restart_count =
      restarts_once device seen r.handler.restart_count (reported device rest) first
        (rw one_more rising)
      ∙ rw one_more end in
    omega (arith, grown, h.counted)
