-- ===== src/RetryHandler/Stop.antt =====
-- How a handler ends after `Stop`.
use slingshot_operator.Prelude.{
  ℕ, suc, ◌+◌, ◌<◌, ◌≤◌, ◌≡◌, ◌≢◌, refl, sym, ◌∙◌, true, false, String, Option, none, some, ◌⊎◌,
  inl, inr, arith,
}
use slingshot_operator.RetryHandler.Handler.{
  HandlerProcess, record_exit, Phase, checking, starting, launching, executing, exited, recorded,
  waiting, done, in_phase, Run, start, HandlerStep, StopStep, handler_step, stop_step, Reach, here,
  next, leave, enter, new_context, start_failed, started, exit, write_result, leave_recorded, wait,
  elapsed, leave_waiting, close, cancel_handler,
}

-- The most steps that a handler can still take once `stopCh` is closed.
abbrev pub rank : Phase → ℕ
rank starting = 6
rank launching = 5
rank executing = 4
rank (exited result) = 3
rank recorded = 2
rank waiting = 2
rank checking = 1
rank done = 0

-- `n` steps of the handler, any number of steps of `Stop` between them.
pub data Trail (r : Run) : ℕ → Run → Type 0 where
  none_yet : Trail r 0 r
  then_handler : {n : ℕ} {s t : Run} → Trail r n s → HandlerStep s t → Trail r (suc n) t
  then_stop : {n : ℕ} {s t : Run} → Trail r n s → StopStep s t → Trail r n t

rank-step :
    {r s : Run}
    → HandlerStep r s
    → r.stopped ≡ true
    → (rank s.phase < rank r.phase) × (s.stopped ≡ true)
rank-step (leave p q) h = (rw p (omega arith), h)
rank-step (enter p q) h = cc
rank-step (new_context p) h = (rw p (omega arith), h)
rank-step (start_failed err p) h = (rw p (omega arith), h)
rank-step (started p) h = (rw p (omega arith), h)
rank-step (exit result p) h = (rw p (omega arith), h)
rank-step (write_result result p) h = (rw p (omega arith), h)
rank-step (leave_recorded p q) h = (rw p (omega arith), h)
rank-step (wait p q) h = cc
rank-step (elapsed p) h = (rw p (omega arith), h)
rank-step (leave_waiting p q) h = (rw p (omega arith), h)

stop-step : {r s : Run} → StopStep r s → r.stopped ≡ true → (s.phase ≡ r.phase) × (s.stopped ≡ true)
stop-step (close p) h = (refl, refl)
stop-step (cancel_handler p q) h = (refl, h)

Trail-rank :
    {r s : Run} {n : ℕ}
    → Trail r n s
    → r.stopped ≡ true
    → (n + rank s.phase ≤ rank r.phase) × (s.stopped ≡ true)
Trail-rank none_yet h = (omega arith, h)
Trail-rank (then_handler t st) h =
    let (le, k) = Trail-rank t h in let (lt, k') = rank-step st k in (omega arith, k')
Trail-rank (then_stop t st) h =
    let (le, k) = Trail-rank t h in let (e, k') = stop-step st k in (rw e le, k')

-- What is sure to happen next: the handler's own steps, but a process that runs ends for sure only
-- when its context is cancelled, which kills it.
pub data Sure (r : Run) : Run → Type 0 where
  goes : {s : Run} → HandlerStep r s → r.phase ≢ executing → Sure r s
  killed :
      (result : Option String)
      → r.phase ≡ executing
      → r.cancelled ≡ some r.context
      → Sure r (in_phase (exited result) r)

-- In `runCXIRH` the stored function is the one of the newest context.
abbrev OwnContext : Phase → ℕ → Option ℕ → Type 0
OwnContext launching context cancel = cancel ≡ some context
OwnContext executing context cancel = cancel ≡ some context
OwnContext _ context cancel = Unit {0}

HandlerStep-OwnContext :
    {r s : Run}
    → HandlerStep r s
    → OwnContext r.phase r.context r.handler.cancel
    → OwnContext s.phase s.context s.handler.cancel
HandlerStep-OwnContext (leave p q) f = tt
HandlerStep-OwnContext (enter p q) f = tt
HandlerStep-OwnContext (new_context p) f = refl
HandlerStep-OwnContext (start_failed err p) f = tt
HandlerStep-OwnContext (started p) f = rw p at f
HandlerStep-OwnContext (exit result p) f = tt
HandlerStep-OwnContext (write_result result p) f = tt
HandlerStep-OwnContext (leave_recorded p q) f = tt
HandlerStep-OwnContext (wait p q) f = tt
HandlerStep-OwnContext (elapsed p) f = tt
HandlerStep-OwnContext (leave_waiting p q) f = tt

Reach-OwnContext :
    {device : String} {r : Run} → Reach device r → OwnContext r.phase r.context r.handler.cancel
unfolding start
Reach-OwnContext here = tt
Reach-OwnContext (next h (handler_step st)) = HandlerStep-OwnContext st (Reach-OwnContext h)
Reach-OwnContext (next h (stop_step (close p))) = Reach-OwnContext h
Reach-OwnContext (next h (stop_step (cancel_handler p q))) = Reach-OwnContext h

-- After `close(s.stopCh)`, for a handler that was not about to start: no new context is made, and what
-- `Stop` has cancelled, if it has passed the handler, is the stored one.
record IsCovered (r : Run) : Type 0 where
  closed : r.stopped ≡ true
  not_starting : r.phase ≢ starting
  own : OwnContext r.phase r.context r.handler.cancel
  cancelled_own : r.stop_passed ≡ true → r.cancelled ≡ r.handler.cancel

pub record_exit-cancel :
    (o : Option String) (h : HandlerProcess) → (record_exit o h).cancel ≡ h.cancel
unfolding record_exit
record_exit-cancel none h = refl
record_exit-cancel (some e) h = refl

-- What a step of the handler leaves as it is once `stopCh` is closed.
HandlerStep-kept :
    {r s : Run}
    → HandlerStep r s
    → IsCovered r
    → (s.phase ≢ starting)
      × (s.handler.cancel ≡ r.handler.cancel)
      × (s.cancelled ≡ r.cancelled)
      × (s.stop_passed ≡ r.stop_passed)
HandlerStep-kept (leave p q) h = ((λ e. cc), refl, refl, refl)
HandlerStep-kept (enter p q) h = cc (h.closed, q)
HandlerStep-kept (new_context p) h = absurd (h.not_starting p)
HandlerStep-kept (start_failed err p) h = ((λ e. cc), refl, refl, refl)
HandlerStep-kept (started p) h = ((λ e. cc), refl, refl, refl)
HandlerStep-kept (exit result p) h = ((λ e. cc), refl, refl, refl)
HandlerStep-kept {r = r} (write_result result p) h =
    ((λ e. cc), record_exit-cancel result r.handler, refl, refl)
HandlerStep-kept (leave_recorded p q) h = ((λ e. cc), refl, refl, refl)
HandlerStep-kept (wait p q) h = cc (h.closed, q)
HandlerStep-kept (elapsed p) h = ((λ e. cc), refl, refl, refl)
HandlerStep-kept (leave_waiting p q) h = ((λ e. cc), refl, refl, refl)

HandlerStep-IsCovered : {r s : Run} → HandlerStep r s → IsCovered r → IsCovered s
HandlerStep-IsCovered st h =
    let (away, same, same_cancelled, same_passed) = HandlerStep-kept st h in
    record {
      closed = (rank-step st h.closed).1;
      not_starting = away;
      own = HandlerStep-OwnContext st h.own;
      cancelled_own =
          λ passed. same_cancelled ∙ h.cancelled_own (sym same_passed ∙ passed) ∙ sym same;
    }

StopStep-IsCovered : {r s : Run} → StopStep r s → IsCovered r → IsCovered s
StopStep-IsCovered (close p) h = record {
  closed = refl;
  not_starting = h.not_starting;
  own = h.own;
  cancelled_own = h.cancelled_own;
}
StopStep-IsCovered (cancel_handler p q) h = record {
  closed = h.closed;
  not_starting = h.not_starting;
  own = h.own;
  cancelled_own = λ _. refl;
}

Trail-IsCovered : {r s : Run} {n : ℕ} → Trail r n s → IsCovered r → IsCovered s
Trail-IsCovered none_yet h = h
Trail-IsCovered (then_handler t st) h = HandlerStep-IsCovered st (Trail-IsCovered t h)
Trail-IsCovered (then_stop t st) h = StopStep-IsCovered st (Trail-IsCovered t h)

rank_le : (p : Phase) → p ≢ starting → rank p ≤ 5
rank_le starting h = absurd (h refl)
rank_le launching h = omega arith
rank_le executing h = omega arith
rank_le (exited result) h = omega arith
rank_le recorded h = omega arith
rank_le waiting h = omega arith
rank_le checking h = omega arith
rank_le done h = omega arith

-- What is sure once `Stop` has passed.
surely :
    (r : Run) (p : Phase)
    → r.phase ≡ p
    → IsCovered r
    → r.stop_passed ≡ true
    → (p ≡ done) ⊎ ((s : Run) × Sure r s)
surely r checking e h passed = inr (in_phase done r, goes (leave e h.closed) (λ k. cc))
surely r starting e h passed = absurd (h.not_starting e)
surely r launching e h passed = inr (_, goes (started e) (λ k. cc))
surely r executing e h passed =
    let own = rw e at h.own in inr (_, killed none e (h.cancelled_own passed ∙ own))
surely r (exited result) e h passed = inr (_, goes (write_result result e) (λ k. cc))
surely r recorded e h passed = inr (in_phase done r, goes (leave_recorded e h.closed) (λ k. cc))
surely r waiting e h passed = inr (_, goes (elapsed e) (λ k. cc))
surely r done e h passed = inl refl

-- `Stop` on a handler that is not between its check of `stopCh` and the store of its cancel function:
-- from `close(s.stopCh)` on the goroutine takes at most five steps, and once `Stop` has passed the
-- handler it has returned or a step of it is sure to come, where a process that runs counts only as
-- sure to end if `Stop` has cancelled its context.
pub stop_ends :
    {device : String} {r s : Run} {n : ℕ}
    → Reach device r
    → r.phase ≢ starting
    → r.stop_passed ≡ false
    → Trail (record r { stopped = true }) n s
    → s.stop_passed ≡ true
    → (n ≤ 5) × ((s.phase ≡ done) ⊎ ((t : Run) × Sure s t))
stop_ends {r = r} {s = s} h away unpassed t passed =
    let closed_here : IsCovered (record r { stopped = true }) = record {
      closed = refl;
      not_starting = away;
      own = Reach-OwnContext h;
      cancelled_own = λ p. cc (unpassed, p);
    } in
    let (le, k) = Trail-rank t refl in
    let top = rank_le r.phase away in
    (omega arith, surely s s.phase refl (Trail-IsCovered t closed_here) passed)
