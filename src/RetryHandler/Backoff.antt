-- ===== src/RetryHandler/Backoff.antt =====
-- The pause before a restart.
use slingshot_operator.Prelude.{ℕ, zero, suc, ◌^◌, ◌≤◌, ◌≡◌, refl, min, arith, ap, String, ◌∙◌}
use slingshot_operator.RetryHandler.Handler.{
  restart_backoff_min, next_backoff, Run, start, HandlerStep, Step, handler_step, stop_step, Reach,
  here, next, leave, enter, new_context, start_failed, started, exit, write_result, leave_recorded,
  wait, elapsed, leave_waiting, close, cancel_handler,
}

-- The pause after `n` restarts.
pub backoff_after : ℕ → ℕ
unfolding next_backoff
backoff_after zero = restart_backoff_min
backoff_after (suc n) = next_backoff (backoff_after n)

-- That is 2 ^ n seconds, cut at a minute.
backoff_exact : (n : ℕ) → backoff_after n ≡ min (2 ^ n) 60
unfolding backoff_after next_backoff
backoff_exact zero = omega arith
backoff_exact (suc n) = grind (arith, backoff_exact n)

abbrev IsBackoff : Run → Type 0
IsBackoff r = (n : ℕ) × (r.backoff ≡ backoff_after n)

HandlerStep-IsBackoff : {r s : Run} → HandlerStep r s → IsBackoff r → IsBackoff s
unfolding backoff_after
HandlerStep-IsBackoff (elapsed p) (n, e) = (suc n, ap next_backoff e)
HandlerStep-IsBackoff (leave p q) b = b
HandlerStep-IsBackoff (enter p q) b = b
HandlerStep-IsBackoff (new_context p) b = b
HandlerStep-IsBackoff (start_failed err p) b = b
HandlerStep-IsBackoff (started p) b = b
HandlerStep-IsBackoff (exit result p) b = b
HandlerStep-IsBackoff (write_result result p) b = b
HandlerStep-IsBackoff (leave_recorded p q) b = b
HandlerStep-IsBackoff (wait p q) b = b
HandlerStep-IsBackoff (leave_waiting p q) b = b

Step-IsBackoff : {r s : Run} → Step r s → IsBackoff r → IsBackoff s
Step-IsBackoff (handler_step h) b = HandlerStep-IsBackoff h b
Step-IsBackoff (stop_step (close p)) b = b
Step-IsBackoff (stop_step (cancel_handler p q)) b = b

one_le_pow : (n : ℕ) → 1 ≤ 2 ^ n
one_le_pow zero = omega arith
one_le_pow (suc n) = omega (arith, one_le_pow n)

Reach-IsBackoff : {device : String} {r : Run} → Reach device r → IsBackoff r
unfolding start backoff_after
Reach-IsBackoff here = (0, refl)
Reach-IsBackoff (next h st) = Step-IsBackoff st (Reach-IsBackoff h)

-- However a handler has run, its next pause is 2 ^ n seconds for some n, cut at a minute; so it is
-- between a second and a minute.
pub Reach-backoff :
    {device : String} {r : Run}
    → Reach device r
    → ((n : ℕ) × (r.backoff ≡ min (2 ^ n) 60)) × (1 ≤ r.backoff) × (r.backoff ≤ 60)
Reach-backoff h =
    let (n, e) = Reach-IsBackoff h in
    let exact = e ∙ backoff_exact n in
    let low = one_le_pow n in ((n, exact), omega arith, omega arith)
