-- ===== src/Metrics/Restarts.antt =====
-- The counter of restarts. The child sets it beside the handler that is started again.
pub mod Handlers
use slingshot_operator.Prelude.{
  ℕ, ◌+◌, ◌-◌, ◌≤◌, ◌≡◌, refl, String, true, false, List, [], ◌∷◌, ◌++◌, Option, none, some, ◌⊎◌,
  inl, inr, if◌then◌else◌, str_eq, eq_iff, ap, sym, ◌∙◌, arith, Bool-cases,
}
use slingshot_operator.Prelude.Dict.{Dict, lookup, insert, lookup-insert}
use slingshot_operator.Metrics.{
  RetryHandlerStatus, Exporter, new_exporter, series, add_restarts, record_status, record_statuses,
  scrape_all,
}

-- The counts that a list of statuses reports of a device, and those of a series of scrapes, where a
-- scrape that fails reports none.
unfoldable pub counts : String → List RetryHandlerStatus → List ℕ
counts device [] = []
counts device (s ∷ ss) = elim (str_eq s.device device) [
  | true ↦ s.restart_count ∷ counts device ss
  | false ↦ counts device ss
]

unfoldable pub reported : String → List (String ⊎ List RetryHandlerStatus) → List ℕ
unfolding counts
reported device [] = []
reported device (inl err ∷ rs) = reported device rs
reported device (inr ss ∷ rs) = counts device ss ++ reported device rs

-- The sum of the increases from one count to the next, after the last one that was seen.
unfoldable pub gains : Option ℕ → List ℕ → ℕ
gains last [] = 0
gains none (n ∷ ns) = gains (some n) ns
gains (some last) (n ∷ ns) = (n - last) + gains (some n) ns

-- The last count that was seen.
latest : Option ℕ → List ℕ → Option ℕ
latest last [] = last
latest last (n ∷ ns) = latest (some n) ns

latest-append :
    (last : Option ℕ) (xs ys : List ℕ) → latest last (xs ++ ys) ≡ latest (latest last xs) ys
unfolding latest
latest-append last [] ys = refl
latest-append last (x ∷ xs) ys = latest-append (some x) xs ys

gains-append :
    (last : Option ℕ) (xs ys : List ℕ)
    → gains last (xs ++ ys) ≡ gains last xs + gains (latest last xs) ys
unfolding gains latest
gains-append last [] ys = omega arith
gains-append none (x ∷ xs) ys = gains-append (some x) xs ys
gains-append (some l) (x ∷ xs) ys = omega (arith, gains-append (some x) xs ys)

series-insert :
    (j k : String) (n : ℕ) (m : Dict ℕ)
    → series k (insert j n m) ≡ (if str_eq j k then n else series k m)
unfolding series
series-insert j k n m = ground (arith, lookup-insert j k n m)

-- What one status adds to the counter of a device.
gain_of : String → Option ℕ → RetryHandlerStatus → ℕ
unfolding gains
gain_of device last s = if str_eq s.device device then gains last (s.restart_count ∷ []) else 0

series-add :
    (device : String) (last : Option ℕ) (s : RetryHandlerStatus) (m : Dict ℕ)
    → series device (add_restarts last s m) ≡ series device m + gain_of device last s
unfolding add_restarts gains gain_of
series-add device none s m = ground arith
series-add device (some l) s m = ground (
  arith,
  eq_iff s.device device,
  series-insert s.device device (series s.device m + (s.restart_count - l)) m,
)

-- The counter and what is remembered, after the counts `ns` of a device.
abbrev Follows : String → Exporter → List ℕ → Exporter → Type 0
Follows device e ns e' =
    (series device e'.retry_handler_restarts
      ≡ series device e.retry_handler_restarts + gains (lookup device e.last_restart_counts) ns)
    × (lookup device e'.last_restart_counts ≡ latest (lookup device e.last_restart_counts) ns)

Follows-append :
    (device : String) (e e' e'' : Exporter) (xs ys : List ℕ)
    → Follows device e xs e'
    → Follows device e' ys e''
    → Follows device e (xs ++ ys) e''
Follows-append device e e' e'' xs ys (s, l) (s', l') =
    let last = lookup device e.last_restart_counts in
    let later = rw l at s' in
    (omega (arith, gains-append last xs ys), rw l at l' ∙ sym (latest-append last xs ys))

record-Follows :
    (device : String) (s : RetryHandlerStatus) (e : Exporter)
    → Follows device e (counts device (s ∷ [])) (record_status s e)
unfolding record_status counts latest gains gain_of
record-Follows device s e =
    let last = lookup s.device e.last_restart_counts in
    let added = series-add device last s e.retry_handler_restarts in
    let kept = lookup-insert s.device device s.restart_count e.last_restart_counts in
    elim (Bool-cases (str_eq s.device device)) [
      | inl t ↦
          rw (t, counts)
            (
              rw t at added
                  ∙ ap
                      (λ n.
                        series device e.retry_handler_restarts
                        + gains (lookup n e.last_restart_counts) (s.restart_count ∷ []))
                      ((eq_iff s.device device).0 t),
              rw t at kept,
            )
      | inr f ↦ rw (f, counts) (rw f at added, rw f at kept)
    ]

counts_cons :
    (device : String) (s : RetryHandlerStatus) (ss : List RetryHandlerStatus)
    → counts device (s ∷ ss) ≡ counts device (s ∷ []) ++ counts device ss
unfolding counts
counts_cons device s ss = elim (Bool-cases (str_eq s.device device)) [
  | inl e ↦ rw (e, counts) refl
  | inr e ↦ rw (e, counts) refl
]

statuses-Follows :
    (device : String) (ss : List RetryHandlerStatus) (e : Exporter)
    → Follows device e (counts device ss) (record_statuses ss e)
unfolding counts gains latest record_statuses
statuses-Follows device [] e = (omega arith, refl)
statuses-Follows device (s ∷ ss) e =
    let e' = record_status s e in
    rw (counts_cons device s ss) (
      Follows-append device e e' (record_statuses ss e') _ _ (record-Follows device s e)
        (statuses-Follows device ss e'))

scrapes-Follows :
    (device : String) (rs : List (String ⊎ List RetryHandlerStatus)) (e : Exporter)
    → Follows device e (reported device rs) (scrape_all rs e)
unfolding reported scrape_all gains latest
scrapes-Follows device [] e = (omega arith, refl)
scrapes-Follows device (inl err ∷ rs) e =
    scrapes-Follows device rs (record e { scrape_errors = e.scrape_errors + 1 })
scrapes-Follows device (inr ss ∷ rs) e =
    Follows-append device e (record_statuses ss e) (scrape_all rs (record_statuses ss e)) _ _
      (statuses-Follows device ss e) (scrapes-Follows device rs (record_statuses ss e))

-- After any series of scrapes, failed ones among them, the counter of a device has grown by the sum
-- of the increases between the counts that were reported of it, from the last one that was
-- remembered on: a count that falls adds nothing, and neither does the first one ever.
pub restarts_exact :
    (device : String) (rs : List (String ⊎ List RetryHandlerStatus)) (e : Exporter)
    → series device (scrape_all rs e).retry_handler_restarts
      ≡ series device e.retry_handler_restarts
        + gains (lookup device e.last_restart_counts) (reported device rs)
restarts_exact device rs e = (scrapes-Follows device rs e).0

-- The counts rise from `n` on, and the last of them.
abbrev pub IsRising : ℕ → List ℕ → Type 0
IsRising n [] = Unit
IsRising n (m ∷ ms) = (n ≤ m) × IsRising m ms

abbrev pub last_of : ℕ → List ℕ → ℕ
last_of n [] = n
last_of n (m ∷ ms) = last_of m ms

gains-IsRising : (n : ℕ) (ms : List ℕ) → IsRising n ms → n + gains (some n) ms ≡ last_of n ms
unfolding gains
gains-IsRising n [] h = omega arith
gains-IsRising n (m ∷ ms) (le, h) = omega (arith, gains-IsRising m ms h)

-- While the supervisor of a device lives, so that its counts rise, a fresh exporter counts each
-- restart after its first look once: the counter is the last count that was reported less the first.
pub restarts_once :
    (device : String) (rs : List (String ⊎ List RetryHandlerStatus)) (n : ℕ) (ms : List ℕ)
    → reported device rs ≡ n ∷ ms
    → IsRising n ms
    → n + series device (scrape_all rs new_exporter).retry_handler_restarts ≡ last_of n ms
unfolding series gains
restarts_once device rs n ms r h =
    let exact = rw r at (restarts_exact device rs new_exporter) in
    omega (arith, exact, gains-IsRising n ms h)
