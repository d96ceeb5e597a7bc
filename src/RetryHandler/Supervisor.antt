-- ===== src/RetryHandler/Supervisor.antt =====
-- `Start`, `startHandler` and `IsHealthy` of pkg/retryhandler/supervisor.go: the handlers
-- by device and the goroutines that were started.
use Prim.Native.String.{◌++◌ as cat}
use slingshot_operator.Prelude.{
  ◌≡◌, refl, String, Bool, true, false, not, ◌||◌, List, [], ◌∷◌, ◌++◌, map, none, some, ◌⊎◌, inl,
  inr, str_eq, eq_iff, mem, mem-append, distinct, any, is_some, Option-cases, arith,
}
use slingshot_operator.Prelude.Dict.{Dict, lookup, insert, lookup-insert}
use slingshot_operator.Kube.Client.{Error}
use slingshot_operator.DevicePlugin.Device.{CxiDevice}
use slingshot_operator.RetryHandler.Handler.{HandlerProcess, start}

-- `goroutines` are the devices whose `runHandler` was started, and the health server's flag.
pub record Supervisor : Type 0 where
  pub handlers : Dict HandlerProcess
  pub goroutines : List String
  pub health_server : Bool

abbrev pub new_supervisor : Supervisor
new_supervisor = record { handlers = []; goroutines = []; health_server = false }

unfoldable pub start_handler : String → Supervisor → Supervisor
unfolding lookup insert start
start_handler name s = elim (lookup name s.handlers) [
  | some h ↦ s
  | none ↦ record s {
    handlers = insert name (start name).handler s.handlers;
    goroutines = s.goroutines ++ name ∷ [];
  }
]

unfoldable pub start_handlers : List String → Supervisor → Supervisor
unfolding start_handler
start_handlers [] s = s
start_handlers (name ∷ names) s = start_handlers names (start_handler name s)

-- `Start`, with the answer of the discovery.
unfoldable pub start_supervisor : String ⊎ List CxiDevice → Supervisor → Error × Supervisor
unfolding start_handlers
start_supervisor (inl err) s = (some (cat "failed to discover devices: " err), s)
start_supervisor (inr []) s = (none, s)
start_supervisor (inr (d ∷ ds)) s = (
  none,
  record (start_handlers (map (λ (e : CxiDevice). e.name) (d ∷ ds)) s) { health_server = true },
)

-- True also where there is no handler.
unfoldable pub is_healthy : Supervisor → Bool
unfolding any
is_healthy s = not (any (λ (e : String × HandlerProcess). not e.1.running) s.handlers)

-- The started goroutines are those of the handlers, one for each.
abbrev pub OneEach : Supervisor → Type 0
OneEach s =
    (distinct s.goroutines ≡ true)
    × ((n : String) → mem n s.goroutines ≡ is_some (lookup n s.handlers))

distinct-last :
    (xs : List String) (x : String)
    → distinct xs ≡ true
    → mem x xs ≡ false
    → distinct (xs ++ x ∷ []) ≡ true
unfolding distinct mem
distinct-last [] x h k = refl
distinct-last (y ∷ ys) x h k =
    ground (arith, mem-append y ys (x ∷ []), eq_iff x y, eq_iff y x, distinct-last ys x)

goroutine-handler :
    (name n : String) (s : Supervisor)
    → mem n s.goroutines ≡ is_some (lookup n s.handlers)
    → mem n (s.goroutines ++ name ∷ [])
      ≡ is_some (lookup n (insert name (start name).handler s.handlers))
unfolding mem
goroutine-handler name n s h = ground (
  arith,
  h,
  mem-append n s.goroutines (name ∷ []),
  lookup-insert name n (start name).handler s.handlers,
)

start_handler-OneEach :
    (name : String) (s : Supervisor) → OneEach s → OneEach (start_handler name s)
unfolding start_handler
start_handler-OneEach name s (d, m) = elim (Option-cases (lookup name s.handlers)) [
  | inr (h, e) ↦ rw (e, start_handler) (d, m)
  | inl e ↦
      rw (e, start_handler)
        ((
          distinct-last s.goroutines name d (ground (arith, m name)),
          λ n. goroutine-handler name n s (m n),
        ))
]

start_handlers-OneEach :
    (names : List String) (s : Supervisor) → OneEach s → OneEach (start_handlers names s)
unfolding start_handlers
start_handlers-OneEach [] s h = h
start_handlers-OneEach (n ∷ ns) s h =
    start_handlers-OneEach ns (start_handler n s) (start_handler-OneEach n s h)

new-OneEach : OneEach new_supervisor
unfolding lookup mem distinct
new-OneEach = (refl, λ n. refl)

start_handler-mem :
    (name n : String) (s : Supervisor)
    → OneEach s
    → mem n (start_handler name s).goroutines ≡ (mem n s.goroutines || str_eq name n)
unfolding start_handler mem
start_handler-mem name n s h = elim (Option-cases (lookup name s.handlers)) [
  | inr (p, e) ↦ rw (e, start_handler) (ground (arith, h.1 name, h.1 n, eq_iff name n))
  | inl e ↦ rw (e, start_handler) (ground (arith, mem-append n s.goroutines (name ∷ [])))
]

start_handlers-mem :
    (names : List String) (n : String) (s : Supervisor)
    → OneEach s
    → mem n (start_handlers names s).goroutines ≡ (mem n s.goroutines || mem n names)
unfolding start_handlers mem
start_handlers-mem [] n s h = ground arith
start_handlers-mem (x ∷ xs) n s h = ground (
  arith,
  start_handlers-mem xs n (start_handler x s) (start_handler-OneEach x s h),
  start_handler-mem x n s h,
)

-- Starting handlers by any names, also repeated ones, runs exactly one goroutine for each name.
pub one_handler_each :
    (names : List String)
    → (distinct (start_handlers names new_supervisor).goroutines ≡ true)
      × ((n : String) → mem n (start_handlers names new_supervisor).goroutines ≡ mem n names)
unfolding mem
one_handler_each names = (
  (start_handlers-OneEach names new_supervisor new-OneEach).0,
  λ n. start_handlers-mem names n new_supervisor new-OneEach,
)
