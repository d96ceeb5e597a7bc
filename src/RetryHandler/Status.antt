-- ===== src/RetryHandler/Status.antt =====
-- `GetStatus` and the pages of the health server of pkg/retryhandler/supervisor.go. The format %q and
-- the id of a handler's process, 0 where there is none, are parameters.
use Prim.Native.String.{◌++◌ as cat}
use slingshot_operator.Prelude.{ℕ, String, Bool, List, [], ◌∷◌, map, if◌then◌else◌}
use slingshot_operator.Prelude.Decimal.{itoa}
use slingshot_operator.RetryHandler.Handler.{HandlerProcess}
use slingshot_operator.RetryHandler.Supervisor.{Supervisor, is_healthy}

-- The start time is left out.
pub record HandlerStatus : Type 0 where
  pub device : String
  pub running : Bool
  pub pid : ℕ
  pub restart_count : ℕ
  pub last_error : String

-- /healthz and /readyz
unfoldable pub healthz : Supervisor → ℕ × String
unfolding is_healthy
healthz s = if is_healthy s then (200, "ok\n") else (503, "unhealthy\n")

abbrev pub supervisor_readyz : ℕ × String
supervisor_readyz = (200, "ready\n")

-- The format %v of a Boolean
abbrev bool_text : Bool → String
bool_text b = if b then "true" else "false"

module _ (quote : String → String) (process_id : HandlerProcess → ℕ) where
  abbrev handler_status : String × HandlerProcess → HandlerStatus
  handler_status (_, h) = record {
    device = h.device;
    running = h.running;
    pid = process_id h;
    restart_count = h.restart_count;
    last_error = h.last_error;
  }

  unfoldable pub get_handler_status : Supervisor → List HandlerStatus
  get_handler_status s = map handler_status s.handlers

  unfoldable pub status_line : HandlerStatus → String
  unfolding itoa
  status_line h = cat "    {\"device\": " (
      cat (quote h.device) (
        cat ", \"running\": " (
          cat (bool_text h.running) (
            cat ", \"pid\": "
              (cat (itoa h.pid) (cat ", \"restarts\": " (cat (itoa h.restart_count) "}")))))))

  -- A comma stands behind each line but the last.
  unfoldable pub status_lines : List HandlerStatus → String
  unfolding status_line
  status_lines [] = ""
  status_lines (h ∷ []) = cat (status_line h) "\n"
  status_lines (h ∷ (k ∷ hs)) = cat (status_line h) (cat ",\n" (status_lines (k ∷ hs)))

  -- /status
  unfoldable pub supervisor_status_page : Supervisor → String
  unfolding get_handler_status status_lines is_healthy
  supervisor_status_page s = cat "{\n  \"handlers\": [\n" (
      cat (status_lines (get_handler_status s))
        (cat "  ],\n  \"healthy\": " (cat (bool_text (is_healthy s)) "\n}\n")))
