-- ===== src/RetryHandler/Flag.antt =====
-- What holds of a handler's flag while it runs.
use slingshot_operator.Prelude.{◌≡◌, Bool, true, false}
use slingshot_operator.RetryHandler.Handler.{Phase, executing, exited}

-- The flag of a handler at a place of its loop: until the end of a process is recorded it may be stale.
abbrev pub FlagAt : Phase → Bool → Type 0
FlagAt executing running = running ≡ true
FlagAt (exited result) running = Unit
FlagAt _ running = running ≡ false
