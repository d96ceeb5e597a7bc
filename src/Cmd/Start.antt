-- ===== src/Cmd/Start.antt =====
-- What the programs of cmd share: `flag.Parse`, and then the body of main.
use slingshot_operator.Prelude.{ℕ, ◌⊎◌, inl}
use slingshot_operator.Prelude.Dict.{Dict}
use slingshot_operator.Flags.{FlagValue, Parsed, parsed, exited}

-- The status of an exit, or what the program goes on with.
abbrev pub and_then : {A : Type 0} → Parsed → (Dict FlagValue → ℕ ⊎ A) → ℕ ⊎ A
and_then (parsed values) start = start values
and_then (exited status) start = inl status
