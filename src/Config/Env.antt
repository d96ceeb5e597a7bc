-- ===== src/Config/Env.antt =====
-- pkg/config/config.go: `GetEnv` and its variants, and `NewOperatorConfigFromEnv`. The environment of the
-- process is a map; a variable that is not set and one that is empty are not told apart. The
-- variant for durations, over time.ParseDuration, takes that function as a parameter.
pub mod RoundTrip
use Prim.Native.Char.{code}
use slingshot_operator.Prelude.{
  ℕ, String, Bool, true, false, ◌&&◌, ◌||◌, Option, none, some, ◌==◌, str_eq, if◌then◌else◌,
}
use slingshot_operator.Prelude.Dict.{Dict, get}
use slingshot_operator.Prelude.Decimal.Parse.{parse_uint, parse_bool, atoi}
use slingshot_operator.Prelude.Int.{ℤ}
use slingshot_operator.Config.{
  default_namespace, default_metrics_bind_address, default_health_probe_bind_address,
  default_leader_election_id, default_retry_handler_image,
}

-- A value that was read, or the default.
abbrev or_default : {A : Type 0} → Option A → A → A
or_default none d = d
or_default (some a) d = a

module _ (env : Dict String) where
  unfoldable pub get_env : String → String → String
  unfolding get
  get_env key d = let value = get key env in if str_eq value "" then d else value

  -- The variants share their shape: the empty value and a value that is not read give the default.
  abbrev get_env_by : {A : Type 0} → (String → Option A) → String → A → A
  get_env_by parse key d =
      let value = get key env in if str_eq value "" then d else or_default (parse value) d

  unfoldable pub get_env_int : String → ℤ → ℤ
  unfolding get atoi
  get_env_int key d = get_env_by atoi key d

  unfoldable pub get_env_bool : String → Bool → Bool
  unfolding get parse_bool
  get_env_bool key d = get_env_by parse_bool key d

  unfoldable pub get_env_duration : (String → Option ℕ) → String → ℕ → ℕ
  unfolding get
  get_env_duration parse_duration key d = get_env_by parse_duration key d

-- 0x or 0X
abbrev pub is_hex_mark : ℕ → ℕ → Bool
is_hex_mark c x = c == b'0' && (x == b'x' || x == b'X')

-- The prefix 0x, with something behind it, makes the number hexadecimal.
unfoldable pub parse_env_uint32 : String → Option ℕ
unfolding parse_uint
parse_env_uint32 (String.◌∷◌ zero_digit (String.◌∷◌ x (String.◌∷◌ c s))) =
    if is_hex_mark (code zero_digit) (code x)
    then parse_uint 16 32 (String.◌∷◌ c s)
    else parse_uint 10 32 (String.◌∷◌ zero_digit (String.◌∷◌ x (String.◌∷◌ c s)))
parse_env_uint32 value = parse_uint 10 32 value

unfoldable pub get_env_uint32 : Dict String → String → ℕ → ℕ
unfolding get parse_env_uint32
get_env_uint32 env key d = get_env_by env parse_env_uint32 key d

pub record OperatorConfig : Type 0 where
  pub namespace : String
  pub metrics_bind_address : String
  pub health_probe_bind_address : String
  pub leader_elect : Bool
  pub leader_election_id : String
  pub secure_metrics : Bool
  pub enable_http2 : Bool
  pub enable_sidecar_webhook : Bool
  pub retry_handler_image : String

unfoldable pub new_operator_config_from_env : Dict String → OperatorConfig
unfolding get_env get_env_bool
new_operator_config_from_env env = record {
  namespace = get_env env "OPERATOR_NAMESPACE" default_namespace;
  metrics_bind_address = get_env env "METRICS_BIND_ADDRESS" default_metrics_bind_address;
  health_probe_bind_address =
      get_env env "HEALTH_PROBE_BIND_ADDRESS" default_health_probe_bind_address;
  leader_elect = get_env_bool env "LEADER_ELECT" false;
  leader_election_id = default_leader_election_id;
  secure_metrics = get_env_bool env "SECURE_METRICS" true;
  enable_http2 = get_env_bool env "ENABLE_HTTP2" false;
  enable_sidecar_webhook = get_env_bool env "ENABLE_SIDECAR_WEBHOOK" false;
  retry_handler_image = get_env env "RETRY_HANDLER_IMAGE" default_retry_handler_image;
}
