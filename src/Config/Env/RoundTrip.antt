-- ===== src/Config/Env/RoundTrip.antt =====
-- A number that is put into the environment in decimal is read back.
use Prim.Native.Char.{code}
use slingshot_operator.Prelude.{
  ℕ, ◌^◌, ◌<◌, ◌≡◌, refl, ap, ◌∙◌, String, ltb, if◌then◌else◌, false, arith,
}
use slingshot_operator.Prelude.Dict.{Dict, get}
use slingshot_operator.Prelude.Decimal.{itoa}
use slingshot_operator.Prelude.Decimal.Parse.{
  IsNumeral, parse_uint, parse_uint-itoa, itoa-IsNumeral, itoa_not_empty,
}
use slingshot_operator.Config.Env.{parse_env_uint32, get_env_uint32, is_hex_mark, or_default}

not_hex : (c x : ℕ) → x < 58 → is_hex_mark c x ≡ false
not_hex c x h = ground arith

parse_env-IsNumeral : (s : String) → IsNumeral s → parse_env_uint32 s ≡ parse_uint 10 32 s
unfolding parse_env_uint32
parse_env-IsNumeral String.[] h = refl
parse_env-IsNumeral (String.◌∷◌ c String.[]) h = refl
parse_env-IsNumeral (String.◌∷◌ c (String.◌∷◌ d String.[])) h = refl
parse_env-IsNumeral (String.◌∷◌ c (String.◌∷◌ d (String.◌∷◌ e s))) h =
    rw (not_hex (code c) (code d) h.2.1, parse_env_uint32) refl

-- A variable that holds the numeral of a number is read as that number if it fits into uint32, and
-- as the default if it does not: it never wraps around.
pub get_env_uint32-itoa :
    (env : Dict String) (key : String) (n d : ℕ)
    → get key env ≡ itoa n
    → get_env_uint32 env key d ≡ (if ltb n (2 ^ 32) then n else d)
unfolding get_env_uint32
get_env_uint32-itoa env key n d h =
    rw (h, get_env_uint32)
      (rw (itoa_not_empty n) (
        ap (λ o. or_default o d)
          (parse_env-IsNumeral (itoa n) (itoa-IsNumeral n) ∙ parse_uint-itoa 32 n)
        ∙ ground arith))
