-- ===== src/Main/Flags.antt =====
-- The environment variables of the flags.
use server_anytls.Prelude.{◌≡◌, ap, [], ◌∷◌, Option, none, some, Bytes, codes}
use server_anytls.Main.{
  flag_value, given_or, first_set, fetch_users_interval_flag, report_traffics_interval_flag,
}

-- The variable of the interval at which users are fetched also sets the interval at which traffic is
-- reported, and no other variable can change that: only the command line can.
pub flag_value_shared :
    (getenv : Bytes → Option Bytes) (text : Bytes)
    → getenv (codes "X_PANDA_ANYTLS_FETCH_USER_INTERVAL") ≡ some text
    → (flag_value getenv none fetch_users_interval_flag ≡ some text)
      × (flag_value getenv none report_traffics_interval_flag ≡ some text)
unfolding flag_value
flag_value_shared getenv text e = (
  ap (λ o. given_or o (first_set getenv (codes "FETCH_USER_INTERVAL" ∷ []) (some (codes "60s")))) e,
  ap
      (λ o.
        given_or o (first_set getenv (codes "REPORT_TRAFFICS_INTERVAL" ∷ []) (some (codes "80s"))))
      e,
)
