-- ===== src/Service/Users/Missed.antt =====
-- A connection that is registered for a user behind the update that deletes the user.
use server_anytls.Prelude.{◌≡◌, false, List, [], ◌∷◌, Bytes, ok, All, bytes_eq, nat_eq}
use server_anytls.Prelude.Maps.{Map}
use server_anytls.Number.{ℤ, int_eq, equal_ℤ}
use server_anytls.Service.Users.{User, UsersService, fetch_users_task}

-- Nobody in a map by UUIDs has the id.
abbrev Lacks : ℤ → Map Bytes User → Type 0
Lacks uid = All (λ (p : Bytes × User). equal_ℤ p.1.id uid ≡ false)

-- The successful runs of `FetchUsersTask`, one for each list of the panel.
unfoldable pub fetch_each : (Bytes → Bytes) → UsersService → List (List User) → UsersService
fetch_each hash s [] = s
fetch_each hash s (new ∷ news) = fetch_each hash (fetch_users_task hash s (ok new)) news
