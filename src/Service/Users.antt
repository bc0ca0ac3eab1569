-- ===== src/Service/Users.antt =====
-- internal/pkg/service/users.go, the users and their connections. A user is authenticated by the
-- hex text of the SHA-256 of the UUID, here the parameter `hash`. A connection is a number.
pub mod Synced
pub mod Evicted
pub mod Missed
use server_anytls.Prelude.{
  ℕ, Bool, true, false, List, [], ◌∷◌, ◌++◌, Option, none, some, Error, Bytes, ltb, ◌==◌, length,
  Result, ok, err, if◌then◌else◌, nat_eq, bytes_eq, map,
}
use server_anytls.Prelude.Maps.{Map, lookup, insert, delete}
use server_anytls.Number.{ℤ, int_eq}

-- The fields of `api.User` that the code reads.
pub record User : Type 0 where
  pub id : ℤ
  pub uuid : Bytes

-- A `map[int]map[io.Closer]struct{}`; a missing key is the nil map.
abbrev pub ConnectionManager : Type 0
ConnectionManager = Map ℤ (Map ℕ (Unit {0}))

abbrev pub conns_of : Option (Map ℕ (Unit {0})) → Map ℕ (Unit {0})
conns_of none = []
conns_of (some m) = m

-- `ConnectionManager.Add`
unfoldable pub add : ConnectionManager → ℤ → ℕ → ConnectionManager
add cm uid conn = insert uid (insert conn tt (conns_of (lookup uid cm))) cm

abbrev pub put_or_delete : ConnectionManager → ℤ → Map ℕ (Unit {0}) → ConnectionManager
put_or_delete cm uid [] = delete uid cm
put_or_delete cm uid (c ∷ cs) = insert uid (c ∷ cs) cm

abbrev pub remove_from : ConnectionManager → ℤ → ℕ → Option (Map ℕ (Unit {0})) → ConnectionManager
remove_from cm uid conn none = cm
remove_from cm uid conn (some m) = put_or_delete cm uid (delete conn m)

-- `ConnectionManager.Remove`
unfoldable pub remove : ConnectionManager → ℤ → ℕ → ConnectionManager
remove cm uid conn = remove_from cm uid conn (lookup uid cm)

abbrev pub keys : Map ℕ (Unit {0}) → List ℕ
keys [] = []
keys ((c, u) ∷ m) = c ∷ keys m

-- `ConnectionManager.CloseAll`, with the connections that it closes. The hook of each session
-- calls `remove` behind it, which finds nothing.
unfoldable pub close_all_of : ConnectionManager → ℤ → ConnectionManager × List ℕ
close_all_of cm uid = (delete uid cm, keys (conns_of (lookup uid cm)))

-- The users by the hash of their UUIDs.
abbrev pub UserManager : Type 0
UserManager = Map Bytes User

unfoldable pub add_users : (Bytes → Bytes) → UserManager → List User → UserManager
add_users hash um [] = um
add_users hash um (u ∷ us) = add_users hash (insert (hash u.uuid) u um) us

-- `deleteUsers`, which closes the connections of each user; they are listed.
unfoldable pub delete_users :
    (Bytes → Bytes)
    → UserManager
    → ConnectionManager
    → List User
    → UserManager × ConnectionManager × List ℕ
delete_users hash um cm [] = (um, cm, [])
delete_users hash um cm (u ∷ us) =
    let (cm', closed) = close_all_of cm u.id in
    let (um', cm'', rest) = delete_users hash (delete (hash u.uuid) um) cm' us in
    (um', cm'', closed ++ rest)

unfoldable pub count_users : UserManager → ℕ
count_users um = length um

abbrev pub id_of : Option User → Option ℤ
id_of none = none
id_of (some u) = some u.id

-- `authAndGetUserId`; `none` is `0, false`.
unfoldable pub auth_and_get_user_id : UserManager → Bytes → Option ℤ
auth_and_get_user_id um hex = id_of (lookup hex um)

-- The part of `UsersService` that the user list changes; `closed` lists the connections that were
-- closed for a user that is gone. `user_list` is nil before `init`.
pub record UsersService : Type 0 where
  pub user_manager : UserManager
  pub connection_manager : ConnectionManager
  pub user_list : Option (List User)
  pub closed : List ℕ

-- The loops that fill `oldMap` and `newMap`.
unfoldable pub by_uuid : Map Bytes User → List User → Map Bytes User
by_uuid m [] = m
by_uuid m (u ∷ us) = by_uuid (insert u.uuid u m) us

abbrev pub list_of : Option (List User) → List User
list_of none = []
list_of (some us) = us

abbrev pub is_none : Option User → Bool
is_none none = true
is_none (some u) = false

-- The users of the first map whose UUIDs are not in the second, in the order of `range`.
unfoldable pub missing_from : Map Bytes User → Map Bytes User → List User
missing_from [] n = []
missing_from ((uuid, u) ∷ m) n =
    if is_none (lookup uuid n) then u ∷ missing_from m n else missing_from m n

-- `compareUserList`: deleted and added.
unfoldable pub compare_user_list : Option (List User) → Option (List User) → List User × List User
compare_user_list old new =
    let o = by_uuid [] (list_of old) in
    let n = by_uuid [] (list_of new) in (missing_from o n, missing_from n o)

-- `FetchUsersTask`: on an error, also "not modified", nothing changes. The tests for empty lists
-- are the base cases of `delete_users` and `add_users`.
abbrev pub update_users : (Bytes → Bytes) → UsersService → List User → UsersService
update_users hash s new =
    let (deleted, added) = compare_user_list s.user_list (some new) in
    let (um, cm, closed) = delete_users hash s.user_manager s.connection_manager deleted in
    record {
      user_manager = add_users hash um added;
      connection_manager = cm;
      user_list = some new;
      closed = s.closed ++ closed;
    }

unfoldable pub fetch_users_task : (Bytes → Bytes) → UsersService → Result (List User) → UsersService
fetch_users_task hash s (err e) = s
fetch_users_task hash s (ok new) = update_users hash s new

-- `init`, after the check of the register id.
unfoldable pub init :
    (Bytes → Bytes) → UsersService → Result (List User) → UsersService × Option Error
init hash s (err e) = (s, some e)
init hash s (ok new) =
    (record s { user_list = some new; user_manager = add_users hash s.user_manager new }, none)

abbrev pub new_users_service : UsersService
new_users_service = record {
  user_manager = [];
  connection_manager = [];
  user_list = none;
  closed = [];
}

abbrev pub register_connection : UsersService → ℤ → ℕ → UsersService
register_connection s uid conn = record s { connection_manager = add s.connection_manager uid conn }

abbrev pub unregister_connection : UsersService → ℤ → ℕ → UsersService
unregister_connection s uid conn = record s {
  connection_manager = remove s.connection_manager uid conn;
}
