-- ===== src/Service/Users/Synced.antt =====
-- The users that may connect are the users of the panel's latest list.
use server_anytls.Prelude.{
  ◌≡◌, refl, ap, ◌∙◌, Bool, true, false, not, ◌&&◌, ◌||◌, List, [], ◌∷◌, Bytes, equal, equal_iff,
  if◌then◌else◌, if_elim, nat_eq, bytes_eq, arith, Bool-cases, inl, inr, All, Result, ok, err,
}
use server_anytls.Prelude.Maps.{Map, lookup, insert, delete, lookup-insert, lookup-delete}
use server_anytls.Number.{int_eq}
use server_anytls.Service.Users.{
  User, UserManager, ConnectionManager, close_all_of, add_users, delete_users, UsersService,
  by_uuid, list_of, is_none, missing_from, compare_user_list, fetch_users_task, init,
  new_users_service,
}

-- No user of the list has the UUID.
abbrev pub is_absent : Bytes → List User → Bool
is_absent uuid [] = true
is_absent uuid (u ∷ us) = if equal u.uuid uuid then false else is_absent uuid us

-- SHA-256 sends no two UUIDs to one hash.
abbrev pub IsCollisionFree : (Bytes → Bytes) → Type 0
IsCollisionFree hash = (a b : Bytes) → hash a ≡ hash b → a ≡ b

-- Nobody has the UUID in a map by UUIDs, or in the store.
abbrev pub is_unknown : (Bytes → Bytes) → Bytes → UserManager → Bool
is_unknown hash uuid um = is_none (lookup (hash uuid) um)

is_none-by_uuid :
    (uuid : Bytes) (us : List User) (m : Map Bytes User)
    → is_none (lookup uuid (by_uuid m us)) ≡ (is_none (lookup uuid m) && is_absent uuid us)
unfolding by_uuid
is_none-by_uuid uuid [] m = ground arith
is_none-by_uuid uuid (u ∷ us) m =
    ground (arith, is_none-by_uuid uuid us (insert u.uuid u m), lookup-insert u.uuid uuid u m)

-- Every user stands under the own UUID.
abbrev IsKeyed : Map Bytes User → Type 0
IsKeyed = All (λ (p : Bytes × User). p.1.uuid ≡ p.0)

insert-IsKeyed : (u : User) (m : Map Bytes User) → IsKeyed m → IsKeyed (insert u.uuid u m)
unfolding insert
insert-IsKeyed u [] h = (refl, tt)
insert-IsKeyed u ((k, w) ∷ m) h =
    if_elim IsKeyed (equal k u.uuid) (λ _. (refl, h.1)) (λ _. (h.0, insert-IsKeyed u m h.1))

by_uuid-IsKeyed : (us : List User) (m : Map Bytes User) → IsKeyed m → IsKeyed (by_uuid m us)
unfolding by_uuid
by_uuid-IsKeyed [] m h = h
by_uuid-IsKeyed (u ∷ us) m h = by_uuid-IsKeyed us (insert u.uuid u m) (insert-IsKeyed u m h)

is_absent_if :
    (b here : Bool) (uuid : Bytes) (u : User) (us : List User)
    → equal u.uuid uuid ≡ here
    → is_absent uuid (if b then u ∷ us else us) ≡ (not (here && b) && is_absent uuid us)
is_absent_if b here uuid u us e = ground arith

is_absent-missing_from :
    (uuid : Bytes) (m n : Map Bytes User)
    → IsKeyed m
    → is_absent uuid (missing_from m n) ≡ (is_none (lookup uuid m) || not (is_none (lookup uuid n)))
unfolding missing_from lookup
is_absent-missing_from uuid [] n h = refl
is_absent-missing_from uuid ((k, u) ∷ m) n h =
    is_absent_if (is_none (lookup k n)) (equal k uuid) uuid u (missing_from m n)
      (ap (λ j. equal j uuid) h.0)
    ∙ elim (Bool-cases (equal k uuid)) [
      | inl e ↦
          let same = (equal_iff k uuid).0 e in
          ground
            (arith, e, ap (λ j. is_none (lookup j n)) same, is_absent-missing_from uuid m n h.1)
      | inr e ↦ ground (arith, e, is_absent-missing_from uuid m n h.1)
    ]

module _ (hash : Bytes → Bytes) (safe : IsCollisionFree hash) where
  equal-hash : (a b : Bytes) → equal (hash a) (hash b) ≡ equal a b
  equal-hash a b = ground (arith, equal_iff (hash a) (hash b), equal_iff a b, safe a b)

  is_unknown-add_users :
      (uuid : Bytes) (us : List User) (um : UserManager)
      → is_unknown hash uuid (add_users hash um us) ≡ (is_unknown hash uuid um && is_absent uuid us)
  unfolding add_users
  is_unknown-add_users uuid [] um = ground arith
  is_unknown-add_users uuid (u ∷ us) um = ground (
    arith,
    is_unknown-add_users uuid us (insert (hash u.uuid) u um),
    lookup-insert (hash u.uuid) (hash uuid) u um,
    equal-hash u.uuid uuid,
  )

  is_unknown-delete_users :
      (uuid : Bytes) (us : List User) (um : UserManager) (cm : ConnectionManager)
      → is_unknown hash uuid ((delete_users hash um cm us).0)
        ≡ (is_unknown hash uuid um || not (is_absent uuid us))
  unfolding delete_users
  is_unknown-delete_users uuid [] um cm = ground arith
  is_unknown-delete_users uuid (u ∷ us) um cm = ground (
    arith,
    is_unknown-delete_users uuid us (delete (hash u.uuid) um) ((close_all_of cm u.id).0),
    lookup-delete (hash u.uuid) (hash uuid) um,
    equal-hash u.uuid uuid,
  )

-- The store answers for the users of the list, and for no others.
abbrev pub IsSynced : (Bytes → Bytes) → UsersService → Type 0
IsSynced hash s =
    (uuid : Bytes) → is_unknown hash uuid s.user_manager ≡ is_absent uuid (list_of s.user_list)

is_absent_lem :
    (uuid : Bytes) (us : List User) → is_none (lookup uuid (by_uuid [] us)) ≡ is_absent uuid us
unfolding lookup
is_absent_lem uuid us = is_none-by_uuid uuid us [] ∙ refl

synced_step : (o n : Bool) → ((o || not (o || not n)) && (n || not o)) ≡ n
synced_step true true = refl
synced_step true false = refl
synced_step false true = refl
synced_step false false = refl

-- After `FetchUsersTask`, a UUID authenticates exactly if the list that the service then holds has
-- it, the new one on success and the old one on an error, if this held before and the hash has no
-- collisions.
pub fetch_users_task-IsSynced :
    (hash : Bytes → Bytes) (s : UsersService) (o : Result (List User))
    → IsCollisionFree hash
    → IsSynced hash s
    → IsSynced hash (fetch_users_task hash s o)
unfolding fetch_users_task compare_user_list
fetch_users_task-IsSynced hash s (err e) safe h = h
fetch_users_task-IsSynced hash s (ok new) safe h = λ uuid.
    let old = list_of s.user_list in
    let deleted = missing_from (by_uuid [] old) (by_uuid [] new) in
    let added = missing_from (by_uuid [] new) (by_uuid [] old) in
    ground (
      arith,
      is_unknown-add_users hash safe uuid added
          ((delete_users hash s.user_manager s.connection_manager deleted).0),
      is_unknown-delete_users hash safe uuid deleted s.user_manager s.connection_manager,
      h uuid,
      is_absent-missing_from uuid (by_uuid [] old) (by_uuid [] new) (by_uuid-IsKeyed old [] tt),
      is_absent-missing_from uuid (by_uuid [] new) (by_uuid [] old) (by_uuid-IsKeyed new [] tt),
      is_absent_lem uuid old,
      is_absent_lem uuid new,
    )

-- After `init` of a new service on a list of the panel, a UUID authenticates exactly if the list has
-- it, if the hash has no collisions.
pub init-IsSynced :
    (hash : Bytes → Bytes) (us : List User)
    → IsCollisionFree hash
    → IsSynced hash ((init hash new_users_service (ok us)).0)
unfolding init lookup
init-IsSynced hash us safe uuid = is_unknown-add_users hash safe uuid us []
