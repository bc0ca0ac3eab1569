-- ===== src/Service/Users/Evicted.antt =====
-- What the update of the user list does to connections.
use server_anytls.Prelude.{
  ℕ, ◌≡◌, refl, sym, ap, ◌∙◌, Bool, true, false, not, ◌&&◌, ◌||◌, List, [], ◌∷◌, ◌++◌, Option, none,
  some, Bytes, ok, ◌==◌, if◌then◌else◌, nat_eq, bytes_eq, arith, Bool-cases, inl, inr, subst,
}
use mathlib.Core.Bool.{false≢true}
use server_anytls.Prelude.Maps.{Map, lookup, insert, delete, lookup-insert, lookup-delete}
use server_anytls.Number.{ℤ, int_eq, equal_ℤ, equal_ℤ_iff}
use server_anytls.Service.Users.{
  User, UserManager, ConnectionManager, conns_of, keys, close_all_of, delete_users, add, remove,
  remove_from, put_or_delete, UsersService, fetch_users_task, compare_user_list,
}

-- One of the users has the id.
abbrev pub has_id : ℤ → List User → Bool
has_id uid [] = false
has_id uid (u ∷ us) = equal_ℤ u.id uid || has_id uid us

abbrev pub contains : ℕ → List ℕ → Bool
contains c [] = false
contains c (d ∷ ds) = d == c || contains c ds

-- The registered connections of a user.
abbrev pub conns : ConnectionManager → ℤ → List ℕ
conns cm uid = keys (conns_of (lookup uid cm))

contains-append :
    (c : ℕ) (xs ys : List ℕ) → contains c (xs ++ ys) ≡ (contains c xs || contains c ys)
contains-append c [] ys = refl
contains-append c (x ∷ xs) ys = ground (arith, contains-append c xs ys)

conns-delete :
    (cm : ConnectionManager) (k uid : ℤ)
    → conns (delete k cm) uid ≡ (if equal_ℤ k uid then [] else conns cm uid)
conns-delete cm k uid = ground (arith, lookup-delete k uid cm)

-- The users that are deleted have no connection left; the others keep theirs.
pub conns-delete_users :
    (hash : Bytes → Bytes) (um : UserManager) (cm : ConnectionManager) (us : List User) (uid : ℤ)
    → conns ((delete_users hash um cm us).1) uid ≡ (if has_id uid us then [] else conns cm uid)
unfolding delete_users close_all_of
conns-delete_users hash um cm [] uid = refl
conns-delete_users hash um cm (u ∷ us) uid = ground (
  arith,
  conns-delete_users hash (delete (hash u.uuid) um) (delete u.id cm) us uid,
  conns-delete cm u.id uid,
)

-- A connection of a deleted user has been closed.
pub contains-delete_users :
    (hash : Bytes → Bytes) (um : UserManager) (cm : ConnectionManager) (us : List User) (uid : ℤ)
    (c : ℕ)
    → has_id uid us ≡ true
    → contains c (conns cm uid) ≡ true
    → contains c ((delete_users hash um cm us).2) ≡ true
unfolding delete_users close_all_of
contains-delete_users hash um cm [] uid c h g = absurd (false≢true h)
contains-delete_users hash um cm (u ∷ us) uid c h g =
    let rest = (delete_users hash (delete (hash u.uuid) um) (delete u.id cm) us).2 in
    contains-append c (conns cm u.id) rest ∙ elim (Bool-cases (equal_ℤ u.id uid)) [
      | inl e ↦
          let here = ap (λ k. contains c (conns cm k)) ((equal_ℤ_iff u.id uid).0 e) ∙ g in
          rw here refl
      | inr e ↦
          let left =
            conns-delete cm u.id uid ∙ ap (λ (b : Bool). if b then [] else conns cm uid) e in
          let later =
            contains-delete_users hash (delete (hash u.uuid) um) (delete u.id cm) us uid c
              (subst (λ (b : Bool). (b || has_id uid us) ≡ true) e h) (ap (contains c) left ∙ g) in
          ground (arith, later)
    ]

contains-insert :
    (c d : ℕ) (m : Map ℕ (Unit {0}))
    → contains c (keys (insert d tt m)) ≡ (d == c || contains c (keys m))
unfolding insert
contains-insert c d [] = refl
contains-insert c d ((k, u) ∷ m) = ground (arith, contains-insert c d m)

contains-delete :
    (c d : ℕ) (m : Map ℕ (Unit {0}))
    → contains c (keys (delete d m)) ≡ (not (d == c) && contains c (keys m))
unfolding delete
contains-delete c d [] = ground arith
contains-delete c d ((k, u) ∷ m) = ground (arith, contains-delete c d m)

-- After `ConnectionManager.Add`, a connection is registered for a user if it was before, or if it is
-- the one added and the user is the one given.
pub contains-add :
    (cm : ConnectionManager) (uid other : ℤ) (conn c : ℕ)
    → contains c (conns (add cm uid conn) other)
      ≡ ((equal_ℤ uid other && conn == c) || contains c (conns cm other))
unfolding add
contains-add cm uid other conn c = elim (Bool-cases (equal_ℤ uid other)) [
  | inl e ↦
      let same = (equal_ℤ_iff uid other).0 e in
      rw (lookup-insert uid other (insert conn tt (conns_of (lookup uid cm))) cm, e)
        (contains-insert c conn (conns_of (lookup uid cm))
          ∙ ap (λ k. conn == c || contains c (conns cm k)) same)
  | inr e ↦ rw (lookup-insert uid other (insert conn tt (conns_of (lookup uid cm))) cm, e) refl
]

conns-put_or_delete :
    (cm : ConnectionManager) (uid other : ℤ) (m : Map ℕ (Unit {0}))
    → conns (put_or_delete cm uid m) other ≡ (if equal_ℤ uid other then keys m else conns cm other)
conns-put_or_delete cm uid other [] = ground (arith, conns-delete cm uid other)
conns-put_or_delete cm uid other (x ∷ m) = ground (arith, lookup-insert uid other (x ∷ m) cm)

-- After `ConnectionManager.Remove`, a connection is registered for a user if it was before, unless it
-- is the one removed and the user is the one given.
pub contains-remove :
    (cm : ConnectionManager) (uid other : ℤ) (conn c : ℕ)
    → contains c (conns (remove cm uid conn) other)
      ≡ (not (equal_ℤ uid other && conn == c) && contains c (conns cm other))
unfolding remove
contains-remove cm uid other conn c = of_found (lookup uid cm) refl
  where
    of_found :
        (o : Option (Map ℕ (Unit {0})))
        → lookup uid cm ≡ o
        → contains c (conns (remove_from cm uid conn o) other)
          ≡ (not (equal_ℤ uid other && conn == c) && contains c (conns cm other))
    of_found none e = elim (Bool-cases (equal_ℤ uid other)) [
      | inl f ↦
          let none_there =
            ap (λ k. contains c (conns cm k)) (sym ((equal_ℤ_iff uid other).0 f))
            ∙ ap (λ o. contains c (keys (conns_of o))) e in
          ground (arith, none_there)
      | inr f ↦ rw f refl
    ]
    of_found (some m) e = elim (Bool-cases (equal_ℤ uid other)) [
      | inl f ↦
          let there =
            ap (λ k. contains c (conns cm k)) (sym ((equal_ℤ_iff uid other).0 f))
            ∙ ap (λ o. contains c (keys (conns_of o))) e in
          ap (contains c) (conns-put_or_delete cm uid other (delete conn m))
          ∙ ground (arith, f, there, contains-delete c conn m)
      | inr f ↦ ap (contains c) (conns-put_or_delete cm uid other (delete conn m)) ∙ rw f refl
    ]

-- A successful `FetchUsersTask` leaves no connection registered for an id that a deleted user had,
-- and leaves those of every other id as they were.
pub conns-fetch_users_task :
    (hash : Bytes → Bytes) (s : UsersService) (new : List User) (uid : ℤ)
    → conns ((fetch_users_task hash s (ok new)).connection_manager) uid ≡ (
        if has_id uid ((compare_user_list s.user_list (some new)).0)
        then []
        else conns s.connection_manager uid)
unfolding fetch_users_task
conns-fetch_users_task hash s new uid =
    conns-delete_users hash s.user_manager s.connection_manager
      ((compare_user_list s.user_list (some new)).0) uid

-- Every connection of a user that a successful `FetchUsersTask` deletes has been closed.
pub contains-fetch_users_task :
    (hash : Bytes → Bytes) (s : UsersService) (new : List User) (uid : ℤ) (c : ℕ)
    → has_id uid ((compare_user_list s.user_list (some new)).0) ≡ true
    → contains c (conns s.connection_manager uid) ≡ true
    → contains c ((fetch_users_task hash s (ok new)).closed) ≡ true
unfolding fetch_users_task
contains-fetch_users_task hash s new uid c h g =
    let deleted = (compare_user_list s.user_list (some new)).0 in
    contains-append c s.closed ((delete_users hash s.user_manager s.connection_manager deleted).2)
    ∙ ground
        (arith, contains-delete_users hash s.user_manager s.connection_manager deleted uid c h g)
