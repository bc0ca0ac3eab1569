-- ===== src/Server/Kept.antt =====
-- server.go: what the second half of `Start` leaves as it is.
use server_anytls.Prelude.{
  ℕ, ◌≡◌, refl, ◌∙◌, List, [], ◌∷◌, Option, none, some, Bytes, Error, Result, ok, err, equal,
  if_elim,
}
use server_anytls.Service.Users.{UsersService}
use server_anytls.Outbound.{ExtConfig}
use server_anytls.Server.{TlsConfig, Outside, World, log, load_cert, users_called}
use server_anytls.Server.Register.{Outcome, going, failed, ◌>>>◌}
use server_anytls.Server.Start.{
  cert_loaded, load_tls, absolute, is_yaml, acl_unmarshalled, acl_read, load_acl, make_users,
  checked, check_config, allow_insecure_tls, routed, route, listening, listen_all, rules_of,
  take_padding, init_users, users_ready, start_users_of, start_users, start_serving,
}

-- What the second half of `Start` leaves as it is.
pub record KeepsId (v t : World) : Type 0 where
  pub same_id : t.server.register_id ≡ v.server.register_id
  pub same_client : t.server.api_client ≡ v.server.api_client
  pub same_closed : t.server.closed ≡ v.server.closed
  pub same_dir : t.server.data_dir ≡ v.server.data_dir
  pub same_disk : t.disk ≡ v.disk

KeepsId-refl : (v : World) → KeepsId v v
KeepsId-refl v = record {
  same_id = refl;
  same_client = refl;
  same_closed = refl;
  same_dir = refl;
  same_disk = refl;
}

abbrev pub KeepsIdIn : World → Outcome → Type 0
KeepsIdIn v (going t) = KeepsId v t
KeepsIdIn v (failed t e) = KeepsId v t

module _ (v : World) where
  bind-KeepsId :
      (o : Outcome) (f : World → Outcome)
      → KeepsIdIn v o
      → ((t : World) → KeepsId v t → KeepsIdIn v (f t))
      → KeepsIdIn v (o >>> f)
  bind-KeepsId (going t) f k h = h t k
  bind-KeepsId (failed t e) f k h = k

  -- A change of the other fields.
  changed :
      (t u : World)
      → KeepsId v t
      → u.server.register_id ≡ t.server.register_id
      → u.server.api_client ≡ t.server.api_client
      → u.server.closed ≡ t.server.closed
      → u.server.data_dir ≡ t.server.data_dir
      → u.disk ≡ t.disk
      → KeepsId v u
  changed t u k a b c d e = record {
    same_id = a ∙ k.same_id;
    same_client = b ∙ k.same_client;
    same_closed = c ∙ k.same_closed;
    same_dir = d ∙ k.same_dir;
    same_disk = e ∙ k.same_disk;
  }

  cert_loaded-KeepsId :
      (t : World) (r : Result TlsConfig) → KeepsId v t → KeepsIdIn v (cert_loaded t r)
  cert_loaded-KeepsId t (err e) k = k
  cert_loaded-KeepsId t (ok tls) k = changed t _ k refl refl refl refl refl

  acl_unmarshalled-KeepsId :
      (t : World) (r : Result ExtConfig) → KeepsId v t → KeepsIdIn v (acl_unmarshalled t r)
  acl_unmarshalled-KeepsId t (err e) k = k
  acl_unmarshalled-KeepsId t (ok c) k = changed t _ k refl refl refl refl refl

  acl_read-KeepsId :
      (O : Outside) (t : World) (path : Bytes) (o : Option Error)
      → KeepsId v t
      → KeepsIdIn v (acl_read O t path o)
  acl_read-KeepsId O t path (some e) k = k
  acl_read-KeepsId O t path none k = acl_unmarshalled-KeepsId t (O.unmarshal_ext path) k

  load_acl-KeepsId : (O : Outside) (t : World) → KeepsId v t → KeepsIdIn v (load_acl O t)
  unfolding load_acl
  load_acl-KeepsId O t k =
      let path = absolute O t.server.acl_conf_path in
      if_elim (KeepsIdIn v) (equal t.server.acl_conf_path []) (λ _. k)
        (λ _.
          if_elim (KeepsIdIn v) (is_yaml path)
            (λ _. acl_read-KeepsId O t path (O.read_in_config path) k) (λ _. k))

  checked-KeepsId : (t : World) (o : Option Error) → KeepsId v t → KeepsIdIn v (checked t o)
  checked-KeepsId t none k = k
  checked-KeepsId t (some e) k = k

  routed-KeepsId : (t : World) (r : Result ℕ) → KeepsId v t → KeepsIdIn v (routed t r)
  routed-KeepsId t (err e) k = k
  routed-KeepsId t (ok r) k = changed t _ k refl refl refl refl refl

  listening-KeepsId : (t : World) (r : Result (List ℕ)) → KeepsId v t → KeepsIdIn v (listening t r)
  listening-KeepsId t (err e) k = k
  listening-KeepsId t (ok lns) k = changed t _ k refl refl refl refl refl

  take_padding-KeepsId : (O : Outside) (t : World) → KeepsId v t → KeepsIdIn v (take_padding O t)
  unfolding take_padding
  take_padding-KeepsId O t k =
      if_elim (KeepsIdIn v) (equal (rules_of t.server.anytls_config) []) (λ _. k)
        (λ _. changed t _ k refl refl refl refl refl)

  users_ready-KeepsId :
      (r : World × UsersService × Option Error) → KeepsId v (r.0) → KeepsIdIn v (users_ready r)
  users_ready-KeepsId (t, u, none) k = changed t _ k refl refl refl refl refl
  users_ready-KeepsId (t, u, some e) k = changed t _ k refl refl refl refl refl

  init_users-KeepsId :
      (O : Outside) (t : World) (id : Bytes) (u : UsersService)
      → KeepsId v t
      → KeepsIdIn v (users_ready (init_users O t id u))
  init_users-KeepsId O t [] u k = users_ready-KeepsId (init_users O t [] u) k
  init_users-KeepsId O t (c ∷ id) u k =
      users_ready-KeepsId (init_users O t (c ∷ id) u)
        (changed t (log t (users_called (c ∷ id))) k refl refl refl refl refl)

  start_users_of-KeepsId :
      (O : Outside) (t : World) (o : Option UsersService)
      → KeepsId v t
      → KeepsIdIn v (start_users_of O t o)
  start_users_of-KeepsId O t none k = k
  start_users_of-KeepsId O t (some u) k = init_users-KeepsId O t t.server.registered_as u k

pub start_serving-KeepsId : (O : Outside) (v : World) → KeepsIdIn v (start_serving O v)
unfolding start_serving load_tls make_users check_config allow_insecure_tls route listen_all
    start_users
start_serving-KeepsId O v =
    let o1 = load_tls O v in
    let o2 = o1 >>> load_acl O in
    let o3 = o2 >>> make_users in
    let o4 = o3 >>> check_config in
    let o5 = o4 >>> allow_insecure_tls in
    let o6 = o5 >>> route O in
    let o7 = o6 >>> listen_all O in
    let o8 = o7 >>> take_padding O in
    let k1 : KeepsIdIn v o1 =
      cert_loaded-KeepsId v v (load_cert O v.server.cert_config) (KeepsId-refl v) in
    let k2 : KeepsIdIn v o2 = bind-KeepsId v o1 _ k1 (load_acl-KeepsId v O) in
    let k3 : KeepsIdIn v o3 =
      bind-KeepsId v o2 _ k2 (λ t k. changed v t _ k refl refl refl refl refl) in
    let k4 : KeepsIdIn v o4 = bind-KeepsId v o3 _ k3 (λ t k. checked-KeepsId v t _ k) in
    let k5 : KeepsIdIn v o5 =
      bind-KeepsId v o4 _ k4 (λ t k. changed v t _ k refl refl refl refl refl) in
    let k6 : KeepsIdIn v o6 = bind-KeepsId v o5 _ k5 (λ t k. routed-KeepsId v t _ k) in
    let k7 : KeepsIdIn v o7 = bind-KeepsId v o6 _ k6 (λ t k. listening-KeepsId v t _ k) in
    let k8 : KeepsIdIn v o8 = bind-KeepsId v o7 _ k7 (take_padding-KeepsId v O) in
    bind-KeepsId v o8 _ k8 (λ t k. start_users_of-KeepsId v O t t.server.user_service k)
