-- ===== src/Server/Running.antt =====
-- What `Start` has made sure of when it accepts connections.
use server_anytls.Prelude.{
  ℕ, ◌<◌, ◌++◌, append-nil, arith, ◌≡◌, refl, sym, ap, ◌∙◌, ◌≢◌, subst, Bool, true, false, List, [],
  ◌∷◌, Option, none, some, Bytes, Error, Result, ok, err, equal, if◌then◌else◌, if_elim,
}
use mathlib.Core.Bool.{false≢true}
use mathlib.Core.Option.{none-ne-some}
use server_anytls.Number.{ℤ, pos, negsuc}
use server_anytls.Service.Users.{User, UsersService, new_users_service, init}
use server_anytls.Outbound.{build_outbound, non_empty}
use server_anytls.Server.{
  AnyTlsConfig, TlsConfig, Outside, users_called, Server, World, log, is_port, tcp4, tcp6, cons_ok,
  validate_config, some_listener, listen_dual_stack,
}
use server_anytls.Server.Register.{Outcome, going, failed, ◌>>>◌, start_registered}
use server_anytls.Server.Start.{
  load_tls, load_acl, make_users, checked, node_config, check_config, allow_insecure_tls,
  skip_verify, routed, route, listening, port_of, listen_all, rules_of, take_padding, init_users,
  users_ready, start_users_of, start_users, start_serving, start,
}

-- A condition on where `Start` goes on.
abbrev pub Then : (World → Type 0) → Outcome → Type 0
Then P (going t) = P t
Then P (failed t e) = Unit {0}

bind-Then :
    (P Q : World → Type 0) (o : Outcome) (f : World → Outcome)
    → Then P o
    → ((t : World) → P t → Then Q (f t))
    → Then Q (o >>> f)
bind-Then P Q (going t) f h k = k t h
bind-Then P Q (failed t e) f h k = tt

anything : (o : Outcome) → Then (λ _. Unit {0}) o
anything (going t) = tt
anything (failed t e) = tt

-- The configuration is there, with a port of TCP.
abbrev pub HasPort : Server → Type 0
HasPort s =
    (c : AnyTlsConfig) × (n : ℕ) × (s.anytls_config ≡ some c)
    × (c.server_port ≡ pos n)
    × (0 < n)
    × (n < 65536)

abbrev pub HasTls : Server → Type 0
HasTls s = (tls : TlsConfig) × (s.tls_config ≡ some tls)

-- The router is the one of the configured outbounds and rules.
abbrev pub HasRoutes : Outside → Server → Type 0
HasRoutes O s =
    (r : ℕ) × (s.outbound ≡ some r) × (build_outbound O.engine s.data_dir s.ext_config ≡ ok r)

abbrev pub opened : Result ℕ → List ℕ
opened (err e) = []
opened (ok ln) = ln ∷ []

-- The listeners are those that could be opened at the port.
abbrev pub Listens : Outside → Server → Type 0
Listens O s =
    s.listeners
    ≡ opened (O.listen tcp4 (port_of s.anytls_config))
      ++ opened (O.listen tcp6 (port_of s.anytls_config))

-- The users are those that the panel listed for the register id.
abbrev pub HasUsers : Outside → Server → Type 0
HasUsers O s =
    (s.registered_as ≢ [])
    × (us : List User) × (O.users s.registered_as ≡ ok us)
    × (s.user_service ≡ some ((init O.hash new_users_service (ok us)).0))

some_nil : (a : Error) → some a ≢ none
some_nil a e = none-ne-some a (sym e)

cons_not_nil : (c : ℕ) (id : Bytes) → (c ∷ id) ≢ []
cons_not_nil c id e = false≢true (sym (ap non_empty e))

port_checked :
    (p : AnyTlsConfig) (b : Bool) (e : Error) → (if b then none else some e) ≡ none → b ≡ true
port_checked p true e h = refl
port_checked p false e h = absurd (some_nil e h)

is_port_lem : (p : ℤ) → is_port p ≡ true → (n : ℕ) × (p ≡ pos n) × (0 < n) × (n < 65536)
is_port_lem (pos n) h = (n, refl, ground arith, ground arith)
is_port_lem (negsuc n) h = absurd (ground arith)

-- What `validateConfig` lets through.
config_checked :
    (o : Option AnyTlsConfig) (u : Option UsersService) (tls : Option TlsConfig)
    → validate_config (node_config o) u tls ≡ none
    → ((c : AnyTlsConfig) × (n : ℕ) × (o ≡ some c)
        × (c.server_port ≡ pos n)
        × (0 < n)
        × (n < 65536))
      × ((t : TlsConfig) × (tls ≡ some t))
unfolding validate_config
config_checked none u tls h = absurd (some_nil _ h)
config_checked (some c) none tls h = absurd (some_nil _ h)
config_checked (some c) (some u) none h = absurd (some_nil _ h)
config_checked (some c) (some u) (some t) h =
    let d = is_port_lem c.server_port (port_checked c (is_port c.server_port) _ h) in
    ((c, d.0, refl, d.1, d.2, d.3), (t, refl))

skip_verify-HasTls :
    (o : Option AnyTlsConfig) (tls : Option TlsConfig)
    → ((t : TlsConfig) × (tls ≡ some t))
    → ((t : TlsConfig) × (skip_verify o tls ≡ some t))
skip_verify-HasTls none tls h = h
skip_verify-HasTls (some c) none h = h
skip_verify-HasTls (some c) (some t) h = (_, refl)

abbrev is_ok : Result (List ℕ) → Bool
is_ok (err e) = false
is_ok (ok lns) = true

abbrev listed : Result (List ℕ) → List ℕ
listed (err e) = []
listed (ok lns) = lns

cons_ok_opened : (r : Result ℕ) (lns : List ℕ) → cons_ok r lns ≡ opened r ++ lns
cons_ok_opened (err e) lns = refl
cons_ok_opened (ok ln) lns = refl

some_listener_ok :
    (xs lns : List ℕ) → some_listener xs ≡ ok lns → (lns ≡ xs) × (non_empty lns ≡ true)
some_listener_ok [] lns e = absurd (false≢true (ap is_ok e))
some_listener_ok (x ∷ xs) lns e = let same = ap listed e in (sym same, ap non_empty (sym same))

non_empty_nil : (lns : List ℕ) → non_empty lns ≡ true → lns ≢ []
non_empty_nil lns h e = false≢true (sym (ap non_empty e) ∙ h)

listen_dual_stack_ok :
    (O : Outside) (port : ℤ) (lns : List ℕ)
    → listen_dual_stack O port ≡ ok lns
    → (lns ≡ opened (O.listen tcp4 port) ++ opened (O.listen tcp6 port)) × (lns ≢ [])
unfolding listen_dual_stack
listen_dual_stack_ok O port lns e =
    let d = some_listener_ok _ lns e in
    (
      d.0
          ∙ cons_ok_opened (O.listen tcp4 port) _
          ∙ ap (◌++◌ (opened (O.listen tcp4 port)))
              (cons_ok_opened (O.listen tcp6 port) [] ∙ append-nil _),
      non_empty_nil lns d.1,
    )

-- A server that accepts connections.
pub record IsRunning (O : Outside) (t : World) : Type 0 where
  pub port : HasPort t.server
  pub tls : HasTls t.server
  pub routes : HasRoutes O t.server
  pub listens : Listens O t.server
  pub open_somewhere : t.server.listeners ≢ []
  pub users : HasUsers O t.server

module _ (O : Outside) where
  abbrev Fresh : World → Type 0
  Fresh t = t.server.user_service ≡ some new_users_service

  abbrev Checked : World → Type 0
  Checked t = Fresh t × HasPort t.server × HasTls t.server

  abbrev Routed : World → Type 0
  Routed t = Checked t × HasRoutes O t.server

  abbrev Listening : World → Type 0
  Listening t = Routed t × Listens O t.server × (t.server.listeners ≢ [])

  checked-Then :
      (t : World) (o : Option Error)
      → validate_config
          (node_config t.server.anytls_config)
          t.server.user_service
          t.server.tls_config
        ≡ o
      → Fresh t
      → Then Checked (checked t o)
  checked-Then t none e f = let c = config_checked _ _ _ e in (f, c.0, c.1)
  checked-Then t (some g) e f = tt

  routed-Then :
      (t : World) (r : Result ℕ)
      → build_outbound O.engine t.server.data_dir t.server.ext_config ≡ r
      → Checked t
      → Then Routed (routed t r)
  routed-Then t (err g) e c = tt
  routed-Then t (ok r) e c = (c, (r, refl, e))

  listening-Then :
      (t : World) (r : Result (List ℕ))
      → listen_dual_stack O (port_of t.server.anytls_config) ≡ r
      → Routed t
      → Then Listening (listening t r)
  listening-Then t (err g) e c = tt
  listening-Then t (ok lns) e c =
      let d = listen_dual_stack_ok O (port_of t.server.anytls_config) lns e in (c, d.0, d.1)

  take_padding-Then : (t : World) → Listening t → Then Listening (take_padding O t)
  unfolding take_padding
  take_padding-Then t h =
      if_elim (Then Listening) (equal (rules_of t.server.anytls_config) []) (λ _. h) (λ _. h)

  init-Then :
      (t : World) (c : ℕ) (id : Bytes) (r : Result (List User))
      → t.server.registered_as ≡ c ∷ id
      → O.users (c ∷ id) ≡ r
      → Listening t
      → Then (IsRunning O) (
          users_ready (
            log t (users_called (c ∷ id)),
            (init O.hash new_users_service r).0,
            (init O.hash new_users_service r).1,
          ))
  unfolding init
  init-Then t c id (err e) same asked h = tt
  init-Then t c id (ok us) same asked h = record {
    port = h.0.0.1;
    tls = h.0.0.2;
    routes = h.0.1;
    listens = h.1;
    open_somewhere = h.2;
    users = (λ e. cons_not_nil c id (sym same ∙ e), us, ap O.users same ∙ asked, refl);
  }

  init_users-Then :
      (t : World) (id : Bytes)
      → t.server.registered_as ≡ id
      → Listening t
      → Then (IsRunning O) (users_ready (init_users O t id new_users_service))
  init_users-Then t [] same h = tt
  init_users-Then t (c ∷ id) same h = init-Then t c id (O.users (c ∷ id)) same refl h

  start_users-Then : (t : World) → Listening t → Then (IsRunning O) (start_users O t)
  unfolding start_users
  start_users-Then t h =
      subst (λ o. Then (IsRunning O) (start_users_of O t o)) (sym h.0.0.0)
        (init_users-Then t t.server.registered_as refl h)

  pub start_serving-Then : (v : World) → Then (IsRunning O) (start_serving O v)
  unfolding start_serving make_users check_config allow_insecure_tls route listen_all
  start_serving-Then v =
      let o2 = load_tls O v >>> load_acl O in
      let o3 = o2 >>> make_users in
      let o4 = o3 >>> check_config in
      let o5 = o4 >>> allow_insecure_tls in
      let o6 = o5 >>> route O in
      let o7 = o6 >>> listen_all O in
      let o8 = o7 >>> take_padding O in
      let h3 : Then Fresh o3 = bind-Then (λ _. Unit {0}) Fresh o2 _ (anything o2) (λ t _. refl) in
      let h4 : Then Checked o4 = bind-Then Fresh Checked o3 _ h3 (λ t h. checked-Then t _ refl h) in
      let h5 : Then Checked o5 =
        bind-Then Checked Checked o4 _ h4 (λ t h. (h.0, h.1, skip_verify-HasTls _ _ h.2)) in
      let h6 : Then Routed o6 = bind-Then Checked Routed o5 _ h5 (λ t h. routed-Then t _ refl h) in
      let h7 : Then Listening o7 =
        bind-Then Routed Listening o6 _ h6 (λ t h. listening-Then t _ refl h) in
      let h8 : Then Listening o8 = bind-Then Listening Listening o7 _ h7 take_padding-Then in
      bind-Then Listening (IsRunning O) o8 _ h8 start_users-Then

-- When `Start` goes on to accept connections, the port is one of TCP, a certificate is loaded, the
-- router is the one of the configured outbounds and rules, it listens on at least one network,
-- namely on all that could be opened, and the users are those that the panel listed for the
-- register id, which is not empty.
pub start-IsRunning : (O : Outside) (w t : World) → start O w ≡ going t → IsRunning O t
unfolding start
start-IsRunning O w t e = subst (Then (IsRunning O)) e (
    bind-Then (λ _. Unit {0}) (IsRunning O) (start_registered O w) _
      (anything (start_registered O w)) (λ v _. start_serving-Then O v))
