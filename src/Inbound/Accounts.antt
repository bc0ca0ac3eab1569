-- ===== src/Inbound/Accounts.antt =====
-- What an admitted connection leaves with the users and their traffic.
use server_anytls.Prelude.{
  ℕ, ◌+◌, ◌^◌, ◌<◌, ◌≡◌, refl, sym, ap, ◌∙◌, subst, Bool, true, Option, none, some, Bytes, length,
  arith, if◌then◌else◌,
}
use server_anytls.Prelude.Maps.{lookup}
use server_anytls.Number.{ℤ, int_eq, equal_ℤ_iff}
use server_anytls.Service.Traffic.{
  TrafficManager, UserTraffic, load_or_store, item_or_new, add_uint64,
}
use server_anytls.Service.Traffic.Conserved.{Counter, uploads, held, held-insert, held-add_traffic}
use server_anytls.Service.Users.{auth_and_get_user_id}
use server_anytls.Service.Users.Evicted.{conns, contains, contains-add}
use server_anytls.Inbound.{
  password_len, padding_len_field_sz, encode_to_string, Server, admit, handle_tcp_connection,
  header_bytes,
}
use server_anytls.Inbound.Admission.{TakesFront, hello, answer, handshake-hello}

-- `GetTrafficItem` changes no counter.
held-load_or_store :
    (c : Counter) (uid : ℤ) (tm : TrafficManager)
    → held c uid ((load_or_store uid tm).0) ≡ held c uid tm
unfolding load_or_store
held-load_or_store c uid tm =
    held-insert c uid uid (item_or_new (lookup uid tm)) tm
    ∙ ap (λ (b : Bool). if b then held c uid tm else held c uid tm) ((equal_ℤ_iff uid uid).1 refl)

-- Nothing happens to a connection that is not admitted. One that is admitted is registered for its
-- user, and the bytes of its header are counted there.
abbrev pub Admits : Server → ℕ → ℕ → Server → Option ℤ → Type 0
Admits s conn counted t none = t ≡ s
Admits s conn counted t (some uid) =
    (contains conn (conns t.users.connection_manager uid) ≡ true)
    × (held uploads uid t.traffic ≡ add_uint64 (held uploads uid s.traffic) counted)

answer-Admits :
    (s : Server) (conn padding_len : ℕ) (rest : Bytes) (o : Option ℤ)
    → Admits s conn (header_bytes padding_len) (admit s conn (answer padding_len rest o)) o
answer-Admits s conn padding_len rest none = refl
answer-Admits s conn padding_len rest (some uid) =
    let here = (equal_ℤ_iff uid uid).1 refl in
    let t : UserTraffic = record {
      uid = uid;
      upload = header_bytes padding_len;
      download = 0;
      count = 0;
    } in
    (
      contains-add s.users.connection_manager uid uid conn conn ∙ ground (arith, here),
      held-add_traffic uploads uid ((load_or_store uid s.traffic).0) t
          ∙ ap
              (λ (b : Bool).
                if b
                then add_uint64 (held uploads uid ((load_or_store uid s.traffic).0))
                    (header_bytes padding_len)
                else held uploads uid ((load_or_store uid s.traffic).0))
              here
          ∙ ap (λ x. add_uint64 x (header_bytes padding_len))
              (held-load_or_store uploads uid s.traffic),
    )

-- A first read that holds a password, the padding and its length changes nothing if nobody has the
-- password; else the connection is registered for the user of the password, and the user's upload
-- counter grows by the 34 bytes of password and length and by the padding, for a padding of at most
-- 65501 bytes.
pub handle_tcp_connection-Admits :
    (read_bytes : ℕ → Bytes → Option (Bytes × Bytes)) (s : Server) (conn : ℕ)
    (password padding rest : Bytes)
    → TakesFront read_bytes
    → length password ≡ password_len
    → password_len + padding_len_field_sz + length padding < 2 ^ 16
    → Admits s conn
        (password_len + padding_len_field_sz + length padding)
        (handle_tcp_connection read_bytes s conn (hello password padding rest))
        (auth_and_get_user_id s.users.user_manager (encode_to_string password))
unfolding handle_tcp_connection
handle_tcp_connection-Admits read_bytes s conn password padding rest reads l small =
    let auth = auth_and_get_user_id s.users.user_manager in
    let o = auth (encode_to_string password) in
    let said = handshake-hello read_bytes auth password padding rest reads l (omega arith) in
    let exact : header_bytes (length padding)
        ≡ password_len + padding_len_field_sz + length padding =
      omega arith in
    subst
      (λ h. Admits s conn (password_len + padding_len_field_sz + length padding) (admit s conn h) o)
      (sym said)
      (subst (λ n. Admits s conn n (admit s conn (answer (length padding) rest o)) o) exact
        (answer-Admits s conn (length padding) rest o))
