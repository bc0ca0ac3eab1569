-- ===== src/Session/Hooked/Commands.antt =====
-- What the receive loop does for each command leaves the hook of its session in order.
use server_anytls.Prelude.{
  ℕ, ◌%◌, if◌then◌else◌, refl, Bool, true, false, not, ◌&&◌, [], ◌∷◌, ◌++◌, Option, none, some,
  Bytes, message, codes, length, leb, equal, if_elim, nat_eq, bytes_eq,
}
use server_anytls.Prelude.Maps.{lookup, insert, delete}
use server_anytls.Env.{Env}
use server_anytls.Number.{ℤ, pos, negsuc, parse_int}
use server_anytls.Wire.{Frame, cmd_alert, cmd_update_padding_scheme, cmd_server_settings}
use server_anytls.Padding.{PaddingFactory, text_or_empty}
use server_anytls.Pipe.{
  Pipe, write, WriteOutcome, completed, write_failed, write_waits, out_of_rounds,
}
use server_anytls.StringMap.{StringMap, to_bytes, string_map_from_bytes}
use server_anytls.Session.State.{
  Session, Stream, WriteResult, wrote, failed, panicked, handler_started, closer_started,
  syn_done_called, emit, get_elem?, new_stream,
}
use server_anytls.Session.Streams.{close_locally, close_with_error, write_control_frame}
use server_anytls.Session.Calls.{key_v, key_padding_md5, version_two}
use server_anytls.Session.Recv.{
  Receiver, Recv, goes_on, stops, stalls, panics, with_session, after_frame, ignore_error,
  delivered, deliver_to, deliver, accept_stream, no_settings_text, refuse_syn, on_syn,
  stop_syn_watch, refuse_stream, finish_stream, answer_version, answer_settings, on_settings,
  learn_version, on_server_settings, on_update_padding_scheme,
}
use server_anytls.Session.Hooked.{
  IsHooked, HookedIn, emit-IsLike, IsLike-IsHooked, close_locally-IsLike,
  write_control_frame-IsHooked, close_with_error-IsHooked,
}

abbrev pub session_of : Recv → Session
session_of (goes_on v rest) = v.session
session_of (stops v e) = v.session
session_of (stalls v r left rest) = v.session
session_of (panics v) = v.session

abbrev pub Hooked : Recv → Type 0
Hooked r = IsHooked (session_of r)

pub after_frame-Hooked :
    (v : Receiver) (r : Session × WriteResult) (k : Receiver → Recv)
    → HookedIn r
    → ((w : Receiver) → IsHooked w.session → Hooked (k w))
    → Hooked (after_frame v r k)
after_frame-Hooked v (s, wrote n) k h f = f (with_session v s) h
after_frame-Hooked v (s, failed e) k h f = h
after_frame-Hooked v (s, panicked) k h f = h

pub ignore_error-Hooked :
    (v : Receiver) (r : Session × WriteResult) (k : Receiver → Recv)
    → HookedIn r
    → ((w : Receiver) → IsHooked w.session → Hooked (k w))
    → Hooked (ignore_error v r k)
ignore_error-Hooked v (s, wrote n) k h f = f (with_session v s) h
ignore_error-Hooked v (s, failed e) k h f = f (with_session v s) h
ignore_error-Hooked v (s, panicked) k h f = h

pub emit-IsHooked :
    (s : Session) (r : ℕ) (b : Bool)
    → IsHooked s
    → IsHooked (emit s (if b then handler_started r else closer_started r))
emit-IsHooked s r true h =
    IsLike-IsHooked s (emit s (handler_started r)) (emit-IsLike s (handler_started r) refl) h
emit-IsHooked s r false h =
    IsLike-IsHooked s (emit s (closer_started r)) (emit-IsLike s (closer_started r) refl) h

pub delivered-Hooked :
    (v : Receiver) (r : ℕ) (st : Stream) (rest : Bytes) (o : Pipe × ℕ × WriteOutcome)
    → IsHooked v.session
    → Hooked (delivered v r st rest o)
delivered-Hooked v r st rest (p, n, write_waits left) h = h
delivered-Hooked v r st rest (p, n, completed) h = h
delivered-Hooked v r st rest (p, n, write_failed e) h = h
delivered-Hooked v r st rest (p, n, out_of_rounds) h = h

pub deliver_to-Hooked :
    (v : Receiver) (r : ℕ) (o : Option Stream) (b rest : Bytes)
    → IsHooked v.session
    → Hooked (deliver_to v r o b rest)
deliver_to-Hooked v r none b rest h = h
deliver_to-Hooked v r (some st) b rest h = delivered-Hooked v r st rest (write false st.pipe b) h

pub deliver-Hooked :
    (v : Receiver) (o : Option ℕ) (b rest : Bytes)
    → IsHooked v.session
    → Hooked (deliver v o b rest)
deliver-Hooked v none b rest h = h
deliver-Hooked v (some r) b rest h = deliver_to-Hooked v r (get_elem? v.session.heap r) b rest h

pub accept_stream-IsHooked :
    (s : Session) (sid : ℕ) (o : Option ℕ) → IsHooked s → IsHooked (accept_stream s sid o)
accept_stream-IsHooked s sid (some r) h = h
accept_stream-IsHooked s sid none h =
    let r = length s.heap in
    emit-IsHooked
      (record s { heap = s.heap ++ (new_stream sid ∷ []); streams = insert sid r s.streams }) r
      s.on_new_stream h

pub on_syn-Hooked :
    (env : Env) (v : Receiver) (sid : ℕ) (rest : Bytes)
    → IsHooked v.session
    → Hooked (on_syn env v sid rest)
unfolding on_syn
on_syn-Hooked env v sid rest h =
    if_elim Hooked (not v.session.is_client && not v.received_settings)
      (λ _.
        ignore_error-Hooked v (refuse_syn env v) (λ w. stops w none)
          (write_control_frame-IsHooked env v.session
            (record { cmd = cmd_alert; sid = 0; payload = no_settings_text }) h)
          (λ w g. g))
      (λ _. accept_stream-IsHooked v.session sid (lookup sid v.session.streams) h)

pub stop_syn_watch-IsHooked : (s : Session) → IsHooked s → IsHooked (stop_syn_watch s)
stop_syn_watch-IsHooked s h =
    if_elim IsHooked s.syn_done
      (λ _. IsLike-IsHooked s (emit s syn_done_called) (emit-IsLike s syn_done_called refl) h)
      (λ _. h)

pub refuse_stream-Hooked :
    (env : Env) (v : Receiver) (o : Option ℕ) (text rest : Bytes)
    → IsHooked v.session
    → Hooked (refuse_stream env v o text rest)
refuse_stream-Hooked env v none text rest h = h
refuse_stream-Hooked env v (some r) text rest h =
    let e = message (codes "remote: " ++ text) in
    ignore_error-Hooked v (close_with_error env v.session r e) (λ w. goes_on w rest)
      (close_with_error-IsHooked env v.session r e h) (λ w g. g)

pub finish_stream-IsHooked :
    (s : Session) (sid : ℕ) (o : Option ℕ) → IsHooked s → IsHooked (finish_stream s sid o)
finish_stream-IsHooked s sid none h = h
finish_stream-IsHooked s sid (some r) h =
    let t = record s { streams = delete sid s.streams } in
    IsLike-IsHooked t (close_locally t r) (close_locally-IsLike t r) h

pub answer_version-Hooked :
    (env : Env) (v : Receiver) (o : Option ℤ) (rest : Bytes)
    → IsHooked v.session
    → Hooked (answer_version env v o rest)
answer_version-Hooked env v none rest h = h
answer_version-Hooked env v (some (negsuc n)) rest h = h
answer_version-Hooked env v (some (pos n)) rest h =
    if_elim Hooked (leb 2 n)
      (λ _.
        let s = record (v.session) { peer_version = n % 256 } in
        let f : Frame = record {
          cmd = cmd_server_settings;
          sid = 0;
          payload = to_bytes env ((key_v, version_two) ∷ []);
        } in
        after_frame-Hooked v (write_control_frame env s f) (λ w. goes_on w rest)
          (write_control_frame-IsHooked env s f h) (λ w g. g))
      (λ _. h)

pub answer_settings-Hooked :
    (env : Env) (v : Receiver) (m : StringMap) (o : Option PaddingFactory) (rest : Bytes)
    → IsHooked v.session
    → Hooked (answer_settings env v m o rest)
answer_settings-Hooked env v m none rest h = h
answer_settings-Hooked env v m (some p) rest h =
    let o = parse_int (text_or_empty key_v m) in
    let f : Frame = record { cmd = cmd_update_padding_scheme; sid = 0; payload = p.raw_scheme } in
    if_elim Hooked (equal (text_or_empty key_padding_md5 m) p.md5)
      (λ _. answer_version-Hooked env v o rest h)
      (λ _.
        after_frame-Hooked v (write_control_frame env v.session f)
          (λ (w : Receiver). answer_version env w o rest)
          (write_control_frame-IsHooked env v.session f h)
          (λ w g. answer_version-Hooked env w o rest g))

pub on_settings-Hooked :
    (env : Env) (v : Receiver) (text rest : Bytes)
    → IsHooked v.session
    → Hooked (on_settings env v text rest)
unfolding on_settings
on_settings-Hooked env v text rest h =
    if_elim Hooked v.session.is_client (λ _. h)
      (λ _.
        answer_settings-Hooked env (record v { received_settings = true })
          (string_map_from_bytes text) v.session.padding rest h)

pub learn_version-IsHooked :
    (s : Session) (o : Option ℤ) → IsHooked s → IsHooked (learn_version s o)
learn_version-IsHooked s none h = h
learn_version-IsHooked s (some n) h = h

pub on_server_settings-Hooked :
    (v : Receiver) (text rest : Bytes)
    → IsHooked v.session
    → Hooked (on_server_settings v text rest)
unfolding on_server_settings
on_server_settings-Hooked v text rest h =
    if_elim Hooked v.session.is_client
      (λ _.
        learn_version-IsHooked v.session
          (parse_int (text_or_empty key_v (string_map_from_bytes text))) h)
      (λ _. h)

pub on_update_padding_scheme-Hooked :
    (env : Env) (v : Receiver) (text rest : Bytes)
    → IsHooked v.session
    → Hooked (on_update_padding_scheme env v text rest)
unfolding on_update_padding_scheme
on_update_padding_scheme-Hooked env v text rest h =
    if_elim Hooked (v.session.is_client && not env.client_debug_padding_scheme) (λ _. h) (λ _. h)
