-- ===== src/Session/Recv.antt =====
-- session.go, `recvLoop`: read a frame, act on it, go on. The bytes that the peer will send before
-- the connection ends are the loop's input.
pub mod Uniform
pub mod Frames
pub mod Rounds
pub mod Invisible
use server_anytls.Prelude.{
  ℕ, zero, suc, ◌+◌, ◌-◌, ◌*◌, ◌%◌, ◌^◌, ◌≤◌, Bool, true, false, not, ◌&&◌, List, [], ◌∷◌, ◌++◌,
  Option, none, some, Bytes, codes, Error, eof, unexpected_eof, message, Result, ok, err, length,
  take, drop, leb, ltb, ◌==◌, equal, if◌then◌else◌, nat_eq, bytes_eq,
}
use server_anytls.Prelude.Maps.{Map, lookup, insert, delete}
use server_anytls.Env.{Env}
use server_anytls.Number.{ℤ, pos, negsuc, leb_ℤ, parse_int}
use server_anytls.Wire.{
  Frame, new_frame, RawHeader, header_cmd, header_stream_id, header_length, header_over_head_size,
  cmd_waste, cmd_syn, cmd_psh, cmd_fin, cmd_settings, cmd_alert, cmd_update_padding_scheme,
  cmd_syn_ack, cmd_heart_request, cmd_heart_response, cmd_server_settings,
}
use server_anytls.Padding.{PaddingFactory, update_padding_scheme, text_or_empty}
use server_anytls.Pipe.{
  Pipe, write, WriteOutcome, completed, write_failed, write_waits, out_of_rounds,
}
use server_anytls.StringMap.{StringMap, to_bytes, string_map_from_bytes}
use server_anytls.Session.State.{
  Session, Stream, WriteResult, wrote, failed, panicked, Effect, handler_started, closer_started,
  syn_done_called, emit, get_elem?, set, new_stream,
}
use server_anytls.Session.Streams.{
  put, close_locally, close_session, close_with_error, write_control_frame,
}
use server_anytls.Session.Calls.{key_v, key_padding_md5, version_two}

-- `io.ReadFull` for `n` bytes.
unfoldable pub read_full : ℕ → Bytes → Result (Bytes × Bytes)
read_full n input =
    if leb n (length input)
    then ok (take n input, drop n input)
    else if length input == 0
    then err eof
    else err unexpected_eof

-- The session, and the loop's `receivedSettingsFromClient`.
pub record Receiver : Type 0 where
  pub session : Session
  pub received_settings : Bool

-- Where the loop is: ready for the next frame, returned, parked in the write to a stream's pipe
-- with bytes of the frame still to deliver, or in a panic.
pub data Recv : Type 0 where
  goes_on : Receiver → Bytes → Recv
  stops : Receiver → Option Error → Recv
  stalls : Receiver → ℕ → Bytes → Bytes → Recv
  panics : Receiver → Recv

abbrev pub with_session : Receiver → Session → Receiver
with_session v s = record v { session = s }

-- Go on after a control frame, or return its error.
abbrev pub after_frame : Receiver → Session × WriteResult → (Receiver → Recv) → Recv
after_frame v (s, wrote n) k = k (with_session v s)
after_frame v (s, failed e) k = stops (with_session v s) (some e)
after_frame v (s, panicked) k = panics (with_session v s)

-- The result of a call is not looked at.
abbrev pub ignore_error : Receiver → Session × WriteResult → (Receiver → Recv) → Recv
ignore_error v (s, panicked) k = panics (with_session v s)
ignore_error v (s, wrote n) k = k (with_session v s)
ignore_error v (s, failed e) k = k (with_session v s)

-- `cmdPSH`: the bytes go into the pipe of the stream, and are dropped if there is none.
abbrev pub delivered : Receiver → ℕ → Stream → Bytes → Pipe × ℕ × WriteOutcome → Recv
delivered v r st rest (p, n, write_waits left) =
    stalls (with_session v (put v.session r (record st { pipe = p }))) r left rest
delivered v r st rest (p, n, completed) =
    goes_on (with_session v (put v.session r (record st { pipe = p }))) rest
delivered v r st rest (p, n, write_failed e) =
    goes_on (with_session v (put v.session r (record st { pipe = p }))) rest
delivered v r st rest (p, n, out_of_rounds) =
    goes_on (with_session v (put v.session r (record st { pipe = p }))) rest

abbrev pub deliver_to : Receiver → ℕ → Option Stream → Bytes → Bytes → Recv
deliver_to v r none b rest = goes_on v rest
deliver_to v r (some st) b rest = delivered v r st rest (write false st.pipe b)

abbrev pub deliver : Receiver → Option ℕ → Bytes → Bytes → Recv
deliver v none b rest = goes_on v rest
deliver v (some r) b rest = deliver_to v r (get_elem? v.session.heap r) b rest

-- `cmdSYN` of an id that is not registered: a stream, and a goroutine for it.
abbrev pub accept_stream : Session → ℕ → Option ℕ → Session
accept_stream s sid (some r) = s
accept_stream s sid none =
    let r = length s.heap in
    emit (record s { heap = s.heap ++ (new_stream sid ∷ []); streams = insert sid r s.streams })
      (if s.on_new_stream then handler_started r else closer_started r)

abbrev pub no_settings_text : Bytes
no_settings_text = codes "client did not send its settings"

abbrev pub refuse_syn : Env → Receiver → Session × WriteResult
refuse_syn env v =
    write_control_frame env v.session
      (record { cmd = cmd_alert; sid = 0; payload = no_settings_text })

abbrev pub accept_syn : Receiver → ℕ → Receiver
accept_syn v sid = with_session v (accept_stream v.session sid (lookup sid v.session.streams))

unfoldable pub on_syn : Env → Receiver → ℕ → Bytes → Recv
on_syn env v sid rest =
    if not v.session.is_client && not v.received_settings
    then ignore_error v (refuse_syn env v) (λ w. stops w none)
    else goes_on (accept_syn v sid) rest

abbrev pub stop_syn_watch : Session → Session
stop_syn_watch s = if s.syn_done then record (emit s syn_done_called) { syn_done = false } else s

abbrev pub refuse_stream : Env → Receiver → Option ℕ → Bytes → Bytes → Recv
refuse_stream env v none text rest = goes_on v rest
refuse_stream env v (some r) text rest =
    ignore_error v (close_with_error env v.session r (message (codes "remote: " ++ text)))
      (λ w. goes_on w rest)

-- `cmdFIN`
abbrev pub finish_stream : Session → ℕ → Option ℕ → Session
finish_stream s sid none = record s { streams = delete sid s.streams }
finish_stream s sid (some r) = close_locally (record s { streams = delete sid s.streams }) r

-- The second half of a server's `cmdSettings`: the version.
abbrev pub answer_version : Env → Receiver → Option ℤ → Bytes → Recv
answer_version env v none rest = goes_on v rest
answer_version env v (some (negsuc n)) rest = goes_on v rest
answer_version env v (some (pos n)) rest =
    if leb 2 n
    then after_frame v
        (write_control_frame env (record (v.session) { peer_version = n % 256 })
          (record {
            cmd = cmd_server_settings;
            sid = 0;
            payload = to_bytes env ((key_v, version_two) ∷ []);
          }))
        (λ w. goes_on w rest)
    else goes_on v rest

abbrev pub answer_settings : Env → Receiver → StringMap → Option PaddingFactory → Bytes → Recv
answer_settings env v m none rest = stops v none
answer_settings env v m (some p) rest =
    let version = λ (w : Receiver). answer_version env w (parse_int (text_or_empty key_v m)) rest in
    if equal (text_or_empty key_padding_md5 m) p.md5
    then version v
    else after_frame v
        (write_control_frame env v.session
          (record { cmd = cmd_update_padding_scheme; sid = 0; payload = p.raw_scheme }))
        version

unfoldable pub on_settings : Env → Receiver → Bytes → Bytes → Recv
on_settings env v text rest =
    if v.session.is_client
    then goes_on v rest
    else answer_settings env (record v { received_settings = true }) (string_map_from_bytes text)
        v.session.padding rest

-- `cmdServerSettings` of a client: `byte(v)` of any number.
abbrev byte_of : ℤ → ℕ
byte_of (pos n) = n % 256
byte_of (negsuc n) = 255 - n % 256

abbrev pub learn_version : Session → Option ℤ → Session
learn_version s none = s
learn_version s (some n) = record s { peer_version = byte_of n }

unfoldable pub on_server_settings : Receiver → Bytes → Bytes → Recv
on_server_settings v text rest =
    if v.session.is_client
    then goes_on
        (with_session v
          (learn_version v.session (parse_int (text_or_empty key_v (string_map_from_bytes text)))))
        rest
    else goes_on v rest

unfoldable pub on_update_padding_scheme : Env → Receiver → Bytes → Bytes → Recv
on_update_padding_scheme env v text rest =
    if v.session.is_client && not env.client_debug_padding_scheme
    then goes_on
        (with_session v
          (record (v.session) { padding = (update_padding_scheme env v.session.padding text).0 }))
        rest
    else goes_on v rest

-- Read the payload that a header announces; `k` goes on with it and the input behind it.
abbrev pub with_payload : Receiver → Result (Bytes × Bytes) → (Bytes → Bytes → Recv) → Recv
with_payload v (err e) k = stops v (some e)
with_payload v (ok (text, rest)) k = k text rest

-- A frame with no payload asks for no bytes and does nothing more.
unfoldable pub payload_or_skip : Receiver → ℕ → Bytes → (Bytes → Bytes → Recv) → Recv
payload_or_skip v len input k =
    if ltb 0 len then with_payload v (read_full len input) k else goes_on v input

-- The `switch` on the command.
unfoldable pub dispatch : Env → Receiver → ℕ → ℕ → ℕ → Bytes → Recv
dispatch env v cmd sid len input =
    if cmd == cmd_psh
    then payload_or_skip v len input (deliver v (lookup sid v.session.streams))
    else if cmd == cmd_syn
    then on_syn env v sid input
    else if cmd == cmd_syn_ack
    then (let w = with_session v (stop_syn_watch v.session) in
        payload_or_skip w len input (refuse_stream env w (lookup sid w.session.streams)))
    else if cmd == cmd_fin
    then goes_on (with_session v (finish_stream v.session sid (lookup sid v.session.streams))) input
    else if cmd == cmd_waste
    then payload_or_skip v len input (λ _ rest. goes_on v rest)
    else if cmd == cmd_settings
    then payload_or_skip v len input (on_settings env v)
    else if cmd == cmd_alert
    then payload_or_skip v len input (λ _ rest. stops v none)
    else if cmd == cmd_update_padding_scheme
    then payload_or_skip v len input (on_update_padding_scheme env v)
    else if cmd == cmd_heart_request
    then after_frame v (write_control_frame env v.session (new_frame cmd_heart_response sid))
        (λ w. goes_on w input)
    else if cmd == cmd_server_settings
    then payload_or_skip v len input (on_server_settings v)
    else goes_on v input

abbrev pub dispatch_header : Env → Receiver → Result (Bytes × Bytes) → Recv
dispatch_header env v (err e) = stops v (some e)
dispatch_header env v (ok (hdr, rest)) =
    dispatch env v (header_cmd hdr) (header_stream_id hdr) (header_length hdr) rest

-- One round of the loop.
unfoldable pub recv_step : Env → Receiver → Bytes → Recv
recv_step env v input = dispatch_header env v (read_full header_over_head_size input)

abbrev pub next_frame : (Receiver → Bytes → Recv) → Recv → Recv
next_frame k (goes_on v rest) = k v rest
next_frame k (stops v e) = stops v e
next_frame k (stalls v r left rest) = stalls v r left rest
next_frame k (panics v) = panics v

-- The loop; each round takes the seven bytes of a header at least.
unfoldable pub recv_rounds : Env → ℕ → Receiver → Bytes → Recv
recv_rounds env zero v input = goes_on v input
recv_rounds env (suc n) v input = next_frame (recv_rounds env n) (recv_step env v input)

-- The deferred `Close`, on a return and on a panic.
abbrev pub close_at_end : Recv → Recv
close_at_end (stops v e) = stops (with_session v (close_session v.session).0) e
close_at_end (panics v) = stops (with_session v (close_session v.session).0) none
close_at_end (goes_on v rest) = goes_on v rest
close_at_end (stalls v r left rest) = stalls v r left rest

-- `recvLoop`
unfoldable pub recv_loop : Env → Receiver → Bytes → Recv
recv_loop env v input = close_at_end (recv_rounds env (suc (length input)) v input)
