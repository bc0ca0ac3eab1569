-- ===== src/Session/Calls.antt =====
-- The calls that users of a session make: `Run` of a client, `OpenStream`, and the methods of a
-- stream.
use server_anytls.Prelude.{
  ℕ, ◌+◌, ◌%◌, ◌^◌, Bool, true, false, ◌&&◌, [], ◌∷◌, Option, none, some, Bytes, codes, Error,
  closed_pipe, deadline_exceeded, leb, length, ◌++◌, if◌then◌else◌, nat_eq,
}
use server_anytls.Prelude.Maps.{insert}
use server_anytls.Env.{Env}
use server_anytls.Wire.{new_frame, cmd_syn, cmd_syn_ack, cmd_settings}
use server_anytls.Deadline.{PipeDeadline, set_deadline, is_expired}
use server_anytls.Padding.{PaddingFactory}
use server_anytls.Pipe.{set_read_deadline, Pipe, read, ReadOutcome, got, read_failed, read_waits}
use server_anytls.StringMap.{to_bytes}
use server_anytls.Session.State.{
  Session, Stream, WriteResult, wrote, failed, panicked, syn_done_called, syn_watch_started, emit,
  get_elem?, new_stream,
}
use server_anytls.Session.Streams.{put, write_control_frame, write_data_frame}

abbrev pub key_v : Bytes
key_v = codes "v"

abbrev pub key_padding_md5 : Bytes
key_padding_md5 = codes "padding-md5"

abbrev pub version_two : Bytes
version_two = codes "2"

-- `Run` of a client, up to the receive loop that it starts if the flag says so.
abbrev run_client_with : Env → Session → Option PaddingFactory → (Session × WriteResult) × Bool
run_client_with env s none = ((s, wrote 0), false)
run_client_with env s (some p) = (
  write_control_frame env (record s { buffering = true })
      (record {
        cmd = cmd_settings;
        sid = 0;
        payload = to_bytes env ((key_v, version_two) ∷ (key_padding_md5, p.md5) ∷ []);
      }),
  true,
)

unfoldable pub run_client : Env → Session → (Session × WriteResult) × Bool
run_client env s = run_client_with env s s.padding

-- The watcher on the last stream's SYN is done with, and one for this stream starts.
abbrev pub rearm_syn_watch : Session → Session
rearm_syn_watch s =
    emit (record (if s.syn_done then emit s syn_done_called else s) { syn_done = true })
      syn_watch_started

-- The place in the heap, or the error.
pub data OpenResult : Type 0 where
  opened : ℕ → OpenResult
  not_opened : Error → OpenResult
  open_panicked : OpenResult

abbrev pub register_stream : ℕ → ℕ → Session → Session × OpenResult
register_stream sid r s =
    if s.dead
    then (s, not_opened closed_pipe)
    else (record s { streams = insert sid r s.streams }, opened r)

abbrev pub after_syn : ℕ → ℕ → Session × WriteResult → Session × OpenResult
after_syn sid r (s, failed e) = (s, not_opened e)
after_syn sid r (s, panicked) = (s, open_panicked)
after_syn sid r (s, wrote n) = register_stream sid r (record s { buffering = false })

-- The new stream is in the heap from here on.
abbrev pub make_stream : Session → ℕ → Session
make_stream s sid = record s { stream_id = sid; heap = s.heap ++ (new_stream sid ∷ []) }

abbrev pub maybe_watch : ℕ → Session → Session
maybe_watch sid s = if leb 2 sid && leb 2 s.peer_version then rearm_syn_watch s else s

-- `OpenStream`
unfoldable pub open_stream : Env → Session → Session × OpenResult
open_stream env s =
    if s.dead
    then (s, not_opened closed_pipe)
    else (let sid = (s.stream_id + 1) % 2 ^ 32 in
        after_syn sid (length s.heap)
          (write_control_frame env (maybe_watch sid (make_stream s sid)) (new_frame cmd_syn sid)))

-- `Stream.Read`: with no byte read, the stream's own error comes first.
abbrev stream_error : Option Error → Error → Error
stream_error none e = e
stream_error (some d) e = d

abbrev pub with_die_err : Option Error → ReadOutcome → ReadOutcome
with_die_err d (got []) = (elim d [ none ↦ got [] | some e ↦ read_failed e ])
with_die_err d (got (b ∷ bs)) = got (b ∷ bs)
with_die_err d (read_failed e) = read_failed (stream_error d e)
with_die_err d read_waits = read_waits

abbrev pub put_pipe : Session → ℕ → Stream → Pipe × ReadOutcome → Session × ReadOutcome
put_pipe s r st (p, o) = (put s r (record st { pipe = p }), with_die_err st.die_err o)

abbrev pub stream_read_of : Session → ℕ → Option Stream → ℕ → Session × ReadOutcome
stream_read_of s r none room = (s, read_waits)
stream_read_of s r (some st) room = put_pipe s r st (read st.pipe room)

unfoldable pub stream_read : Session → ℕ → ℕ → Session × ReadOutcome
stream_read s r room = stream_read_of s r (get_elem? s.heap r) room

abbrev pub write_or_die : Env → Session → Stream → Option Error → Bytes → Session × WriteResult
write_or_die env s st (some e) b = (s, failed e)
write_or_die env s st none b = write_data_frame env s st.id b

abbrev pub stream_write_of : Env → Session → Option Stream → Bytes → Session × WriteResult
stream_write_of env s none b = (s, wrote 0)
stream_write_of env s (some st) b =
    if is_expired st.write_deadline
    then (s, failed deadline_exceeded)
    else write_or_die env s st st.die_err b

-- `Stream.Write`
unfoldable pub stream_write : Env → Session → ℕ → Bytes → Session × WriteResult
stream_write env s r b = stream_write_of env s (get_elem? s.heap r) b

-- `HandshakeSuccess` is this with no text, `HandshakeFailure` with the error's text. Only the first
-- report counts, and only a peer of version 2 is told.
abbrev pub report_of : Env → Session → ℕ → Option Stream → Bytes → Session × WriteResult
report_of env s r none text = (s, wrote 0)
report_of env s r (some st) text =
    let t = put s r (record st { reported = true }) in
    if st.reported
    then (s, wrote 0)
    else if leb 2 s.peer_version
    then write_control_frame env t (record { cmd = cmd_syn_ack; sid = st.id; payload = text })
    else (t, wrote 0)

unfoldable pub handshake_success : Env → Session → ℕ → Session × WriteResult
handshake_success env s r = report_of env s r (get_elem? s.heap r) []

abbrev pub mark_reported : Session → ℕ → Option Stream → Session
mark_reported s r none = s
mark_reported s r (some st) = put s r (record st { reported = true })

-- A nil error only uses up the report.
unfoldable pub handshake_failure : Env → Session → ℕ → Option Bytes → Session × WriteResult
handshake_failure env s r (some text) = report_of env s r (get_elem? s.heap r) text
handshake_failure env s r none = (mark_reported s r (get_elem? s.heap r), wrote 0)

abbrev pub put_read_deadline : Session → ℕ → Stream → Pipe × Option Error → Session × Option Error
put_read_deadline s r st (p, e) = (put s r (record st { pipe = p }), e)

abbrev pub set_read_deadline_of :
    Session → ℕ → Option Stream → Option ℕ → ℕ → Session × Option Error
set_read_deadline_of s r none t now = (s, none)
set_read_deadline_of s r (some st) t now =
    put_read_deadline s r st (set_read_deadline st.pipe t now)

-- `Stream.SetReadDeadline` at the time `now`.
unfoldable pub stream_set_read_deadline : Session → ℕ → Option ℕ → ℕ → Session × Option Error
stream_set_read_deadline s r t now = set_read_deadline_of s r (get_elem? s.heap r) t now

-- `Set` does not panic, see `Deadline.Timing`.
abbrev pub put_write_deadline : Session → ℕ → Stream → Option PipeDeadline → Session
put_write_deadline s r st none = s
put_write_deadline s r st (some d) = put s r (record st { write_deadline = d })

abbrev pub set_write_deadline_of : Session → ℕ → Option Stream → Option ℕ → ℕ → Session
set_write_deadline_of s r none t now = s
set_write_deadline_of s r (some st) t now =
    put_write_deadline s r st (set_deadline st.write_deadline t now)

-- `Stream.SetWriteDeadline`, which returns no error.
unfoldable pub stream_set_write_deadline : Session → ℕ → Option ℕ → ℕ → Session
stream_set_write_deadline s r t now = set_write_deadline_of s r (get_elem? s.heap r) t now

-- `Stream.SetDeadline`
unfoldable pub stream_set_deadline : Session → ℕ → Option ℕ → ℕ → Session × Option Error
stream_set_deadline s r t now =
    stream_set_read_deadline (stream_set_write_deadline s r t now) r t now
