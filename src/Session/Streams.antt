-- ===== src/Session/Streams.antt =====
-- session.go and stream.go: closing, control and data frames, opening streams, and the methods of
-- a stream. A stream is named by its place in the session's heap.
use server_anytls.Prelude.{
  ℕ, zero, suc, ◌-◌, Bool, true, false, [], ◌∷◌, Option, none, some, Bytes, Error, closed_pipe,
  net_closed, length, take, drop, if◌then◌else◌, nat_eq,
}
use server_anytls.Prelude.Maps.{Map, delete}
use server_anytls.Env.{Env}
use server_anytls.Wire.{Frame, new_frame, frame_bytes, cmd_fin, cmd_psh, header_over_head_size}
use server_anytls.Pipe.{close_read}
use server_anytls.Session.State.{
  Session, Stream, WriteResult, wrote, failed, panicked, Effect, session_hook, stream_hook, emit,
  get_elem?, set,
}
use server_anytls.Session.Send.{write_conn_locked, write_conn_with_deadline}

-- What `dieOnce` runs: the error is set and the read side of the pipe is closed.
abbrev pub die_with : Stream → Error → Stream
die_with st e = record st { died = true; die_err = some e; pipe = close_read st.pipe none }

abbrev pub put : Session → ℕ → Stream → Session
put s r st = record s { heap = set s.heap r st }

abbrev pub emit_if : Bool → Session → Effect → Session
emit_if b s e = if b then emit s e else s

-- `closeLocally`, which also forgets the hook.
abbrev pub close_stream_locally : Session → ℕ → Option Stream → Session
close_stream_locally s r none = s
close_stream_locally s r (some st) =
    if st.died
    then s
    else emit_if st.die_hook (put s r (record (die_with st net_closed) { die_hook = false }))
        (stream_hook r)

unfoldable pub close_locally : Session → ℕ → Session
close_locally s r = close_stream_locally s r (get_elem? s.heap r)

-- The loop of `Close` over the registered streams.
unfoldable pub close_all : Session → Map ℕ ℕ → Session
close_all s [] = s
close_all s ((sid, r) ∷ rest) = close_all (close_locally s r) rest

abbrev pub run_die_hook : Session → Session
run_die_hook s = if s.die_hook then record (emit s session_hook) { die_hook = false } else s

abbrev pub close_conn : Session → Session
close_conn s = record s { conn = record (s.conn) { closed = true } }

-- `Session.Close`
unfoldable pub close_session : Session → Session × Option Error
close_session s =
    if s.dead
    then (s, some closed_pipe)
    else (let t = run_die_hook (record s { dead = true }) in
        (close_conn (record (close_all t t.streams) { streams = [] }), s.conn.close_error))

-- A failed control frame closes the session.
abbrev pub close_on_error : ℕ → Session × WriteResult → Session × WriteResult
close_on_error n (s, wrote m) = (s, wrote n)
close_on_error n (s, failed e) = ((close_session s).0, failed e)
close_on_error n (s, panicked) = (s, panicked)

-- `writeControlFrame`
unfoldable pub write_control_frame : Env → Session → Frame → Session × WriteResult
write_control_frame env s f =
    close_on_error (length f.payload) (write_conn_with_deadline env s (frame_bytes f))

abbrev pub error_of : WriteResult → Option Error
error_of (wrote n) = none
error_of (failed e) = some e
error_of panicked = none

abbrev pub unregister : ℕ → Session × WriteResult → Session × WriteResult
unregister sid (s, panicked) = (s, panicked)
unregister sid (s, r) = (record s { streams = delete sid s.streams }, r)

-- `streamClosed`; a panic is passed on.
unfoldable pub stream_closed : Env → Session → ℕ → Session × WriteResult
stream_closed env s sid =
    if s.dead
    then (s, failed closed_pipe)
    else unregister sid (write_control_frame env s (new_frame cmd_fin sid))

abbrev die_result : Option Error → WriteResult
die_result none = wrote 0
die_result (some e) = failed e

-- `closeWithError`; `Close` of a stream is this with `io.ErrClosedPipe`. Its hook stays set.
abbrev pub close_stream_with : Env → Session → ℕ → Error → Option Stream → Session × WriteResult
close_stream_with env s r e none = (s, wrote 0)
close_stream_with env s r e (some st) =
    if st.died
    then (s, die_result st.die_err)
    else stream_closed env (emit_if st.die_hook (put s r (die_with st e)) (stream_hook r)) st.id

unfoldable pub close_with_error : Env → Session → ℕ → Error → Session × WriteResult
close_with_error env s r e = close_stream_with env s r e (get_elem? s.heap r)

unfoldable pub close_stream : Env → Session → ℕ → Session × WriteResult
close_stream env s r = close_with_error env s r closed_pipe

abbrev pub max_frame_payload : ℕ
max_frame_payload = 65536 - header_over_head_size

abbrev pub data_frame : ℕ → Bytes → Frame
data_frame sid chunk = record { cmd = cmd_psh; sid = sid; payload = chunk }

-- `return 0, err` on an error, the total at the end, and else the next chunk.
abbrev pub next_chunk :
    (Session → Session × WriteResult) → Session × WriteResult → Session × WriteResult
next_chunk k (s, wrote n) = k s
next_chunk k (s, failed e) = (s, failed e)
next_chunk k (s, panicked) = (s, panicked)

-- The loop of `writeDataFrame`, a chunk in each round: more rounds than bytes are enough. Without
-- rounds left the rest of the data is dropped.
unfoldable pub write_chunks : Env → ℕ → Session → ℕ → Bytes → ℕ → Session × WriteResult
write_chunks env zero s sid b total = (s, wrote total)
write_chunks env (suc rounds) s sid [] total = (s, wrote total)
write_chunks env (suc rounds) s sid (c ∷ b) total =
    next_chunk (λ t. write_chunks env rounds t sid (drop max_frame_payload (c ∷ b)) total)
      (write_conn_locked env s (frame_bytes (data_frame sid (take max_frame_payload (c ∷ b)))))

-- `writeDataFrame`
unfoldable pub write_data_frame : Env → Session → ℕ → Bytes → Session × WriteResult
write_data_frame env s sid b = write_chunks env (length b) s sid b (length b)
