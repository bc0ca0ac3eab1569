-- ===== src/Pipe/Wakeups.antt =====
-- io_pipe.go, the signals between a reader and a writer that run at the same time, with `Close` of
-- either side in between. Each step is what a goroutine does under the lock, or one operation on a
-- channel, so they interleave at every point where they can in the source. Deadlines, which wake
-- both, are left out.
pub mod Kept
pub mod Ordered
use server_anytls.Prelude.{
  ℕ, ◌+◌, ◌-◌, ◌*◌, ◌≤◌, ◌<◌, ◌≡◌, refl, Bool, true, false, not, ◌&&◌, ◌||◌, List, [], ◌∷◌, ◌++◌,
  Bytes, length, take, drop, min, ltb, if◌then◌else◌, Option, none, some, Error,
}
use server_anytls.Pipe.{
  Pipe, new_pipe, buf_len, consume_locked, append_some, rest_of, wake_reader, wake_writer,
  ReadOutcome, got, read_failed, read_close_error, write_close_error, close_read, close_write,
}

-- Where the reader is: about to lock the pipe, about to send on `spaceReady` with the bytes it has
-- copied, in the `select`, about to lock the pipe behind `done`, or back from the call.
pub data Reader : Type 0 where
  reading parked draining : Reader
  signalling : Bytes → Reader
  returned : ReadOutcome → Reader

-- Where the writer is: at the first `select`, about to lock the pipe, about to send on `dataReady`,
-- in the `select` for space, or back from the call. The number counts the bytes written.
pub data Writer : Type 0 where
  polling : Bytes → Writer
  writing announcing waiting : ℕ → Bytes → Writer
  finished : ℕ → Option Error → Writer

pub record Meeting : Type 0 where
  pub pipe : Pipe
  pub reader : Reader
  pub writer : Writer

-- What a `select` takes if it is ready: the token of its channel, or `done`.
pub data Pick : Type 0 where
  token closing : Pick

abbrev pub signal_copied : Pipe × Bytes → Pipe × Reader
signal_copied (p, b) = (p, signalling b)

abbrev pub return_copied : Pipe × Bytes → Pipe × Reader
return_copied (p, b) = (p, returned (got b))

abbrev pub take_or_park : Pipe → ℕ → Pipe × Reader
take_or_park p room =
    if ltb 0 (buf_len p)
    then signal_copied (consume_locked p room)
    else if p.done
    then (p, returned (read_failed (read_close_error p)))
    else (p, parked)

abbrev pub drain : Pipe → ℕ → Pipe × Reader
drain p room =
    if ltb 0 (buf_len p)
    then return_copied (consume_locked p room)
    else (p, returned (read_failed (read_close_error p)))

abbrev pub wake_if_ready : Pipe → Pick → Pipe × Reader
wake_if_ready p token =
    if p.data_ready then (record p { data_ready = false }, reading) else (p, parked)
wake_if_ready p closing = if p.done then (p, draining) else (p, parked)

-- One step of `read` with a slice of `room` bytes; a read that has returned is called again.
unfoldable pub reader_step : Pipe → ℕ → Pick → Reader → Pipe × Reader
reader_step p room pick reading = take_or_park p room
reader_step p room pick (signalling b) = (wake_writer p, returned (got b))
reader_step p room pick parked = wake_if_ready p pick
reader_step p room pick draining = drain p room
reader_step p room pick (returned o) = (p, reading)

-- The bytes that fit, before the reader is woken.
abbrev pub put_some : Pipe → Bytes → Pipe
put_some p b = record (append_some p b) { data_ready = p.data_ready }

abbrev pub put_or_wait : Pipe → ℕ → Bytes → Pipe × Writer
put_or_wait p n b =
    if ltb (buf_len p) p.max_buf
    then (put_some p b, announcing (n + min (length b) (p.max_buf - buf_len p)) (rest_of p b))
    else if p.done
    then (p, finished n (some (write_close_error p)))
    else (p, waiting n b)

abbrev pub go_on_if_space : Pipe → ℕ → Bytes → Pick → Pipe × Writer
go_on_if_space p n b token =
    if p.space_ready then (record p { space_ready = false }, writing n b) else (p, waiting n b)
go_on_if_space p n b closing =
    if p.done then (p, finished n (some (write_close_error p))) else (p, waiting n b)

-- One step of `write`; one that has returned is called again with `next`.
unfoldable pub writer_step : Pipe → Bytes → Pick → Writer → Pipe × Writer
writer_step p next pick (polling b) =
    if p.done then (p, finished 0 (some (write_close_error p))) else (p, writing 0 b)
writer_step p next pick (writing n []) = (p, finished n none)
writer_step p next pick (writing n (c ∷ b)) = put_or_wait p n (c ∷ b)
writer_step p next pick (announcing n b) = (wake_reader p, writing n b)
writer_step p next pick (waiting n b) = go_on_if_space p n b pick
writer_step p next pick (finished n e) = (p, polling next)

-- Who moves. A close is one step: the token that it sends behind `close(done)` changes nothing for a
-- side that `done` has woken.
pub data Move : Type 0 where
  reads : ℕ → Pick → Move
  writes : Bytes → Pick → Move
  closes_read closes_write : Option Error → Move

abbrev reader_moved : Meeting → Pipe × Reader → Meeting
reader_moved m (p, r) = record m { pipe = p; reader = r }

abbrev writer_moved : Meeting → Pipe × Writer → Meeting
writer_moved m (p, w) = record m { pipe = p; writer = w }

unfoldable pub move : Meeting → Move → Meeting
move m (reads room pick) = reader_moved m (reader_step m.pipe room pick m.reader)
move m (writes next pick) = writer_moved m (writer_step m.pipe next pick m.writer)
move m (closes_read e) = record m { pipe = close_read m.pipe e }
move m (closes_write e) = record m { pipe = close_write m.pipe e }

unfoldable pub interleave : Meeting → List Move → Meeting
interleave m [] = m
interleave m (x ∷ xs) = interleave (move m x) xs

abbrev pub start : Meeting
start = record { pipe = new_pipe; reader = reading; writer = polling [] }

abbrev pub is_parked : Reader → Bool
is_parked parked = true
is_parked _ = false

abbrev pub is_signalling : Reader → Bool
is_signalling (signalling b) = true
is_signalling _ = false

abbrev pub is_draining : Reader → Bool
is_draining draining = true
is_draining _ = false

abbrev pub is_waiting : Writer → Bool
is_waiting (waiting n b) = true
is_waiting _ = false

abbrev pub is_announcing : Writer → Bool
is_announcing (announcing n b) = true
is_announcing _ = false
