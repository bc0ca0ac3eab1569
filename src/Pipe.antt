-- ===== src/Pipe.antt =====
-- internal/pkg/proxy/pipe/io_pipe.go: the buffered pipe of a stream. Each operation is run up to
-- the point where it returns or blocks; `waits` is a goroutine parked in the `select`.
pub mod Buffer
pub mod Fifo
pub mod Closing
pub mod History
pub mod Wakeups
use server_anytls.Prelude.{
  ℕ, zero, suc, ◌+◌, ◌-◌, ◌/◌, ◌*◌, ◌≤◌, ◌<◌, min, Bool, true, false, ◌&&◌, ◌||◌, not, List, [],
  ◌∷◌, ◌++◌, Option, none, some, Bytes, length, take, drop, ltb, leb, ◌==◌, if◌then◌else◌, Error,
  closed_pipe, eof, deadline_exceeded,
}
use server_anytls.Deadline.{PipeDeadline, make_pipe_deadline, is_expired, set_deadline}

abbrev pub default_buf_size : ℕ
default_buf_size = 256 * 1024

pub record Pipe : Type 0 where
  pub buf : Bytes
  pub off : ℕ
  pub done : Bool  -- the channel `done` is closed
  pub data_ready : Bool  -- the channel `dataReady` holds its one token
  pub space_ready : Bool
  pub rerr : Option Error
  pub werr : Option Error
  pub read_deadline : PipeDeadline
  pub write_deadline : PipeDeadline
  pub max_buf : ℕ

-- `Pipe()`; the reader and the writer share it.
unfoldable pub new_pipe : Pipe
unfolding make_pipe_deadline
new_pipe = record {
  buf = [];
  off = 0;
  done = false;
  data_ready = false;
  space_ready = false;
  rerr = none;
  werr = none;
  read_deadline = make_pipe_deadline;
  write_deadline = make_pipe_deadline;
  max_buf = default_buf_size;
}

-- `onceError.Store`: the first error stays.
abbrev pub store_once : Option Error → Error → Option Error
store_once none e = some e
store_once (some old) e = some old

abbrev pub wake_reader : Pipe → Pipe
wake_reader p = record p { data_ready = true }

abbrev pub wake_writer : Pipe → Pipe
wake_writer p = record p { space_ready = true }

abbrev pub buf_len : Pipe → ℕ
buf_len p = length p.buf - p.off

-- The unread bytes.
abbrev pub contents : Pipe → Bytes
contents p = drop p.off p.buf

-- The buffer once the offset is `off`: reset, shifted to the front, or left where it is.
unfoldable pub compact : Pipe → ℕ → Pipe
compact p off =
    if off == length p.buf
    then record p { buf = []; off = 0 }
    else if ltb (p.max_buf / 2) off
    then record p { buf = drop off p.buf; off = 0 }
    else record p { off = off }

-- `consumeLocked` for a reader's slice of `room` bytes: the pipe left and the bytes copied.
unfoldable pub consume_locked : Pipe → ℕ → Pipe × Bytes
consume_locked p room =
    let copied = take room (drop p.off p.buf) in (compact p (p.off + length copied), copied)

pub data ReadOutcome : Type 0 where
  got : Bytes → ReadOutcome
  read_failed : Error → ReadOutcome
  read_waits : ReadOutcome

abbrev pub close_error : Option Error → Option Error → Error
close_error none (some other) = other
close_error _ _ = closed_pipe

unfoldable pub read_close_error : Pipe → Error
read_close_error p = close_error p.rerr p.werr

unfoldable pub write_close_error : Pipe → Error
write_close_error p = close_error p.werr p.rerr

-- One round of `read` up to the second `select`. A token found there only starts another round,
-- which sees the same buffer, so `read_waits` leaves the channel empty.
unfoldable pub read : Pipe → ℕ → Pipe × ReadOutcome
read p room =
    if is_expired p.read_deadline
    then (p, read_failed deadline_exceeded)
    else if ltb 0 (buf_len p)
    then (let (q, copied) = consume_locked p room in (wake_writer q, got copied))
    else if p.done
    then (p, read_failed (read_close_error p))
    else (record p { data_ready = false }, read_waits)

-- `waits rest`: parked with `rest` still to write. `out_of_rounds` is no outcome of the program.
pub data WriteOutcome : Type 0 where
  completed : WriteOutcome
  write_failed : Error → WriteOutcome
  write_waits : Bytes → WriteOutcome
  out_of_rounds : WriteOutcome

-- The bytes that fit, appended under the lock, and the reader woken.
unfoldable pub append_some : Pipe → Bytes → Pipe
append_some p b =
    wake_reader (record p { buf = p.buf ++ take (min (length b) (p.max_buf - buf_len p)) b })

abbrev pub rest_of : Pipe → Bytes → Bytes
rest_of p b = drop (min (length b) (p.max_buf - buf_len p)) b

-- The full buffer: return if the pipe is closed, else wait.
abbrev pub full_branch : Pipe → Bytes → ℕ → Pipe × ℕ × WriteOutcome
full_branch p b n =
    if p.done
    then (p, n, write_failed (write_close_error p))
    else (record p { space_ready = false }, n, write_waits b)

-- The `for len(b) > 0` loop; `n` counts the bytes taken. Three rounds are enough.
unfoldable pub write_loop : ℕ → Pipe → Bytes → ℕ → Pipe × ℕ × WriteOutcome
write_loop zero p b n = (p, n, out_of_rounds)
write_loop (suc fuel) p [] n = (p, n, completed)
write_loop (suc fuel) p (c ∷ b) n =
    let again =
      write_loop fuel (append_some p (c ∷ b)) (rest_of p (c ∷ b))
        (n + min (length (c ∷ b)) (p.max_buf - buf_len p)) in
    if ltb (buf_len p) p.max_buf then again else full_branch p (c ∷ b) n

-- `write`. Where the pipe is closed and the deadline is past, `select` picks one: `deadline_first`.
unfoldable pub write : Bool → Pipe → Bytes → Pipe × ℕ × WriteOutcome
write deadline_first p b =
    if is_expired p.write_deadline && (deadline_first || not p.done)
    then (p, 0, write_failed deadline_exceeded)
    else if p.done
    then (p, 0, write_failed (write_close_error p))
    else write_loop 3 p b 0

abbrev pub error_or : Option Error → Error → Error
error_or none e = e
error_or (some e) d = e

-- `closeRead(err)` and `closeWrite(err)`; a nil error is `none`.
unfoldable pub close_read : Pipe → Option Error → Pipe
close_read p e =
    wake_writer (record p { rerr = store_once p.rerr (error_or e closed_pipe); done = true })

unfoldable pub close_write : Pipe → Option Error → Pipe
close_write p e = wake_reader (record p { werr = store_once p.werr (error_or e eof); done = true })

abbrev with_read_deadline : Pipe → Option PipeDeadline → Pipe × Option Error
with_read_deadline p none = (p, none)
with_read_deadline p (some d) = (record p { read_deadline = d }, none)

abbrev with_write_deadline : Pipe → Option PipeDeadline → Pipe × Option Error
with_write_deadline p none = (p, none)
with_write_deadline p (some d) = (record p { write_deadline = d }, none)

-- `SetReadDeadline` and `SetWriteDeadline`; `Set` does not panic, see `Deadline.Timing`.
unfoldable pub set_read_deadline : Pipe → Option ℕ → ℕ → Pipe × Option Error
set_read_deadline p t now =
    if p.done
    then (p, some closed_pipe)
    else with_read_deadline p (set_deadline p.read_deadline t now)

unfoldable pub set_write_deadline : Pipe → Option ℕ → ℕ → Pipe × Option Error
set_write_deadline p t now =
    if p.done
    then (p, some closed_pipe)
    else with_write_deadline p (set_deadline p.write_deadline t now)
