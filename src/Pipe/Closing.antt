-- ===== src/Pipe/Closing.antt =====
-- What the other side sees once one side of the pipe is closed.
use server_anytls.Prelude.{
  ℕ, ◌≡◌, Bool, false, Option, none, Bytes, take, arith, Error, closed_pipe, eof, ltb,
  if◌then◌else◌,
}
use server_anytls.Deadline.{is_expired}
use server_anytls.Pipe.{
  Pipe, contents, buf_len, read, write, close_read, close_write, consume_locked, got, read_failed,
  write_failed, error_or, read_close_error, write_close_error,
}

-- After the writer closes the pipe, a reader first gets all that is in the buffer, and then the
-- writer's error, which is `io.EOF` if none was given.
pub read-close_write :
    (p : Pipe) (e : Option Error) (room : ℕ)
    → p.rerr ≡ none
    → p.werr ≡ none
    → is_expired p.read_deadline ≡ false
    → (read (close_write p e) room).1
      ≡ (if ltb 0 (buf_len p) then got (take room (contents p)) else read_failed (error_or e eof))
unfolding read close_write consume_locked read_close_error
read-close_write p e room r w d = ground arith

-- After the reader closes the pipe, a write takes nothing and fails with the reader's error, which
-- is `io.ErrClosedPipe` if none was given.
pub write-close_read :
    (deadline_first : Bool) (p : Pipe) (e : Option Error) (b : Bytes)
    → p.rerr ≡ none
    → p.werr ≡ none
    → is_expired p.write_deadline ≡ false
    → write deadline_first (close_read p e) b
      ≡ (close_read p e, 0, write_failed (error_or e closed_pipe))
unfolding write close_read write_close_error
write-close_read f p e b r w d = ground arith

-- Closing a side of the pipe again, with whatever error, changes nothing: the first error stays.
pub close_again :
    (p : Pipe) (d e : Option Error)
    → ((close_read (close_read p d) e) ≡ close_read p d)
      × ((close_write (close_write p d) e) ≡ close_write p d)
unfolding close_read close_write
close_again p d e = ground arith
