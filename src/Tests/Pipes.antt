-- ===== src/Tests/Pipes.antt =====
-- The pipe and its deadlines on concrete inputs.
use server_anytls.Prelude.{
  ◌≡◌, refl, ◌≤◌, true, false, List, [], ◌∷◌, ◌++◌, none, some, codes, arith, length, ◌*◌,
}
use server_anytls.Deadline.{PipeDeadline, armed, make_pipe_deadline, set_deadline, set_channel}
use server_anytls.Pipe.{
  Pipe, new_pipe, read, write, contents, append_some, consume_locked, compact, close_write,
}
use server_anytls.Pipe.Buffer.{IsBounded}
use server_anytls.Pipe.Fifo.{ReadsFrom, WritesTo, read-ReadsFrom, write-WritesTo}
use server_anytls.Pipe.Wakeups
use server_anytls.Pipe.Wakeups.{
  Move, Pick, token, closing, reading, returned, finished, interleave, move, reader_step,
  writer_step,
}
use server_anytls.Pipe.Wakeups.Ordered.{
  IsOrdered, record_move, record_moves, new_ledger, record_moves-IsOrdered,
}
use server_anytls.Pipe.Wakeups.Kept.{IsAwake, interleave-IsAwake}
use server_anytls.Pipe.History.{Call, reads, writes, closes_write, ticks, run, start, run_conserves}

-- A pipe of eight bytes with three left to read.
abbrev small : Pipe
unfolding new_pipe make_pipe_deadline
small = record new_pipe { buf = codes "abcde"; off = 2; max_buf = 8 }

small-IsBounded : IsBounded small
unfolding small
small-IsBounded = record { within = omega arith; compact = omega arith; unread = omega arith }

abbrev calls : List Call
calls =
    writes false (codes "hello")
    ∷ reads 2
    ∷ closes_write none
    ∷ writes true (codes "x")
    ∷ ticks 4
    ∷ reads 9
    ∷ []

read-ReadsFrom_example : ReadsFrom small 2 (read small 2)
read-ReadsFrom_example = read-ReadsFrom small 2 small-IsBounded

write-WritesTo_example :
    WritesTo small (codes "0123456789") (write false small (codes "0123456789"))
write-WritesTo_example = write-WritesTo false small (codes "0123456789") small-IsBounded

run_conserves_example :
    ((run start calls).taken ≡ (run start calls).given ++ contents (run start calls).pipe)
    × (length (run start calls).pipe.buf ≤ 384 * 1024)
run_conserves_example = run_conserves calls

abbrev set_at_ten : PipeDeadline
set_at_ten = record { timer = armed 10; cancelled = false }

set_deadline-ten : set_deadline make_pipe_deadline (some 10) 4 ≡ some set_at_ten
unfolding set_deadline set_channel make_pipe_deadline
set_deadline-ten = refl

-- The reader parks, the writer puts three bytes and closes, and the reader drains the buffer.
abbrev moves : List Move
moves =
    Move.reads 2 token
    ∷ Move.writes [] token
    ∷ Move.writes [] token
    ∷ Move.writes (codes "abc") token
    ∷ Move.writes [] token
    ∷ Move.writes [] token
    ∷ Move.writes [] token
    ∷ Move.writes [] token
    ∷ Move.closes_write none
    ∷ Move.reads 2 closing
    ∷ Move.reads 2 token
    ∷ []

interleave-IsAwake_example :
    IsAwake
      (interleave Wakeups.start moves).pipe
      (interleave Wakeups.start moves).reader
      (interleave Wakeups.start moves).writer
interleave-IsAwake_example = interleave-IsAwake moves

record_moves-IsOrdered_example : IsOrdered (record_moves new_ledger moves)
record_moves-IsOrdered_example = record_moves-IsOrdered moves

moves-reported :
    ((record_moves new_ledger moves).accepted ≡ codes "abc")
    × ((record_moves new_ledger moves).given ≡ codes "ab")
unfolding record_moves record_move move reader_step writer_step append_some consume_locked compact
    close_write new_pipe make_pipe_deadline
moves-reported = (refl, refl)
