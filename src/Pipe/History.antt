-- ===== src/Pipe/History.antt =====
-- Any sequence of calls on a pipe, by its reader, its writer and the clock.
use server_anytls.Prelude.{
  ℕ, ◌*◌, ◌≤◌, ◌≡◌, refl, sym, ap, ◌∙◌, Bool, List, [], ◌∷◌, ◌++◌, Option, none, some, Bytes,
  length, take, arith, append_assoc, Error,
}
use server_anytls.Deadline.{PipeDeadline, advance}
use server_anytls.Pipe.{
  Pipe, new_pipe, contents, read, write, close_read, close_write, set_read_deadline,
  set_write_deadline, ReadOutcome, got, read_failed, read_waits, default_buf_size,
}
use server_anytls.Pipe.Buffer.{
  IsBounded, read-IsBounded, write-IsBounded, read-max_buf, write-max_buf, length-buf-le,
}
use server_anytls.Pipe.Fifo.{ReadsFrom, read-ReadsFrom, write-WritesTo}

-- A call that waits is one call here; its goroutine calls again when it wakes.
pub data Call : Type 0 where
  reads : ℕ → Call
  writes : Bool → Bytes → Call
  closes_read : Option Error → Call
  closes_write : Option Error → Call
  sets_read_deadline : Option ℕ → ℕ → Call
  sets_write_deadline : Option ℕ → ℕ → Call
  ticks : ℕ → Call

-- The pipe, all bytes that its writers have been told are taken, and all that readers have got.
pub record Run : Type 0 where
  pub pipe : Pipe
  pub taken : Bytes
  pub given : Bytes

abbrev pub received : ReadOutcome → Bytes
received (got b) = b
received (read_failed e) = []
received read_waits = []

abbrev moved_on : PipeDeadline → Option PipeDeadline → PipeDeadline
moved_on d none = d
moved_on d (some e) = e

tick : Pipe → ℕ → Pipe
tick p now = record p {
  read_deadline = moved_on p.read_deadline (advance p.read_deadline now);
  write_deadline = moved_on p.write_deadline (advance p.write_deadline now);
}

pub step : Run → Call → Run
step r (reads room) =
    let q = read r.pipe room in record r { pipe = q.0; given = r.given ++ received q.1 }
step r (writes f b) =
    let q = write f r.pipe b in record r { pipe = q.0; taken = r.taken ++ take q.1 b }
step r (closes_read e) = record r { pipe = close_read r.pipe e }
step r (closes_write e) = record r { pipe = close_write r.pipe e }
step r (sets_read_deadline t now) = record r { pipe = (set_read_deadline r.pipe t now).0 }
step r (sets_write_deadline t now) = record r { pipe = (set_write_deadline r.pipe t now).0 }
step r (ticks now) = record r { pipe = tick r.pipe now }

pub run : Run → List Call → Run
run r [] = r
run r (c ∷ cs) = run (step r c) cs

abbrev pub start : Run
start = record { pipe = new_pipe; taken = []; given = [] }

record Inv (r : Run) : Type 0 where
  bounded : IsBounded r.pipe
  conserved : r.taken ≡ r.given ++ contents r.pipe
  sized : r.pipe.max_buf ≡ default_buf_size

contents-read :
    (p : Pipe) (room : ℕ) (r : Pipe × ReadOutcome)
    → ReadsFrom p room r
    → contents p ≡ received r.1 ++ contents r.0
contents-read p room (q, got b) h = h.0
contents-read p room (q, read_failed e) h = sym h
contents-read p room (q, read_waits) h = sym h.0

step-Inv : (r : Run) (c : Call) → Inv r → Inv (step r c)
unfolding step
step-Inv r (reads room) v = record {
  bounded = read-IsBounded r.pipe room v.bounded;
  conserved =
      v.conserved
      ∙ ap (◌++◌ r.given)
          (contents-read r.pipe room (read r.pipe room) (read-ReadsFrom r.pipe room v.bounded))
      ∙ sym (append_assoc r.given _ _);
  sized = read-max_buf r.pipe room ∙ v.sized;
}
step-Inv r (writes f b) v = record {
  bounded = write-IsBounded f r.pipe b v.bounded;
  conserved =
      ap (λ t. t ++ take (write f r.pipe b).1 b) v.conserved
      ∙ append_assoc r.given (contents r.pipe) _
      ∙ ap (◌++◌ r.given) (sym (write-WritesTo f r.pipe b v.bounded).0);
  sized = write-max_buf f r.pipe b ∙ v.sized;
}
step-Inv r (closes_read e) v = unfold close_read in ground arith
step-Inv r (closes_write e) v = unfold close_write in ground arith
step-Inv r (sets_read_deadline t now) v = unfold set_read_deadline in ground arith
step-Inv r (sets_write_deadline t now) v = unfold set_write_deadline in ground arith
step-Inv r (ticks now) v = unfold tick in ground arith

run-Inv : (r : Run) (cs : List Call) → Inv r → Inv (run r cs)
unfolding run
run-Inv r [] v = v
run-Inv r (c ∷ cs) v = run-Inv (step r c) cs (step-Inv r c v)

start-Inv : Inv start
unfolding new_pipe
start-Inv = record { bounded = omega arith; conserved = refl; sized = refl }

-- After any calls on a new pipe, the bytes taken from writers are the bytes given to readers
-- followed by those still in the buffer, and the buffer's slice is within 384 KiB.
pub run_conserves :
    (cs : List Call)
    → ((run start cs).taken ≡ (run start cs).given ++ contents (run start cs).pipe)
      × (length (run start cs).pipe.buf ≤ 384 * 1024)
run_conserves cs =
    let v = run-Inv start cs start-Inv in
    (v.conserved, omega (arith, length-buf-le (run start cs).pipe v.bounded, v.sized))
