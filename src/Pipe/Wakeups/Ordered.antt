-- ===== src/Pipe/Wakeups/Ordered.antt =====
-- What a reader and a writer that run at the same time are told by their calls.
use server_anytls.Prelude.{
  ℕ, ◌+◌, ◌-◌, ◌≡◌, refl, sym, ap, ◌∙◌, true, false, List, [], ◌∷◌, ◌++◌, Bytes, none, some, length,
  take, drop, min, ltb, if_elim, arith, append_assoc, append-nil, drop-drop, take-take-drop,
}
use server_anytls.Pipe.{
  Pipe, new_pipe, contents, buf_len, rest_of, close_read, close_write, write_close_error,
}
use server_anytls.Pipe.Buffer.{IsBounded, consume_locked-IsBounded, append_some-IsBounded}
use server_anytls.Pipe.Fifo.{consumed, contents-append_some}
use server_anytls.Pipe.History.{received}
use server_anytls.Pipe.Wakeups.{
  Reader, reading, signalling, parked, draining, returned, Writer, polling, writing, announcing,
  waiting, finished, Meeting, Pick, token, closing, reader_step, writer_step, put_some, Move, reads,
  writes, closes_read, closes_write, move, start,
}

-- A meeting, the slice of the writer's last call, the bytes that writes have reported to be written
-- and those that reads have returned.
pub record Ledger : Type 0 where
  pub meeting : Meeting
  pub slice : Bytes
  pub accepted : Bytes
  pub given : Bytes

-- What a call reports when it returns.
abbrev pub handed : Reader → Bytes
handed (returned o) = received o
handed _ = []

abbrev pub reported : Bytes → Writer → Bytes
reported s (finished n e) = take n s
reported s _ = []

abbrev pub slice_of : Bytes → Writer → Bytes
slice_of s (polling b) = b
slice_of s _ = s

abbrev reads_recorded : Ledger → Meeting → Ledger
reads_recorded l m = record l { meeting = m; given = l.given ++ handed m.reader }

abbrev writes_recorded : Ledger → Meeting → Ledger
writes_recorded l m = record {
  meeting = m;
  slice = slice_of l.slice m.writer;
  accepted = l.accepted ++ reported l.slice m.writer;
  given = l.given;
}

unfoldable pub record_move : Ledger → Move → Ledger
record_move l (reads room pick) = reads_recorded l (move l.meeting (reads room pick))
record_move l (writes next pick) = writes_recorded l (move l.meeting (writes next pick))
record_move l (closes_read e) = record l { meeting = move l.meeting (closes_read e) }
record_move l (closes_write e) = record l { meeting = move l.meeting (closes_write e) }

unfoldable pub record_moves : Ledger → List Move → Ledger
record_moves l [] = l
record_moves l (x ∷ xs) = record_moves (record_move l x) xs

abbrev pub new_ledger : Ledger
new_ledger = record { meeting = start; slice = []; accepted = []; given = [] }

-- Bytes that a read has copied and not returned, and bytes that a write has put and not reported.
abbrev pub in_hand : Reader → Bytes
in_hand (signalling b) = b
in_hand _ = []

abbrev pub in_flight : Bytes → Writer → Bytes
in_flight s (writing n b) = take n s
in_flight s (announcing n b) = take n s
in_flight s (waiting n b) = take n s
in_flight s (polling b) = []
in_flight s (finished n e) = []

abbrev IsRest : Bytes → ℕ → Bytes → Type 0
IsRest s n b = b ≡ drop n s

-- The writer is `n` bytes into its slice.
abbrev IsWithin : Bytes → Writer → Type 0
IsWithin s (polling b) = b ≡ s
IsWithin s (writing n b) = IsRest s n b
IsWithin s (announcing n b) = IsRest s n b
IsWithin s (waiting n b) = IsRest s n b
IsWithin s (finished n e) = Unit {0}

abbrev ReaderKeeps : Pipe → Reader → Pipe × Reader → Type 0
ReaderKeeps p r (q, s) =
    IsBounded q × (in_hand r ++ contents p ≡ handed s ++ (in_hand s ++ contents q))

reader_step-ReaderKeeps :
    (p : Pipe) (room : ℕ) (pick : Pick) (r : Reader)
    → IsBounded p
    → ReaderKeeps p r (reader_step p room pick r)
unfolding reader_step
reader_step-ReaderKeeps p room pick reading h =
    if_elim (ReaderKeeps p reading) (ltb 0 (buf_len p))
      (λ _. (consume_locked-IsBounded p room h, (consumed p room).0))
      (λ _. if_elim (ReaderKeeps p reading) p.done (λ _. (h, refl)) (λ _. (h, refl)))
reader_step-ReaderKeeps p room pick (signalling b) h = (omega (arith, h), refl)
reader_step-ReaderKeeps p room token parked h =
    if_elim (ReaderKeeps p parked) p.data_ready (λ _. (omega (arith, h), refl)) (λ _. (h, refl))
reader_step-ReaderKeeps p room closing parked h =
    if_elim (ReaderKeeps p parked) p.done (λ _. (h, refl)) (λ _. (h, refl))
reader_step-ReaderKeeps p room pick draining h =
    if_elim (ReaderKeeps p draining) (ltb 0 (buf_len p))
      (λ _. (consume_locked-IsBounded p room h, (consumed p room).0)) (λ _. (h, refl))
reader_step-ReaderKeeps p room pick (returned o) h = (h, refl)

-- The bytes `k` are put, which the writer reports or will report.
abbrev WriterKeeps : Bytes → Pipe → Writer → Pipe × Writer → Type 0
WriterKeeps s p w (q, v) =
    IsBounded q
    × IsWithin (slice_of s v) v
    × ((k : Bytes) × (contents q ≡ contents p ++ k)
        × (reported s v ++ in_flight (slice_of s v) v ≡ in_flight s w ++ k))

nothing_put :
    (s : Bytes) (p q : Pipe) (w v : Writer)
    → IsBounded q
    → contents q ≡ contents p
    → IsWithin (slice_of s v) v
    → reported s v ++ in_flight (slice_of s v) v ≡ in_flight s w
    → WriterKeeps s p w (q, v)
nothing_put s p q w v h c i e =
    (h, i, ([], c ∙ sym (append-nil (contents p)), e ∙ sym (append-nil (in_flight s w))))

some_put :
    (s : Bytes) (p : Pipe) (n : ℕ) (b : Bytes)
    → IsBounded p
    → IsRest s n b
    → let j = min (length b) (p.max_buf - buf_len p) in
      WriterKeeps s p (writing n b) (put_some p b, announcing (n + j) (rest_of p b))
some_put s p n b h e =
    let j = min (length b) (p.max_buf - buf_len p) in
    let bounded = append_some-IsBounded p b h in
    (
      record { within = bounded.within; compact = bounded.compact; unread = bounded.unread },
      ap (drop j) e ∙ drop-drop n j s,
      (
        take j b,
        contents-append_some p b h,
        sym (ap (λ r. take n s ++ take j r) e ∙ take-take-drop n j s),
      ),
    )

writer_step-WriterKeeps :
    (s : Bytes) (p : Pipe) (next : Bytes) (pick : Pick) (w : Writer)
    → IsBounded p
    → IsWithin s w
    → WriterKeeps s p w (writer_step p next pick w)
unfolding writer_step
writer_step-WriterKeeps s p next pick (polling b) h i =
    if_elim (WriterKeeps s p (polling b)) p.done
      (λ _. nothing_put s p p (polling b) (finished 0 (some (write_close_error p))) h refl tt refl)
      (λ _. nothing_put s p p (polling b) (writing 0 b) h refl i refl)
writer_step-WriterKeeps s p next pick (writing n []) h i =
    nothing_put s p p (writing n []) (finished n none) h refl tt (append-nil (take n s))
writer_step-WriterKeeps s p next pick (writing n (c ∷ b)) h i =
    if_elim (WriterKeeps s p (writing n (c ∷ b))) (ltb (buf_len p) p.max_buf)
      (λ _. some_put s p n (c ∷ b) h i)
      (λ _.
        if_elim (WriterKeeps s p (writing n (c ∷ b))) p.done
          (λ _.
            nothing_put s p p (writing n (c ∷ b)) (finished n (some (write_close_error p))) h refl
              tt (append-nil (take n s)))
          (λ _. nothing_put s p p (writing n (c ∷ b)) (waiting n (c ∷ b)) h refl i refl))
writer_step-WriterKeeps s p next pick (announcing n b) h i =
    nothing_put s p (record p { data_ready = true }) (announcing n b) (writing n b)
      (omega (arith, h)) refl i refl
writer_step-WriterKeeps s p next token (waiting n b) h i =
    if_elim (WriterKeeps s p (waiting n b)) p.space_ready
      (λ _.
        nothing_put s p (record p { space_ready = false }) (waiting n b) (writing n b)
          (omega (arith, h)) refl i refl)
      (λ _. nothing_put s p p (waiting n b) (waiting n b) h refl i refl)
writer_step-WriterKeeps s p next closing (waiting n b) h i =
    if_elim (WriterKeeps s p (waiting n b)) p.done
      (λ _.
        nothing_put s p p (waiting n b) (finished n (some (write_close_error p))) h refl tt
          (append-nil (take n s)))
      (λ _. nothing_put s p p (waiting n b) (waiting n b) h refl i refl)
writer_step-WriterKeeps s p next pick (finished n e) h i =
    nothing_put s p p (finished n e) (polling next) h refl refl refl

-- What writes have reported and will report is what reads have returned and will return, and what
-- is in the buffer.
abbrev pub IsOrdered : Ledger → Type 0
IsOrdered l =
    l.accepted ++ in_flight l.slice l.meeting.writer
    ≡ l.given ++ (in_hand l.meeting.reader ++ contents l.meeting.pipe)

abbrev Sound : Ledger → Type 0
Sound l = IsBounded l.meeting.pipe × IsWithin l.slice l.meeting.writer × IsOrdered l

reads_recorded-Sound :
    (l : Ledger) (r : Pipe × Reader)
    → Sound l
    → ReaderKeeps l.meeting.pipe l.meeting.reader r
    → Sound (reads_recorded l (record (l.meeting) { pipe = r.0; reader = r.1 }))
reads_recorded-Sound l (q, s) (h, i, o) (b, k) = (
  b,
  i,
  o ∙ ap (◌++◌ l.given) k ∙ sym (append_assoc l.given (handed s) (in_hand s ++ contents q)),
)

writes_recorded-Sound :
    (l : Ledger) (r : Pipe × Writer)
    → Sound l
    → WriterKeeps l.slice l.meeting.pipe l.meeting.writer r
    → Sound (writes_recorded l (record (l.meeting) { pipe = r.0; writer = r.1 }))
writes_recorded-Sound l (q, v) (h, i, o) (b, w, (k, c, e)) =
    let s = l.slice in
    let hand = in_hand l.meeting.reader in
    let p = l.meeting.pipe in
    (
      b,
      w,
      append_assoc l.accepted (reported s v) (in_flight (slice_of s v) v)
          ∙ ap (◌++◌ l.accepted) e
          ∙ sym (append_assoc l.accepted (in_flight s l.meeting.writer) k)
          ∙ ap (λ x. x ++ k) o
          ∙ append_assoc l.given (hand ++ contents p) k
          ∙ ap (◌++◌ l.given) (append_assoc hand (contents p) k ∙ ap (◌++◌ hand) (sym c)),
    )

record_move-Sound : (l : Ledger) (x : Move) → Sound l → Sound (record_move l x)
unfolding record_move move close_read close_write
record_move-Sound l (reads room pick) h =
    reads_recorded-Sound l (reader_step l.meeting.pipe room pick l.meeting.reader) h
      (reader_step-ReaderKeeps l.meeting.pipe room pick l.meeting.reader h.0)
record_move-Sound l (writes next pick) h =
    writes_recorded-Sound l (writer_step l.meeting.pipe next pick l.meeting.writer) h
      (writer_step-WriterKeeps l.slice l.meeting.pipe next pick l.meeting.writer h.0 h.1)
record_move-Sound l (closes_read e) h = (omega (arith, h.0), h.1, h.2)
record_move-Sound l (closes_write e) h = (omega (arith, h.0), h.1, h.2)

record_moves-Sound : (xs : List Move) (l : Ledger) → Sound l → Sound (record_moves l xs)
unfolding record_moves
record_moves-Sound [] l h = h
record_moves-Sound (x ∷ xs) l h = record_moves-Sound xs (record_move l x) (record_move-Sound l x h)

new_ledger-Sound : Sound new_ledger
unfolding new_pipe
new_ledger-Sound = (omega arith, refl, refl)

-- However the steps of one reader and one writer of a new pipe and the closing of its sides
-- interleave: the bytes that writes have reported to be written, with those that the write under way
-- has put, are the bytes that reads have returned, with those that the read under way has copied and
-- those in the buffer, in this order.
pub record_moves-IsOrdered : (xs : List Move) → IsOrdered (record_moves new_ledger xs)
record_moves-IsOrdered xs = (record_moves-Sound xs new_ledger new_ledger-Sound).2
