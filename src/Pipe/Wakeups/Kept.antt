-- ===== src/Pipe/Wakeups/Kept.antt =====
-- No wake-up of the pipe is lost.
use server_anytls.Prelude.{
  ℕ, ◌≤◌, ◌<◌, ◌≡◌, refl, true, false, not, ◌&&◌, ◌||◌, List, [], ◌∷◌, Bytes, ltb, if_elim, arith,
}
use mathlib.Core.Bool.{false≢true}
use native.Mathlib.Decide.{dec_lt}
use server_anytls.Pipe.{
  Pipe, new_pipe, buf_len, compact, consume_locked, append_some, close_read, close_write,
}
use server_anytls.Pipe.Wakeups.{
  Reader, reading, signalling, parked, draining, returned, Writer, polling, writing, announcing,
  waiting, finished, Meeting, Pick, token, closing, reader_step, writer_step, Move, reads, writes,
  closes_read, closes_write, move, interleave, start, is_parked, is_signalling, is_draining,
  is_waiting, is_announcing,
}

-- A parked reader that has bytes to read has a token in its channel, or the writer is about to send
-- it. A waiting writer that has room has a token, or the reader is about to send it, or the pipe is
-- closed. Only a closed pipe is drained, which sends no token.
pub record IsAwake (p : Pipe) (r : Reader) (w : Writer) : Type 0 where
  pub roomy : 1 ≤ p.max_buf
  pub told_reader : is_parked r ≡ true → 0 < buf_len p → (p.data_ready || is_announcing w) ≡ true
  pub told_writer :
      is_waiting w ≡ true
      → buf_len p < p.max_buf
      → (p.space_ready || is_signalling r || p.done) ≡ true
  pub drains_closed : is_draining r ≡ true → p.done ≡ true

max_buf-consume_locked : (p : Pipe) (room : ℕ) → ((consume_locked p room).0).max_buf ≡ p.max_buf
unfolding consume_locked compact
max_buf-consume_locked p room = ground arith

done-consume_locked : (p : Pipe) (room : ℕ) → ((consume_locked p room).0).done ≡ p.done
unfolding consume_locked compact
done-consume_locked p room = ground arith

abbrev AwakeWith : Writer → Pipe × Reader → Type 0
AwakeWith w (p, r) = IsAwake p r w

abbrev AwakeFor : Reader → Pipe × Writer → Type 0
AwakeFor r (p, w) = IsAwake p r w

-- A reader that is not in its `select` needs no token; what it leaves must wake the writer.
busy :
    (p q : Pipe) (r s : Reader) (w : Writer)
    → IsAwake p r w
    → q.max_buf ≡ p.max_buf
    → is_parked s ≡ false
    → (is_waiting w ≡ true
        → buf_len q < q.max_buf
        → (q.space_ready || is_signalling s || q.done) ≡ true)
    → (is_draining s ≡ true → q.done ≡ true)
    → IsAwake q s w
busy p q r s w h m a b c = record {
  roomy = omega (arith, m, h.roomy);
  told_reader = λ e. absurd (false≢true (ground (arith, a, e)));
  told_writer = b;
  drains_closed = c;
}

reader_step-AwakeWith :
    (p : Pipe) (room : ℕ) (pick : Pick) (r : Reader) (w : Writer)
    → IsAwake p r w
    → AwakeWith w (reader_step p room pick r)
unfolding reader_step
reader_step-AwakeWith p room pick reading w h =
    if_elim (AwakeWith w) (ltb 0 (buf_len p))
      (λ _.
        busy p ((consume_locked p room).0) reading (signalling ((consume_locked p room).1)) w h
          (max_buf-consume_locked p room) refl (λ _ _. ground arith) (λ e. absurd (false≢true e)))
      (λ e.
        if_elim (AwakeWith w) p.done
          (λ d.
            busy p p reading _ w h refl refl (λ _ _. ground (arith, d))
              (λ e. absurd (false≢true e)))
          (λ _. record {
            roomy = h.roomy;
            told_reader = λ _ g. absurd (ground (arith, e, g));
            told_writer = h.told_writer;
            drains_closed = λ e. absurd (false≢true e);
          }))
reader_step-AwakeWith p room pick (signalling b) w h =
    busy p (record p { space_ready = true }) (signalling b) _ w h refl refl (λ _ _. refl)
      (λ e. absurd (false≢true e))
reader_step-AwakeWith p room token parked w h =
    if_elim (AwakeWith w) p.data_ready
      (λ _.
        busy p (record p { data_ready = false }) parked reading w h refl refl h.told_writer
          (λ e. absurd (false≢true e)))
      (λ _. h)
reader_step-AwakeWith p room closing parked w h =
    if_elim (AwakeWith w) p.done
      (λ d. busy p p parked draining w h refl refl h.told_writer (λ _. d)) (λ _. h)
reader_step-AwakeWith p room pick draining w h =
    if_elim (AwakeWith w) (ltb 0 (buf_len p))
      (λ _.
        busy p ((consume_locked p room).0) draining (returned _) w h (max_buf-consume_locked p room)
          refl (λ _ _. ground (arith, done-consume_locked p room, h.drains_closed refl))
          (λ e. absurd (false≢true e)))
      (λ _. busy p p draining _ w h refl refl h.told_writer (λ e. absurd (false≢true e)))
reader_step-AwakeWith p room pick (returned o) w h =
    busy p p (returned o) reading w h refl refl h.told_writer (λ e. absurd (false≢true e))

-- A writer that is not in its `select` needs no token.
idle :
    (p q : Pipe) (r : Reader) (w v : Writer)
    → IsAwake p r w
    → q.max_buf ≡ p.max_buf
    → q.done ≡ p.done
    → is_waiting v ≡ false
    → (is_parked r ≡ true → 0 < buf_len q → (q.data_ready || is_announcing v) ≡ true)
    → IsAwake q r v
idle p q r w v h m d a b = record {
  roomy = omega (arith, m, h.roomy);
  told_reader = b;
  told_writer = λ e. absurd (false≢true (ground (arith, a, e)));
  drains_closed = λ e. ground (arith, d, h.drains_closed e);
}

writer_step-AwakeFor :
    (p : Pipe) (next : Bytes) (pick : Pick) (r : Reader) (w : Writer)
    → IsAwake p r w
    → AwakeFor r (writer_step p next pick w)
unfolding writer_step append_some
writer_step-AwakeFor p next pick r (polling b) h =
    if_elim (AwakeFor r) p.done (λ _. idle p p r (polling b) _ h refl refl refl h.told_reader)
      (λ _. idle p p r (polling b) _ h refl refl refl h.told_reader)
writer_step-AwakeFor p next pick r (writing n []) h =
    idle p p r (writing n []) _ h refl refl refl h.told_reader
writer_step-AwakeFor p next pick r (writing n (c ∷ b)) h =
    if_elim (AwakeFor r) (ltb (buf_len p) p.max_buf)
      (λ _. idle p _ r (writing n (c ∷ b)) _ h refl refl refl (λ _ _. ground arith))
      (λ e.
        if_elim (AwakeFor r) p.done
          (λ _. idle p p r (writing n (c ∷ b)) _ h refl refl refl h.told_reader)
          (λ _. record {
            roomy = h.roomy;
            told_reader = h.told_reader;
            told_writer = λ _ g. absurd (ground (arith, e, g));
            drains_closed = h.drains_closed;
          }))
writer_step-AwakeFor p next pick r (announcing n b) h =
    idle p (record p { data_ready = true }) r (announcing n b) _ h refl refl refl (λ _ _. refl)
writer_step-AwakeFor p next token r (waiting n b) h =
    if_elim (AwakeFor r) p.space_ready
      (λ _.
        idle p (record p { space_ready = false }) r (waiting n b) _ h refl refl refl h.told_reader)
      (λ _. h)
writer_step-AwakeFor p next closing r (waiting n b) h =
    if_elim (AwakeFor r) p.done (λ _. idle p p r (waiting n b) _ h refl refl refl h.told_reader)
      (λ _. h)
writer_step-AwakeFor p next pick r (finished n e) h =
    idle p p r (finished n e) _ h refl refl refl h.told_reader

abbrev MeetingAwake : Meeting → Type 0
MeetingAwake m = IsAwake m.pipe m.reader m.writer

move-MeetingAwake : (m : Meeting) (x : Move) → MeetingAwake m → MeetingAwake (move m x)
unfolding move close_read close_write
move-MeetingAwake m (reads room pick) h = reader_step-AwakeWith m.pipe room pick m.reader m.writer h
move-MeetingAwake m (writes next pick) h = writer_step-AwakeFor m.pipe next pick m.reader m.writer h
move-MeetingAwake m (closes_read e) h = record {
  roomy = h.roomy;
  told_reader = h.told_reader;
  told_writer = λ _ _. refl;
  drains_closed = λ _. refl;
}
move-MeetingAwake m (closes_write e) h = record {
  roomy = h.roomy;
  told_reader = λ _ _. refl;
  told_writer = λ _ _. ground arith;
  drains_closed = λ _. refl;
}

interleave-MeetingAwake :
    (xs : List Move) (m : Meeting) → MeetingAwake m → MeetingAwake (interleave m xs)
unfolding interleave
interleave-MeetingAwake [] m h = h
interleave-MeetingAwake (x ∷ xs) m h =
    interleave-MeetingAwake xs (move m x) (move-MeetingAwake m x h)

start-MeetingAwake : MeetingAwake start
unfolding new_pipe
start-MeetingAwake = record {
  roomy = omega arith;
  told_reader = λ e. absurd (false≢true e);
  told_writer = λ e. absurd (false≢true e);
  drains_closed = λ e. absurd (false≢true e);
}

-- No wake-up is lost, however the steps of one reader and one writer of a new pipe and the closing
-- of its sides interleave: a reader in its `select` while there are bytes to read has a token in
-- `dataReady`, or the writer is about to send it; a writer in its `select` while there is room has a
-- token in `spaceReady`, or the reader is about to send it, or `done` is closed. A reader that drains
-- the buffer, and sends no token, does so on a closed pipe only.
pub interleave-IsAwake :
    (xs : List Move) → let m = interleave start xs in IsAwake m.pipe m.reader m.writer
interleave-IsAwake xs = interleave-MeetingAwake xs start start-MeetingAwake

IsAwake-is_free :
    (p : Pipe) (r : Reader) (w : Writer)
    → IsAwake p r w
    → (not (is_parked r && is_waiting w) || p.data_ready || p.space_ready || p.done) ≡ true
IsAwake-is_free p parked (waiting n b) h = elim (dec_lt (buf_len p) p.max_buf) [
  | yes room ↦ ground (arith, h.told_writer refl room)
  | no full ↦ ground (arith, h.told_reader refl (omega (arith, h.roomy)))
]
IsAwake-is_free p parked (polling b) h = refl
IsAwake-is_free p parked (writing n b) h = refl
IsAwake-is_free p parked (announcing n b) h = refl
IsAwake-is_free p parked (finished n e) h = refl
IsAwake-is_free p reading w h = refl
IsAwake-is_free p draining w h = refl
IsAwake-is_free p (signalling b) w h = refl
IsAwake-is_free p (returned o) w h = refl

-- There is no deadlock, however the steps and the closing of the sides interleave: reader and writer
-- are not both in their `select`, or one of the channels there is ready.
pub interleave-is_free :
    (xs : List Move)
    → let m = interleave start xs in
      (not (is_parked m.reader && is_waiting m.writer)
        || m.pipe.data_ready
        || m.pipe.space_ready
        || m.pipe.done)
      ≡ true
interleave-is_free xs =
    let m = interleave start xs in IsAwake-is_free m.pipe m.reader m.writer (interleave-IsAwake xs)
