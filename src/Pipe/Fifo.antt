-- ===== src/Pipe/Fifo.antt =====
-- The pipe is a queue of bytes: what is read is what was written, in order, with nothing lost,
-- repeated or made up.
use server_anytls.Prelude.{
  ℕ, suc, ◌+◌, ◌-◌, ◌≤◌, ◌<◌, ◌≡◌, refl, sym, ap, ◌∙◌, subst, Bool, true, false, [], ◌∷◌, ◌++◌,
  Bytes, length, take, drop, min, ltb, arith, Bool-cases, inl, inr, ◌⊎◌, length-take, length-drop,
  drop-drop, drop-length-take, drop_past, drop-append_le, take-append-drop, take-take-drop,
  length-append, append_assoc, append-nil,
}
use native.Mathlib.Decide.{dec_le}
use server_anytls.Pipe.{
  Pipe, contents, buf_len, compact, consume_locked, append_some, rest_of, read, write, write_loop,
  ReadOutcome, got, read_failed, read_waits, WriteOutcome, completed, write_failed, write_waits,
  out_of_rounds, contents,
}
use server_anytls.Pipe.Buffer.{IsBounded, append_some-IsBounded}

contents-compact : (p : Pipe) (n : ℕ) → contents (compact p n) ≡ drop n p.buf
unfolding compact
contents-compact p n = ground (arith, drop_past n p.buf)

contents-consume_locked :
    (p : Pipe) (room : ℕ) → contents (consume_locked p room).0 ≡ drop room (contents p)
unfolding consume_locked
contents-consume_locked p room =
    contents-compact p _ ∙ sym (drop-drop p.off _ p.buf) ∙ drop-length-take room (contents p)

-- What a reader gets is the front of the unread bytes, at most as many as its slice holds, and
-- the pipe keeps the rest; a read that fails or waits leaves the bytes alone.
abbrev pub ReadsFrom : Pipe → ℕ → Pipe × ReadOutcome → Type 0
ReadsFrom p room (q, got bs) =
    (contents p ≡ bs ++ contents q) × (length bs ≡ min room (length (contents p)))
ReadsFrom p room (q, read_failed e) = contents q ≡ contents p
ReadsFrom p room (q, read_waits) = (contents q ≡ contents p) × (contents p ≡ [])

contents_empty : (p : Pipe) → IsBounded p → ltb 0 (buf_len p) ≡ false → contents p ≡ []
contents_empty p h e = drop_past p.off p.buf (ground arith)

pub consumed :
    (p : Pipe) (room : ℕ)
    → let r = consume_locked p room in
      (contents p ≡ r.1 ++ contents r.0) × (length r.1 ≡ min room (length (contents p)))
consumed p room = (
  sym (
      ap (◌++◌ (consume_locked p room).1) (contents-consume_locked p room)
      ∙ unfold consume_locked in take-append-drop room (contents p)),
  unfold consume_locked in length-take room (contents p),
)

-- `read` gives the front of the unread bytes, as many as there are up to the size of its slice, and
-- keeps the rest; if it fails or waits the bytes are as before, and it waits only if there are none.
pub read-ReadsFrom : (p : Pipe) (room : ℕ) → IsBounded p → ReadsFrom p room (read p room)
unfolding read
read-ReadsFrom p room h = ground (arith, consumed p room, contents_empty p h)

abbrev pub Leaves : Pipe → Bytes → ℕ → WriteOutcome → Type 0
Leaves q b n completed = n ≡ length b
Leaves q b n (write_failed e) = n ≤ length b
Leaves q b n (write_waits rest) =
    (b ≡ take n b ++ rest) × (n < length b) × (length (contents q) ≡ q.max_buf)
Leaves q b n out_of_rounds = ⊥

-- The bytes that a write has taken are the front of the slice, behind what was there before. It
-- has taken all of it when it completes, and waits only at a full buffer, with the rest to write.
abbrev pub WritesTo : Pipe → Bytes → Pipe × ℕ × WriteOutcome → Type 0
WritesTo p b (q, n, o) = (contents q ≡ contents p ++ take n b) × Leaves q b n o

-- The same of the loop: `j` more bytes are taken and counted.
abbrev LoopWrites : Pipe → Bytes → ℕ → Pipe × ℕ × WriteOutcome → Type 0
LoopWrites p b n r =
    (j : ℕ) × (r.1 ≡ n + j) × (contents r.0 ≡ contents p ++ take j b) × Leaves r.0 b j r.2

-- A round with nothing to write, or at a full buffer, is the last one.
last_round :
    (fuel : ℕ) (p : Pipe) (b : Bytes) (n : ℕ)
    → IsBounded p
    → (b ≡ []) ⊎ (p.max_buf ≤ buf_len p)
    → LoopWrites p b n (write_loop (suc fuel) p b n)
unfolding write_loop
last_round fuel p [] n h s = (0, omega arith, sym (append-nil (contents p)), refl)
last_round fuel p (c ∷ b) n h s = (
  0,
  ground arith,
  ground (arith, append-nil (contents p)),
  ground (arith, length-drop p.off p.buf),
)

pub contents-append_some :
    (p : Pipe) (b : Bytes)
    → IsBounded p
    → contents (append_some p b) ≡ contents p ++ take (min (length b) (p.max_buf - buf_len p)) b
unfolding append_some
contents-append_some p b h = drop-append_le p.off p.buf _ h.within

after_append :
    (p : Pipe) (b : Bytes)
    → IsBounded p
    → (rest_of p b ≡ []) ⊎ ((append_some p b).max_buf ≤ buf_len (append_some p b))
unfolding append_some
after_append p b h = elim (dec_le (length b) (p.max_buf - buf_len p)) [
  | yes fits ↦ inl (drop_past _ b (omega arith))
  | no over ↦ inr (
      omega (
        arith,
        length-append p.buf (take (min (length b) (p.max_buf - buf_len p)) b),
        length-take (min (length b) (p.max_buf - buf_len p)) b,
      ))
]

Leaves-drop :
    (q : Pipe) (b : Bytes) (k j : ℕ) (o : WriteOutcome)
    → k ≤ length b
    → Leaves q (drop k b) j o
    → Leaves q b (k + j) o
Leaves-drop q b k j completed h l = omega (arith, length-drop k b)
Leaves-drop q b k j (write_failed e) h l = omega (arith, length-drop k b)
Leaves-drop q b k j (write_waits rest) h l = (
  sym (take-append-drop k b)
      ∙ ap (◌++◌ (take k b)) l.0
      ∙ sym (append_assoc (take k b) (take j (drop k b)) rest)
      ∙ ap (λ t. t ++ rest) (take-take-drop k j b),
  omega (arith, length-drop k b, l.1),
  l.2,
)
Leaves-drop q b k j out_of_rounds h l = absurd l

after_round :
    (p : Pipe) (b : Bytes) (n : ℕ) (r : Pipe × ℕ × WriteOutcome)
    → IsBounded p
    → let k = min (length b) (p.max_buf - buf_len p) in
      LoopWrites (append_some p b) (drop k b) (n + k) r → LoopWrites p b n r
after_round p b n r h (j, counted, taken, left) =
    let k : ℕ = min (length b) (p.max_buf - buf_len p) in
    (
      k + j,
      omega (arith, counted),
      taken
          ∙ ap (λ t. t ++ take j (drop k b)) (contents-append_some p b h)
          ∙ append_assoc (contents p) (take k b) (take j (drop k b))
          ∙ ap (◌++◌ (contents p)) (take-take-drop k j b),
      Leaves-drop r.0 b k j r.2 (omega arith) left,
    )

another_round :
    (fuel : ℕ) (p : Pipe) (c : ℕ) (b : Bytes) (n : ℕ)
    → ltb (buf_len p) p.max_buf ≡ true
    → write_loop (suc fuel) p (c ∷ b) n
      ≡ write_loop fuel
          (append_some p (c ∷ b))
          (rest_of p (c ∷ b))
          (n + min (length (c ∷ b)) (p.max_buf - buf_len p))
unfolding write_loop
another_round fuel p c b n room = rw room

-- Two rounds are enough.
write_loop-LoopWrites :
    (fuel : ℕ) (p : Pipe) (b : Bytes) (n : ℕ)
    → IsBounded p
    → LoopWrites p b n (write_loop (suc (suc fuel)) p b n)
write_loop-LoopWrites fuel p [] n h = last_round (suc fuel) p [] n h (inl refl)
write_loop-LoopWrites fuel p (c ∷ b) n h = elim (Bool-cases (ltb (buf_len p) p.max_buf)) [
  | inl room ↦ rw (another_round (suc fuel) p c b n room) (
      after_round p (c ∷ b) n
        (write_loop (suc fuel) (append_some p (c ∷ b)) (rest_of p (c ∷ b))
          (n + min (length (c ∷ b)) (p.max_buf - buf_len p)))
        h
        (last_round fuel (append_some p (c ∷ b)) _ _ (append_some-IsBounded p (c ∷ b) h)
          (after_append p (c ∷ b) h)))
  | inr full ↦ last_round (suc fuel) p (c ∷ b) n h (inr (ground arith))
]

write_loop-WritesTo : (p : Pipe) (b : Bytes) → IsBounded p → WritesTo p b (write_loop 3 p b 0)
write_loop-WritesTo p b h =
    let (j, counted, taken, left) = write_loop-LoopWrites 1 p b 0 h in
    let r : Pipe × ℕ × WriteOutcome = write_loop 3 p b 0 in
    subst (λ m. (contents r.0 ≡ contents p ++ take m b) × Leaves r.0 b m r.2)
      (omega (arith, counted)) (taken, left)

-- `write` puts a front of its slice behind the unread bytes and says how much it took. It ends or
-- waits within the rounds allowed: it has taken all of the slice when it completes, and it waits
-- only at a full buffer, with the rest still to write.
pub write-WritesTo :
    (deadline_first : Bool) (p : Pipe) (b : Bytes)
    → IsBounded p
    → WritesTo p b (write deadline_first p b)
unfolding write
write-WritesTo f p b h = ground (arith, append-nil (contents p), write_loop-WritesTo p b h)
