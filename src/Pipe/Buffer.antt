-- ===== src/Pipe/Buffer.antt =====
-- The bounds of the buffer: unread bytes within `maxBuf`, and the backing slice within one and a
-- half times that, since consumed bytes are dropped once they are more than half of it.
use server_anytls.Prelude.{
  ℕ, zero, suc, ◌+◌, ◌-◌, ◌/◌, ◌≤◌, ◌≡◌, refl, Bool, [], ◌∷◌, Bytes, length, take, drop, min, arith,
  length-take, length-drop, length-append,
}
use server_anytls.Pipe.{
  Pipe, compact, consume_locked, append_some, buf_len, write_loop, write, read, rest_of,
}

pub record IsBounded (p : Pipe) : Type 0 where
  pub within : p.off ≤ length p.buf
  pub compact : p.off ≤ p.max_buf / 2
  pub unread : length p.buf ≤ p.off + p.max_buf

pub consume_locked-IsBounded :
    (p : Pipe) (room : ℕ) → IsBounded p → IsBounded (consume_locked p room).0
unfolding consume_locked compact
consume_locked-IsBounded p room h = ground (
  arith,
  length-take room (drop p.off p.buf),
  length-drop p.off p.buf,
  length-drop (p.off + length (take room (drop p.off p.buf))) p.buf,
)

pub append_some-IsBounded : (p : Pipe) (b : Bytes) → IsBounded p → IsBounded (append_some p b)
unfolding append_some
append_some-IsBounded p b h = ground (
  arith,
  length-append p.buf (take (min (length b) (p.max_buf - buf_len p)) b),
  length-take (min (length b) (p.max_buf - buf_len p)) b,
)

write_loop-IsBounded :
    (fuel : ℕ) (p : Pipe) (b : Bytes) (n : ℕ) → IsBounded p → IsBounded (write_loop fuel p b n).0
unfolding write_loop
write_loop-IsBounded zero p b n h = h
write_loop-IsBounded (suc fuel) p [] n h = h
write_loop-IsBounded (suc fuel) p (c ∷ b) n h = ground (
  arith,
  write_loop-IsBounded fuel (append_some p (c ∷ b)) (rest_of p (c ∷ b))
      (n + min (length (c ∷ b)) (p.max_buf - buf_len p)) (append_some-IsBounded p (c ∷ b) h),
)

pub write-IsBounded : (f : Bool) (p : Pipe) (b : Bytes) → IsBounded p → IsBounded (write f p b).0
unfolding write
write-IsBounded f p b h = ground (arith, write_loop-IsBounded 3 p b 0 h)

pub read-IsBounded : (p : Pipe) (room : ℕ) → IsBounded p → IsBounded (read p room).0
unfolding read
read-IsBounded p room h = ground (arith, consume_locked-IsBounded p room h)

-- The backing slice never grows beyond one and a half buffers.
pub length-buf-le : (p : Pipe) → IsBounded p → length p.buf ≤ p.max_buf + p.max_buf / 2
length-buf-le p h = omega arith

-- The capacity is fixed.
write_loop-max_buf :
    (fuel : ℕ) (p : Pipe) (b : Bytes) (n : ℕ) → (write_loop fuel p b n).0.max_buf ≡ p.max_buf
unfolding write_loop append_some
write_loop-max_buf zero p b n = refl
write_loop-max_buf (suc fuel) p [] n = refl
write_loop-max_buf (suc fuel) p (c ∷ b) n = ground (
  arith,
  write_loop-max_buf fuel (append_some p (c ∷ b)) (rest_of p (c ∷ b))
      (n + min (length (c ∷ b)) (p.max_buf - buf_len p)),
)

pub write-max_buf : (f : Bool) (p : Pipe) (b : Bytes) → (write f p b).0.max_buf ≡ p.max_buf
unfolding write
write-max_buf f p b = ground (arith, write_loop-max_buf 3 p b 0)

pub read-max_buf : (p : Pipe) (room : ℕ) → (read p room).0.max_buf ≡ p.max_buf
unfolding read consume_locked compact
read-max_buf p room = ground arith
