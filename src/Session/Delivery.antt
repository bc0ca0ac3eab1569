-- ===== src/Session/Delivery.antt =====
-- From the sender to the reader: data frames arrive in the pipe of their stream.
use server_anytls.Prelude.{
  ℕ, zero, suc, ◌+◌, ◌-◌, ◌≤◌, ◌<◌, ◌^◌, ◌≡◌, refl, sym, ap, ◌∙◌, subst, false, not, ◌&&◌, List, [],
  ◌∷◌, ◌++◌, some, Bytes, length, min, ltb, if◌then◌else◌, if_elim, nat_eq, arith, append-nil,
  take_all, drop_past, length-drop,
}
use mathlib.Core.Bool.{false≢true}
use mathlib.Core.Option.{none-ne-some}
use server_anytls.Prelude.Maps.{lookup}
use server_anytls.Env.{Env}
use server_anytls.Deadline.{is_expired}
use server_anytls.Pipe.{
  Pipe, contents, buf_len, default_buf_size, write, write_loop, append_some, WriteOutcome,
  completed, write_failed, write_waits, out_of_rounds,
}
use server_anytls.Pipe.Buffer.{IsBounded, append_some-IsBounded}
use server_anytls.Pipe.Fifo.{contents-append_some}
use server_anytls.Wire.{Frame}
use server_anytls.Session.State.{Stream, get_elem?, set}
use server_anytls.Session.Recv.{
  Receiver, Recv, goes_on, stops, stalls, panics, dispatch, deliver, deliver_to, delivered,
}
use server_anytls.Session.Recv.Frames.{IsWhole, act, payload_or_skip-append, reads_payload}
use server_anytls.Session.Framing.Data.{IsDataFrame}

-- A pipe that takes writes.
pub record IsOpen (p : Pipe) : Type 0 where
  pub bounded : IsBounded p
  pub undone : p.done ≡ false
  pub unexpired : is_expired p.write_deadline ≡ false

-- All of `b` is in the pipe, behind what was there.
abbrev Fits : Pipe → Bytes → Pipe × ℕ × WriteOutcome → Type 0
Fits p b (q, n, completed) = (contents q ≡ contents p ++ b) × IsOpen q × (q.max_buf ≡ p.max_buf)
Fits p b (q, n, write_failed e) = ⊥
Fits p b (q, n, write_waits rest) = ⊥
Fits p b (q, n, out_of_rounds) = ⊥

append_some-Fits :
    (p : Pipe) (b : Bytes) (n : ℕ)
    → IsOpen p
    → buf_len p + length b ≤ p.max_buf
    → Fits p b (append_some p b, n, completed)
unfolding append_some
append_some-Fits p b n h le = (
  contents-append_some p b h.bounded
      ∙ ap (◌++◌ (contents p)) (take_all (min (length b) (p.max_buf - buf_len p)) b (omega arith)),
  record {
    bounded = append_some-IsBounded p b h.bounded;
    undone = h.undone;
    unexpired = h.unexpired;
  },
  refl,
)

write_loop-Fits :
    (p : Pipe) (b : Bytes)
    → IsOpen p
    → buf_len p + length b ≤ p.max_buf
    → Fits p b (write_loop 3 p b 0)
unfolding write_loop
write_loop-Fits p [] h le = (sym (append-nil (contents p)), h, refl)
write_loop-Fits p (c ∷ b) h le =
    if_elim (Fits p (c ∷ b)) (ltb (buf_len p) p.max_buf)
      (λ _.
        subst
          (λ x. Fits p (c ∷ b) (
            write_loop 2 (append_some p (c ∷ b)) x
              (0 + min (length (c ∷ b)) (p.max_buf - buf_len p))))
          (sym (drop_past (min (length (c ∷ b)) (p.max_buf - buf_len p)) (c ∷ b) (omega arith)))
          (append_some-Fits p (c ∷ b) (0 + min (length (c ∷ b)) (p.max_buf - buf_len p)) h le))
      (λ e. absurd (ground arith))

write-Fits :
    (p : Pipe) (b : Bytes)
    → IsOpen p
    → buf_len p + length b ≤ p.max_buf
    → Fits p b (write false p b)
unfolding write
write-Fits p b h le =
    if_elim (Fits p b) (is_expired p.write_deadline && not p.done)
      (λ e. absurd (ground (arith, e, h.unexpired)))
      (λ _.
        if_elim (Fits p b) p.done (λ e. absurd (false≢true (sym h.undone ∙ e)))
          (λ _. write_loop-Fits p b h le))

-- A receiver with a stream at place `r` of its heap, registered under `sid`, whose open pipe of the
-- usual size holds `bs`.
pub record HasStream (v : Receiver) (sid r : ℕ) (bs : Bytes) : Type 0 where
  pub stream : Stream
  pub registered : lookup sid v.session.streams ≡ some r
  pub there : get_elem? v.session.heap r ≡ some stream
  pub opened : IsOpen stream.pipe
  pub holds : contents stream.pipe ≡ bs
  pub sized : stream.pipe.max_buf ≡ default_buf_size

pub get_elem?-set :
    (xs : List Stream) (r : ℕ) (old new : Stream)
    → get_elem? xs r ≡ some old
    → get_elem? (set xs r new) r ≡ some new
get_elem?-set [] r old new e = absurd (none-ne-some old e)
get_elem?-set (x ∷ xs) zero old new e = refl
get_elem?-set (x ∷ xs) (suc r) old new e = get_elem?-set xs r old new e

-- The loop goes on, and the stream's pipe has `bs`.
abbrev pub Arrives : ℕ → ℕ → Bytes → Recv → Type 0
Arrives sid r bs (goes_on v rest) = HasStream v sid r bs
Arrives sid r bs (stops v e) = ⊥
Arrives sid r bs (stalls v k left rest) = ⊥
Arrives sid r bs (panics v) = ⊥

delivered-Arrives :
    (v : Receiver) (sid r : ℕ) (bs b : Bytes) (st : Stream) (o : Pipe × ℕ × WriteOutcome)
    → lookup sid v.session.streams ≡ some r
    → get_elem? v.session.heap r ≡ some st
    → contents st.pipe ≡ bs
    → st.pipe.max_buf ≡ default_buf_size
    → Fits st.pipe b o
    → Arrives sid r (bs ++ b) (delivered v r st [] o)
delivered-Arrives v sid r bs b st (q, n, completed) l g c m (holds, free, size) = record {
  stream = record st { pipe = q };
  registered = l;
  there = get_elem?-set v.session.heap r st (record st { pipe = q }) g;
  opened = free;
  holds = holds ∙ ap (λ x. x ++ b) c;
  sized = size ∙ m;
}
delivered-Arrives v sid r bs b st (q, n, write_failed e) l g c m f = absurd f
delivered-Arrives v sid r bs b st (q, n, write_waits rest) l g c m f = absurd f
delivered-Arrives v sid r bs b st (q, n, out_of_rounds) l g c m f = absurd f

pub deliver-Arrives :
    (v : Receiver) (sid r : ℕ) (bs b : Bytes) (h : HasStream v sid r bs)
    → length bs + length b ≤ default_buf_size
    → Arrives sid r (bs ++ b) (deliver v (lookup sid v.session.streams) b [])
deliver-Arrives v sid r bs b h le =
    let st = h.stream in
    let fit =
      write-Fits st.pipe b h.opened
        (omega (arith, length-drop st.pipe.off st.pipe.buf, ap length h.holds, h.sized)) in
    subst (λ o. Arrives sid r (bs ++ b) (deliver v o b [])) (sym h.registered)
      (subst (λ o. Arrives sid r (bs ++ b) (deliver_to v r o b [])) (sym h.there)
        (delivered-Arrives v sid r bs b st (write false st.pipe b) h.registered h.there h.holds
          h.sized fit))

if_some : (b : Bytes) (x y : Recv) → 1 ≤ length b → (if ltb 0 (length b) then x else y) ≡ x
if_some b x y h = if_elim (λ z. z ≡ x) (ltb 0 (length b)) (λ _. refl) (λ e. absurd (ground arith))

pub act-data :
    (env : Env) (v : Receiver) (sid : ℕ) (f : Frame)
    → IsDataFrame sid f
    → act env v f [] ≡ deliver v (lookup sid v.session.streams) f.payload []
unfolding dispatch
act-data env v sid f d =
    ap (λ c. dispatch env v c f.sid (length f.payload) (f.payload ++ [])) d.cmd_is
    ∙ payload_or_skip-append v f.payload [] (deliver v (lookup f.sid v.session.streams))
    ∙ if_some f.payload (deliver v (lookup f.sid v.session.streams) f.payload []) (goes_on v [])
        d.some_payload
    ∙ ap (λ k. deliver v (lookup k v.session.streams) f.payload []) d.sid_is

pub IsDataFrame-IsWhole : (sid : ℕ) (f : Frame) → sid < 2 ^ 32 → IsDataFrame sid f → IsWhole f
IsDataFrame-IsWhole sid f h d = record {
  sid_fits = omega (arith, d.sid_is);
  length_fits = omega (arith, d.fits);
  bare = λ e. absurd (false≢true (sym e ∙ ap reads_payload d.cmd_is));
}
