-- ===== src/Session/EndToEnd.antt =====
-- What a client writes to a stream is what the server's stream holds.
use server_anytls.Prelude.{
  ℕ, ◌+◌, ◌≤◌, ◌<◌, ◌^◌, ◌≡◌, refl, sym, ap, ◌∙◌, subst, List, [], ◌∷◌, ◌++◌, some, Bytes, length,
  nat_eq, arith, All, append-nil, append_assoc, length-append, eof, inl, inr,
}
use server_anytls.Env.{Env}
use server_anytls.Pipe.{default_buf_size}
use server_anytls.Wire.{Frame, frame_bytes}
use server_anytls.Padding.Bounds.{IsSafePointer}
use server_anytls.Session.State.{Session, wire, wrote}
use server_anytls.Session.Streams.{write_data_frame}
use server_anytls.Session.Recv.{
  recv_rounds, recv_step, read_full, Receiver, Recv, goes_on, stops, stalls, panics, next_frame,
}
use server_anytls.Session.Recv.Uniform.{with_rest}
use server_anytls.Session.Recv.Frames.{act}
use server_anytls.Session.Recv.Invisible.{rounds, rounds-frame, rounds-Alike, Alike}
use server_anytls.Session.Traffic.{Item, traffic, frames_of, frames_bytes, IsSound}
use server_anytls.Session.Framing.{Carries}
use server_anytls.Session.Framing.Data.{
  SendsData, IsDataFrame, payloads, write_data_frame-CarriesData,
}
use server_anytls.Session.Delivery.{
  HasStream, Arrives, deliver-Arrives, act-data, IsDataFrame-IsWhole,
}

-- Where the loop is after frames that put `bs` into the stream, before it reads `y`.
abbrev Reaches : Env → ℕ → ℕ → Bytes → Bytes → Recv → Type 0
Reaches env sid r bs y o = (w : Receiver) × HasStream w sid r bs × (o ≡ rounds env w y)

next_frame-Reaches :
    (env : Env) (sid r : ℕ) (bs y : Bytes) (o : Recv)
    → Arrives sid r bs o
    → Reaches env sid r bs y (next_frame (rounds env) (with_rest o y))
next_frame-Reaches env sid r bs y (goes_on v rest) h = (v, h, refl)
next_frame-Reaches env sid r bs y (stops v e) h = absurd h
next_frame-Reaches env sid r bs y (stalls v k left rest) h = absurd h
next_frame-Reaches env sid r bs y (panics v) h = absurd h

-- Data frames of a stream with room for them go into its pipe in order.
rounds-Reaches :
    (env : Env) (v : Receiver) (sid r : ℕ) (gs : List Frame) (bs x : Bytes)
    → sid < 2 ^ 32
    → HasStream v sid r bs
    → All (IsDataFrame sid) gs
    → length bs + length (payloads gs) ≤ default_buf_size
    → Reaches env sid r (bs ++ payloads gs) x (rounds env v (frames_bytes gs ++ x))
unfolding frames_bytes
rounds-Reaches env v sid r [] bs x small h d le =
    (v, subst (HasStream v sid r) (sym (append-nil bs)) h, refl)
rounds-Reaches env v sid r (f ∷ gs) bs x small h d le =
    let y = frames_bytes gs ++ x in
    let here =
      deliver-Arrives v sid r bs f.payload h
        (omega (arith, length-append f.payload (payloads gs))) in
    let (w, next, e) =
      next_frame-Reaches env sid r (bs ++ f.payload) y (act env v f [])
        (subst (Arrives sid r (bs ++ f.payload)) (sym (act-data env v sid f d.0)) here) in
    let (u, last, g) =
      rounds-Reaches env w sid r gs (bs ++ f.payload) x small next d.1
        (omega (arith, length-append f.payload (payloads gs), length-append bs f.payload)) in
    (
      u,
      subst (HasStream u sid r) (append_assoc bs f.payload (payloads gs)) last,
      ap (rounds env v) (append_assoc (frame_bytes f) (frames_bytes gs) x)
          ∙ rounds-frame env v f y (IsDataFrame-IsWhole sid f small d.0)
          ∙ e
          ∙ g,
    )

frames_bytes-append :
    (fs gs : List Frame) → frames_bytes (fs ++ gs) ≡ frames_bytes fs ++ frames_bytes gs
unfolding frames_bytes
frames_bytes-append [] gs = refl
frames_bytes-append (f ∷ fs) gs =
    ap (◌++◌ (frame_bytes f)) (frames_bytes-append fs gs)
    ∙ sym (append_assoc (frame_bytes f) (frames_bytes fs) (frames_bytes gs))

rounds-nil : (env : Env) (w : Receiver) → rounds env w [] ≡ stops w (some eof)
unfolding recv_rounds recv_step read_full
rounds-nil env w = refl

-- The other outcome of `Alike`, a parked write, is not the end of the input.
Alike-stops :
    (a b : Recv) (w : Receiver) → Alike [] a b → b ≡ stops w (some eof) → a ≡ stops w (some eof)
Alike-stops a b w (inl e) h = e ∙ h
Alike-stops a b w (inr (v, r, left, is, e, f)) h = absurd (cc)

-- The loop over a traffic of the frames `fs` and data frames `gs`.
recv_loop-traffic :
    (env : Env) (v0 v : Receiver) (sid r : ℕ) (fs gs : List Frame) (is : List Item) (bs : Bytes)
    → sid < 2 ^ 32
    → ((y : Bytes) → rounds env v0 (frames_bytes fs ++ y) ≡ rounds env v y)
    → HasStream v sid r bs
    → All (IsDataFrame sid) gs
    → length bs + length (payloads gs) ≤ default_buf_size
    → All IsSound is
    → frames_of is ≡ fs ++ gs
    → (w : Receiver) × HasStream w sid r (bs ++ payloads gs)
      × (rounds env v0 (traffic is ++ []) ≡ stops w (some eof))
recv_loop-traffic env v0 v sid r fs gs is bs small reach h d le sound same =
    let (w, last, e) = rounds-Reaches env v sid r gs bs [] small h d le in
    let framed_only =
      ap (λ k. rounds env v0 (k ++ [])) (ap frames_bytes same ∙ frames_bytes-append fs gs)
      ∙ ap (rounds env v0) (append_assoc (frames_bytes fs) (frames_bytes gs) [])
      ∙ reach (frames_bytes gs ++ [])
      ∙ e
      ∙ rounds-nil env w in
    (
      w,
      last,
      Alike-stops (rounds env v0 (traffic is ++ []))
          (rounds env v0 (frames_bytes (frames_of is) ++ [])) w (rounds-Alike env v0 is [] sound)
          framed_only,
    )

-- A session that has sent the frames `fs` and writes `b` to its stream `sid` without an error has
-- sent, and holds back while it buffers, bytes such that this is so: a receive loop that comes
-- through the frames `fs` to a state in which a stream of that id has `bs` in its open pipe, and
-- reads all those bytes, comes to their end with `bs` and then `b` in the pipe of that stream, if
-- they fit the pipe's buffer. The padding of the sender leaves no trace. The sender's factory is one
-- that `NewPaddingFactory` makes, and the id fits 32 bits.
pub write_data_frame-Delivers :
    (env : Env) (s t : Session) (sid n r : ℕ) (b bs : Bytes) (fs : List Frame) (v0 v : Receiver)
    → IsSafePointer s.padding
    → sid < 2 ^ 32
    → Carries fs s
    → write_data_frame env s sid b ≡ (t, wrote n)
    → ((y : Bytes) → rounds env v0 (frames_bytes fs ++ y) ≡ rounds env v y)
    → HasStream v sid r bs
    → length bs + length b ≤ default_buf_size
    → (w : Receiver) × HasStream w sid r (bs ++ b)
      × (rounds env v0 (wire t.conn ++ t.buffer) ≡ stops w (some eof))
write_data_frame-Delivers env s t sid n r b bs fs v0 v safe small c e reach h le =
    let (gs, d, same, sent) = write_data_frame-CarriesData env s sid b fs safe small c in
    let ((is, sound, frames, on), count) = subst (SendsData fs gs (length b)) e sent in
    let (w, last, g) =
      recv_loop-traffic env v0 v sid r fs gs is bs small reach h d (omega (arith, ap length same))
        sound frames in
    (
      w,
      subst (λ x. HasStream w sid r (bs ++ x)) same last,
      ap (rounds env v0) (on ∙ sym (append-nil (traffic is))) ∙ g,
    )
