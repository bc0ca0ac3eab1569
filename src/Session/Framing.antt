-- ===== src/Session/Framing.antt =====
-- What control and data frames become on the wire: the frames in order, each whole, with waste
-- frames after a write.
pub mod Data
use server_anytls.Prelude.{
  ℕ, zero, suc, ◌≤◌, ◌<◌, ◌^◌, ◌≡◌, refl, sym, ap, ◌∙◌, true, List, [], ◌∷◌, ◌++◌, Option, none,
  some, Bytes, length, take, drop, ltb, if_elim, nat_eq, arith, All, All-append, map, append-nil,
  append_assoc, take-append-drop, length-take, length-drop, subst,
}
use mathlib.Core.Bool.{false≢true}
use server_anytls.Env.{Env}
use server_anytls.Wire.{Frame, frame_bytes, cmd_psh}
use server_anytls.Padding.{PaddingFactory, append_record_payload_sizes}
use server_anytls.Padding.Bounds.{IsSafePointer}
use server_anytls.Session.State.{Session, WriteResult, wrote, failed, panicked, wire}
use server_anytls.Session.Send.{
  assemble, write_assembled, write_padded, write_out, write_conn_locked, write_conn_with_deadline,
  set_write_deadline, clear_deadline,
}
use server_anytls.Session.Send.Padded.{wastes, AreWasteLengths}
use server_anytls.Session.Send.Sent.{Sends, write_conn_locked-Sends}
use server_anytls.Session.Streams.{
  close_on_error, write_control_frame, max_frame_payload, data_frame, next_chunk, write_chunks,
  write_data_frame,
}
use server_anytls.Session.Closed.{close_session-wire}
use server_anytls.Session.Recv.Frames.{IsWhole}
use server_anytls.Session.Traffic.{
  Item, framed, wasted, traffic, frames_of, IsSound, traffic-append, frames_of-append,
  traffic-wastes, frames_of-wastes, IsSound-wastes,
}

-- A write leaves the factory where it is.
abbrev pub Holds : Option PaddingFactory → Session × WriteResult → Type 0
Holds p (t, r) = t.padding ≡ p

write_assembled-Holds :
    (s : Session) (n : ℕ) (o : Option Bytes) → Holds s.padding (write_assembled s n o)
write_assembled-Holds s n none = refl
write_assembled-Holds s n (some b) = refl

write_padded-Holds :
    (env : Env) (s : Session) (pkt : ℕ) (b : Bytes) (p : Option PaddingFactory)
    → Holds s.padding (write_padded env s pkt b p)
write_padded-Holds env s pkt b none = refl
write_padded-Holds env s pkt b (some p) =
    if_elim (Holds s.padding) (ltb pkt p.stop)
      (λ _.
        write_assembled-Holds s (length b)
          (assemble (append_record_payload_sizes env p pkt []) (record { b = b; assembled = [] })))
      (λ _. refl)

write_out-Holds : (env : Env) (s : Session) (b : Bytes) → Holds s.padding (write_out env s b)
unfolding write_out
write_out-Holds env s b =
    if_elim (Holds s.padding) s.send_padding
      (λ _. write_padded-Holds env (record s { pkt_counter = _ }) _ b s.padding) (λ _. refl)

pub write_conn_locked-Holds :
    (env : Env) (s : Session) (b : Bytes) → Holds s.padding (write_conn_locked env s b)
unfolding write_conn_locked
write_conn_locked-Holds env s b =
    if_elim (Holds s.padding) s.buffering (λ _. refl)
      (λ _.
        if_elim (Holds s.padding) (ltb 0 (length s.buffer))
          (λ _. write_out-Holds env (record s { buffer = [] }) (s.buffer ++ b))
          (λ _. write_out-Holds env s b))

-- What is on the wire and in the buffer is a traffic of the frames `fs`.
abbrev pub Carries : List Frame → Session → Type 0
Carries fs s =
    (is : List Item) × All IsSound is × (frames_of is ≡ fs) × (wire s.conn ++ s.buffer ≡ traffic is)

-- What is on the wire is the front of one.
abbrev pub CutsOff : List Frame → Session → Type 0
CutsOff fs s =
    (is : List Item) × (rest : Bytes) × All IsSound is
    × (frames_of is ≡ fs)
    × (wire s.conn ++ rest ≡ traffic is)

-- The frames `fs` after a write that succeeds, a front of them after one that fails, no panic.
abbrev pub Carried : List Frame → Session × WriteResult → Type 0
Carried fs (t, wrote n) = Carries fs t
Carried fs (t, failed e) = CutsOff fs t
Carried fs (t, panicked) = ⊥

-- The items that are there, a frame and waste.
abbrev behind : List Item → Frame → List ℕ → List Item
behind is f ws = is ++ (framed f ∷ map wasted ws)

frames_of-behind :
    (is : List Item) (f : Frame) (ws : List ℕ)
    → frames_of (behind is f ws) ≡ frames_of is ++ (f ∷ [])
frames_of-behind is f ws =
    frames_of-append is (framed f ∷ map wasted ws)
    ∙ ap (λ x. frames_of is ++ (f ∷ x)) (frames_of-wastes ws)

traffic-behind :
    (is : List Item) (f : Frame) (ws : List ℕ) (w b : Bytes)
    → w ++ b ≡ traffic is
    → w ++ ((b ++ frame_bytes f) ++ wastes ws) ≡ traffic (behind is f ws)
unfolding traffic
traffic-behind is f ws w b e =
    sym (append_assoc w (b ++ frame_bytes f) (wastes ws))
    ∙ ap (λ x. x ++ wastes ws)
        (sym (append_assoc w b (frame_bytes f)) ∙ ap (λ x. x ++ frame_bytes f) e)
    ∙ append_assoc (traffic is) (frame_bytes f) (wastes ws)
    ∙ ap (λ x. traffic is ++ (frame_bytes f ++ x)) (sym (traffic-wastes ws))
    ∙ sym (traffic-append is (framed f ∷ map wasted ws))

IsSound-behind :
    (is : List Item) (f : Frame) (ws : List ℕ)
    → All IsSound is
    → IsWhole f
    → AreWasteLengths ws
    → All IsSound (behind is f ws)
IsSound-behind is f ws h w a = All-append IsSound is _ h (w, IsSound-wastes ws a)

Sends-Carried :
    (s : Session) (f : Frame) (fs : List Frame) (r : Session × WriteResult)
    → IsWhole f
    → Carries fs s
    → Sends s (frame_bytes f) r
    → Carried (fs ++ (f ∷ [])) r
Sends-Carried s f fs (t, wrote n) w (is, sound, e, on) (ws, safe, out) = (
  behind is f ws,
  IsSound-behind is f ws sound w safe,
  frames_of-behind is f ws ∙ ap (λ x. x ++ (f ∷ [])) e,
  out ∙ traffic-behind is f ws (wire s.conn) s.buffer on,
)
Sends-Carried s f fs (t, failed x) w (is, sound, e, on) (ws, k, safe, out) = (
  behind is f ws,
  drop k ((s.buffer ++ frame_bytes f) ++ wastes ws),
  IsSound-behind is f ws sound w safe,
  frames_of-behind is f ws ∙ ap (λ x. x ++ (f ∷ [])) e,
  ap (λ x. x ++ drop k ((s.buffer ++ frame_bytes f) ++ wastes ws)) out
      ∙ append_assoc (wire s.conn) _ _
      ∙ ap (◌++◌ (wire s.conn)) (take-append-drop k ((s.buffer ++ frame_bytes f) ++ wastes ws))
      ∙ traffic-behind is f ws (wire s.conn) s.buffer on,
)
Sends-Carried s f fs (t, panicked) w c h = absurd h

pub write_conn_locked-Carried :
    (env : Env) (s : Session) (f : Frame) (fs : List Frame)
    → IsSafePointer s.padding
    → IsWhole f
    → Carries fs s
    → Carried (fs ++ (f ∷ [])) (write_conn_locked env s (frame_bytes f))
write_conn_locked-Carried env s f fs safe w c =
    Sends-Carried s f fs (write_conn_locked env s (frame_bytes f)) w c
      (write_conn_locked-Sends env s (frame_bytes f) safe)

clear_deadline-Carried :
    (fs : List Frame) (r : Session × WriteResult) → Carried fs r → Carried fs (clear_deadline r)
clear_deadline-Carried fs (t, wrote n) h = h
clear_deadline-Carried fs (t, failed e) h = h
clear_deadline-Carried fs (t, panicked) h = h

close_on_error-Carried :
    (fs : List Frame) (n : ℕ) (r : Session × WriteResult)
    → Carried fs r
    → Carried fs (close_on_error n r)
close_on_error-Carried fs n (t, wrote m) h = h
close_on_error-Carried fs n (t, failed e) (is, rest, sound, same, on) =
    (is, rest, sound, same, ap (λ x. x ++ rest) (close_session-wire t) ∙ on)
close_on_error-Carried fs n (t, panicked) h = h

-- `writeControlFrame` puts a frame that fits its header behind the frames that the session has
-- sent, on the wire or in the buffer, with waste frames after it; if the write fails, a front of
-- those bytes is on the wire. The factory is one that `NewPaddingFactory` makes.
pub write_control_frame-Carried :
    (env : Env) (s : Session) (f : Frame) (fs : List Frame)
    → IsSafePointer s.padding
    → IsWhole f
    → Carries fs s
    → Carried (fs ++ (f ∷ [])) (write_control_frame env s f)
unfolding write_control_frame write_conn_with_deadline
write_control_frame-Carried env s f fs safe w c =
    let t = set_write_deadline s true in
    let gs = fs ++ (f ∷ []) in
    close_on_error-Carried gs (length f.payload)
      (clear_deadline (write_conn_locked env t (frame_bytes f)))
      (clear_deadline-Carried gs (write_conn_locked env t (frame_bytes f))
        (write_conn_locked-Carried env t f fs safe w c))
