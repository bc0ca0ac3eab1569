-- ===== src/Session/Framing/Data.antt =====
-- session.go, `writeDataFrame`: the data is cut into frames and sent.
use server_anytls.Prelude.{
  ℕ, zero, suc, ◌≤◌, ◌<◌, ◌^◌, ◌≡◌, refl, sym, ap, ◌∙◌, List, [], ◌∷◌, ◌++◌, Option, Bytes, length,
  take, drop, nat_eq, arith, All, append-nil, append_assoc, take-append-drop, length-take,
  length-drop, subst,
}
use mathlib.Core.Bool.{false≢true}
use server_anytls.Env.{Env}
use server_anytls.Wire.{Frame, frame_bytes, cmd_psh}
use server_anytls.Padding.{PaddingFactory}
use server_anytls.Padding.Bounds.{IsSafePointer}
use server_anytls.Session.State.{Session, WriteResult, wrote, failed, panicked}
use server_anytls.Session.Send.{write_conn_locked}
use server_anytls.Session.Streams.{
  max_frame_payload, data_frame, next_chunk, write_chunks, write_data_frame,
}
use server_anytls.Session.Recv.Frames.{IsWhole}
use server_anytls.Session.Framing.{
  Holds, Carries, CutsOff, Carried, write_conn_locked-Holds, write_conn_locked-Carried,
}

-- The frames that `writeDataFrame` makes of `b`.
abbrev pub data_frames : ℕ → ℕ → Bytes → List Frame
data_frames zero sid b = []
data_frames (suc rounds) sid [] = []
data_frames (suc rounds) sid (c ∷ b) =
    data_frame sid (take max_frame_payload (c ∷ b))
    ∷ data_frames rounds sid (drop max_frame_payload (c ∷ b))

-- The payloads of frames, joined.
abbrev pub payloads : List Frame → Bytes
payloads [] = []
payloads (f ∷ fs) = f.payload ++ payloads fs

-- A data frame of the stream, not empty and small enough for its header.
pub record IsDataFrame (sid : ℕ) (f : Frame) : Type 0 where
  pub cmd_is : f.cmd ≡ cmd_psh
  pub sid_is : f.sid ≡ sid
  pub some_payload : 1 ≤ length f.payload
  pub fits : length f.payload ≤ max_frame_payload

pub data_frames-IsDataFrame :
    (rounds sid : ℕ) (b : Bytes) → All (IsDataFrame sid) (data_frames rounds sid b)
data_frames-IsDataFrame zero sid b = tt
data_frames-IsDataFrame (suc rounds) sid [] = tt
data_frames-IsDataFrame (suc rounds) sid (c ∷ b) = (
  record {
    cmd_is = refl;
    sid_is = refl;
    some_payload = omega (arith, length-take max_frame_payload (c ∷ b));
    fits = omega (arith, length-take max_frame_payload (c ∷ b));
  },
  data_frames-IsDataFrame rounds sid (drop max_frame_payload (c ∷ b)),
)

pub payloads-data_frames :
    (rounds sid : ℕ) (b : Bytes) → length b ≤ rounds → payloads (data_frames rounds sid b) ≡ b
payloads-data_frames zero sid [] h = refl
payloads-data_frames zero sid (c ∷ b) h = absurd (omega arith)
payloads-data_frames (suc rounds) sid [] h = refl
payloads-data_frames (suc rounds) sid (c ∷ b) h =
    ap (◌++◌ (take max_frame_payload (c ∷ b))) (
      payloads-data_frames rounds sid (drop max_frame_payload (c ∷ b))
        (omega (arith, length-drop max_frame_payload (c ∷ b))))
    ∙ take-append-drop max_frame_payload (c ∷ b)

-- After a success the frames `gs` have gone out behind `fs`, and the total is returned; after a
-- failure it is the frames `hs` in front of them, the last one perhaps in part.
abbrev pub SendsData : List Frame → List Frame → ℕ → Session × WriteResult → Type 0
SendsData fs gs total (t, wrote n) = Carries (fs ++ gs) t × (n ≡ total)
SendsData fs gs total (t, failed e) =
    (hs : List Frame) × (js : List Frame) × (hs ++ js ≡ gs) × CutsOff (fs ++ hs) t
SendsData fs gs total (t, panicked) = ⊥

SendsData-cons :
    (fs gs : List Frame) (f : Frame) (total : ℕ) (r : Session × WriteResult)
    → SendsData (fs ++ (f ∷ [])) gs total r
    → SendsData fs (f ∷ gs) total r
SendsData-cons fs gs f total (t, wrote n) (c, e) =
    (subst (λ x. Carries x t) (append_assoc fs (f ∷ []) gs) c, e)
SendsData-cons fs gs f total (t, failed e) (hs, js, same, c) =
    (f ∷ hs, js, ap (◌∷◌ f) same, subst (λ x. CutsOff x t) (append_assoc fs (f ∷ []) hs) c)
SendsData-cons fs gs f total (t, panicked) h = absurd h

next_chunk-SendsData :
    (p : Option PaddingFactory) (fs gs : List Frame) (f : Frame) (total : ℕ)
    (k : Session → Session × WriteResult) (r : Session × WriteResult)
    → Holds p r
    → Carried (fs ++ (f ∷ [])) r
    → ((t : Session)
        → t.padding ≡ p
        → Carries (fs ++ (f ∷ [])) t
        → SendsData (fs ++ (f ∷ [])) gs total (k t))
    → SendsData fs (f ∷ gs) total (next_chunk k r)
next_chunk-SendsData p fs gs f total k (t, wrote n) h c rest =
    SendsData-cons fs gs f total (k t) (rest t h c)
next_chunk-SendsData p fs gs f total k (t, failed e) h c rest = (f ∷ [], gs, refl, c)
next_chunk-SendsData p fs gs f total k (t, panicked) h c rest = absurd c

data_frame-IsWhole :
    (sid : ℕ) (b : Bytes) → sid < 2 ^ 32 → IsWhole (data_frame sid (take max_frame_payload b))
data_frame-IsWhole sid b h = record {
  sid_fits = h;
  length_fits = omega (arith, length-take max_frame_payload b);
  bare = λ e. absurd (false≢true (sym e));
}

write_chunks-SendsData :
    (env : Env) (rounds : ℕ) (s : Session) (sid : ℕ) (b : Bytes) (total : ℕ) (fs : List Frame)
    → IsSafePointer s.padding
    → sid < 2 ^ 32
    → Carries fs s
    → SendsData fs (data_frames rounds sid b) total (write_chunks env rounds s sid b total)
unfolding write_chunks
write_chunks-SendsData env zero s sid b total fs safe h c =
    (subst (λ x. Carries x s) (sym (append-nil fs)) c, refl)
write_chunks-SendsData env (suc rounds) s sid [] total fs safe h c =
    (subst (λ x. Carries x s) (sym (append-nil fs)) c, refl)
write_chunks-SendsData env (suc rounds) s sid (x ∷ b) total fs safe h c =
    let f = data_frame sid (take max_frame_payload (x ∷ b)) in
    let rest = drop max_frame_payload (x ∷ b) in
    next_chunk-SendsData s.padding fs (data_frames rounds sid rest) f total
      (λ t. write_chunks env rounds t sid rest total) (write_conn_locked env s (frame_bytes f))
      (write_conn_locked-Holds env s (frame_bytes f))
      (write_conn_locked-Carried env s f fs safe (data_frame-IsWhole sid (x ∷ b) h) c)
      (λ t e d.
        write_chunks-SendsData env rounds t sid rest total (fs ++ (f ∷ []))
          (subst IsSafePointer (sym e) safe) h d)

-- What `writeDataFrame` promises: it cuts `b` into data frames of the stream, each with a payload
-- of 1 to 65529 bytes, whose payloads are `b` in order, and sends them.
abbrev pub CarriesData : List Frame → ℕ → Bytes → Session × WriteResult → Type 0
CarriesData fs sid b r =
    (gs : List Frame) × All (IsDataFrame sid) gs × (payloads gs ≡ b) × SendsData fs gs (length b) r

pub write_data_frame-CarriesData :
    (env : Env) (s : Session) (sid : ℕ) (b : Bytes) (fs : List Frame)
    → IsSafePointer s.padding
    → sid < 2 ^ 32
    → Carries fs s
    → CarriesData fs sid b (write_data_frame env s sid b)
unfolding write_data_frame
write_data_frame-CarriesData env s sid b fs safe h c = (
  data_frames (length b) sid b,
  data_frames-IsDataFrame (length b) sid b,
  payloads-data_frames (length b) sid b (omega arith),
  write_chunks-SendsData env (length b) s sid b (length b) fs safe h c,
)
