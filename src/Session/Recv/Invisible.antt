-- ===== src/Session/Recv/Invisible.antt =====
-- Padding is invisible to the receiver.
use server_anytls.Prelude.{
  ℕ, suc, ◌≡◌, refl, sym, ap, ◌∙◌, List, [], ◌∷◌, ◌++◌, Bytes, length, replicate, All, append_assoc,
  arith, ◌⊎◌, inl, inr,
}
use server_anytls.Env.{Env}
use server_anytls.Wire.{Frame, frame_bytes}
use server_anytls.Session.Recv.{
  Receiver, Recv, goes_on, stops, stalls, panics, recv_step, next_frame, recv_rounds, recv_loop,
  close_at_end,
}
use server_anytls.Session.Recv.Uniform.{with_rest}
use server_anytls.Session.Recv.Frames.{IsWhole, act, act-rest, act-waste, recv_step-frame_bytes}
use server_anytls.Session.Recv.Rounds.{recv_rounds_stable, next_frame_stable, recv_step-Shorter}
use server_anytls.Session.Traffic.{
  Item, framed, wasted, item_bytes, traffic, frames_of, frames_bytes, IsSound, waste_as_frame,
  frame_bytes-waste, waste-IsWhole,
}

-- The rounds, with as many as the input can use.
abbrev pub rounds : Env → Receiver → Bytes → Recv
rounds env v input = recv_rounds env (suc (length input)) v input

rounds_lem :
    (env : Env) (v : Receiver) (input : Bytes)
    → rounds env v input ≡ next_frame (rounds env) (recv_step env v input)
unfolding recv_rounds
rounds_lem env v input =
    next_frame_stable input (recv_rounds env (length input)) (rounds env) (recv_step env v input)
      (recv_step-Shorter env v input)
      (λ w rest h.
        recv_rounds_stable env (length input) (suc (length rest)) w rest (omega arith)
          (omega arith))

pub rounds-frame :
    (env : Env) (v : Receiver) (f : Frame) (x : Bytes)
    → IsWhole f
    → rounds env v (frame_bytes f ++ x) ≡ next_frame (rounds env) (with_rest (act env v f []) x)
rounds-frame env v f x w =
    rounds_lem env v (frame_bytes f ++ x)
    ∙ ap (next_frame (rounds env)) (recv_step-frame_bytes env v f x w ∙ act-rest env v f x w.bare)

rounds-waste :
    (env : Env) (v : Receiver) (n : ℕ) (x : Bytes)
    → IsSound (wasted n)
    → rounds env v (item_bytes (wasted n) ++ x) ≡ rounds env v x
rounds-waste env v n x h =
    ap (λ b. rounds env v (b ++ x)) (sym (frame_bytes-waste n))
    ∙ rounds_lem env v (frame_bytes (waste_as_frame n) ++ x)
    ∙ ap (next_frame (rounds env)) (
        recv_step-frame_bytes env v (waste_as_frame n) x (waste-IsWhole n h)
        ∙ act-waste env v 0 (replicate n 0) x)

-- Two outcomes that are equal, or parked in the same write with, behind the frame in hand, the
-- same frames to come, here with waste between them and there without.
abbrev pub Alike : Bytes → Recv → Recv → Type 0
Alike x a b =
    (a ≡ b)
    ⊎ ((v : Receiver) × (r : ℕ) × (left : Bytes) × (is : List Item) × (a
          ≡ stalls v r left (traffic is ++ x))
        × (b ≡ stalls v r left (frames_bytes (frames_of is) ++ x)))

next_frame-Alike :
    (env : Env) (is : List Item) (x : Bytes) (r : Recv)
    → ((v : Receiver)
        → Alike x
            (rounds env v (traffic is ++ x))
            (rounds env v (frames_bytes (frames_of is) ++ x)))
    → Alike x
        (next_frame (rounds env) (with_rest r (traffic is ++ x)))
        (next_frame (rounds env) (with_rest r (frames_bytes (frames_of is) ++ x)))
next_frame-Alike env is x (goes_on v rest) h = h v
next_frame-Alike env is x (stops v e) h = inl refl
next_frame-Alike env is x (stalls v r left rest) h = inr (v, r, left, is, refl, refl)
next_frame-Alike env is x (panics v) h = inl refl

Alike-resp : (x : Bytes) (a a' b b' : Recv) → a ≡ a' → b ≡ b' → Alike x a' b' → Alike x a b
Alike-resp x a a' b b' p q (inl e) = inl (p ∙ e ∙ sym q)
Alike-resp x a a' b b' p q (inr (v, r, left, is, e, f)) = inr (v, r, left, is, p ∙ e, q ∙ f)

pub rounds-Alike :
    (env : Env) (v : Receiver) (is : List Item) (x : Bytes)
    → All IsSound is
    → Alike x (rounds env v (traffic is ++ x)) (rounds env v (frames_bytes (frames_of is) ++ x))
unfolding traffic frames_bytes
rounds-Alike env v [] x h = inl refl
rounds-Alike env v (framed f ∷ is) x h =
    Alike-resp x _ _ _ _
      (ap (rounds env v) (append_assoc (frame_bytes f) (traffic is) x) ∙ rounds-frame env v f _ h.0)
      (ap (rounds env v) (append_assoc (frame_bytes f) (frames_bytes (frames_of is)) x)
        ∙ rounds-frame env v f _ h.0)
      (next_frame-Alike env is x (act env v f []) (λ w. rounds-Alike env w is x h.1))
rounds-Alike env v (wasted n ∷ is) x h =
    Alike-resp x _ _ _ _
      (ap (rounds env v) (append_assoc (item_bytes (wasted n)) (traffic is) x)
        ∙ rounds-waste env v n _ h.0)
      refl (rounds-Alike env v is x h.1)

close_at_end-Alike :
    (x : Bytes) (a b : Recv) → Alike x a b → Alike x (close_at_end a) (close_at_end b)
close_at_end-Alike x a b (inl e) = inl (ap close_at_end e)
close_at_end-Alike x a b (inr (v, r, left, is, e, f)) =
    inr (v, r, left, is, ap close_at_end e, ap close_at_end f)

-- Over a byte stream of whole frames with waste frames anywhere between them, the receive loop
-- does what it does over the frames alone: it ends in the same way and the same state, or both are
-- parked in the same write, in the same state, with the same frames to come.
pub recv_loop-Alike :
    (env : Env) (v : Receiver) (is : List Item) (x : Bytes)
    → All IsSound is
    → Alike x
        (recv_loop env v (traffic is ++ x))
        (recv_loop env v (frames_bytes (frames_of is) ++ x))
unfolding recv_loop
recv_loop-Alike env v is x h = close_at_end-Alike x _ _ (rounds-Alike env v is x h)
