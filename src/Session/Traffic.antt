-- ===== src/Session/Traffic.antt =====
-- The byte stream of a session as frames with waste between them.
use server_anytls.Prelude.{
  ℕ, ◌≤◌, ◌≡◌, refl, sym, ap, ◌∙◌, List, [], ◌∷◌, ◌++◌, Bytes, map, replicate, length-replicate,
  All, append_assoc, arith,
}
use server_anytls.Wire.{Frame, frame_bytes, cmd_waste, header}
use server_anytls.Padding.{max_padding_size}
use server_anytls.Session.Send.Padded.{waste_frame, wastes, AreWasteLengths}
use server_anytls.Session.Recv.Frames.{IsWhole}

pub data Item : Type 0 where
  framed : Frame → Item
  wasted : ℕ → Item

abbrev pub item_bytes : Item → Bytes
item_bytes (framed f) = frame_bytes f
item_bytes (wasted n) = waste_frame n

unfoldable pub traffic : List Item → Bytes
traffic [] = []
traffic (i ∷ is) = item_bytes i ++ traffic is

-- The frames without the waste.
abbrev pub frames_of : List Item → List Frame
frames_of [] = []
frames_of (framed f ∷ is) = f ∷ frames_of is
frames_of (wasted n ∷ is) = frames_of is

abbrev pub IsSound : Item → Type 0
IsSound (framed f) = IsWhole f
IsSound (wasted n) = n ≤ max_padding_size

-- The same frames with nothing between them.
unfoldable pub frames_bytes : List Frame → Bytes
frames_bytes [] = []
frames_bytes (f ∷ fs) = frame_bytes f ++ frames_bytes fs

pub traffic-append : (is js : List Item) → traffic (is ++ js) ≡ traffic is ++ traffic js
unfolding traffic
traffic-append [] js = refl
traffic-append (i ∷ is) js =
    ap (◌++◌ (item_bytes i)) (traffic-append is js) ∙ sym (append_assoc (item_bytes i) _ _)

pub frames_of-append : (is js : List Item) → frames_of (is ++ js) ≡ frames_of is ++ frames_of js
frames_of-append [] js = refl
frames_of-append (framed f ∷ is) js = ap (◌∷◌ f) (frames_of-append is js)
frames_of-append (wasted n ∷ is) js = frames_of-append is js

pub traffic-wastes : (ws : List ℕ) → traffic (map wasted ws) ≡ wastes ws
unfolding traffic
traffic-wastes [] = refl
traffic-wastes (n ∷ ws) = ap (◌++◌ (waste_frame n)) (traffic-wastes ws)

pub frames_of-wastes : (ws : List ℕ) → frames_of (map wasted ws) ≡ []
frames_of-wastes [] = refl
frames_of-wastes (n ∷ ws) = frames_of-wastes ws

pub IsSound-wastes : (ws : List ℕ) → AreWasteLengths ws → All IsSound (map wasted ws)
IsSound-wastes [] h = tt
IsSound-wastes (n ∷ ws) h = (h.0, IsSound-wastes ws h.1)

-- Waste is a frame too, of the command that the loop skips.
abbrev pub waste_as_frame : ℕ → Frame
waste_as_frame n = record { cmd = cmd_waste; sid = 0; payload = replicate n 0 }

pub frame_bytes-waste : (n : ℕ) → frame_bytes (waste_as_frame n) ≡ waste_frame n
unfolding frame_bytes
frame_bytes-waste n = ap (λ k. header cmd_waste 0 k ++ replicate n 0) (length-replicate n 0)

pub waste-IsWhole : (n : ℕ) → n ≤ max_padding_size → IsWhole (waste_as_frame n)
waste-IsWhole n h = record {
  sid_fits = omega arith;
  length_fits = omega (arith, length-replicate {A = ℕ} n 0);
  bare = λ e. cc;
}
