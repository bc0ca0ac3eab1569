-- ===== src/Session/Recv/Rounds.antt =====
-- The receive loop ends: each round takes at least a header, so the rounds that `recv_loop` allows
-- are more than it can use.
use server_anytls.Prelude.{
  [], ◌∷◌, none, ℕ, zero, suc, ◌+◌, ◌≤◌, ◌<◌, ◌≡◌, refl, sym, Bytes, length, ltb, ◌==◌, if_elim,
  arith, Result, ok, err, length-drop, nat_eq, subst, Error, eof, unexpected_eof, ◌-◌,
}
use native.Mathlib.Decide.{dec_le}
use server_anytls.Env.{Env}
use server_anytls.Wire.{
  header_over_head_size, cmd_waste, cmd_syn, cmd_psh, cmd_fin, cmd_settings, cmd_alert,
  cmd_update_padding_scheme, cmd_syn_ack, cmd_heart_request, cmd_server_settings,
}
use server_anytls.Session.Recv.{
  Receiver, Recv, goes_on, stops, stalls, panics, read_full, payload_or_skip, with_payload,
  dispatch, recv_step, dispatch_header, next_frame, recv_rounds, recv_loop, close_at_end,
}
use server_anytls.Session.Recv.Uniform.{
  with_rest, IsUniform, deliver-IsUniform, on_syn-IsUniform, refuse_stream-IsUniform,
  on_settings-IsUniform, on_server_settings-IsUniform, on_update_padding_scheme-IsUniform,
  after_frame-IsUniform,
}

-- The input that is left has at most `n` bytes.
abbrev Leaves : ℕ → Recv → Type 0
Leaves n (goes_on v rest) = length rest ≤ n
Leaves n _ = Unit {0}

with_rest-Leaves : (n : ℕ) (r : Recv) (rest : Bytes) → length rest ≤ n → Leaves n (with_rest r rest)
with_rest-Leaves n (goes_on v x) rest h = h
with_rest-Leaves n (stops v e) rest h = tt
with_rest-Leaves n (stalls v r left x) rest h = tt
with_rest-Leaves n (panics v) rest h = tt

IsUniform-Leaves :
    (n : ℕ) (h : Bytes → Recv) (rest : Bytes) → IsUniform h → length rest ≤ n → Leaves n (h rest)
IsUniform-Leaves n h rest u le = subst (Leaves n) (sym (u rest)) (with_rest-Leaves n (h []) rest le)

abbrev ReadsWithin : ℕ → Result (Bytes × Bytes) → Type 0
ReadsWithin n (ok (b, rest)) = length rest ≤ n
ReadsWithin n (err e) = Unit {0}

read_full-ReadsWithin :
    (k : ℕ) (input : Bytes) (n : ℕ) → length input ≤ k + n → ReadsWithin n (read_full k input)
unfolding read_full
read_full-ReadsWithin k input n h = ground (arith, length-drop k input)

module _ (n : ℕ) (v : Receiver) where
  with_payload-Leaves :
      (o : Result (Bytes × Bytes)) (k : Bytes → Bytes → Recv)
      → ((b : Bytes) → IsUniform (k b))
      → ReadsWithin n o
      → Leaves n (with_payload v o k)
  with_payload-Leaves (err e) k u h = tt
  with_payload-Leaves (ok (b, rest)) k u h = IsUniform-Leaves n (k b) rest (u b) h

  payload_or_skip-Leaves :
      (len : ℕ) (input : Bytes) (k : Bytes → Bytes → Recv)
      → ((b : Bytes) → IsUniform (k b))
      → length input ≤ n
      → Leaves n (payload_or_skip v len input k)
  unfolding payload_or_skip
  payload_or_skip-Leaves len input k u h =
      if_elim (Leaves n) (ltb 0 len)
        (λ _. with_payload-Leaves _ k u (read_full-ReadsWithin len input n (omega arith))) (λ _. h)

dispatch-Leaves :
    (env : Env) (v : Receiver) (n cmd sid len : ℕ) (input : Bytes)
    → length input ≤ n
    → Leaves n (dispatch env v cmd sid len input)
unfolding dispatch
dispatch-Leaves env v n cmd sid len input h =
    if_elim (Leaves n) (cmd == cmd_psh)
      (λ _. payload_or_skip-Leaves n v len input _ (deliver-IsUniform v _) h)
      λ _.
        if_elim (Leaves n) (cmd == cmd_syn)
          (λ _. IsUniform-Leaves n _ input (on_syn-IsUniform env v sid) h)
          λ _.
            if_elim (Leaves n) (cmd == cmd_syn_ack)
              (λ _. payload_or_skip-Leaves n _ len input _ (refuse_stream-IsUniform env _ _) h)
              λ _.
                if_elim (Leaves n) (cmd == cmd_fin) (λ _. h)
                  λ _.
                    if_elim (Leaves n) (cmd == cmd_waste)
                      (λ _.
                        payload_or_skip-Leaves n v len input (λ _ rest. goes_on v rest)
                          (λ b y. refl) h)
                      λ _.
                        if_elim (Leaves n) (cmd == cmd_settings)
                          (λ _.
                            payload_or_skip-Leaves n v len input _ (on_settings-IsUniform env v) h)
                          λ _.
                            if_elim (Leaves n) (cmd == cmd_alert)
                              (λ _.
                                payload_or_skip-Leaves n v len input (λ _ rest. stops v none)
                                  (λ b y. refl) h)
                              λ _.
                                if_elim (Leaves n) (cmd == cmd_update_padding_scheme)
                                  (λ _.
                                    payload_or_skip-Leaves n v len input _
                                      (on_update_padding_scheme-IsUniform env v) h)
                                  λ _.
                                    if_elim (Leaves n) (cmd == cmd_heart_request)
                                      (λ _.
                                        IsUniform-Leaves n _ input
                                          (after_frame-IsUniform v _ (λ w y. goes_on w y)
                                            (λ w y. refl))
                                          h)
                                      λ _.
                                        if_elim (Leaves n) (cmd == cmd_server_settings)
                                          (λ _.
                                            payload_or_skip-Leaves n v len input _
                                              (on_server_settings-IsUniform v) h)
                                          λ _. h

-- A round that goes on has taken a header.
abbrev pub Shorter : Bytes → Recv → Type 0
Shorter input (goes_on v rest) = length rest + header_over_head_size ≤ length input
Shorter input _ = Unit {0}

Leaves-Shorter :
    (input : Bytes) (r : Recv)
    → header_over_head_size ≤ length input
    → Leaves (length input - header_over_head_size) r
    → Shorter input r
Leaves-Shorter input (goes_on v rest) h l = omega arith
Leaves-Shorter input (stops v e) h l = tt
Leaves-Shorter input (stalls v r left rest) h l = tt
Leaves-Shorter input (panics v) h l = tt

dispatch_header-Leaves :
    (env : Env) (v : Receiver) (n : ℕ) (o : Result (Bytes × Bytes))
    → ReadsWithin n o
    → Leaves n (dispatch_header env v o)
dispatch_header-Leaves env v n (err e) h = tt
dispatch_header-Leaves env v n (ok (b, rest)) h = dispatch-Leaves env v n _ _ _ rest h

read_full_short :
    (k : ℕ) (input : Bytes) → length input < k → (e : Error) × (read_full k input ≡ err e)
unfolding read_full
read_full_short k [] h = (eof, ground arith)
read_full_short k (c ∷ input) h = (unexpected_eof, ground arith)

pub recv_step-Shorter :
    (env : Env) (v : Receiver) (input : Bytes) → Shorter input (recv_step env v input)
unfolding recv_step
recv_step-Shorter env v input = elim (dec_le header_over_head_size (length input)) [
  | yes h ↦ Leaves-Shorter input _ h (
      dispatch_header-Leaves env v (length input - header_over_head_size) _
        (read_full-ReadsWithin header_over_head_size input _ (omega arith)))
  | no h ↦ let (e, short) = read_full_short header_over_head_size input (omega arith) in rw short tt
]

pub next_frame_stable :
    (input : Bytes) (k k' : Receiver → Bytes → Recv) (r : Recv)
    → Shorter input r
    → ((v : Receiver) (rest : Bytes)
        → length rest + header_over_head_size ≤ length input
        → k v rest ≡ k' v rest)
    → next_frame k r ≡ next_frame k' r
next_frame_stable input k k' (goes_on v rest) h same = same v rest h
next_frame_stable input k k' (stops v e) h same = refl
next_frame_stable input k k' (stalls v r left rest) h same = refl
next_frame_stable input k k' (panics v) h same = refl

-- With more rounds than bytes their number does not matter.
pub recv_rounds_stable :
    (env : Env) (n m : ℕ) (v : Receiver) (input : Bytes)
    → length input < n
    → length input < m
    → recv_rounds env n v input ≡ recv_rounds env m v input
unfolding recv_rounds
recv_rounds_stable env zero m v input h g = absurd (omega arith)
recv_rounds_stable env (suc n) zero v input h g = absurd (omega arith)
recv_rounds_stable env (suc n) (suc m) v input h g =
    next_frame_stable input (recv_rounds env n) (recv_rounds env m) (recv_step env v input)
      (recv_step-Shorter env v input)
      (λ w rest le. recv_rounds_stable env n m w rest (omega arith) (omega arith))

-- The loop has returned, or is parked in a write to a pipe.
abbrev pub HasEnded : Recv → Type 0
HasEnded (goes_on v rest) = ⊥
HasEnded (panics v) = ⊥
HasEnded _ = Unit {0}

abbrev IsOver : Recv → Type 0
IsOver (goes_on v rest) = ⊥
IsOver _ = Unit {0}

next_frame-IsOver :
    (input : Bytes) (k : Receiver → Bytes → Recv) (r : Recv)
    → Shorter input r
    → ((v : Receiver) (rest : Bytes)
        → length rest + header_over_head_size ≤ length input
        → IsOver (k v rest))
    → IsOver (next_frame k r)
next_frame-IsOver input k (goes_on v rest) h over = over v rest h
next_frame-IsOver input k (stops v e) h over = tt
next_frame-IsOver input k (stalls v r left rest) h over = tt
next_frame-IsOver input k (panics v) h over = tt

recv_rounds-IsOver :
    (env : Env) (n : ℕ) (v : Receiver) (input : Bytes)
    → length input < n
    → IsOver (recv_rounds env n v input)
unfolding recv_rounds
recv_rounds-IsOver env zero v input h = absurd (omega arith)
recv_rounds-IsOver env (suc n) v input h =
    next_frame-IsOver input (recv_rounds env n) (recv_step env v input)
      (recv_step-Shorter env v input) (λ w rest le. recv_rounds-IsOver env n w rest (omega arith))

close_at_end-HasEnded : (r : Recv) → IsOver r → HasEnded (close_at_end r)
close_at_end-HasEnded (goes_on v rest) h = h
close_at_end-HasEnded (stops v e) h = tt
close_at_end-HasEnded (stalls v r left rest) h = tt
close_at_end-HasEnded (panics v) h = tt

-- On any input, well-formed or not, `recvLoop` returns or waits for a reader of one of its pipes,
-- and no panic leaves it.
pub recv_loop-HasEnded :
    (env : Env) (v : Receiver) (input : Bytes) → HasEnded (recv_loop env v input)
unfolding recv_loop
recv_loop-HasEnded env v input =
    close_at_end-HasEnded _ (recv_rounds-IsOver env (suc (length input)) v input (omega arith))
