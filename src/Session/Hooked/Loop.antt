-- ===== src/Session/Hooked/Loop.antt =====
-- The receive loop and the hook of its session.
use server_anytls.Prelude.{
  ℕ, zero, suc, ◌≡◌, refl, sym, ◌∙◌, Bool-cases, true, none, Bytes, Result, ok, err, length, ltb,
  ◌==◌, if_elim, nat_eq, bytes_eq, inl, inr,
}
use server_anytls.Prelude.Maps.{lookup}
use server_anytls.Env.{Env}
use server_anytls.Wire.{
  new_frame, header_cmd, header_stream_id, header_length, header_over_head_size, cmd_waste, cmd_syn,
  cmd_psh, cmd_fin, cmd_settings, cmd_alert, cmd_update_padding_scheme, cmd_syn_ack,
  cmd_heart_request, cmd_heart_response, cmd_server_settings,
}
use server_anytls.Session.State.{Session}
use server_anytls.Session.Streams.{close_session, write_control_frame}
use server_anytls.Session.Recv.{
  Receiver, Recv, goes_on, stops, stalls, panics, with_session, deliver, stop_syn_watch,
  refuse_stream, on_settings, on_server_settings, on_update_padding_scheme, with_payload,
  payload_or_skip, dispatch, dispatch_header, recv_step, next_frame, recv_rounds, close_at_end,
  recv_loop, read_full,
}
use mathlib.Core.Bool.{false≢true}
use server_anytls.Session.Closed.{close_session-IsShut}
use server_anytls.Session.Hooked.{
  IsHooked, hook_runs, close_session-IsHooked, write_control_frame-IsHooked,
}
use server_anytls.Session.Hooked.Commands.{
  Hooked, after_frame-Hooked, deliver-Hooked, on_syn-Hooked, stop_syn_watch-IsHooked,
  refuse_stream-Hooked, finish_stream-IsHooked, on_settings-Hooked, on_server_settings-Hooked,
  on_update_padding_scheme-Hooked,
}

with_payload-Hooked :
    (v : Receiver) (o : Result (Bytes × Bytes)) (k : Bytes → Bytes → Recv)
    → IsHooked v.session
    → ((text rest : Bytes) → Hooked (k text rest))
    → Hooked (with_payload v o k)
with_payload-Hooked v (err e) k h f = h
with_payload-Hooked v (ok (text, rest)) k h f = f text rest

payload_or_skip-Hooked :
    (v : Receiver) (len : ℕ) (input : Bytes) (k : Bytes → Bytes → Recv)
    → IsHooked v.session
    → ((text rest : Bytes) → Hooked (k text rest))
    → Hooked (payload_or_skip v len input k)
unfolding payload_or_skip
payload_or_skip-Hooked v len input k h f =
    if_elim Hooked (ltb 0 len) (λ _. with_payload-Hooked v (read_full len input) k h f) (λ _. h)

dispatch-Hooked :
    (env : Env) (v : Receiver) (cmd sid len : ℕ) (input : Bytes)
    → IsHooked v.session
    → Hooked (dispatch env v cmd sid len input)
unfolding dispatch
dispatch-Hooked env v cmd sid len input h =
    let skip = payload_or_skip-Hooked v len input in
    if_elim Hooked (cmd == cmd_psh)
      (λ _.
        let o = lookup sid v.session.streams in
        skip (deliver v o) h (λ b rest. deliver-Hooked v o b rest h))
      λ _.
        if_elim Hooked (cmd == cmd_syn) (λ _. on_syn-Hooked env v sid input h)
          λ _.
            if_elim Hooked (cmd == cmd_syn_ack)
              (λ _.
                let w = with_session v (stop_syn_watch v.session) in
                let g = stop_syn_watch-IsHooked v.session h in
                let o = lookup sid w.session.streams in
                payload_or_skip-Hooked w len input (refuse_stream env w o) g
                  (λ text rest. refuse_stream-Hooked env w o text rest g))
              λ _.
                if_elim Hooked (cmd == cmd_fin)
                  (λ _. finish_stream-IsHooked v.session sid (lookup sid v.session.streams) h)
                  λ _.
                    if_elim Hooked (cmd == cmd_waste)
                      (λ _. skip (λ text rest. goes_on v rest) h (λ text rest. h))
                      λ _.
                        if_elim Hooked (cmd == cmd_settings)
                          (λ _.
                            skip (on_settings env v) h
                              (λ text rest. on_settings-Hooked env v text rest h))
                          λ _.
                            if_elim Hooked (cmd == cmd_alert)
                              (λ _. skip (λ text rest. stops v none) h (λ text rest. h))
                              λ _.
                                if_elim Hooked (cmd == cmd_update_padding_scheme)
                                  (λ _. skip (on_update_padding_scheme env v) h (λ text rest.
                                    on_update_padding_scheme-Hooked env v text rest h))
                                  λ _.
                                    if_elim Hooked (cmd == cmd_heart_request)
                                      (λ _.
                                        let f = new_frame cmd_heart_response sid in
                                        after_frame-Hooked v (write_control_frame env v.session f)
                                          (λ w. goes_on w input)
                                          (write_control_frame-IsHooked env v.session f h)
                                          (λ w g. g))
                                      λ _.
                                        if_elim Hooked (cmd == cmd_server_settings)
                                          (λ _.
                                            skip (on_server_settings v) h (λ text rest.
                                              on_server_settings-Hooked v text rest h))
                                          (λ _. h)

recv_step-Hooked :
    (env : Env) (v : Receiver) (input : Bytes) → IsHooked v.session → Hooked (recv_step env v input)
unfolding recv_step
recv_step-Hooked env v input h = of_header (read_full header_over_head_size input)
  where
    of_header : (o : Result (Bytes × Bytes)) → Hooked (dispatch_header env v o)
    of_header (err e) = h
    of_header (ok (hdr, rest)) =
        dispatch-Hooked env v (header_cmd hdr) (header_stream_id hdr) (header_length hdr) rest h

next_frame-Hooked :
    (k : Receiver → Bytes → Recv) (r : Recv)
    → Hooked r
    → ((w : Receiver) (rest : Bytes) → IsHooked w.session → Hooked (k w rest))
    → Hooked (next_frame k r)
next_frame-Hooked k (goes_on v rest) h f = f v rest h
next_frame-Hooked k (stops v e) h f = h
next_frame-Hooked k (stalls v r left rest) h f = h
next_frame-Hooked k (panics v) h f = h

recv_rounds-Hooked :
    (env : Env) (n : ℕ) (v : Receiver) (input : Bytes)
    → IsHooked v.session
    → Hooked (recv_rounds env n v input)
unfolding recv_rounds
recv_rounds-Hooked env zero v input h = h
recv_rounds-Hooked env (suc n) v input h =
    next_frame-Hooked (recv_rounds env n) (recv_step env v input) (recv_step-Hooked env v input h)
      (λ w rest g. recv_rounds-Hooked env n w rest g)

-- A loop that has returned has closed its session, and the hook has run once; one that waits has
-- done so or left the hook for later.
abbrev pub HasRun : Recv → Type 0
HasRun (stops v e) = (v.session.dead ≡ true) × (hook_runs v.session.effects ≡ 1)
HasRun (goes_on v rest) = IsHooked v.session
HasRun (stalls v r left rest) = IsHooked v.session
HasRun (panics v) = ⊥

close_session-dead : (s : Session) → s.dead ≡ true → ((close_session s).0).dead ≡ true
unfolding close_session
close_session-dead s e = rw e refl

close_session-HasRun :
    (s : Session)
    → IsHooked s
    → (((close_session s).0).dead ≡ true) × (hook_runs ((close_session s).0).effects ≡ 1)
close_session-HasRun s h = of_cases (close_session-IsHooked s h)
  where
    dead : ((close_session s).0).dead ≡ true
    dead = elim (Bool-cases s.dead) [
      | inl e ↦ close_session-dead s e
      | inr e ↦ ((close_session-IsShut s e).0).dead
    ]

    of_cases :
        IsHooked ((close_session s).0)
        → (((close_session s).0).dead ≡ true) × (hook_runs ((close_session s).0).effects ≡ 1)
    of_cases (inl k) = absurd (false≢true (sym k.0 ∙ dead))
    of_cases (inr k) = (k.0, k.2)

close_at_end-HasRun : (r : Recv) → Hooked r → HasRun (close_at_end r)
close_at_end-HasRun (stops v e) h = close_session-HasRun v.session h
close_at_end-HasRun (panics v) h = close_session-HasRun v.session h
close_at_end-HasRun (goes_on v rest) h = h
close_at_end-HasRun (stalls v r left rest) h = h

-- A receive loop that returns has closed its session, whose hook has run once by then. One that
-- waits has done so or has left the hook for later.
pub recv_loop-HasRun :
    (env : Env) (v : Receiver) (input : Bytes) → IsHooked v.session → HasRun (recv_loop env v input)
unfolding recv_loop
recv_loop-HasRun env v input h =
    close_at_end-HasRun (recv_rounds env (suc (length input)) v input)
      (recv_rounds-Hooked env (suc (length input)) v input h)
