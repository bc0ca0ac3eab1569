-- ===== src/Session/Hooked.antt =====
-- session.go: the hook of a session runs once, in the `Close` that ends it, and never before.
pub mod Commands
pub mod Loop
use server_anytls.Prelude.{
  ℕ, suc, ◌+◌, ◌≡◌, refl, sym, ap, ◌∙◌, ◌⊎◌, inl, inr, subst, Bool, true, false, List, [], ◌∷◌,
  ◌++◌, Option, none, some, Bytes, Error, net_closed, length, ltb, arith, if_elim, if◌then◌else◌,
}
use mathlib.Core.Bool.{false≢true}
use server_anytls.Prelude.Maps.{Map}
use server_anytls.Env.{Env}
use server_anytls.Wire.{Frame, new_frame, frame_bytes, cmd_fin}
use server_anytls.Padding.{PaddingFactory, append_record_payload_sizes}
use server_anytls.Session.State.{
  Session, Stream, WriteResult, wrote, failed, panicked, Effect, session_hook, stream_hook,
  handler_started, closer_started, syn_done_called, syn_watch_started, emit, get_elem?,
}
use server_anytls.Session.Send.{
  assemble, write_assembled, write_padded, write_out, write_conn_locked, write_conn_with_deadline,
  set_write_deadline, clear_deadline,
}
use server_anytls.Session.Streams.{
  die_with, put, emit_if, close_stream_locally, close_locally, close_all, run_die_hook, close_conn,
  close_session, close_on_error, write_control_frame, unregister, stream_closed, close_stream_with,
  close_with_error,
}

-- How often the hook has run.
abbrev pub hook_runs : List Effect → ℕ
hook_runs [] = 0
hook_runs (session_hook ∷ es) = suc (hook_runs es)
hook_runs (stream_hook r ∷ es) = hook_runs es
hook_runs (handler_started r ∷ es) = hook_runs es
hook_runs (closer_started r ∷ es) = hook_runs es
hook_runs (syn_done_called ∷ es) = hook_runs es
hook_runs (syn_watch_started ∷ es) = hook_runs es

pub hook_runs-append : (xs ys : List Effect) → hook_runs (xs ++ ys) ≡ hook_runs xs + hook_runs ys
hook_runs-append [] ys = omega arith
hook_runs-append (session_hook ∷ es) ys = omega (arith, hook_runs-append es ys)
hook_runs-append (stream_hook r ∷ es) ys = hook_runs-append es ys
hook_runs-append (handler_started r ∷ es) ys = hook_runs-append es ys
hook_runs-append (closer_started r ∷ es) ys = hook_runs-append es ys
hook_runs-append (syn_done_called ∷ es) ys = hook_runs-append es ys
hook_runs-append (syn_watch_started ∷ es) ys = hook_runs-append es ys

-- Open, with a hook that has not run, or closed, with one that has run.
abbrev pub IsHooked : Session → Type 0
IsHooked s =
    ((s.dead ≡ false) × (s.die_hook ≡ true) × (hook_runs s.effects ≡ 0))
    ⊎ ((s.dead ≡ true) × (s.die_hook ≡ false) × (hook_runs s.effects ≡ 1))

-- Nothing that matters here has changed.
abbrev pub IsLike : Session → Session → Type 0
IsLike s t =
    (t.dead ≡ s.dead) × (t.die_hook ≡ s.die_hook) × (hook_runs t.effects ≡ hook_runs s.effects)

pub IsLike-refl : (s : Session) → IsLike s s
IsLike-refl s = (refl, refl, refl)

pub IsLike-trans : (s t u : Session) → IsLike s t → IsLike t u → IsLike s u
IsLike-trans s t u h k = (k.0 ∙ h.0, k.1 ∙ h.1, k.2 ∙ h.2)

pub IsLike-IsHooked : (s t : Session) → IsLike s t → IsHooked s → IsHooked t
IsLike-IsHooked s t k (inl (d, h, n)) = inl (k.0 ∙ d, k.1 ∙ h, k.2 ∙ n)
IsLike-IsHooked s t k (inr (d, h, n)) = inr (k.0 ∙ d, k.1 ∙ h, k.2 ∙ n)

-- An effect that is not the hook.
pub emit-IsLike : (s : Session) (e : Effect) → hook_runs (e ∷ []) ≡ 0 → IsLike s (emit s e)
emit-IsLike s e h = (refl, refl, omega (arith, h, hook_runs-append s.effects (e ∷ [])))

emit_if-IsLike : (b : Bool) (s : Session) (r : ℕ) → IsLike s (emit_if b s (stream_hook r))
emit_if-IsLike b s r =
    if_elim (IsLike s) b (λ _. emit-IsLike s (stream_hook r) refl) (λ _. IsLike-refl s)

abbrev pub IsLikeIn : Session → Session × WriteResult → Type 0
IsLikeIn s (t, r) = IsLike s t

write_assembled-IsLike :
    (s : Session) (n : ℕ) (o : Option Bytes) → IsLikeIn s (write_assembled s n o)
write_assembled-IsLike s n none = IsLike-refl s
write_assembled-IsLike s n (some b) = (refl, refl, refl)

write_padded-IsLike :
    (env : Env) (s : Session) (pkt : ℕ) (b : Bytes) (p : Option PaddingFactory)
    → IsLikeIn s (write_padded env s pkt b p)
write_padded-IsLike env s pkt b none = (refl, refl, refl)
write_padded-IsLike env s pkt b (some p) =
    if_elim (IsLikeIn s) (ltb pkt p.stop)
      (λ _.
        write_assembled-IsLike s (length b)
          (assemble (append_record_payload_sizes env p pkt []) (record { b = b; assembled = [] })))
      (λ _. (refl, refl, refl))

write_out-IsLike : (env : Env) (s : Session) (b : Bytes) → IsLikeIn s (write_out env s b)
unfolding write_out
write_out-IsLike env s b =
    if_elim (IsLikeIn s) s.send_padding
      (λ _. write_padded-IsLike env (record s { pkt_counter = _ }) _ b s.padding)
      (λ _. (refl, refl, refl))

write_conn_locked-IsLike :
    (env : Env) (s : Session) (b : Bytes) → IsLikeIn s (write_conn_locked env s b)
unfolding write_conn_locked
write_conn_locked-IsLike env s b =
    if_elim (IsLikeIn s) s.buffering (λ _. (refl, refl, refl))
      (λ _.
        if_elim (IsLikeIn s) (ltb 0 (length s.buffer))
          (λ _. write_out-IsLike env (record s { buffer = [] }) _) (λ _. write_out-IsLike env s b))

clear_deadline-IsLike :
    (s : Session) (r : Session × WriteResult) → IsLikeIn s r → IsLikeIn s (clear_deadline r)
clear_deadline-IsLike s (t, r) h = h

pub close_locally-IsLike : (s : Session) (r : ℕ) → IsLike s (close_locally s r)
unfolding close_locally
close_locally-IsLike s r = of_stream (get_elem? s.heap r)
  where
    of_stream : (o : Option Stream) → IsLike s (close_stream_locally s r o)
    of_stream none = IsLike-refl s
    of_stream (some st) =
        if_elim (IsLike s) st.died (λ _. IsLike-refl s)
          (λ _.
            emit_if-IsLike st.die_hook
              (put s r (record (die_with st net_closed) { die_hook = false })) r)

close_all-IsLike : (m : Map ℕ ℕ) (s : Session) → IsLike s (close_all s m)
unfolding close_all
close_all-IsLike [] s = IsLike-refl s
close_all-IsLike ((sid, r) ∷ m) s =
    IsLike-trans s (close_locally s r) (close_all (close_locally s r) m) (close_locally-IsLike s r)
      (close_all-IsLike m (close_locally s r))

ran_hook :
    (s t : Session)
    → s.die_hook ≡ true
    → hook_runs s.effects ≡ 0
    → IsLike (run_die_hook (record s { dead = true })) t
    → IsHooked t
ran_hook s t h n k =
    let e : IsHooked (run_die_hook (record s { dead = true })) =
      if_elim IsHooked s.die_hook
        (λ _. inr (refl, refl, omega (arith, n, hook_runs-append s.effects (session_hook ∷ []))))
        (λ f. absurd (false≢true (sym f ∙ h))) in
    IsLike-IsHooked (run_die_hook (record s { dead = true })) t k e

-- `Close` runs the hook if it is the first one.
pub close_session-IsHooked : (s : Session) → IsHooked s → IsHooked ((close_session s).0)
unfolding close_session
close_session-IsHooked s (inr h) =
    if_elim (λ (r : Session × Option Error). IsHooked (r.0)) s.dead (λ _. inr h)
      (λ f. absurd (false≢true (sym f ∙ h.0)))
close_session-IsHooked s (inl h) =
    let t = run_die_hook (record s { dead = true }) in
    if_elim (λ (r : Session × Option Error). IsHooked (r.0)) s.dead
      (λ e. absurd (false≢true (sym h.0 ∙ e)))
      (λ _.
        ran_hook s (close_conn (record (close_all t t.streams) { streams = [] })) h.1 h.2
          (close_all-IsLike t.streams t))

-- The session of a result.
abbrev pub HookedIn : Session × WriteResult → Type 0
HookedIn (t, r) = IsHooked t

close_on_error-IsHooked :
    (n : ℕ) (r : Session × WriteResult) → HookedIn r → HookedIn (close_on_error n r)
close_on_error-IsHooked n (t, wrote m) h = h
close_on_error-IsHooked n (t, failed e) h = close_session-IsHooked t h
close_on_error-IsHooked n (t, panicked) h = h

IsLikeIn-HookedIn :
    (s : Session) (r : Session × WriteResult) → IsLikeIn s r → IsHooked s → HookedIn r
IsLikeIn-HookedIn s (t, r) k h = IsLike-IsHooked s t k h

pub write_control_frame-IsHooked :
    (env : Env) (s : Session) (f : Frame) → IsHooked s → HookedIn (write_control_frame env s f)
unfolding write_control_frame write_conn_with_deadline
write_control_frame-IsHooked env s f h =
    let t = set_write_deadline s true in
    let r = write_conn_locked env t (frame_bytes f) in
    close_on_error-IsHooked (length f.payload) (clear_deadline r) (
      IsLikeIn-HookedIn t (clear_deadline r)
        (clear_deadline-IsLike t r (write_conn_locked-IsLike env t (frame_bytes f))) h)

unregister-IsHooked :
    (sid : ℕ) (r : Session × WriteResult) → HookedIn r → HookedIn (unregister sid r)
unregister-IsHooked sid (t, wrote n) h = h
unregister-IsHooked sid (t, failed e) h = h
unregister-IsHooked sid (t, panicked) h = h

stream_closed-IsHooked :
    (env : Env) (s : Session) (sid : ℕ) → IsHooked s → HookedIn (stream_closed env s sid)
unfolding stream_closed
stream_closed-IsHooked env s sid h =
    if_elim HookedIn s.dead (λ _. h)
      (λ _.
        unregister-IsHooked sid (write_control_frame env s (new_frame cmd_fin sid))
          (write_control_frame-IsHooked env s (new_frame cmd_fin sid) h))

pub close_with_error-IsHooked :
    (env : Env) (s : Session) (r : ℕ) (e : Error)
    → IsHooked s
    → HookedIn (close_with_error env s r e)
unfolding close_with_error
close_with_error-IsHooked env s r e h = of_stream (get_elem? s.heap r)
  where
    of_stream : (o : Option Stream) → HookedIn (close_stream_with env s r e o)
    of_stream none = h
    of_stream (some st) =
        if_elim HookedIn st.died (λ _. h)
          (λ _.
            let t = emit_if st.die_hook (put s r (die_with st e)) (stream_hook r) in
            stream_closed-IsHooked env t st.id
              (IsLike-IsHooked s t (emit_if-IsLike st.die_hook (put s r (die_with st e)) r) h))
