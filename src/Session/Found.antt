-- ===== src/Session/Found.antt =====
-- Writing and closing leave every stream in its place of the heap, and a closed one closed.
use server_anytls.Prelude.{
  ℕ, zero, suc, ◌≡◌, refl, sym, ap, ◌∙◌, subst, true, false, Bool, List, [], ◌∷◌, Option, none,
  some, Bytes, Error, closed_pipe, length, ltb, leb, if_elim,
}
use mathlib.Core.Option.{some-injective}
use server_anytls.Env.{Env}
use server_anytls.Wire.{Frame, new_frame, cmd_fin}
use server_anytls.Padding.{PaddingFactory, append_record_payload_sizes}
use server_anytls.Session.State.{
  Session, Stream, WriteResult, wrote, failed, panicked, get_elem?, set, stream_hook,
}
use server_anytls.Session.Send.{
  assemble, write_assembled, write_padded, write_out, write_conn_locked, write_conn_with_deadline,
  set_write_deadline, clear_deadline,
}
use server_anytls.Session.Streams.{
  die_with, put, emit_if, close_all, close_session, close_on_error, write_control_frame, unregister,
  stream_closed, close_stream_with, close_with_error, close_stream,
}
use server_anytls.Session.Calls.{report_of, mark_reported, handshake_success, handshake_failure}
use server_anytls.Session.Closed.{Found, get_elem?-set-died, close_all-Found}

abbrev HasHeap : List Stream → Session × WriteResult → Type 0
HasHeap heap (t, r) = t.heap ≡ heap

write_assembled-HasHeap :
    (s : Session) (n : ℕ) (o : Option Bytes) → HasHeap s.heap (write_assembled s n o)
write_assembled-HasHeap s n none = refl
write_assembled-HasHeap s n (some b) = refl

write_padded-HasHeap :
    (env : Env) (s : Session) (pkt : ℕ) (b : Bytes) (p : Option PaddingFactory)
    → HasHeap s.heap (write_padded env s pkt b p)
write_padded-HasHeap env s pkt b none = refl
write_padded-HasHeap env s pkt b (some p) =
    if_elim (HasHeap s.heap) (ltb pkt p.stop)
      (λ _.
        write_assembled-HasHeap s (length b)
          (assemble (append_record_payload_sizes env p pkt []) (record { b = b; assembled = [] })))
      (λ _. refl)

write_out-HasHeap : (env : Env) (s : Session) (b : Bytes) → HasHeap s.heap (write_out env s b)
unfolding write_out
write_out-HasHeap env s b =
    if_elim (HasHeap s.heap) s.send_padding
      (λ _. write_padded-HasHeap env (record s { pkt_counter = _ }) _ b s.padding) (λ _. refl)

write_conn_locked-HasHeap :
    (env : Env) (s : Session) (b : Bytes) → HasHeap s.heap (write_conn_locked env s b)
unfolding write_conn_locked
write_conn_locked-HasHeap env s b =
    if_elim (HasHeap s.heap) s.buffering (λ _. refl)
      (λ _.
        if_elim (HasHeap s.heap) (ltb 0 (length s.buffer))
          (λ _. write_out-HasHeap env (record s { buffer = [] }) _)
          (λ _. write_out-HasHeap env s b))

Found-same :
    (d : Bool) (x st v : Stream)
    → some x ≡ some st
    → v.died ≡ st.died
    → Found d (some x)
    → Found d (some v)
Found-same true x st v e h f = h ∙ ap (λ (y : Stream). y.died) (sym (some-injective x st e)) ∙ f
Found-same false x st v e h f = tt

-- A stream that is put back as dead or alive as it was.
get_elem?-set_same :
    (d : Bool) (xs : List Stream) (i r : ℕ) (st v : Stream)
    → get_elem? xs r ≡ some st
    → v.died ≡ st.died
    → Found d (get_elem? xs i)
    → Found d (get_elem? (set xs r v) i)
get_elem?-set_same d [] i r st v e h f = f
get_elem?-set_same d (x ∷ xs) zero zero st v e h f = Found-same d x st v e h f
get_elem?-set_same d (x ∷ xs) zero (suc r) st v e h f = f
get_elem?-set_same d (x ∷ xs) (suc i) zero st v e h f = f
get_elem?-set_same d (x ∷ xs) (suc i) (suc r) st v e h f = get_elem?-set_same d xs i r st v e h f

module _ (d : Bool) (i : ℕ) where
  -- The stream at place `i` is there after the call, and dead if `d`.
  abbrev pub FoundIn : Session × WriteResult → Type 0
  FoundIn (t, r) = Found d (get_elem? t.heap i)

  close_session-Found :
      (s : Session)
      → Found d (get_elem? s.heap i)
      → Found d (get_elem? ((close_session s).0).heap i)
  unfolding close_session
  close_session-Found s f =
      if_elim (λ (t : Session × Option Error). Found d (get_elem? (t.0).heap i)) s.dead (λ _. f)
        (λ _.
          if_elim (λ (t : Session). Found d (get_elem? (close_all t t.streams).heap i)) s.die_hook
            (λ _. close_all-Found d s.streams _ i f) (λ _. close_all-Found d s.streams _ i f))

  close_on_error-FoundIn :
      (n : ℕ) (r : Session × WriteResult) → FoundIn r → FoundIn (close_on_error n r)
  close_on_error-FoundIn n (t, wrote m) f = f
  close_on_error-FoundIn n (t, failed e) f = close_session-Found t f
  close_on_error-FoundIn n (t, panicked) f = f

  of_heap :
      (s : Session) (r : Session × WriteResult)
      → HasHeap s.heap r
      → Found d (get_elem? s.heap i)
      → FoundIn (clear_deadline r)
  of_heap s (t, r) e f = subst (λ h. Found d (get_elem? h i)) (sym e) f

  pub write_control_frame-FoundIn :
      (env : Env) (s : Session) (frame : Frame)
      → Found d (get_elem? s.heap i)
      → FoundIn (write_control_frame env s frame)
  unfolding write_control_frame write_conn_with_deadline
  write_control_frame-FoundIn env s frame f =
      let t = set_write_deadline s true in
      close_on_error-FoundIn (length frame.payload) _
        (of_heap t (write_conn_locked env t _) (write_conn_locked-HasHeap env t _) f)

  unregister-FoundIn :
      (sid : ℕ) (r : Session × WriteResult) → FoundIn r → FoundIn (unregister sid r)
  unregister-FoundIn sid (t, wrote n) f = f
  unregister-FoundIn sid (t, failed e) f = f
  unregister-FoundIn sid (t, panicked) f = f

  stream_closed-FoundIn :
      (env : Env) (s : Session) (sid : ℕ)
      → Found d (get_elem? s.heap i)
      → FoundIn (stream_closed env s sid)
  unfolding stream_closed
  stream_closed-FoundIn env s sid f =
      if_elim FoundIn s.dead (λ _. f)
        (λ _.
          unregister-FoundIn sid _ (write_control_frame-FoundIn env s (new_frame cmd_fin sid) f))

  report_of-FoundIn :
      (env : Env) (s : Session) (r : ℕ) (o : Option Stream) (text : Bytes)
      → get_elem? s.heap r ≡ o
      → Found d (get_elem? s.heap i)
      → FoundIn (report_of env s r o text)
  report_of-FoundIn env s r none text e f = f
  report_of-FoundIn env s r (some st) text e f =
      let t = put s r (record st { reported = true }) in
      let kept = get_elem?-set_same d s.heap i r st (record st { reported = true }) e refl f in
      if_elim FoundIn st.reported (λ _. f)
        (λ _.
          if_elim FoundIn (leb 2 s.peer_version) (λ _. write_control_frame-FoundIn env t _ kept)
            (λ _. kept))

  mark_reported-Found :
      (s : Session) (r : ℕ) (o : Option Stream)
      → get_elem? s.heap r ≡ o
      → Found d (get_elem? s.heap i)
      → Found d (get_elem? (mark_reported s r o).heap i)
  mark_reported-Found s r none e f = f
  mark_reported-Found s r (some st) e f =
      get_elem?-set_same d s.heap i r st (record st { reported = true }) e refl f

  pub handshake_success-FoundIn :
      (env : Env) (s : Session) (r : ℕ)
      → Found d (get_elem? s.heap i)
      → FoundIn (handshake_success env s r)
  unfolding handshake_success
  handshake_success-FoundIn env s r f = report_of-FoundIn env s r (get_elem? s.heap r) [] refl f

  pub handshake_failure-FoundIn :
      (env : Env) (s : Session) (r : ℕ) (text : Option Bytes)
      → Found d (get_elem? s.heap i)
      → FoundIn (handshake_failure env s r text)
  unfolding handshake_failure
  handshake_failure-FoundIn env s r (some text) f =
      report_of-FoundIn env s r (get_elem? s.heap r) text refl f
  handshake_failure-FoundIn env s r none f = mark_reported-Found s r (get_elem? s.heap r) refl f

close_stream_with-FoundIn :
    (env : Env) (s : Session) (r : ℕ) (e : Error) (o : Option Stream)
    → get_elem? s.heap r ≡ o
    → Found false o
    → FoundIn true r (close_stream_with env s r e o)
close_stream_with-FoundIn env s r e none g f = absurd f
close_stream_with-FoundIn env s r e (some st) g f =
    let dead = get_elem?-set-died s.heap r (die_with st e) refl (subst (Found false) (sym g) tt) in
    if_elim (FoundIn true r) st.died (λ d. subst (Found true) (sym g) d)
      (λ _.
        stream_closed-FoundIn true r env
          (emit_if st.die_hook (put s r (die_with st e)) (stream_hook r)) st.id
          (if_elim (λ (t : Session). Found true (get_elem? t.heap r)) st.die_hook (λ _. dead)
            (λ _. dead)))

-- `Close` of a stream leaves it dead, also if its session is closed or the connection fails.
pub close_stream-FoundIn :
    (env : Env) (s : Session) (r : ℕ)
    → Found false (get_elem? s.heap r)
    → FoundIn true r (close_stream env s r)
unfolding close_stream close_with_error
close_stream-FoundIn env s r f =
    close_stream_with-FoundIn env s r closed_pipe (get_elem? s.heap r) refl f
