-- ===== src/Outbound/Proxy/Reported.antt =====
-- outbound_tcp.go: what the peer of a stream learns of a dial that fails.
use server_anytls.Prelude.{
  ℕ, ◌≡◌, refl, sym, ◌∙◌, ◌⊎◌, inl, inr, subst, true, false, List, [], ◌∷◌, ◌++◌, Option, none,
  some, Bytes, Error, Result, err, leb, if_elim,
}
use mathlib.Core.Bool.{false≢true}
use server_anytls.Env.{Env}
use server_anytls.Wire.{Frame, cmd_syn_ack}
use server_anytls.Padding.Bounds.{IsSafePointer}
use server_anytls.Session.State.{Session, Stream, WriteResult, wrote, failed, panicked, get_elem?}
use server_anytls.Session.Streams.{put}
use server_anytls.Session.Calls.{report_of, handshake_failure}
use server_anytls.Session.Recv.Frames.{IsWhole}
use server_anytls.Session.Framing.{Carries, Carried, write_control_frame-Carried}
use server_anytls.Outbound.Proxy.{
  Router, tcp, Ended, returned, crashed, Relay, failure_reported, dialed, proxy_outbound_tcp,
}

-- The report of a text.
abbrev pub syn_ack : Stream → Bytes → Frame
syn_ack st text = record { cmd = cmd_syn_ack; sid = st.id; payload = text }

-- The function returns the error of the dial, joined with that of the report if the report fails;
-- the frames `fs` are carried, up to where the connection breaks if it does.
abbrev pub Refused : Relay → Error → List Frame → Session × Ended → Type 0
Refused L e fs (t, returned none) = ⊥
Refused L e fs (t, returned (some g)) =
    ((n : ℕ) × (g ≡ L.join_errors e none) × Carried fs (t, wrote n))
    ⊎ ((x : Error) × (g ≡ L.join_errors e (some x)) × Carried fs (t, failed x))
Refused L e fs (t, crashed) = ⊥

failure_reported-Refused :
    (L : Relay) (e : Error) (fs : List Frame) (r : Session × WriteResult)
    → Carried fs r
    → Refused L e fs (failure_reported L e r)
failure_reported-Refused L e fs (t, wrote n) h = inl (n, refl, h)
failure_reported-Refused L e fs (t, failed x) h = inr (x, refl, h)
failure_reported-Refused L e fs (t, panicked) h = absurd h

module _ (env : Env) (s : Session) (r : ℕ) (st : Stream) (fs : List Frame)
    (there : get_elem? s.heap r ≡ some st) (first : st.reported ≡ false)
    (version : leb 2 s.peer_version ≡ true) (safe : IsSafePointer s.padding)
    (on : Carries fs s) where
  report_of-Carried :
      (text : Bytes)
      → IsWhole (syn_ack st text)
      → Carried (fs ++ (syn_ack st text ∷ [])) (report_of env s r (some st) text)
  report_of-Carried text whole =
      let P = Carried (fs ++ (syn_ack st text ∷ [])) in
      let t = put s r (record st { reported = true }) in
      if_elim P st.reported (λ e. absurd (false≢true (sym first ∙ e)))
        (λ _.
          if_elim P (leb 2 s.peer_version)
            (λ _. write_control_frame-Carried env t (syn_ack st text) fs safe whole on)
            (λ e. absurd (false≢true (sym e ∙ version))))

  handshake_failure-Carried :
      (text : Bytes)
      → IsWhole (syn_ack st text)
      → Carried (fs ++ (syn_ack st text ∷ [])) (handshake_failure env s r (some text))
  unfolding handshake_failure
  handshake_failure-Carried text whole =
      subst (λ o. Carried (fs ++ (syn_ack st text ∷ [])) (report_of env s r o text)) (sym there)
        (report_of-Carried text whole)

  dialed-Refused :
      (L : Relay) (copy : ℕ → Session → Session × Option Error) (e : Error) (d : Result ℕ)
      → d ≡ err e
      → IsWhole (syn_ack st (L.error_text e))
      → Refused L e (fs ++ (syn_ack st (L.error_text e) ∷ [])) (dialed L env s r copy d)
  dialed-Refused L copy e d f whole =
      subst (λ x. Refused L e (fs ++ (syn_ack st (L.error_text e) ∷ [])) (dialed L env s r copy x))
        (sym f)
        (failure_reported-Refused L e _ _ (handshake_failure-Carried (L.error_text e) whole))

-- If the router cannot dial the destination of a stream, or its text does not parse, the peer gets
-- the text of the error in a frame behind all that was sent, and the function returns the error,
-- joined with that of the report if the connection breaks under it; it does not panic. The stream
-- has reported nothing yet, the peer knows version 2, and the text fits a frame.
pub proxy_outbound_tcp-Refused :
    (L : Relay) (env : Env) (router : Router) (s : Session) (r : ℕ) (destination : Bytes)
    (st : Stream) (fs : List Frame) (e : Error)
    → tcp router destination ≡ err e
    → get_elem? s.heap r ≡ some st
    → st.reported ≡ false
    → leb 2 s.peer_version ≡ true
    → IsSafePointer s.padding
    → Carries fs s
    → IsWhole (syn_ack st (L.error_text e))
    → Refused L e
        (fs ++ (syn_ack st (L.error_text e) ∷ []))
        (proxy_outbound_tcp L env router s r destination)
unfolding proxy_outbound_tcp
proxy_outbound_tcp-Refused L env router s r destination st fs e f there first version safe on
      whole =
    dialed-Refused env s r st fs there first version safe on L (λ c t. L.copy_conn t r c) e
      (tcp router destination) f whole
