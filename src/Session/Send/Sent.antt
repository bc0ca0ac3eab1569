-- ===== src/Session/Send/Sent.antt =====
-- What a write of the session puts on the wire, on every path.
use server_anytls.Prelude.{
  ℕ, ◌≡◌, refl, sym, ap, ◌∙◌, false, List, [], ◌∷◌, ◌++◌, Option, none, some, Bytes, length, take,
  ltb, if_elim, arith, append-nil, concat, concat-append, map, Error, nil_of_length, subst,
}
use mathlib.Core.List.{map-append}
use server_anytls.Env.{Env}
use server_anytls.Padding.{PaddingFactory}
use server_anytls.Padding.Bounds.{IsSafePointer, append_record_payload_sizes-IsSafe}
use server_anytls.Session.State.{
  Session, Conn, Written, WriteResult, wrote, failed, panicked, conn_write, wire, log_write, met,
}
use server_anytls.Session.Send.{
  plain_write, write_assembled, write_padded, write_out, write_conn_locked, after_write,
  count_payload,
}
use server_anytls.Session.Send.Padded.{wastes, AreWasteLengths, assemble-Assembles, Assembles}

wire-log_write : (c : Conn) (b : Bytes) → wire (log_write c b) ≡ wire c ++ b
wire-log_write c b =
    ap concat (map-append (λ (w : Written). w.bytes) c.writes _)
    ∙ concat-append (map (λ (w : Written). w.bytes) c.writes) (b ∷ [])
    ∙ ap (◌++◌ (wire c)) (append-nil b)

-- All of `b`, or a front of it with an error; never a panic.
abbrev ConnSends : Conn → Bytes → Conn × WriteResult → Type 0
ConnSends c b (d, wrote n) = (wire d ≡ wire c ++ b) × (n ≡ length b)
ConnSends c b (d, failed e) = (k : ℕ) × (wire d ≡ wire c ++ take k b)
ConnSends c b (d, panicked) = ⊥

met-ConnSends : (c : Conn) (b : Bytes) (o : Option (ℕ × Error)) → ConnSends c b (met c b o)
met-ConnSends c b none = (wire-log_write c b, refl)
met-ConnSends c b (some (n, e)) = (n, wire-log_write c (take n b))

conn_write-ConnSends : (c : Conn) (b : Bytes) → ConnSends c b (conn_write c b)
unfolding conn_write
conn_write-ConnSends c b =
    if_elim (ConnSends c b) c.closed (λ e. (0, sym (append-nil (wire c))))
      (λ e. met-ConnSends c b (c.fate (length c.writes)))

-- The bytes `b` go out behind what is on the wire and in the buffer, with waste frames behind
-- them: all of it if the write succeeds, a front of it if it fails. There is no panic.
abbrev pub Sends : Session → Bytes → Session × WriteResult → Type 0
Sends s b (t, wrote n) =
    (ws : List ℕ) × AreWasteLengths ws
    × (wire t.conn ++ t.buffer ≡ wire s.conn ++ ((s.buffer ++ b) ++ wastes ws))
Sends s b (t, failed e) =
    (ws : List ℕ) × (k : ℕ) × AreWasteLengths ws
    × (wire t.conn ≡ wire s.conn ++ take k ((s.buffer ++ b) ++ wastes ws))
Sends s b (t, panicked) = ⊥

-- The session `t` that a write of `s` has come to: nothing is written, the buffer is taken.
record IsReady (s t : Session) : Type 0 where
  same : wire t.conn ≡ wire s.conn
  empty : t.buffer ≡ []

Sends-count_payload :
    (s : Session) (b : Bytes) (n : ℕ) (r : Session × WriteResult)
    → Sends s b r
    → Sends s b (count_payload n r)
Sends-count_payload s b n (t, wrote m) h = h
Sends-count_payload s b n (t, failed e) h = h
Sends-count_payload s b n (t, panicked) h = h

after_write-Sends :
    (s t : Session) (b out : Bytes) (ws : List ℕ) (r : Conn × WriteResult)
    → IsReady s t
    → AreWasteLengths ws
    → out ≡ (s.buffer ++ b) ++ wastes ws
    → ConnSends t.conn out r
    → Sends s b (after_write t r)
after_write-Sends s t b out ws (d, wrote m) h safe e c = (
  ws,
  safe,
  ap (◌++◌ (wire d)) h.empty
      ∙ append-nil (wire d)
      ∙ c.0
      ∙ ap (λ w. w ++ out) h.same
      ∙ ap (◌++◌ (wire s.conn)) e,
)
after_write-Sends s t b out ws (d, failed e) h safe g (k, c) =
    (ws, k, safe, c ∙ ap (λ w. w ++ take k out) h.same ∙ ap (λ o. wire s.conn ++ take k o) g)
after_write-Sends s t b out ws (d, panicked) h safe e c = absurd c

plain_write-Sends :
    (s t : Session) (b out : Bytes) (ws : List ℕ)
    → IsReady s t
    → AreWasteLengths ws
    → out ≡ (s.buffer ++ b) ++ wastes ws
    → Sends s b (plain_write t out)
plain_write-Sends s t b out ws h safe e =
    after_write-Sends s t b out ws (conn_write t.conn out) h safe e
      (conn_write-ConnSends t.conn out)

write_assembled-Sends :
    (s t : Session) (b : Bytes) (n : ℕ) (o : Option Bytes)
    → IsReady s t
    → Assembles (record { b = s.buffer ++ b; assembled = [] }) o
    → Sends s b (write_assembled t n o)
write_assembled-Sends s t b n none h a = absurd a
write_assembled-Sends s t b n (some out) h (ws, safe, e) =
    Sends-count_payload s b n (plain_write t out) (plain_write-Sends s t b out ws h safe e)

write_padded-Sends :
    (env : Env) (s t : Session) (pkt : ℕ) (b : Bytes) (p : Option PaddingFactory)
    → IsReady s t
    → IsSafePointer p
    → Sends s b (write_padded env t pkt (s.buffer ++ b) p)
write_padded-Sends env s t pkt b none h safe =
    plain_write-Sends s (record t { send_padding = false }) b _ []
      (record { same = h.same; empty = h.empty }) tt (sym (append-nil (s.buffer ++ b)))
write_padded-Sends env s t pkt b (some p) h safe =
    if_elim (Sends s b) (ltb pkt p.stop)
      (λ _.
        write_assembled-Sends s t b _ _ h
          (assemble-Assembles _ _ (append_record_payload_sizes-IsSafe env p pkt safe)))
      (λ _.
        plain_write-Sends s (record t { send_padding = false }) b _ []
          (record { same = h.same; empty = h.empty }) tt (sym (append-nil (s.buffer ++ b))))

write_out-Sends :
    (env : Env) (s t : Session) (b : Bytes)
    → IsReady s t
    → IsSafePointer t.padding
    → Sends s b (write_out env t (s.buffer ++ b))
unfolding write_out
write_out-Sends env s t b h safe =
    if_elim (Sends s b) t.send_padding
      (λ _.
        write_padded-Sends env s _ _ b t.padding (record { same = h.same; empty = h.empty }) safe)
      (λ _. plain_write-Sends s t b _ [] h tt (sym (append-nil (s.buffer ++ b))))

-- `writeConnLocked`, with a padding factory that is nil or has safe ranges only: what is on the wire
-- and in the buffer after it is what was there, the bytes given, and then waste frames, whatever the
-- draws are; on an error a front of that is on the wire; it never panics.
pub write_conn_locked-Sends :
    (env : Env) (s : Session) (b : Bytes)
    → IsSafePointer s.padding
    → Sends s b (write_conn_locked env s b)
unfolding write_conn_locked
write_conn_locked-Sends env s b safe =
    if_elim (Sends s b) s.buffering
      (λ _. ([], tt, ap (◌++◌ (wire s.conn)) (sym (append-nil (s.buffer ++ b)))))
      (λ _.
        if_elim (Sends s b) (ltb 0 (length s.buffer))
          (λ _.
            write_out-Sends env s (record s { buffer = [] }) b
              (record { same = refl; empty = refl }) safe)
          (λ e.
            let nil = nil_of_length s.buffer (ground arith) in
            subst (λ x. Sends s b (write_out env s (x ++ b))) nil
              (write_out-Sends env s s b (record { same = refl; empty = nil }) safe)))
