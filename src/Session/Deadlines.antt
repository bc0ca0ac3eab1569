-- ===== src/Session/Deadlines.antt =====
-- The write deadline of a stream.
use server_anytls.Prelude.{
  ℕ, ◌≡◌, sym, ap, ◌∙◌, Bool, Option, none, some, Bytes, deadline_exceeded, if◌then◌else◌, subst,
}
use server_anytls.Env.{Env}
use server_anytls.Deadline.{PipeDeadline, is_expired, set_deadline}
use server_anytls.Deadline.Timing.{Gives, is_past, set_deadline-Gives}
use server_anytls.Session.State.{Session, Stream, failed, get_elem?}
use server_anytls.Session.Streams.{write_data_frame}
use server_anytls.Session.Calls.{
  put_write_deadline, set_write_deadline_of, stream_set_write_deadline, stream_write,
  stream_write_of, write_or_die,
}
use server_anytls.Session.Delivery.{get_elem?-set}

module _ (env : Env) (s : Session) (r : ℕ) (st : Stream) (b : Bytes)
    (there : get_elem? s.heap r ≡ some st) (alive : st.die_err ≡ none) where
  write_after :
      (o : Option PipeDeadline) (past : Bool)
      → Gives o past
      → let u = put_write_deadline s r st o in
        stream_write env u r b
        ≡ (if past then (u, failed deadline_exceeded) else write_data_frame env u st.id b)
  unfolding stream_write
  write_after none past h = absurd h
  write_after (some d) past (c, e) =
      let new = record st { write_deadline = d } in
      let u = put_write_deadline s r st (some d) in
      ap (λ o. stream_write_of env u o b) (get_elem?-set s.heap r st new there)
      ∙ ap (λ x. if is_expired d then (u, failed deadline_exceeded) else write_or_die env u new x b)
          alive
      ∙ ap
          (λ (x : Bool).
            if x then (u, failed deadline_exceeded) else write_data_frame env u st.id b)
          e

-- Right after `SetWriteDeadline` on a stream without an error, `Write` fails with
-- `os.ErrDeadlineExceeded` and sends nothing if a deadline is set that is not after the present, and
-- else writes its data frames.
pub stream_write-stream_set_write_deadline :
    (env : Env) (s : Session) (r : ℕ) (st : Stream) (t : Option ℕ) (now : ℕ) (b : Bytes)
    → get_elem? s.heap r ≡ some st
    → st.die_err ≡ none
    → let u = stream_set_write_deadline s r t now in
      stream_write env u r b
      ≡ (if is_past t now then (u, failed deadline_exceeded) else write_data_frame env u st.id b)
unfolding stream_set_write_deadline
stream_write-stream_set_write_deadline env s r st t now b there alive =
    subst
      (λ o.
        let u = set_write_deadline_of s r o t now in
        stream_write env u r b
        ≡ (if is_past t now then (u, failed deadline_exceeded) else write_data_frame env u st.id b))
      (sym there)
      (write_after env s r st b there alive (set_deadline st.write_deadline t now) (is_past t now)
        (set_deadline-Gives st.write_deadline t now))
