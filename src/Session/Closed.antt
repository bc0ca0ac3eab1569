-- ===== src/Session/Closed.antt =====
-- session.go, `Session.Close`: what it leaves behind.
use server_anytls.Prelude.{
  ℕ, zero, suc, ◌≡◌, refl, sym, ap, ◌∙◌, Bool, true, false, List, [], ◌∷◌, Option, none, some,
  Error, closed_pipe, ◌==◌, if◌then◌else◌, if_elim, nat_eq, subst, inl, inr, Bool-cases,
}
use mathlib.Core.Bool.{false≢true}
use mathlib.Core.Option.{some-injective, none-ne-some}
use server_anytls.Prelude.Maps.{Map, lookup}
use server_anytls.Session.State.{Session, Stream, get_elem?, set, wire}
use server_anytls.Session.Streams.{
  close_stream_locally, close_locally, close_all, close_session, close_conn,
}

-- What closing streams leaves alone.
record Keeps (s t : Session) : Type 0 where
  same_conn : t.conn ≡ s.conn
  same_dead : t.dead ≡ s.dead
  same_hook : t.die_hook ≡ s.die_hook
  same_padding : t.padding ≡ s.padding

Keeps-refl : (s : Session) → Keeps s s
Keeps-refl s = record { same_conn = refl; same_dead = refl; same_hook = refl; same_padding = refl }

Keeps-trans : (s t u : Session) → Keeps s t → Keeps t u → Keeps s u
Keeps-trans s t u h k = record {
  same_conn = k.same_conn ∙ h.same_conn;
  same_dead = k.same_dead ∙ h.same_dead;
  same_hook = k.same_hook ∙ h.same_hook;
  same_padding = k.same_padding ∙ h.same_padding;
}

close_stream_locally-Keeps :
    (s : Session) (r : ℕ) (o : Option Stream) → Keeps s (close_stream_locally s r o)
close_stream_locally-Keeps s r none = Keeps-refl s
close_stream_locally-Keeps s r (some st) =
    if_elim (Keeps s) st.died (λ _. Keeps-refl s)
      (λ _.
        if_elim (Keeps s) st.die_hook
          (λ _. record {
            same_conn = refl;
            same_dead = refl;
            same_hook = refl;
            same_padding = refl;
          })
          (λ _. record {
            same_conn = refl;
            same_dead = refl;
            same_hook = refl;
            same_padding = refl;
          }))

close_locally-Keeps : (s : Session) (r : ℕ) → Keeps s (close_locally s r)
unfolding close_locally
close_locally-Keeps s r = close_stream_locally-Keeps s r (get_elem? s.heap r)

close_all-Keeps : (m : Map ℕ ℕ) (s : Session) → Keeps s (close_all s m)
unfolding close_all
close_all-Keeps [] s = Keeps-refl s
close_all-Keeps ((sid, r) ∷ m) s =
    Keeps-trans s (close_locally s r) _ (close_locally-Keeps s r)
      (close_all-Keeps m (close_locally s r))

-- The stream at place `r` is there, and dead if `d`.
abbrev pub Found : Bool → Option Stream → Type 0
Found d none = ⊥
Found true (some st) = st.died ≡ true
Found false (some st) = Unit {0}

pub get_elem?-set-Found :
    (d : Bool) (xs : List Stream) (i r : ℕ) (v : Stream)
    → v.died ≡ true
    → Found d (get_elem? xs i)
    → Found d (get_elem? (set xs r v) i)
get_elem?-set-Found d [] i r v h f = f
get_elem?-set-Found true (x ∷ xs) zero zero v h f = h
get_elem?-set-Found false (x ∷ xs) zero zero v h f = tt
get_elem?-set-Found d (x ∷ xs) zero (suc r) v h f = f
get_elem?-set-Found d (x ∷ xs) (suc i) zero v h f = f
get_elem?-set-Found d (x ∷ xs) (suc i) (suc r) v h f = get_elem?-set-Found d xs i r v h f

pub get_elem?-set-died :
    (xs : List Stream) (r : ℕ) (v : Stream)
    → v.died ≡ true
    → Found false (get_elem? xs r)
    → Found true (get_elem? (set xs r v) r)
get_elem?-set-died [] r v h f = f
get_elem?-set-died (x ∷ xs) zero v h f = h
get_elem?-set-died (x ∷ xs) (suc r) v h f = get_elem?-set-died xs r v h f

close_stream_locally-Found :
    (d : Bool) (s : Session) (i r : ℕ) (o : Option Stream)
    → Found d (get_elem? s.heap i)
    → Found d (get_elem? (close_stream_locally s r o).heap i)
close_stream_locally-Found d s i r none f = f
close_stream_locally-Found d s i r (some st) f =
    if_elim (λ (t : Session). Found d (get_elem? t.heap i)) st.died (λ _. f)
      (λ _.
        if_elim (λ (t : Session). Found d (get_elem? t.heap i)) st.die_hook
          (λ _. get_elem?-set-Found d s.heap i r _ refl f)
          (λ _. get_elem?-set-Found d s.heap i r _ refl f))

close_stream_locally-died :
    (s : Session) (r : ℕ) (o : Option Stream)
    → get_elem? s.heap r ≡ o
    → Found false o
    → Found true (get_elem? (close_stream_locally s r o).heap r)
close_stream_locally-died s r none e f = absurd f
close_stream_locally-died s r (some st) e f =
    if_elim (λ (t : Session). Found true (get_elem? t.heap r)) st.died
      (λ d. subst (Found true) (sym e) d)
      (λ _.
        if_elim (λ (t : Session). Found true (get_elem? t.heap r)) st.die_hook
          (λ _. get_elem?-set-died s.heap r _ refl (subst (Found false) (sym e) tt))
          (λ _. get_elem?-set-died s.heap r _ refl (subst (Found false) (sym e) tt)))

pub close_all-Found :
    (d : Bool) (m : Map ℕ ℕ) (s : Session) (i : ℕ)
    → Found d (get_elem? s.heap i)
    → Found d (get_elem? (close_all s m).heap i)
unfolding close_all close_locally
close_all-Found d [] s i f = f
close_all-Found d ((sid, r) ∷ m) s i f =
    close_all-Found d m _ i (close_stream_locally-Found d s i r (get_elem? s.heap r) f)

-- Every stream that the map reaches is dead in the end.
close_all-died :
    (m : Map ℕ ℕ) (s : Session) (sid i : ℕ)
    → lookup sid m ≡ some i
    → Found false (get_elem? s.heap i)
    → Found true (get_elem? (close_all s m).heap i)
unfolding close_all close_locally lookup
close_all-died [] s sid i e f = absurd (none-ne-some i e)
close_all-died ((k, r) ∷ m) s sid i e f = elim (Bool-cases (k == sid)) [
  | inl h ↦
      let same =
        some-injective r i (subst (λ b. (if b then some r else lookup sid m) ≡ some i) h e) in
      close_all-Found true m _ i (
        subst (λ j. Found true (get_elem? (close_stream_locally s r (get_elem? s.heap r)).heap j))
          same
          (close_stream_locally-died s r (get_elem? s.heap r) refl
            (subst (λ j. Found false (get_elem? s.heap j)) (sym same) f)))
  | inr h ↦
      close_all-died m _ sid i (subst (λ b. (if b then some r else lookup sid m) ≡ some i) h e)
        (close_stream_locally-Found false s i r (get_elem? s.heap r) f)
]

-- After the `Close` of a session that was not closed, every stream that was registered is dead.
pub close_session-died :
    (s : Session) (sid i : ℕ)
    → s.dead ≡ false
    → lookup sid s.streams ≡ some i
    → Found false (get_elem? s.heap i)
    → Found true (get_elem? ((close_session s).0).heap i)
unfolding close_session
close_session-died s sid i e h f =
    if_elim (λ (t : Session × Option Error). Found true (get_elem? (t.0).heap i)) s.dead
      (λ d. absurd (false≢true (sym e ∙ d)))
      (λ _.
        if_elim (λ (t : Session). Found true (get_elem? (close_all t t.streams).heap i)) s.die_hook
          (λ _. close_all-died s.streams _ sid i h f) (λ _. close_all-died s.streams _ sid i h f))

-- What a session is after `Close`, whatever it was.
pub record IsShut (t : Session) : Type 0 where
  pub dead : t.dead ≡ true
  pub closed : t.conn.closed ≡ true
  pub unhooked : t.die_hook ≡ false
  pub emptied : t.streams ≡ []

close_all-IsShut :
    (s t : Session) (m : Map ℕ ℕ)
    → t.dead ≡ true
    → t.die_hook ≡ false
    → IsShut (close_conn (record (close_all t m) { streams = [] }))
close_all-IsShut s t m d h =
    let k = close_all-Keeps m t in
    record { dead = k.same_dead ∙ d; closed = refl; unhooked = k.same_hook ∙ h; emptied = refl }

-- The `Close` of a session that was not closed leaves it dead, with its connection closed, no
-- stream registered and no hook, and returns what closing the connection returns.
pub close_session-IsShut :
    (s : Session)
    → s.dead ≡ false
    → IsShut ((close_session s).0) × ((close_session s).1 ≡ s.conn.close_error)
unfolding close_session
close_session-IsShut s e =
    if_elim (λ (t : Session × Option Error). IsShut (t.0) × (t.1 ≡ s.conn.close_error)) s.dead
      (λ d. absurd (false≢true (sym e ∙ d)))
      (λ _. (
        if_elim
            (λ (t : Session). IsShut (close_conn (record (close_all t t.streams) { streams = [] })))
            s.die_hook (λ _. close_all-IsShut s _ s.streams refl refl)
            (λ h. close_all-IsShut s _ s.streams refl h),
        refl,
      ))

close_session_dead : (s : Session) → s.dead ≡ true → close_session s ≡ (s, some closed_pipe)
unfolding close_session
close_session_dead s e = rw e refl

-- `Close` on a session that `Close` has been called on changes nothing and returns
-- `io.ErrClosedPipe`.
pub close_session_again :
    (s : Session) → close_session ((close_session s).0) ≡ ((close_session s).0, some closed_pipe)
close_session_again s = elim (Bool-cases s.dead) [
  | inl e ↦
      let same = ap (λ (p : Session × Option Error). p.0) (close_session_dead s e) in
      subst (λ (t : Session). close_session t ≡ (t, some closed_pipe)) (sym same)
        (close_session_dead s e)
  | inr e ↦ close_session_dead ((close_session s).0) ((close_session-IsShut s e).0).dead
]

-- `Close` and what it calls write nothing.
pub close_session-wire : (s : Session) → wire ((close_session s).0).conn ≡ wire s.conn
unfolding close_session
close_session-wire s =
    if_elim (λ (t : Session × Option Error). wire (t.0).conn ≡ wire s.conn) s.dead (λ _. refl)
      (λ _.
        if_elim (λ (t : Session). wire (close_all t t.streams).conn ≡ wire s.conn) s.die_hook
          (λ _. ap wire (close_all-Keeps s.streams _).same_conn)
          (λ _. ap wire (close_all-Keeps s.streams _).same_conn))
