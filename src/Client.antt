-- ===== src/Client.antt =====
-- internal/pkg/proxy/session/client.go: the pool of a client's sessions. A session is known by its
-- `seq`. The skip list of the stl4go library is an interface. What a dial or `OpenStream` answers is
-- an argument, and so is the time.
pub mod Leases
pub mod Cleanup
pub mod Closed
use server_anytls.Prelude.{
  ℕ, zero, suc, ◌+◌, ◌-◌, ◌*◌, ◌%◌, leb, ◌^◌, Bool, true, false, not, List, [], ◌∷◌, ◌++◌, Option,
  none, some, Error, closed_pipe, Result, ok, err, ltb, if◌then◌else◌, nat_eq,
}
use server_anytls.Prelude.Maps.{Map, lookup, insert, delete}

-- `stl4go.SkipList[uint64, *Session]`; `entries` are its keys and values as `Iterate` visits them.
pub record SkipList : Type 1 where
  pub S : Type 0
  pub empty : S
  pub put : ℕ → ℕ → S → S
  pub remove : ℕ → S → S
  pub entries : S → Map ℕ ℕ

-- The part of a `Session` that the pool reads and writes.
pub record Pooled : Type 0 where
  pub idle_since : ℕ
  pub is_closed : Bool

abbrev pub second : ℕ
second = 10 ^ 9

-- `math.MaxUint64 - seq`: the newest session comes first.
abbrev pub key_of : ℕ → ℕ
key_of seq = 2 ^ 64 - 1 - seq

abbrev pub mark_closed : Option Pooled → Pooled
mark_closed none = record { idle_since = 0; is_closed = true }
mark_closed (some p) = record p { is_closed = true }

abbrev pub closed_or_gone : Option Pooled → Bool
closed_or_gone none = true
closed_or_gone (some p) = p.is_closed

abbrev pub idle_since_of : Option Pooled → ℕ
idle_since_of none = 0
idle_since_of (some p) = p.idle_since

-- `session.idleSince = time.Now()`
abbrev pub touch : Map ℕ Pooled → ℕ → ℕ → Option Pooled → Map ℕ Pooled
touch heap seq now none = heap
touch heap seq now (some p) = insert seq (record p { idle_since = now }) heap

module _ (sl : SkipList) where
  -- `heap` has every session ever made, by its `seq`; `sessions` lists the registered ones.
  pub record Client : Type 0 where
    pub dead : Bool  -- the context `die` is done
    pub session_counter : ℕ
    pub idle_session : sl.S
    pub heap : Map ℕ Pooled
    pub sessions : Map ℕ (Unit {0})
    pub idle_session_timeout : ℕ
    pub min_idle_session : ℕ

  -- `NewClient`, with durations in nanoseconds: a timeout of five seconds or less becomes thirty.
  unfoldable pub new_client : ℕ → ℕ → Client
  new_client timeout min_idle = record {
    dead = false;
    session_counter = 0;
    idle_session = sl.empty;
    heap = [];
    sessions = [];
    idle_session_timeout = if leb timeout (5 * second) then 30 * second else timeout;
    min_idle_session = min_idle;
  }

  -- `IsClosed` of a session.
  abbrev pub is_shut : Client → ℕ → Bool
  is_shut c seq = closed_or_gone (lookup seq c.heap)

  -- The session's `dieHook`.
  abbrev pub die_hook : Client → ℕ → Client
  die_hook c seq = record c {
    idle_session = sl.remove (key_of seq) c.idle_session;
    sessions = delete seq c.sessions;
  }

  -- `Close` of a session of the pool.
  unfoldable pub close_session : Client → ℕ → Client
  close_session c seq =
      if is_shut c seq
      then c
      else die_hook (record c { heap = insert seq (mark_closed (lookup seq c.heap)) c.heap }) seq

  abbrev pub first_of : Client → Map ℕ ℕ → Client × Option ℕ
  first_of c [] = (c, none)
  first_of c ((k, seq) ∷ rest) = (record c { idle_session = sl.remove k c.idle_session }, some seq)

  -- `getIdleSession`
  unfoldable pub get_idle_session : Client → Client × Option ℕ
  get_idle_session c = first_of c (sl.entries c.idle_session)

  -- `createSession`
  unfoldable pub create_session : Client → Option Error → Client × Result ℕ
  create_session c (some e) = (c, err e)
  create_session c none =
      let seq = (c.session_counter + 1) % 2 ^ 64 in
      (
        record c {
          session_counter = seq;
          heap = insert seq (record { idle_since = 0; is_closed = false }) c.heap;
          sessions = insert seq tt c.sessions;
        },
        ok seq,
      )

  -- `OpenStream` on the session, which is closed on an error.
  abbrev pub open_on : Client × Result ℕ → Option Error → Client × Result ℕ
  open_on (c, err e) answer = (c, err e)
  open_on (c, ok seq) none = (c, ok seq)
  open_on (c, ok seq) (some e) = (close_session c seq, err e)

  abbrev pub idle_or_new : Client × Option ℕ → Option Error → Client × Result ℕ
  idle_or_new (c, some seq) dial = (c, ok seq)
  idle_or_new (c, none) dial = create_session c dial

  -- `CreateStream`: the session that the stream is on.
  unfoldable pub create_stream : Client → Option Error → Option Error → Client × Result ℕ
  create_stream c dial answer =
      if c.dead
      then (c, err closed_pipe)
      else open_on (idle_or_new (get_idle_session c) dial) answer

  -- The `dieHook` of a stream on the session `seq`; the goroutine that closes the session of a dead
  -- client runs at once.
  unfoldable pub stream_died : Client → ℕ → ℕ → Client
  stream_died c seq now =
      if is_shut c seq then c else if c.dead then close_session c seq else record c {
        heap = touch c.heap seq now (lookup seq c.heap);
        idle_session = sl.put (key_of seq) seq c.idle_session;
      }

  abbrev pub close_sessions : Client → Map ℕ (Unit {0}) → Client
  close_sessions c [] = c
  close_sessions c ((seq, u) ∷ rest) = close_sessions (close_session c seq) rest

  -- `Close`
  unfoldable pub close_client : Client → Client
  close_client c = close_sessions (record c { dead = true; sessions = [] }) c.sessions

  -- One round of the loop of `idleCleanupExpTime`: the client, `activeCount`, and the session to
  -- close, if it is one.
  unfoldable pub visit : Client → ℕ → ℕ → ℕ → ℕ → ℕ → Client × ℕ × List ℕ
  visit c exp_time now active key seq =
      if not (ltb (idle_since_of (lookup seq c.heap)) exp_time)
      then (c, active + 1, [])
      else if ltb active c.min_idle_session
      then (record c { heap = touch c.heap seq now (lookup seq c.heap) }, active + 1, [])
      else (record c { idle_session = sl.remove key c.idle_session }, active, seq ∷ [])

  unfoldable pub sweep : Client → ℕ → ℕ → ℕ → Map ℕ ℕ → Client × List ℕ
  sweep c exp_time now active [] = (c, [])
  sweep c exp_time now active ((key, seq) ∷ es) =
      let (d, count, out) = visit c exp_time now active key seq in
      let (e, rest) = sweep d exp_time now count es in (e, out ++ rest)

  unfoldable pub close_each : Client → List ℕ → Client
  close_each c [] = c
  close_each c (seq ∷ rest) = close_each (close_session c seq) rest

  -- `idleCleanupExpTime`
  unfoldable pub idle_cleanup_exp_time : Client → ℕ → ℕ → Client
  idle_cleanup_exp_time c exp_time now =
      let (d, out) = sweep c exp_time now 0 (sl.entries c.idle_session) in close_each d out

  -- `idleCleanup`
  unfoldable pub idle_cleanup : Client → ℕ → Client
  idle_cleanup c now = idle_cleanup_exp_time c (now - c.idle_session_timeout) now
