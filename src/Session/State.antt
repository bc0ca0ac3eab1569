-- ===== src/Session/State.antt =====
-- The state of session.go and stream.go. Locks are left out: each operation runs on its own.
use server_anytls.Prelude.{
  ℕ, zero, suc, Bool, true, false, List, [], ◌∷◌, ◌++◌, Option, none, some, Bytes, Error,
  net_closed, length, take, if◌then◌else◌, concat, map,
}
use server_anytls.Prelude.Maps.{Map}
use server_anytls.Padding.{PaddingFactory}
use server_anytls.Deadline.{PipeDeadline, make_pipe_deadline}
use server_anytls.Pipe.{Pipe, new_pipe}

-- What one `Write` call put on the connection, and whether a write deadline was set then.
pub record Written : Type 0 where
  pub bytes : Bytes
  pub with_deadline : Bool

-- The `net.Conn` below. `fate i` is what the write number `i` meets: `none` writes it all,
-- `some (n, e)` writes at most `n` bytes and returns the error `e`.
pub record Conn : Type 0 where
  pub writes : List Written
  pub fate : ℕ → Option (ℕ × Error)
  pub deadline : Bool
  pub closed : Bool
  pub close_error : Option Error

-- The bytes on the wire so far.
abbrev pub wire : Conn → Bytes
wire c = concat (map (λ (w : Written). w.bytes) c.writes)

-- `panicked` is a run-time panic inside the call.
pub data WriteResult : Type 0 where
  wrote : ℕ → WriteResult
  failed : Error → WriteResult
  panicked : WriteResult

abbrev pub log_write : Conn → Bytes → Conn
log_write c b = record c {
  writes = c.writes ++ (record { bytes = b; with_deadline = c.deadline } ∷ []);
}

abbrev pub met : Conn → Bytes → Option (ℕ × Error) → Conn × WriteResult
met c b none = (log_write c b, wrote (length b))
met c b (some (n, e)) = (log_write c (take n b), failed e)

unfoldable pub conn_write : Conn → Bytes → Conn × WriteResult
conn_write c b = if c.closed then (c, failed net_closed) else met c b (c.fate (length c.writes))

pub record Stream : Type 0 where
  pub id : ℕ
  pub pipe : Pipe
  pub write_deadline : PipeDeadline
  pub died : Bool  -- `dieOnce` is used up
  pub die_hook : Bool  -- `dieHook` is set
  pub die_err : Option Error
  pub reported : Bool  -- `reportOnce` is used up

unfoldable pub new_stream : ℕ → Stream
new_stream id = record {
  id = id;
  pipe = new_pipe;
  write_deadline = make_pipe_deadline;
  died = false;
  die_hook = false;
  die_err = none;
  reported = false;
}

-- Callbacks and goroutines that the session starts, in order. A number is a stream of the heap.
pub data Effect : Type 0 where
  session_hook : Effect
  stream_hook : ℕ → Effect
  handler_started closer_started : ℕ → Effect
  syn_done_called syn_watch_started : Effect

-- Every stream ever made is in `heap`, by the order of creation; `streams` maps the ids of the
-- registered ones to their places there. The scratch buffers of the padding are left out.
pub record Session : Type 0 where
  pub conn : Conn
  pub heap : List Stream
  pub streams : Map ℕ ℕ
  pub stream_id : ℕ
  pub dead : Bool  -- the channel `die` is closed
  pub die_hook : Bool
  pub syn_done : Bool  -- `synDone` is not nil
  pub padding : Option PaddingFactory  -- what the shared pointer holds
  pub peer_version : ℕ
  pub is_client : Bool
  pub send_padding : Bool
  pub buffering : Bool
  pub buffer : Bytes
  pub pkt_counter : ℕ
  pub on_new_stream : Bool
  pub effects : List Effect

unfoldable pub new_session : Conn → Bool → Bool → Option PaddingFactory → Session
new_session conn is_client on_new_stream padding = record {
  conn = conn;
  heap = [];
  streams = [];
  stream_id = 0;
  dead = false;
  die_hook = false;
  syn_done = false;
  padding = padding;
  peer_version = 0;
  is_client = is_client;
  send_padding = is_client;
  buffering = false;
  buffer = [];
  pkt_counter = 0;
  on_new_stream = on_new_stream;
  effects = [];
}

unfoldable pub new_client_session : Conn → Option PaddingFactory → Session
unfolding new_session
new_client_session conn padding = new_session conn true false padding

unfoldable pub new_server_session : Conn → Bool → Option PaddingFactory → Session
unfolding new_session
new_server_session conn on_new_stream padding = new_session conn false on_new_stream padding

abbrev pub emit : Session → Effect → Session
emit s e = record s { effects = s.effects ++ (e ∷ []) }

-- The heap.
abbrev pub get_elem? : List Stream → ℕ → Option Stream
get_elem? [] i = none
get_elem? (x ∷ xs) zero = some x
get_elem? (x ∷ xs) (suc i) = get_elem? xs i

abbrev pub set : List Stream → ℕ → Stream → List Stream
set [] i v = []
set (x ∷ xs) zero v = v ∷ xs
set (x ∷ xs) (suc i) v = x ∷ set xs i v
