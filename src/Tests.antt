-- ===== src/Tests.antt =====
-- Concrete inputs, and the theorems applied to them.
pub mod Sessions
pub mod Pipes
pub mod Services
pub mod Pools
pub mod Servers
pub mod Outbounds
use server_anytls.Prelude.{
  ℕ, zero, suc, ◌+◌, ◌≤◌, ◌<◌, ◌^◌, ◌≡◌, refl, Bool, true, false, List, [], ◌∷◌, ◌++◌, Option, none,
  some, Bytes, codes, Error, net_closed, arith,
}
use server_anytls.Env.{Env}
use server_anytls.Padding.{PaddingRange, PaddingFactory}
use server_anytls.Padding.Bounds.{IsSafe}
use server_anytls.Wire.{Frame, cmd_settings, cmd_syn, cmd_psh}
use server_anytls.Session.State.{Conn, Session, new_client_session, new_server_session, new_session}
use server_anytls.Session.Recv.{Receiver}
use server_anytls.Session.Traffic.{Item, framed, wasted}

-- A hash that is the text itself, a map in its own order, and draws by position.
abbrev pub demo_env : Env
demo_env = record {
  md5_hex = λ b. b;
  range_over = λ m. m;
  draw = λ pkt i. pkt + i;
  client_debug_padding_scheme = false;
}

-- `stop=3` and `1=30-30,c,10-20`, split at the line break.
abbrev pub demo_scheme : Bytes
demo_scheme = codes "stop=3" ++ (b'\n' ∷ codes "1=30-30,c,10-20")

abbrev pub demo_factory : PaddingFactory
demo_factory = record {
  parsed_ranges =
      (
        1,
        record { is_check = false; min = 30; max = 30 }
            ∷ record { is_check = true; min = 0; max = 0 }
            ∷ record { is_check = false; min = 10; max = 20 }
            ∷ [],
      )
      ∷ [];
  raw_scheme = demo_scheme;
  stop = 3;
  md5 = demo_scheme;
}

pub demo_factory-IsSafe : IsSafe demo_factory
demo_factory-IsSafe = ground arith

-- A connection that takes every write but the second, which breaks off after one byte.
abbrev second_fails : ℕ → Option (ℕ × Error)
second_fails zero = none
second_fails (suc zero) = some (1, net_closed)
second_fails (suc (suc i)) = none

abbrev pub demo_conn : Conn
demo_conn = record {
  writes = [];
  fate = second_fails;
  deadline = false;
  closed = false;
  close_error = none;
}

abbrev pub demo_client : Session
unfolding new_client_session new_session
demo_client = new_client_session demo_conn (some demo_factory)

abbrev pub demo_server : Session
unfolding new_server_session new_session
demo_server = new_server_session demo_conn true (some demo_factory)

abbrev pub demo_receiver : Receiver
demo_receiver = record { session = demo_server; received_settings = false }

abbrev pub settings_frame : Frame
settings_frame = record { cmd = cmd_settings; sid = 0; payload = codes "v=2" }

abbrev pub syn_frame : Frame
syn_frame = record { cmd = cmd_syn; sid = 1; payload = [] }

abbrev pub push_frame : Frame
push_frame = record { cmd = cmd_psh; sid = 1; payload = codes "abc" }

-- What a client may send, with waste between the frames.
abbrev pub demo_items : List Item
demo_items = framed settings_frame ∷ framed syn_frame ∷ wasted 4 ∷ framed push_frame ∷ wasted 0 ∷ []
