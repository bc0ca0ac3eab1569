-- ===== src/Tests/Sessions.antt =====
-- The session, its padding and its receive loop on concrete inputs.
use server_anytls.Prelude.{
  ◌≡◌, refl, true, [], ◌∷◌, ◌++◌, some, codes, arith, All, equal, bytes_eq, nat_eq, Bytes, eof,
}
use server_anytls.Prelude.Maps.{HasUniqueKeys, lookup}
use server_anytls.Number.{parse_int, to_uint32}
use server_anytls.Wire.{frame_bytes, header}
use server_anytls.Padding.{
  new_padding_factory, factory_of, add_packets, parse_range, parse_ranges, parse_bounds,
  bounded_range, generate_record_payload_sizes, append_record_payload_sizes, append_sizes,
  range_size,
}
use server_anytls.Padding.Bounds.{
  IsSafe, IsSafeSize, new_padding_factory-IsSafe, generate_record_payload_sizes-IsSafe,
}
use server_anytls.StringMap.{
  StringMap, string_map_from_bytes, to_bytes, split, split_two, add_lines,
}
use server_anytls.StringMap.RoundTrip.{IsPrintable, contains_byte, string_map_from_bytes-to_bytes}
use server_anytls.Session.State.{Session, new_stream, get_elem?, conn_write, wire, wrote}
use server_anytls.Session.Send.{
  write_conn_locked, write_out, assemble, assemble_size, waste, zero_buf,
}
use server_anytls.Session.Send.Sent.{Sends, write_conn_locked-Sends}
use server_anytls.Session.Streams.{
  write_chunks, close_session, write_control_frame, write_data_frame,
}
use server_anytls.Session.Closed.{Found, close_session-died}
use server_anytls.Session.Framing.{Carries, Carried, write_control_frame-Carried}
use server_anytls.Session.Recv.{Receiver, stops, recv_step, recv_loop}
use server_anytls.Session.Recv.Frames.{IsWhole, act, recv_step-frame_bytes}
use server_anytls.Session.Recv.Rounds.{HasEnded, recv_loop-HasEnded}
use server_anytls.Session.Recv.Invisible.{Alike, rounds, recv_loop-Alike}
use server_anytls.Session.Traffic.{traffic, frames_of, frames_bytes, IsSound}
use server_anytls.Session.Delivery.{HasStream}
use server_anytls.Session.EndToEnd.{write_data_frame-Delivers}
use server_anytls.Pipe.{new_pipe}
use server_anytls.Deadline.{make_pipe_deadline}
use server_anytls.Tests.{
  demo_env, demo_scheme, demo_factory, demo_factory-IsSafe, demo_client, demo_server, demo_receiver,
  settings_frame, syn_frame, push_frame, demo_items,
}

demo_client-Carries : Carries [] demo_client
unfolding traffic demo_client
demo_client-Carries = ([], tt, refl, refl)

settings_frame-IsWhole : IsWhole settings_frame
settings_frame-IsWhole = record {
  sid_fits = omega arith;
  length_fits = omega arith;
  bare = λ e. ground (arith, e);
}

syn_frame-IsWhole : IsWhole syn_frame
syn_frame-IsWhole = record { sid_fits = omega arith; length_fits = omega arith; bare = λ e. refl }

push_frame-IsWhole : IsWhole push_frame
push_frame-IsWhole = record {
  sid_fits = omega arith;
  length_fits = omega arith;
  bare = λ e. ground (arith, e);
}

demo_items-IsSound : All IsSound demo_items
demo_items-IsSound = (
  settings_frame-IsWhole,
  (syn_frame-IsWhole, (omega arith, (push_frame-IsWhole, (omega arith, tt)))),
)

write_control_frame-Carried_example :
    Carried (settings_frame ∷ []) (write_control_frame demo_env demo_client settings_frame)
unfolding demo_client
write_control_frame-Carried_example =
    write_control_frame-Carried demo_env demo_client settings_frame [] demo_factory-IsSafe
      settings_frame-IsWhole demo_client-Carries

write_conn_locked-Sends_example :
    Sends demo_client (codes "hello") (write_conn_locked demo_env demo_client (codes "hello"))
unfolding demo_client
write_conn_locked-Sends_example =
    write_conn_locked-Sends demo_env demo_client (codes "hello") demo_factory-IsSafe

recv_loop-Alike_example :
    Alike []
      (recv_loop demo_env demo_receiver (traffic demo_items ++ []))
      (recv_loop demo_env demo_receiver (frames_bytes (frames_of demo_items) ++ []))
recv_loop-Alike_example = recv_loop-Alike demo_env demo_receiver demo_items [] demo_items-IsSound

recv_loop-HasEnded_example : HasEnded (recv_loop demo_env demo_receiver (traffic demo_items))
recv_loop-HasEnded_example = recv_loop-HasEnded demo_env demo_receiver (traffic demo_items)

recv_step-frame_bytes_example :
    recv_step demo_env demo_receiver (frame_bytes settings_frame ++ codes "rest")
    ≡ act demo_env demo_receiver settings_frame (codes "rest")
recv_step-frame_bytes_example =
    recv_step-frame_bytes demo_env demo_receiver settings_frame (codes "rest")
      settings_frame-IsWhole

new_padding_factory-demo : new_padding_factory demo_env demo_scheme ≡ some demo_factory
unfolding new_padding_factory factory_of string_map_from_bytes split split_two add_lines add_packets
    parse_ranges parse_range parse_bounds bounded_range equal parse_int lookup to_uint32
new_padding_factory-demo = refl

new_padding_factory-IsSafe_example : IsSafe demo_factory
new_padding_factory-IsSafe_example =
    new_padding_factory-IsSafe demo_env demo_scheme demo_factory new_padding_factory-demo

generate_record_payload_sizes-IsSafe_example :
    All IsSafeSize (generate_record_payload_sizes demo_env demo_factory 1)
generate_record_payload_sizes-IsSafe_example =
    generate_record_payload_sizes-IsSafe demo_env demo_factory 1 demo_factory-IsSafe

abbrev demo_settings : StringMap
demo_settings = (codes "v", codes "2") ∷ (codes "padding-md5", codes "a=b") ∷ []

demo_settings-IsPrintable : IsPrintable demo_settings
unfolding contains_byte
demo_settings-IsPrintable = ((refl, refl, refl), ((refl, refl, refl), tt))

demo_settings-HasUniqueKeys : HasUniqueKeys demo_settings
unfolding lookup equal
demo_settings-HasUniqueKeys = (refl, (refl, tt))

string_map_from_bytes-to_bytes_example :
    string_map_from_bytes (to_bytes demo_env demo_settings) ≡ demo_settings
string_map_from_bytes-to_bytes_example =
    string_map_from_bytes-to_bytes demo_env demo_settings demo_settings-IsPrintable
      demo_settings-HasUniqueKeys

-- A session with one stream.
abbrev busy : Session
unfolding new_stream
busy = record demo_server { heap = new_stream 5 ∷ []; streams = (5, 0) ∷ []; die_hook = true }

busy_finds : lookup 5 busy.streams ≡ some 0
unfolding lookup busy
busy_finds = refl

close_session-died_example : Found true (get_elem? ((close_session busy).0).heap 0)
unfolding busy demo_server
close_session-died_example = close_session-died busy 5 0 refl busy_finds tt

-- A receiver with an open stream 1, and the client after writing to it.
abbrev with_stream : Receiver
unfolding demo_server new_stream new_pipe make_pipe_deadline
with_stream = record {
  session = record demo_server { heap = new_stream 1 ∷ []; streams = (1, 0) ∷ [] };
  received_settings = true;
}

with_stream-HasStream : HasStream with_stream 1 0 []
unfolding with_stream lookup new_stream new_pipe make_pipe_deadline
with_stream-HasStream = record {
  stream = new_stream 1;
  registered = refl;
  there = refl;
  opened = record {
    bounded = record { within = omega arith; compact = omega arith; unread = omega arith };
    undone = refl;
    unexpired = refl;
  };
  holds = refl;
  sized = refl;
}

abbrev after_hello : Session
after_hello = (write_data_frame demo_env demo_client 1 (codes "hello")).0

hello_sent : write_data_frame demo_env demo_client 1 (codes "hello") ≡ (after_hello, wrote 5)
unfolding write_data_frame write_chunks write_conn_locked write_out demo_client conn_write
    frame_bytes assemble assemble_size waste zero_buf append_record_payload_sizes lookup header
    append_sizes range_size
hello_sent = refl

nothing_before :
    (y : Bytes) → rounds demo_env with_stream (frames_bytes [] ++ y) ≡ rounds demo_env with_stream y
unfolding frames_bytes
nothing_before y = refl

write_data_frame-Delivers_example :
    (w : Receiver) × HasStream w 1 0 (codes "hello")
    × (rounds demo_env with_stream (wire after_hello.conn ++ after_hello.buffer)
        ≡ stops w (some eof))
unfolding demo_client
write_data_frame-Delivers_example =
    write_data_frame-Delivers demo_env demo_client after_hello 1 5 0 (codes "hello") [] []
      with_stream with_stream demo_factory-IsSafe (omega arith) demo_client-Carries hello_sent
      nothing_before with_stream-HasStream (omega arith)
