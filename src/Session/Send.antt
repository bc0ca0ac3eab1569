-- ===== src/Session/Send.antt =====
-- session.go, `writeConnLocked` and its callers: buffering, padding, and the write deadline.
pub mod Padded
pub mod Sent
use server_anytls.Prelude.{
  ℕ, zero, suc, ◌+◌, ◌-◌, ◌*◌, ◌%◌, ◌^◌, ◌<◌, Bool, true, false, List, [], ◌∷◌, ◌++◌, Option, none,
  some, Bytes, Error, length, take, drop, replicate, ltb, leb, ◌==◌, if◌then◌else◌,
}
use server_anytls.Env.{Env}
use server_anytls.Wire.{cmd_waste, header, header_over_head_size}
use server_anytls.Padding.{PaddingFactory, Size, check_mark, size, append_record_payload_sizes}
use server_anytls.Session.State.{Session, Conn, WriteResult, wrote, failed, panicked, conn_write}

-- `zeroBuf[:n]`, of 65536 bytes; `none` is the panic on a larger `n`.
unfoldable pub zero_buf : ℕ → Option Bytes
zero_buf n = if leb n 65536 then some (replicate n 0) else none

-- A waste header and the zeros behind it.
abbrev pub append_zeros : Bytes → Option Bytes → Option Bytes
append_zeros h none = none
append_zeros h (some zs) = some (h ++ zs)

unfoldable pub waste : ℕ → Option Bytes
waste n = append_zeros (header cmd_waste 0 n) (zero_buf n)

-- The two variables of the padding loop, `b` and `assembled`; `none` is a panic.
pub record Assembly : Type 0 where
  pub b : Bytes
  pub assembled : Bytes

abbrev pub append_waste : Bytes → Option Bytes → Option Assembly
append_waste acc none = none
append_waste acc (some w) = some (record { b = []; assembled = acc ++ w })

-- One size of the list.
unfoldable pub assemble_size : ℕ → Assembly → Option Assembly
assemble_size l a =
    if ltb l (length a.b)
    then some (record { b = drop l a.b; assembled = a.assembled ++ take l a.b })
    else if ltb 0 (length a.b)
    then (if ltb (length a.b + header_over_head_size) l
        then append_waste (a.assembled ++ a.b) (waste (l - length a.b - header_over_head_size))
        else some (record { b = []; assembled = a.assembled ++ a.b }))
    else append_waste a.assembled (waste l)

abbrev pub next_size : (Assembly → Option Bytes) → Option Assembly → Option Bytes
next_size k none = none
next_size k (some a) = k a

-- The loop over the sizes, and the rest of `b` behind it. A check mark ends it if `b` is empty.
unfoldable pub assemble : List Size → Assembly → Option Bytes
assemble [] a = some (a.assembled ++ a.b)
assemble (check_mark ∷ ls) a =
    let rest = assemble ls a in if length a.b == 0 then some a.assembled else rest
assemble (size l ∷ ls) a = next_size (assemble ls) (assemble_size l a)

abbrev pub after_write : Session → Conn × WriteResult → Session × WriteResult
after_write s (c, r) = (record s { conn = c }, r)

-- `s.conn.Write(b)`
abbrev pub plain_write : Session → Bytes → Session × WriteResult
plain_write s b = after_write s (conn_write s.conn b)

abbrev pub whole : ℕ → WriteResult → WriteResult
whole n (wrote m) = wrote n
whole n (failed e) = failed e
whole n panicked = panicked

abbrev pub count_payload : ℕ → Session × WriteResult → Session × WriteResult
count_payload n (s, r) = (s, whole n r)

abbrev pub write_assembled : Session → ℕ → Option Bytes → Session × WriteResult
write_assembled s n none = (s, panicked)
write_assembled s n (some assembled) = count_payload n (plain_write s assembled)

-- The packet `pkt` under the factory that the pointer holds.
abbrev pub write_padded : Env → Session → ℕ → Bytes → Option PaddingFactory → Session × WriteResult
write_padded env s pkt b none = plain_write (record s { send_padding = false }) b
write_padded env s pkt b (some p) =
    if ltb pkt p.stop
    then write_assembled s (length b)
        (assemble (append_record_payload_sizes env p pkt []) (record { b = b; assembled = [] }))
    else plain_write (record s { send_padding = false }) b

-- What follows the buffering: number the packet and pad it, or write it as it is.
unfoldable pub write_out : Env → Session → Bytes → Session × WriteResult
write_out env s b =
    if s.send_padding
    then (let pkt = (s.pkt_counter + 1) % 2 ^ 32 in
        write_padded env (record s { pkt_counter = pkt }) pkt b s.padding)
    else plain_write s b

-- `writeConnLocked`
unfoldable pub write_conn_locked : Env → Session → Bytes → Session × WriteResult
write_conn_locked env s b =
    if s.buffering
    then (record s { buffer = s.buffer ++ b }, wrote (length b))
    else if ltb 0 (length s.buffer)
    then write_out env (record s { buffer = [] }) (s.buffer ++ b)
    else write_out env s b

abbrev pub set_write_deadline : Session → Bool → Session
set_write_deadline s on = record s { conn = record (s.conn) { deadline = on } }

abbrev pub clear_deadline : Session × WriteResult → Session × WriteResult
clear_deadline (s, r) = (set_write_deadline s false, r)

-- `writeConnWithDeadline`; the deferred reset runs on every path.
unfoldable pub write_conn_with_deadline : Env → Session → Bytes → Session × WriteResult
write_conn_with_deadline env s b =
    clear_deadline (write_conn_locked env (set_write_deadline s true) b)
