-- ===== src/Deadline.antt =====
-- internal/pkg/proxy/pipe/deadline.go: a deadline that can be set again, as a timer and a channel
-- that is closed when the time has come. A channel is its closed flag; a new channel is open.
pub mod Timing
use server_anytls.Prelude.{
  ℕ, ◌≤◌, ◌<◌, Bool, true, false, Option, none, some, leb, ltb, if◌then◌else◌,
}

-- `d.timer`: none, one that will fire at a time, or one whose function has started.
pub data Timer : Type 0 where
  no_timer : Timer
  armed : ℕ → Timer
  fired : Timer

pub record PipeDeadline : Type 0 where
  pub timer : Timer
  pub cancelled : Bool  -- `*d.cancel` is closed

unfoldable pub make_pipe_deadline : PipeDeadline
make_pipe_deadline = record { timer = no_timer; cancelled = false }

-- `close(ch)`; `none` is the panic on a channel that is closed already.
abbrev pub close_chan : Bool → Option Bool
close_chan true = none
close_chan false = some true

abbrev pub with_channel : PipeDeadline → Option Bool → Option PipeDeadline
with_channel d none = none
with_channel d (some c) = some (record d { cancelled = c })

-- The timer's function runs: `close(*d.cancel.Load())`.
abbrev pub fire : PipeDeadline → Option PipeDeadline
fire d = with_channel (record d { timer = fired }) (close_chan d.cancelled)

-- Time passes up to `now`: an armed timer that is due fires.
unfoldable pub advance_timer : Timer → PipeDeadline → ℕ → Option PipeDeadline
advance_timer (armed t) d now = if leb t now then fire d else some d
advance_timer _ d now = some d

unfoldable pub advance : PipeDeadline → ℕ → Option PipeDeadline
advance d now = advance_timer d.timer d now

-- `t.IsZero()` is `none`. Where the timer has fired, `<-cancel` has waited for its close.
unfoldable pub set_channel : PipeDeadline → Bool → Option ℕ → ℕ → Option PipeDeadline
set_channel d closed none now =
    some (record { timer = no_timer; cancelled = if closed then false else d.cancelled })
set_channel d closed (some t) now =
    if ltb now t
    then some (record { timer = armed t; cancelled = if closed then false else d.cancelled })
    else if closed
    then some (record { timer = no_timer; cancelled = d.cancelled })
    else with_channel (record d { timer = no_timer }) (close_chan d.cancelled)

-- `Set(t)` at the time `now`.
unfoldable pub set_deadline : PipeDeadline → Option ℕ → ℕ → Option PipeDeadline
set_deadline d t now = set_channel d d.cancelled t now

-- `isClosedChan(d.Wait())`
abbrev pub is_expired : PipeDeadline → Bool
is_expired d = d.cancelled
