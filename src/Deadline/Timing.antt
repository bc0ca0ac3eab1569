-- ===== src/Deadline/Timing.antt =====
-- When a deadline is seen, and that its channel is closed only once.
use server_anytls.Prelude.{ℕ, ◌≤◌, ◌≡◌, refl, Bool, true, false, Option, none, some, leb, arith}
use server_anytls.Deadline.{
  Timer, no_timer, armed, fired, PipeDeadline, advance, advance_timer, set_channel, set_deadline,
  is_expired,
}

-- A timer that has not fired goes with an open channel, and one that has with a closed one.
abbrev pub IsConsistentAt : Timer → Bool → Type 0
IsConsistentAt (armed t) c = c ≡ false
IsConsistentAt fired c = c ≡ true
IsConsistentAt no_timer c = Unit {0}

abbrev pub IsConsistent : PipeDeadline → Type 0
IsConsistent d = IsConsistentAt d.timer d.cancelled

-- The call went through without a panic, and left a consistent deadline that is or is not expired.
abbrev pub Gives : Option PipeDeadline → Bool → Type 0
Gives none b = ⊥
Gives (some d) b = IsConsistent d × (is_expired d ≡ b)

-- Whether a deadline `t` is past at a time.
abbrev pub is_past : Option ℕ → ℕ → Bool
is_past none now = false
is_past (some t) now = leb t now

set_channel-Gives :
    (d : PipeDeadline) (c : Bool) (t : Option ℕ) (now : ℕ)
    → c ≡ d.cancelled
    → Gives (set_channel d c t now) (is_past t now)
unfolding set_channel
set_channel-Gives d c none now e = ground arith
set_channel-Gives d c (some t) now e = ground arith

pub set_deadline-Gives :
    (d : PipeDeadline) (t : Option ℕ) (now : ℕ) → Gives (set_deadline d t now) (is_past t now)
unfolding set_deadline
set_deadline-Gives d t now = set_channel-Gives d d.cancelled t now refl

set_channel-advance :
    (d e : PipeDeadline) (c : Bool) (t : Option ℕ) (now later : ℕ)
    → c ≡ d.cancelled
    → now ≤ later
    → set_channel d c t now ≡ some e
    → Gives (advance e later) (is_past t later)
unfolding set_channel advance advance_timer
set_channel-advance d e c none now later q le h = ground arith
set_channel-advance d e c (some t) now later q le h = ground arith

-- After `Set(t)` at `now`, at any later time the timer's function closes the channel without a
-- panic, and the deadline is expired exactly when one was set and its time has come.
pub advance-set_deadline :
    (d e : PipeDeadline) (t : Option ℕ) (now later : ℕ)
    → now ≤ later
    → set_deadline d t now ≡ some e
    → Gives (advance e later) (is_past t later)
unfolding set_deadline
advance-set_deadline d e t now later le h =
    set_channel-advance d e d.cancelled t now later refl le h
