-- ===== src/Watcher.antt =====
-- internal/pkg/util/deadline.go: the watcher that `OpenStream` starts for a SYN. A timer, the channel
-- `closeCh`, a goroutine that waits for both, and the function that `NewDeadlineWatcher` returns take
-- steps in any order.
use server_anytls.Prelude.{
  ℕ, ◌+◌, ◌≤◌, ◌≡◌, refl, sym, ◌∙◌, subst, ◌≢◌, ◌⊎◌, inl, inr, Bool, true, false, Option, none,
  some, if◌then◌else◌, if_elim, arith, Bool-cases,
}
use mathlib.Core.Bool.{false≢true}
use mathlib.Core.Option.{some-injective, none-ne-some}

-- `expired`: there is a tick in `t.C`. `timed_out` counts the calls of `timeOut`.
pub record Watcher : Type 0 where
  pub expired : Bool
  pub timer_stopped : Bool
  pub close_ch : Bool
  pub once : Bool
  pub ended : Bool
  pub timed_out : ℕ

abbrev pub new_deadline_watcher : Watcher
new_deadline_watcher = record {
  expired = false;
  timer_stopped = false;
  close_ch = false;
  once = false;
  ended = false;
  timed_out = 0;
}

-- `close(closeCh)`, which panics on a closed channel.
abbrev pub close_channel : Watcher → Option Watcher
close_channel w = if w.close_ch then none else some (record w { close_ch = true })

-- The function that is returned; `none` is a panic.
unfoldable pub done : Watcher → Option Watcher
done w = if w.once then some w else close_channel (record w { once = true })

-- The goroutine's end, with the deferred `t.Stop()`.
abbrev pub finish : Watcher → Watcher
finish w = record w { ended = true; timer_stopped = true }

abbrev pub time_out : Watcher → Watcher
time_out w = finish (record w { timed_out = w.timed_out + 1 })

-- With both channels ready the `select` takes either.
pub data Step : Watcher → Watcher → Type 0 where
  timer_fires : {w : Watcher} → w.timer_stopped ≡ false → Step w (record w { expired = true })
  done_called : {w v : Watcher} → done w ≡ some v → Step w v
  sees_close : {w : Watcher} → w.ended ≡ false → w.close_ch ≡ true → Step w (finish w)
  sees_timer : {w : Watcher} → w.ended ≡ false → w.expired ≡ true → Step w (time_out w)

pub data Steps : Watcher → Watcher → Type 0 where
  stay : {w : Watcher} → Steps w w
  then_step : {u v w : Watcher} → Steps u v → Step v w → Steps u w

abbrev pub runs_of : Bool → ℕ
runs_of b = if b then 1 else 0

pub record IsSound (w : Watcher) : Type 0 where
  pub at_most_once : w.timed_out ≤ runs_of w.ended
  pub after_expiry : w.timed_out ≤ runs_of w.expired
  pub closed_once : w.close_ch ≡ w.once

some_ne_none : (w : Watcher) → some w ≢ none
some_ne_none w e = none-ne-some w (sym e)

new_deadline_watcher-IsSound : IsSound new_deadline_watcher
new_deadline_watcher-IsSound = record {
  at_most_once = omega arith;
  after_expiry = omega arith;
  closed_once = refl;
}

done-IsSound : (w v : Watcher) → done w ≡ some v → IsSound w → IsSound v
unfolding done
done-IsSound w v e s =
    if_elim (λ o. o ≡ some v → IsSound v) w.once (λ _ f. subst IsSound (some-injective w v f) s)
      (λ o.
        if_elim (λ x. x ≡ some v → IsSound v) w.close_ch (λ _ f. absurd (none-ne-some v f))
          (λ _ f.
            subst IsSound (some-injective (record w { once = true; close_ch = true }) v f) (record {
              at_most_once = s.at_most_once;
              after_expiry = s.after_expiry;
              closed_once = refl;
            })))
      e

done-some : (w : Watcher) → IsSound w → done w ≢ none
unfolding done
done-some w s =
    if_elim (λ o. o ≢ none) w.once (λ _. some_ne_none w)
      (λ o.
        if_elim (λ x. x ≢ none) w.close_ch
          (λ c. absurd (false≢true (sym o ∙ sym s.closed_once ∙ c))) (λ _. some_ne_none _))

Step-IsSound : (w v : Watcher) → Step w v → IsSound w → IsSound v
Step-IsSound w v (timer_fires e) s = record {
  at_most_once = s.at_most_once;
  after_expiry = ground (arith, s.after_expiry);
  closed_once = s.closed_once;
}
Step-IsSound w v (done_called e) s = done-IsSound w v e s
Step-IsSound w v (sees_close e c) s = record {
  at_most_once = ground (arith, s.at_most_once);
  after_expiry = s.after_expiry;
  closed_once = s.closed_once;
}
Step-IsSound w v (sees_timer e x) s = record {
  at_most_once = ground (arith, s.at_most_once);
  after_expiry = ground (arith, s.at_most_once, s.after_expiry);
  closed_once = s.closed_once;
}

Steps-IsSound : (u w : Watcher) → Steps u w → IsSound u → IsSound w
Steps-IsSound u w stay s = s
Steps-IsSound u w (then_step {v = v} r h) s = Step-IsSound v w h (Steps-IsSound u v r s)

-- The goroutine has ended or ends at its next step.
abbrev pub CanEnd : Watcher → Type 0
CanEnd w = (w.ended ≡ true) ⊎ ((v : Watcher) × Step w v × (v.ended ≡ true))

-- What holds of a watcher at every moment.
pub record IsWatching (w : Watcher) : Type 0 where
  pub sound : IsSound w
  pub no_panic : done w ≢ none
  pub ends_when_done : (w.close_ch ≡ false) ⊎ CanEnd w
  pub ends_when_expired : (w.expired ≡ false) ⊎ CanEnd w

can_end :
    (w : Watcher) (ready : Bool)
    → (w.ended ≡ false → ready ≡ true → (v : Watcher) × Step w v × (v.ended ≡ true))
    → (ready ≡ false) ⊎ CanEnd w
can_end w false h = inl refl
can_end w true h = elim (Bool-cases w.ended) [ inl e ↦ inr (inl e) | inr e ↦ inr (inr (h e refl)) ]

-- In every order of the steps of the timer, the goroutine and the callers of the returned function,
-- `timeOut` has run at most once, and only behind the timer's tick; that function does not panic,
-- however often it is called; and behind its first call, or behind the tick, the goroutine has ended
-- or ends at its next step.
pub Steps-IsWatching : (w : Watcher) → Steps new_deadline_watcher w → IsWatching w
Steps-IsWatching w r =
    let s = Steps-IsSound new_deadline_watcher w r new_deadline_watcher-IsSound in
    record {
      sound = s;
      no_panic = done-some w s;
      ends_when_done = can_end w w.close_ch (λ e c. (finish w, sees_close e c, refl));
      ends_when_expired = can_end w w.expired (λ e x. (time_out w, sees_timer e x, refl));
    }
