-- ===== src/Service/Traffic/History.antt =====
-- The counters while connections count and the report task drains, submits and restores: the steps
-- interleave in any order.
use server_anytls.Prelude.{
  ℕ, ◌+◌, ◌%◌, ◌^◌, ◌≡◌, refl, ap, ◌∙◌, List, [], ◌∷◌, ◌++◌, Option, none, some, Error, arith,
  if◌then◌else◌, Bool, true, false,
}
use server_anytls.Prelude.Maps.{HasUniqueKeys, lookup}
use server_anytls.Number.{ℤ, int_eq, equal_ℤ}
use server_anytls.Service.Traffic.{
  UserTraffic, TrafficManager, add_traffic, add_uint64, restore, drain_user_traffics,
}
use server_anytls.Service.Traffic.Conserved.{
  Counter, of_report, of_item-new, held, reported, held-add_traffic, held-restore,
  reported-drain_user_traffics, held-drain_user_traffics, add_traffic-HasUniqueKeys,
  restore-HasUniqueKeys, drain_user_traffics-HasUniqueKeys,
}

-- `counted` is an `Add` of a connection to the item of its user. `drained` starts a report and
-- `settled` ends it, with what the panel answers.
pub data Event : Type 0 where
  counted : UserTraffic → Event
  drained : Event
  settled : Option Error → Event

-- The counters, the report that is on its way, and all that the panel has taken.
pub record Ledger : Type 0 where
  pub manager : TrafficManager
  pub in_flight : Option (List UserTraffic)
  pub taken : List UserTraffic

abbrev pub new_ledger : Ledger
new_ledger = record { manager = []; in_flight = none; taken = [] }

-- One report is on its way at a time: the task is a single goroutine.
abbrev pub drain_if_idle : TrafficManager → List UserTraffic → Option (List UserTraffic) → Ledger
drain_if_idle tm taken (some ts) = record { manager = tm; in_flight = some ts; taken = taken }
drain_if_idle tm taken none = record {
  manager = (drain_user_traffics tm).0;
  in_flight = some ((drain_user_traffics tm).1);
  taken = taken;
}

abbrev pub settle :
    TrafficManager → List UserTraffic → Option (List UserTraffic) → Option Error → Ledger
settle tm taken none o = record { manager = tm; in_flight = none; taken = taken }
settle tm taken (some ts) none = record { manager = tm; in_flight = none; taken = taken ++ ts }
settle tm taken (some ts) (some e) = record {
  manager = restore tm ts;
  in_flight = none;
  taken = taken;
}

unfoldable pub step : Ledger → Event → Ledger
step l (counted t) = record l { manager = add_traffic l.manager t }
step l drained = drain_if_idle l.manager l.taken l.in_flight
step l (settled o) = settle l.manager l.taken l.in_flight o

unfoldable pub run : Ledger → List Event → Ledger
run l [] = l
run l (e ∷ es) = run (step l e) es

-- What the connections of a user have counted.
abbrev pub earned : Counter → ℤ → List Event → ℕ
earned c uid [] = 0
earned c uid (counted t ∷ es) = (if equal_ℤ t.uid uid then of_report c t else 0) + earned c uid es
earned c uid (drained ∷ es) = earned c uid es
earned c uid (settled o ∷ es) = earned c uid es

abbrev pub reported_if : Counter → ℤ → Option (List UserTraffic) → ℕ
reported_if c uid none = 0
reported_if c uid (some ts) = reported c uid ts

-- All that is recorded of a user, at the panel, on the way to it and here.
abbrev pub recorded : Counter → ℤ → Ledger → ℕ
recorded c uid l = reported c uid l.taken + (reported_if c uid l.in_flight + held c uid l.manager)

reported-append :
    (c : Counter) (uid : ℤ) (ts us : List UserTraffic)
    → reported c uid (ts ++ us) ≡ reported c uid ts + reported c uid us
reported-append c uid [] us = omega arith
reported-append c uid (t ∷ ts) us = omega (arith, reported-append c uid ts us)

drain_if_idle-recorded :
    (c : Counter) (uid : ℤ) (tm : TrafficManager) (taken : List UserTraffic)
    (o : Option (List UserTraffic))
    → HasUniqueKeys tm
    → recorded c uid (drain_if_idle tm taken o)
      ≡ reported c uid taken + (reported_if c uid o + held c uid tm)
drain_if_idle-recorded c uid tm taken (some ts) h = refl
drain_if_idle-recorded c uid tm taken none h =
    omega (arith, reported-drain_user_traffics c uid tm h, held-drain_user_traffics c uid tm)

settle-recorded :
    (c : Counter) (uid : ℤ) (tm : TrafficManager) (taken : List UserTraffic)
    (o : Option (List UserTraffic)) (r : Option Error)
    → recorded c uid (settle tm taken o r) % 2 ^ 64
      ≡ (reported c uid taken + (reported_if c uid o + held c uid tm)) % 2 ^ 64
settle-recorded c uid tm taken none r = refl
settle-recorded c uid tm taken (some ts) none = omega (arith, reported-append c uid taken ts)
settle-recorded c uid tm taken (some ts) (some e) = omega (arith, held-restore c uid ts tm)

counted_step :
    (b : Bool) (x y a n k : ℕ)
    → (x + (y + (if b then add_uint64 a n else a)) + k) % 2 ^ 64
      ≡ (x + (y + a) + ((if b then n else 0) + k)) % 2 ^ 64
counted_step true x y a n k = omega arith
counted_step false x y a n k = omega arith

step-HasUniqueKeys :
    (l : Ledger) (e : Event) → HasUniqueKeys l.manager → HasUniqueKeys ((step l e).manager)
unfolding step
step-HasUniqueKeys l (counted t) h = add_traffic-HasUniqueKeys l.manager t h
step-HasUniqueKeys l drained h = of_drain l.in_flight
  where
    of_drain :
        (o : Option (List UserTraffic))
        → HasUniqueKeys ((drain_if_idle l.manager l.taken o).manager)
    of_drain (some ts) = h
    of_drain none = drain_user_traffics-HasUniqueKeys l.manager h
step-HasUniqueKeys l (settled r) h = of_settle l.in_flight r
  where
    of_settle :
        (o : Option (List UserTraffic)) (r' : Option Error)
        → HasUniqueKeys ((settle l.manager l.taken o r').manager)
    of_settle none r' = h
    of_settle (some ts) none = h
    of_settle (some ts) (some e) = restore-HasUniqueKeys ts l.manager h

-- The events of a history, on top of what was recorded before it.
run-recorded :
    (c : Counter) (uid : ℤ) (es : List Event) (l : Ledger)
    → HasUniqueKeys l.manager
    → recorded c uid (run l es) % 2 ^ 64 ≡ (recorded c uid l + earned c uid es) % 2 ^ 64
unfolding run step
run-recorded c uid [] l h = omega arith
run-recorded c uid (counted t ∷ es) l h =
    run-recorded c uid es _ (step-HasUniqueKeys l (counted t) h)
    ∙ ap
        (λ x.
          (reported c uid l.taken + (reported_if c uid l.in_flight + x) + earned c uid es) % 2 ^ 64)
        (held-add_traffic c uid l.manager t)
    ∙ counted_step (equal_ℤ t.uid uid) (reported c uid l.taken) (reported_if c uid l.in_flight)
        (held c uid l.manager) (of_report c t) (earned c uid es)
run-recorded c uid (drained ∷ es) l h =
    run-recorded c uid es _ (step-HasUniqueKeys l drained h)
    ∙ ap (λ x. (x + earned c uid es) % 2 ^ 64)
        (drain_if_idle-recorded c uid l.manager l.taken l.in_flight h)
run-recorded c uid (settled o ∷ es) l h = omega (
  arith,
  run-recorded c uid es (step l (settled o)) (step-HasUniqueKeys l (settled o) h),
  settle-recorded c uid l.manager l.taken l.in_flight o,
)

-- Whatever the order of counting, draining and settled reports, and whichever reports fail: what
-- the panel has taken of a user, what is on its way and what the manager holds add up to what the
-- user's connections have counted, modulo 2^64.
pub run_accounts :
    (c : Counter) (uid : ℤ) (es : List Event)
    → recorded c uid (run new_ledger es) % 2 ^ 64 ≡ earned c uid es % 2 ^ 64
unfolding lookup
run_accounts c uid es = omega (arith, run-recorded c uid es new_ledger tt, of_item-new c)
