-- ===== src/Service/Traffic.antt =====
-- internal/pkg/service/users.go, the traffic counters. An item is a shared pointer in the source;
-- entries are never deleted or replaced, so it is named by the key that holds it.
pub mod Conserved
pub mod History
use server_anytls.Prelude.{
  ℕ, ◌+◌, ◌%◌, ◌^◌, Bool, true, false, ◌||◌, List, [], ◌∷◌, ◌++◌, Option, none, some, Error, ltb,
  if◌then◌else◌, length,
}
use server_anytls.Prelude.Maps.{Map, lookup, insert}
use server_anytls.Number.{ℤ, int_eq}

-- Three `atomic.Uint64`.
pub record TrafficItem : Type 0 where
  pub up : ℕ
  pub down : ℕ
  pub count : ℕ

abbrev pub new_traffic_item : TrafficItem
new_traffic_item = record { up = 0; down = 0; count = 0 }

pub record UserTraffic : Type 0 where
  pub uid : ℤ
  pub upload : ℕ
  pub download : ℕ
  pub count : ℕ

abbrev pub TrafficManager : Type 0
TrafficManager = Map ℤ TrafficItem

-- `Add` of an `atomic.Uint64` wraps.
abbrev pub add_uint64 : ℕ → ℕ → ℕ
add_uint64 a n = (a + n) % 2 ^ 64

-- The item of a user, or a new one.
abbrev pub item_or_new : Option TrafficItem → TrafficItem
item_or_new none = new_traffic_item
item_or_new (some t) = t

-- `loadOrStore`, with the item that it returns.
unfoldable pub load_or_store : ℤ → TrafficManager → TrafficManager × TrafficItem
load_or_store uid tm = let t = item_or_new (lookup uid tm) in (insert uid t tm, t)

abbrev pub add_to_item : TrafficItem → ℕ → ℕ → ℕ → TrafficItem
add_to_item t up down count = record {
  up = add_uint64 t.up up;
  down = add_uint64 t.down down;
  count = add_uint64 t.count count;
}

-- The three `Add` calls on the item of a user.
unfoldable pub add_traffic : TrafficManager → UserTraffic → TrafficManager
add_traffic tm t =
    let (m, item) = load_or_store t.uid tm in
    insert t.uid (add_to_item item t.upload t.download t.count) m

unfoldable pub restore : TrafficManager → List UserTraffic → TrafficManager
restore tm [] = tm
restore tm (t ∷ ts) = restore (add_traffic tm t) ts

-- What one item yields: an entry if any of its counters is not 0.
abbrev pub swapped : ℤ → TrafficItem → List UserTraffic → List UserTraffic
swapped uid t ts =
    if ltb 0 t.up || ltb 0 t.down || ltb 0 t.count
    then record { uid = uid; upload = t.up; download = t.down; count = t.count } ∷ ts
    else ts

-- `drainUserTraffics`, in the order of `Range`.
unfoldable pub drain_user_traffics : TrafficManager → TrafficManager × List UserTraffic
drain_user_traffics [] = ([], [])
drain_user_traffics ((uid, t) ∷ tm) =
    let (m, ts) = drain_user_traffics tm in ((uid, new_traffic_item) ∷ m, swapped uid t ts)

abbrev pub restore_on_error : TrafficManager → List UserTraffic → Option Error → TrafficManager
restore_on_error tm ts none = tm
restore_on_error tm ts (some e) = restore tm ts

-- `ReportTrafficsTask`, where `submit` is the call to the panel: the manager, and what the panel
-- was sent. An empty report is not sent.
abbrev pub submit_drained :
    (List UserTraffic → Option Error) → TrafficManager × List UserTraffic → TrafficManager
submit_drained submit (tm, []) = tm
submit_drained submit (tm, t ∷ ts) = restore_on_error tm (t ∷ ts) (submit (t ∷ ts))

unfoldable pub report_traffics_task :
    (List UserTraffic → Option Error) → TrafficManager → TrafficManager
report_traffics_task submit tm = submit_drained submit (drain_user_traffics tm)
