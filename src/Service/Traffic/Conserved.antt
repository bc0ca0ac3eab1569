-- ===== src/Service/Traffic/Conserved.antt =====
-- No traffic is lost or counted twice.
use server_anytls.Prelude.{
  ℕ, ◌+◌, ◌%◌, ◌^◌, ◌≡◌, refl, sym, ap, ◌∙◌, Bool, true, false, List, [], ◌∷◌, none, if◌then◌else◌,
  subst, arith, Bool-cases, inl, inr,
}
use server_anytls.Prelude.Maps.{lookup, insert, lookup-insert, HasUniqueKeys, insert-HasUniqueKeys}
use server_anytls.Number.{ℤ, int_eq, equal_ℤ, equal_ℤ_iff}
use server_anytls.Service.Traffic.{
  TrafficItem, new_traffic_item, UserTraffic, TrafficManager, add_uint64, item_or_new,
  load_or_store, add_to_item, add_traffic, restore, swapped, drain_user_traffics,
}

-- One of the three counters.
pub data Counter : Type 0 where
  uploads downloads requests : Counter

abbrev pub of_item : Counter → TrafficItem → ℕ
of_item uploads t = t.up
of_item downloads t = t.down
of_item requests t = t.count

abbrev pub of_report : Counter → UserTraffic → ℕ
of_report uploads t = t.upload
of_report downloads t = t.download
of_report requests t = t.count

zero_add : (n : ℕ) → 0 + n ≡ n
zero_add n = omega arith

add_zero : (n : ℕ) → n + 0 ≡ n
add_zero n = omega arith

-- What the manager holds of a user.
abbrev pub held : Counter → ℤ → TrafficManager → ℕ
held c uid tm = of_item c (item_or_new (lookup uid tm))

-- What a report says of a user.
abbrev pub reported : Counter → ℤ → List UserTraffic → ℕ
reported c uid [] = 0
reported c uid (t ∷ ts) = (if equal_ℤ t.uid uid then of_report c t else 0) + reported c uid ts

pub of_item-new : (c : Counter) → of_item c new_traffic_item ≡ 0
of_item-new uploads = refl
of_item-new downloads = refl
of_item-new requests = refl

of_item-add_to_item :
    (c : Counter) (t : TrafficItem) (r : UserTraffic)
    → of_item c (add_to_item t r.upload r.download r.count)
      ≡ add_uint64 (of_item c t) (of_report c r)
of_item-add_to_item uploads t r = refl
of_item-add_to_item downloads t r = refl
of_item-add_to_item requests t r = refl

-- An insertion changes what is held of its own key.
pub held-insert :
    (c : Counter) (uid k : ℤ) (t : TrafficItem) (tm : TrafficManager)
    → held c uid (insert k t tm) ≡ (if equal_ℤ k uid then of_item c t else held c uid tm)
held-insert c uid k t tm = elim (Bool-cases (equal_ℤ k uid)) [
  | inl e ↦ rw (lookup-insert k uid t tm, e) refl
  | inr e ↦ rw (lookup-insert k uid t tm, e) refl
]

pub held-add_traffic :
    (c : Counter) (uid : ℤ) (tm : TrafficManager) (r : UserTraffic)
    → held c uid (add_traffic tm r)
      ≡ (if equal_ℤ r.uid uid then add_uint64 (held c uid tm) (of_report c r) else held c uid tm)
unfolding add_traffic load_or_store
held-add_traffic c uid tm r =
    let t = item_or_new (lookup r.uid tm) in
    held-insert c uid r.uid _ (insert r.uid t tm) ∙ elim (Bool-cases (equal_ℤ r.uid uid)) [
      | inl e ↦
          let same = (equal_ℤ_iff r.uid uid).0 e in
          rw e (of_item-add_to_item c t r ∙ ap (λ k. add_uint64 (held c k tm) (of_report c r)) same)
      | inr e ↦ rw e (held-insert c uid r.uid t tm ∙ rw e refl)
    ]

add_uint64_add : (a b n : ℕ) → (add_uint64 a b + n) % 2 ^ 64 ≡ (a + (b + n)) % 2 ^ 64
add_uint64_add a b n = omega arith

restored_step :
    (b : Bool) (a n x : ℕ)
    → ((if b then add_uint64 a x else a) + n) % 2 ^ 64 ≡ (a + ((if b then x else 0) + n)) % 2 ^ 64
restored_step true a n x = add_uint64_add a x n
restored_step false a n x = omega arith

-- `restore` puts back what a report says, on top of what has come in since.
pub held-restore :
    (c : Counter) (uid : ℤ) (ts : List UserTraffic) (tm : TrafficManager)
    → held c uid (restore tm ts) % 2 ^ 64 ≡ (held c uid tm + reported c uid ts) % 2 ^ 64
unfolding restore
held-restore c uid [] tm = omega arith
held-restore c uid (t ∷ ts) tm =
    held-restore c uid ts (add_traffic tm t)
    ∙ ap (λ x. (x + reported c uid ts) % 2 ^ 64) (held-add_traffic c uid tm t)
    ∙ restored_step (equal_ℤ t.uid uid) (held c uid tm) (reported c uid ts) (of_report c t)

reported-swapped :
    (c : Counter) (uid k : ℤ) (t : TrafficItem) (ts : List UserTraffic)
    → reported c uid (swapped k t ts)
      ≡ (if equal_ℤ k uid then of_item c t else 0) + reported c uid ts
reported-swapped uploads uid k t ts = ground arith
reported-swapped downloads uid k t ts = ground arith
reported-swapped requests uid k t ts = ground arith

reported_none :
    (c : Counter) (uid : ℤ) (tm : TrafficManager)
    → lookup uid tm ≡ none
    → reported c uid ((drain_user_traffics tm).1) ≡ 0
unfolding drain_user_traffics lookup
reported_none c uid [] h = refl
reported_none c uid ((k, t) ∷ tm) h =
    reported-swapped c uid k t ((drain_user_traffics tm).1) ∙ ground (arith, reported_none c uid tm)

-- `drainUserTraffics` reports of each user, in sum, what the manager held, for each of the counters,
-- if no user has two items.
pub reported-drain_user_traffics :
    (c : Counter) (uid : ℤ) (tm : TrafficManager)
    → HasUniqueKeys tm
    → reported c uid ((drain_user_traffics tm).1) ≡ held c uid tm
unfolding drain_user_traffics lookup
reported-drain_user_traffics c uid [] h = sym (of_item-new c)
reported-drain_user_traffics c uid ((k, t) ∷ tm) h =
    reported-swapped c uid k t ((drain_user_traffics tm).1) ∙ elim (Bool-cases (equal_ℤ k uid)) [
      | inl e ↦
          let same = (equal_ℤ_iff k uid).0 e in
          let rest = reported_none c uid tm (subst (λ j. lookup j tm ≡ none) same h.0) in
          rw (e, rest) (add_zero (of_item c t))
      | inr e ↦ rw e (zero_add _ ∙ reported-drain_user_traffics c uid tm h.1)
    ]

pub held-drain_user_traffics :
    (c : Counter) (uid : ℤ) (tm : TrafficManager) → held c uid ((drain_user_traffics tm).0) ≡ 0
unfolding drain_user_traffics lookup
held-drain_user_traffics c uid [] = of_item-new c
held-drain_user_traffics c uid ((k, t) ∷ tm) = elim (Bool-cases (equal_ℤ k uid)) [
  | inl e ↦ rw e (of_item-new c)
  | inr e ↦ rw e (held-drain_user_traffics c uid tm)
]

pub add_traffic-HasUniqueKeys :
    (tm : TrafficManager) (t : UserTraffic) → HasUniqueKeys tm → HasUniqueKeys (add_traffic tm t)
unfolding add_traffic load_or_store
add_traffic-HasUniqueKeys tm t h =
    insert-HasUniqueKeys t.uid _ _ (insert-HasUniqueKeys t.uid _ tm h)

pub restore-HasUniqueKeys :
    (ts : List UserTraffic) (tm : TrafficManager) → HasUniqueKeys tm → HasUniqueKeys (restore tm ts)
unfolding restore
restore-HasUniqueKeys [] tm h = h
restore-HasUniqueKeys (t ∷ ts) tm h =
    restore-HasUniqueKeys ts (add_traffic tm t) (add_traffic-HasUniqueKeys tm t h)

lookup-drain_user_traffics :
    (uid : ℤ) (tm : TrafficManager)
    → lookup uid tm ≡ none
    → lookup uid ((drain_user_traffics tm).0) ≡ none
unfolding drain_user_traffics lookup
lookup-drain_user_traffics uid [] h = h
lookup-drain_user_traffics uid ((k, t) ∷ tm) h = ground (arith, lookup-drain_user_traffics uid tm)

pub drain_user_traffics-HasUniqueKeys :
    (tm : TrafficManager) → HasUniqueKeys tm → HasUniqueKeys ((drain_user_traffics tm).0)
unfolding drain_user_traffics
drain_user_traffics-HasUniqueKeys [] h = tt
drain_user_traffics-HasUniqueKeys ((k, t) ∷ tm) h =
    (lookup-drain_user_traffics k tm h.0, drain_user_traffics-HasUniqueKeys tm h.1)
