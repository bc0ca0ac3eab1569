-- ===== src/Client/Leases.antt =====
-- A session that the pool hands out is open, and out of the pool.
use server_anytls.Prelude.{
  ℕ, ◌+◌, ◌%◌, ◌^◌, ◌≤◌, ◌<◌, ◌≡◌, refl, sym, ap, ◌∙◌, false, [], ◌∷◌, Option, none, some, Error,
  Result, ok, err, ◌==◌, if◌then◌else◌, if_elim, nat_eq, arith, Bool-cases, ◌⊎◌, inl, inr,
  Option-cases, ==_iff,
}
use server_anytls.Prelude.Maps.{Map, lookup, insert, lookup-insert}
use server_anytls.Client.{
  SkipList, Pooled, key_of, closed_or_gone, Client, is_shut, close_session, first_of,
  get_idle_session, create_session, open_on, idle_or_new, create_stream, touch, stream_died,
  mark_closed,
}

-- What the pool relies on in the skip list.
pub record IsSkipList (sl : SkipList) : Type 0 where
  pub of_put :
      (k v j : ℕ) (s : sl.S)
      → lookup j (sl.entries (sl.put k v s)) ≡ (if k == j then some v else lookup j (sl.entries s))
  pub of_remove :
      (k j : ℕ) (s : sl.S)
      → lookup j (sl.entries (sl.remove k s)) ≡ (if k == j then none else lookup j (sl.entries s))

module _ (sl : SkipList) where
  -- Every idle session stands under its own key, is open, and was made by this pool.
  abbrev pub IsReady : Client sl → Type 0
  IsReady c =
      (k seq : ℕ)
      → lookup k (sl.entries c.idle_session) ≡ some seq
      → (k ≡ key_of seq) × (is_shut sl c seq ≡ false) × (seq ≤ c.session_counter)

  -- The session `seq` is open and not in the pool.
  abbrev pub IsLeased : Client sl → ℕ → Type 0
  IsLeased c seq =
      (is_shut sl c seq ≡ false) × (lookup (key_of seq) (sl.entries c.idle_session) ≡ none)

  abbrev pub Grants : Client sl × Result ℕ → Type 0
  Grants (c, ok seq) = IsReady c × IsLeased c seq
  Grants (c, err e) = IsReady c

  -- The same of `getIdleSession`, which may find nothing.
  abbrev Finds : Client sl × Option ℕ → Type 0
  Finds (c, some seq) = IsReady c × IsLeased c seq
  Finds (c, none) = IsReady c

module _ (sl : SkipList) (laws : IsSkipList sl) where
  pub after_remove :
      (k j q : ℕ) (s : sl.S)
      → lookup j (sl.entries (sl.remove k s)) ≡ some q
      → ((k == j) ≡ false) × (lookup j (sl.entries s) ≡ some q)
  after_remove k j q s e = ground (arith, laws.of_remove k j s)

  after_put :
      (k v j q : ℕ) (s : sl.S)
      → lookup j (sl.entries (sl.put k v s)) ≡ some q
      → ((k ≡ j) × (v ≡ q)) ⊎ (lookup j (sl.entries s) ≡ some q)
  after_put k v j q s e = elim (Bool-cases (k == j)) [
    | inl f ↦ inl ((==_iff k j).0 f, ground (arith, f, laws.of_put k v j s))
    | inr f ↦ inr (ground (arith, f, laws.of_put k v j s))
  ]

  after_close :
      (heap : Map ℕ Pooled) (seq q k : ℕ) (p : Pooled)
      → (key_of seq == k) ≡ false
      → k ≡ key_of q
      → closed_or_gone (lookup q heap) ≡ false
      → closed_or_gone (lookup q (insert seq p heap)) ≡ false
  after_close heap seq q k p f e o = ground (arith, lookup-insert seq q p heap)

  pub close_session-IsReady :
      (c : Client sl) (seq : ℕ) → IsReady sl c → IsReady sl (close_session sl c seq)
  unfolding close_session
  close_session-IsReady c seq h =
      if_elim (IsReady sl) (is_shut sl c seq) (λ _. h)
        λ _ k q e.
          let (apart, before) = after_remove (key_of seq) k q c.idle_session e in
          let (own, open_still, made) = h k q before in
          (
            own,
            after_close c.heap seq q k (mark_closed (lookup seq c.heap)) apart own open_still,
            made,
          )

  first_of-Finds :
      (c : Client sl) (es : Map ℕ ℕ)
      → sl.entries c.idle_session ≡ es
      → IsReady sl c
      → Finds sl (first_of sl c es)
  unfolding lookup
  first_of-Finds c [] e h = h
  first_of-Finds c ((k, seq) ∷ es) e h =
      let (own, open_still, made) = h k seq (ap (lookup k) e ∙ ground arith) in
      (
        λ j q g. h j q ((after_remove k j q c.idle_session g).1),
        (open_still, ground (arith, laws.of_remove k (key_of seq) c.idle_session, own)),
      )

  after_new :
      (heap : Map ℕ Pooled) (seq q now : ℕ)
      → closed_or_gone (lookup q heap) ≡ false
      → closed_or_gone (lookup q (insert seq (record { idle_since = now; is_closed = false }) heap))
        ≡ false
  after_new heap seq q now o =
      ground (arith, lookup-insert seq q (record { idle_since = now; is_closed = false }) heap)

  new_is_open :
      (heap : Map ℕ Pooled) (seq now : ℕ)
      → closed_or_gone
          (lookup seq (insert seq (record { idle_since = now; is_closed = false }) heap))
        ≡ false
  new_is_open heap seq now =
      ground (arith, lookup-insert seq seq (record { idle_since = now; is_closed = false }) heap)

  new_is_out :
      (c : Client sl) (seq : ℕ)
      → c.session_counter < seq
      → seq < 2 ^ 64
      → IsReady sl c
      → lookup (key_of seq) (sl.entries c.idle_session) ≡ none
  new_is_out c seq over small h =
      elim (Option-cases (lookup (key_of seq) (sl.entries c.idle_session))) [
        | inl e ↦ e
        | inr (q, e) ↦
            (let (own, open_still, made) = h (key_of seq) q e in absurd (omega (arith, own, made)))
      ]

  create_session-Grants :
      (c : Client sl) (dial : Option Error)
      → c.session_counter + 1 < 2 ^ 64
      → IsReady sl c
      → Grants sl (create_session sl c dial)
  unfolding create_session
  create_session-Grants c (some e) small h = h
  create_session-Grants c none small h =
      let seq = (c.session_counter + 1) % 2 ^ 64 in
      (
        λ k q e.
            let (own, open_still, made) = h k q e in
            (own, after_new c.heap seq q 0 open_still, omega arith),
        (new_is_open c.heap seq 0, new_is_out c seq (omega arith) (omega arith) h),
      )

  open_on-Grants :
      (r : Client sl × Result ℕ) (answer : Option Error)
      → Grants sl r
      → Grants sl (open_on sl r answer)
  open_on-Grants (c, err e) answer h = h
  open_on-Grants (c, ok seq) none h = h
  open_on-Grants (c, ok seq) (some e) h = close_session-IsReady c seq h.0

  idle_or_new-Grants :
      (r : Client sl × Option ℕ) (dial : Option Error)
      → r.0.session_counter + 1 < 2 ^ 64
      → Finds sl r
      → Grants sl (idle_or_new sl r dial)
  idle_or_new-Grants (c, some seq) dial small h = h
  idle_or_new-Grants (c, none) dial small h = create_session-Grants c dial small h

  first_of-counter :
      (c : Client sl) (es : Map ℕ ℕ) → (first_of sl c es).0.session_counter ≡ c.session_counter
  first_of-counter c [] = refl
  first_of-counter c ((k, seq) ∷ es) = refl

-- Where every idle session is open, stands under its own key and was made by the pool: so it is
-- after `CreateStream`, whatever the dial and `OpenStream` answer, and the session that the new
-- stream is on is open and not in the pool, so that no other caller gets it. Fewer than 2^64 - 1
-- sessions have been made, and the skip list keeps its laws.
pub create_stream-Grants :
    (sl : SkipList) (c : Client sl) (dial answer : Option Error)
    → IsSkipList sl
    → c.session_counter + 1 < 2 ^ 64
    → IsReady sl c
    → Grants sl (create_stream sl c dial answer)
unfolding create_stream get_idle_session
create_stream-Grants sl c dial answer laws small h =
    let es = sl.entries c.idle_session in
    if_elim (Grants sl) c.dead (λ _. h)
      (λ _. open_on-Grants sl laws (idle_or_new sl (first_of sl c es) dial) answer (
        idle_or_new-Grants sl laws (first_of sl c es) dial
          (omega (arith, first_of-counter sl laws c es)) (first_of-Finds sl laws c es refl h)))

pub touch_keeps :
    (heap : Map ℕ Pooled) (seq q now : ℕ) (o : Option Pooled)
    → lookup seq heap ≡ o
    → closed_or_gone (lookup q (touch heap seq now o)) ≡ closed_or_gone (lookup q heap)
touch_keeps heap seq q now none e = refl
touch_keeps heap seq q now (some p) e = elim (Bool-cases (seq == q)) [
  | inl f ↦
      let same = ap (λ k. lookup k heap) (sym ((==_iff seq q).0 f)) ∙ e in
      ground (arith, f, same, lookup-insert seq q (record p { idle_since = now }) heap)
  | inr f ↦ ground (arith, f, lookup-insert seq q (record p { idle_since = now }) heap)
]

-- When a stream dies its session comes back to the pool only if it is open, and the pool stays as
-- before in that all its sessions are open, under their own keys and made by it.
pub stream_died-IsReady :
    (sl : SkipList) (c : Client sl) (seq now : ℕ)
    → IsSkipList sl
    → seq ≤ c.session_counter
    → IsReady sl c
    → IsReady sl (stream_died sl c seq now)
unfolding stream_died
stream_died-IsReady sl c seq now laws made h =
    if_elim (IsReady sl) (is_shut sl c seq) (λ _. h)
      λ o.
        if_elim (IsReady sl) c.dead (λ _. close_session-IsReady sl laws c seq h)
          λ _ k q e.
            let kept : closed_or_gone (lookup q (touch c.heap seq now (lookup seq c.heap)))
                ≡ closed_or_gone (lookup q c.heap) =
              touch_keeps c.heap seq q now (lookup seq c.heap) refl in
            elim (after_put sl laws (key_of seq) seq k q c.idle_session e) [
              | inl (own, same) ↦ (
                sym own ∙ ap key_of same,
                kept ∙ ap (λ j. is_shut sl c j) (sym same) ∙ o,
                omega (arith, same, made),
              )
              | inr before ↦
                  (let (own, open_still, old) = h k q before in (own, kept ∙ open_still, old))
            ]
