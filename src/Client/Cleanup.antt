-- ===== src/Client/Cleanup.antt =====
-- What the clean-up of idle sessions closes and what it leaves.
use server_anytls.Prelude.{
  ℕ, ◌+◌, ◌≤◌, ◌<◌, ◌≡◌, refl, sym, ap, ◌∙◌, true, not, List, [], ◌∷◌, min, length, All, ltb,
  if_elim, nat_eq, arith, ◌⊎◌, inl, inr,
}
use server_anytls.Prelude.Maps.{Map, lookup, lookup-insert}
use server_anytls.Client.{
  SkipList, Client, is_shut, close_session, idle_since_of, visit, sweep, close_each, mark_closed,
  idle_cleanup_exp_time,
}
use server_anytls.Client.Leases.{
  IsSkipList, IsReady, touch_keeps, close_session-IsReady, after_remove,
}

module _ (sl : SkipList) where
  -- What one round does: it counts the session, or closes it when enough are counted and it has
  -- been idle since before `exp_time`.
  record IsVisit (c : Client sl) (exp_time active : ℕ) (r : Client sl × ℕ × List ℕ) : Type 0 where
    total : r.1 + length r.2 ≡ active + 1
    same_min : r.0.min_idle_session ≡ c.min_idle_session
    one : length r.2 ≤ 1
    full : 1 ≤ length r.2 → c.min_idle_session ≤ active
    old : All (λ q. idle_since_of (lookup q c.heap) < exp_time) r.2
    older :
        (q : ℕ)
        → idle_since_of (lookup q r.0.heap) < exp_time
        → idle_since_of (lookup q c.heap) < exp_time

  -- At least `minIdleSession` of the entries, or all of them, are left, and each session to close
  -- has been idle since before `exp_time`.
  abbrev pub Cleans : Client sl → ℕ → ℕ → Map ℕ ℕ → List ℕ → Type 0
  Cleans c exp_time active es out =
      (min c.min_idle_session (active + length es) + length out ≤ active + length es)
      × All (λ q. idle_since_of (lookup q c.heap) < exp_time) out

module _ (sl : SkipList) (laws : IsSkipList sl) where
  visit-IsReady :
      (c : Client sl) (exp_time now active key seq : ℕ)
      → IsReady sl c
      → IsReady sl ((visit sl c exp_time now active key seq).0)
  unfolding visit
  visit-IsReady c exp_time now active key seq h =
      if_elim (λ (r : Client sl × ℕ × List ℕ). IsReady sl (r.0))
        (not (ltb (idle_since_of (lookup seq c.heap)) exp_time)) (λ _. h)
        λ _.
          if_elim (λ (r : Client sl × ℕ × List ℕ). IsReady sl (r.0)) (ltb active c.min_idle_session)
            (λ _ k q e.
              let (own, open_still, made) = h k q e in
              (own, touch_keeps c.heap seq q now (lookup seq c.heap) refl ∙ open_still, made))
            (λ _ k q e. h k q ((after_remove sl laws key k q c.idle_session e).1))

  sweep-IsReady :
      (c : Client sl) (exp_time now active : ℕ) (es : Map ℕ ℕ)
      → IsReady sl c
      → IsReady sl ((sweep sl c exp_time now active es).0)
  unfolding sweep
  sweep-IsReady c exp_time now active [] h = h
  sweep-IsReady c exp_time now active ((key, seq) ∷ es) h =
      let r = visit sl c exp_time now active key seq in
      sweep-IsReady r.0 exp_time now r.1 es (visit-IsReady c exp_time now active key seq h)

  close_each-IsReady :
      (out : List ℕ) (c : Client sl) → IsReady sl c → IsReady sl (close_each sl c out)
  unfolding close_each
  close_each-IsReady [] c h = h
  close_each-IsReady (q ∷ out) c h =
      close_each-IsReady out (close_session sl c q) (close_session-IsReady sl laws c q h)

module _ (sl : SkipList) where
  pub close_session-is_shut :
      (c : Client sl) (seq q : ℕ)
      → (seq ≡ q) ⊎ (is_shut sl c q ≡ true)
      → is_shut sl (close_session sl c seq) q ≡ true
  unfolding close_session
  close_session-is_shut c seq q (inl e) =
      if_elim (λ (d : Client sl). is_shut sl d q ≡ true) (is_shut sl c seq)
        (λ s. ap (is_shut sl c) (sym e) ∙ s)
        (λ _. ground (arith, e, lookup-insert seq q (mark_closed (lookup seq c.heap)) c.heap))
  close_session-is_shut c seq q (inr s) =
      if_elim (λ (d : Client sl). is_shut sl d q ≡ true) (is_shut sl c seq) (λ _. s)
        (λ _. ground (arith, s, lookup-insert seq q (mark_closed (lookup seq c.heap)) c.heap))

  close_each-keeps :
      (out : List ℕ) (c : Client sl) (q : ℕ)
      → is_shut sl c q ≡ true
      → is_shut sl (close_each sl c out) q ≡ true
  unfolding close_each
  close_each-keeps [] c q s = s
  close_each-keeps (k ∷ out) c q s =
      close_each-keeps out (close_session sl c k) q (close_session-is_shut c k q (inr s))

  close_each-is_shut :
      (out : List ℕ) (c : Client sl) → All (λ q. is_shut sl (close_each sl c out) q ≡ true) out
  unfolding close_each
  close_each-is_shut [] c = tt
  close_each-is_shut (k ∷ out) c = (
    close_each-keeps out (close_session sl c k) k (close_session-is_shut c k k (inl refl)),
    close_each-is_shut out (close_session sl c k),
  )

-- After `idleCleanupExpTime` every session that its loop picked is closed, and every session left
-- in the pool is open, under its own key and made by the pool, if this was so before and the skip
-- list keeps its laws.
pub idle_cleanup_exp_time-IsReady :
    (sl : SkipList) (c : Client sl) (exp_time now : ℕ)
    → IsSkipList sl
    → IsReady sl c
    → IsReady sl (idle_cleanup_exp_time sl c exp_time now)
      × All
          (λ q. is_shut sl (idle_cleanup_exp_time sl c exp_time now) q ≡ true)
          ((sweep sl c exp_time now 0 (sl.entries c.idle_session)).1)
unfolding idle_cleanup_exp_time
idle_cleanup_exp_time-IsReady sl c exp_time now laws h =
    let r = sweep sl c exp_time now 0 (sl.entries c.idle_session) in
    (
      close_each-IsReady sl laws r.1 r.0
          (sweep-IsReady sl laws c exp_time now 0 (sl.entries c.idle_session) h),
      close_each-is_shut sl r.1 r.0,
    )
