-- ===== src/Client/Closed.antt =====
-- `Close` of the pool.
use server_anytls.Prelude.{
  ℕ, ◌≡◌, refl, sym, ◌∙◌, true, [], ◌∷◌, Option, Error, closed_pipe, Result, err, All, inl, inr,
  if_elim,
}
use mathlib.Core.Bool.{false≢true}
use server_anytls.Prelude.Maps.{Map}
use server_anytls.Client.{
  SkipList, Client, is_shut, close_session, close_sessions, close_client, create_stream,
}
use server_anytls.Client.Cleanup.{close_session-is_shut}

module _ (sl : SkipList) where
  close_session-dead : (c : Client sl) (seq : ℕ) → (close_session sl c seq).dead ≡ c.dead
  unfolding close_session
  close_session-dead c seq =
      if_elim (λ (d : Client sl). d.dead ≡ c.dead) (is_shut sl c seq) (λ _. refl) (λ _. refl)

  close_sessions-dead :
      (m : Map ℕ (Unit {0})) (c : Client sl) → (close_sessions sl c m).dead ≡ c.dead
  close_sessions-dead [] c = refl
  close_sessions-dead ((seq, u) ∷ m) c =
      close_sessions-dead m (close_session sl c seq) ∙ close_session-dead c seq

  close_sessions-keeps :
      (m : Map ℕ (Unit {0})) (c : Client sl) (q : ℕ)
      → is_shut sl c q ≡ true
      → is_shut sl (close_sessions sl c m) q ≡ true
  close_sessions-keeps [] c q s = s
  close_sessions-keeps ((seq, u) ∷ m) c q s =
      close_sessions-keeps m (close_session sl c seq) q (close_session-is_shut sl c seq q (inr s))

  close_sessions-is_shut :
      (m : Map ℕ (Unit {0})) (c : Client sl)
      → All (λ (p : ℕ × Unit {0}). is_shut sl (close_sessions sl c m) p.0 ≡ true) m
  close_sessions-is_shut [] c = tt
  close_sessions-is_shut ((seq, u) ∷ m) c = (
    close_sessions-keeps m (close_session sl c seq) seq
        (close_session-is_shut sl c seq seq (inl refl)),
    close_sessions-is_shut m (close_session sl c seq),
  )

-- After `Close` of the pool every session that was registered is closed, and `CreateStream` fails
-- with `io.ErrClosedPipe`, changing nothing, whatever a dial would answer.
pub close_client-Ends :
    (sl : SkipList) (c : Client sl) (dial answer : Option Error)
    → All (λ (p : ℕ × Unit {0}). is_shut sl (close_client sl c) p.0 ≡ true) c.sessions
      × (create_stream sl (close_client sl c) dial answer ≡ (close_client sl c, err closed_pipe))
unfolding close_client create_stream
close_client-Ends sl c dial answer =
    let d = record c { dead = true; sessions = [] } in
    (
      close_sessions-is_shut sl c.sessions d,
      if_elim (λ (r : Client sl × Result ℕ). r ≡ (close_sessions sl d c.sessions, err closed_pipe))
          ((close_sessions sl d c.sessions).dead) (λ _. refl)
          (λ e. absurd (false≢true (sym e ∙ close_sessions-dead sl c.sessions d))),
    )
