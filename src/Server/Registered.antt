-- ===== src/Server/Registered.antt =====
-- Under which id `Start` goes on, and what it leaves in the state file.
use server_anytls.Prelude.{
  ◌≡◌, refl, sym, ap, ◌∙◌, ◌≢◌, ◌⊎◌, inl, inr, Bool, true, false, [], ◌∷◌, ◌++◌, Option, none, some,
  Bytes, Result, ok, err, if_elim, arith, equal, equal_iff, Bool-cases, ◌↔◌, ◌&&◌, not,
}
use mathlib.Core.Bool.{false≢true}
use mathlib.Core.Option.{some-injective, none-ne-some}
use server_anytls.Number.{ℤ, equal_ℤ, equal_ℤ_iff}
use server_anytls.StateFile.{Disk, State, load_state, save_state, clear_state}
use server_anytls.Server.{
  NodeConfig, anytls, other_type, Outside, verify_called, register_called, Server, World, log,
  with_server,
}
use server_anytls.Server.Register.{
  Outcome, going, failed, saved_state, verified, fits, reuse, registered, register_node, configured,
  named, start_registered,
}

-- What `LoadState` found.
abbrev pub saved : Outside → World → Option State
saved O w = saved_state (load_state O.codec w.disk w.server.data_dir)

-- A saved id of this node that the panel says is valid.
abbrev pub IsUsable : Outside → ℤ → State → Type 0
IsUsable O node_id st =
    (st.register_id ≢ []) × (st.node_id ≡ node_id) × (O.verify st.register_id ≡ ok true)

-- The saved id is taken: the panel was only asked to verify it, and the state file is as it was.
abbrev pub Reused : Outside → World → Option State → World → Type 0
Reused O w o t =
    (st : State) × (o ≡ some st)
    × IsUsable O w.server.node_id st
    × (t.server.register_id ≡ st.register_id)
    × (t.disk ≡ w.disk)
    × (t.calls ≡ w.calls ++ (verify_called st.register_id ∷ []))

-- The disk of before or with the state file cleared, as the saved id has been refused.
abbrev pub IsCleared : World → Disk → Type 0
IsCleared w d = (d ≡ w.disk) ⊎ (d ≡ (clear_state w.disk w.server.data_dir).0)

-- There was no usable id, so the panel gave a new one, which went into the state file.
abbrev pub Renewed : Outside → World → Option State → World → Type 0
Renewed O w o t =
    ((st : State) → o ≡ some st → ¬ IsUsable O w.server.node_id st)
    × (hostname : Bytes) × (port : ℤ) × (d : Disk) × (O.register w.server.node_id hostname port
        ≡ ok t.server.register_id)
    × IsCleared w d
    × (t.disk
        ≡ (save_state O.codec d w.server.data_dir (record {
          register_id = t.server.register_id;
          node_id = w.server.node_id;
          hostname = hostname;
        })).0)

abbrev pub Registers : Outside → World → Option State → Outcome → Type 0
Registers O w o (going t) =
    (t.server.registered_as ≡ t.server.register_id) × (Reused O w o t ⊎ Renewed O w o t)
Registers O w o (failed t e) = t.server.register_id ≡ w.server.register_id

-- What the second step gives: no id means that none is usable.
abbrev Chosen : Outside → World → Option State → World × Bytes → Type 0
Chosen O w o (t, []) =
    ((st : State) → o ≡ some st → ¬ IsUsable O w.server.node_id st)
    × IsCleared w t.disk
    × (t.server ≡ w.server)
Chosen O w o (t, c ∷ id) =
    (st : State) × (o ≡ some st)
    × IsUsable O w.server.node_id st
    × (st.register_id ≡ c ∷ id)
    × (t ≡ log w (verify_called st.register_id))

both_true : (a b : Bool) → (a && b) ≡ true → (a ≡ true) × (b ≡ true)
both_true a b h = ground arith

abbrev says_valid : Result Bool → Bool
says_valid (ok b) = b
says_valid (err e) = false

-- The test of the code on a saved state.
pub fits_iff :
    (node_id : ℤ) (st : State)
    → (fits node_id st ≡ true) ↔ ((st.register_id ≢ []) × (st.node_id ≡ node_id))
fits_iff node_id st = (
  λ f.
      let d = both_true (not (equal st.register_id [])) (equal_ℤ st.node_id node_id) f in
      (
        λ e. let r = (equal_iff st.register_id []).1 e in false≢true (sym (ap not r) ∙ d.0),
        (equal_ℤ_iff st.node_id node_id).0 d.1,
      ),
  λ h. elim (Bool-cases (equal st.register_id [])) [
    | inl e ↦ absurd (h.0 ((equal_iff st.register_id []).0 e))
    | inr e ↦ let r = (equal_ℤ_iff st.node_id node_id).1 h.1 in ground (arith, e, r)
  ],
)

module _ (O : Outside) (w : World) where
  not-IsUsable :
      (st : State)
      → says_valid (O.verify st.register_id) ≡ false
      → (u : State) → some st ≡ some u
      → ¬ IsUsable O w.server.node_id u
  not-IsUsable st v u e (n, m, h) =
      let same = ap (λ (x : State). O.verify x.register_id) (some-injective st u e) in
      false≢true (sym v ∙ ap says_valid (same ∙ h))

  id-Chosen :
      (st : State) (id : Bytes)
      → fits w.server.node_id st ≡ true
      → O.verify st.register_id ≡ ok true
      → st.register_id ≡ id
      → Chosen O w (some st) (log w (verify_called st.register_id), id)
  id-Chosen st [] f v e = absurd (((fits_iff w.server.node_id st).0 f).0 e)
  id-Chosen st (c ∷ id) f v e =
      let d = (fits_iff w.server.node_id st).0 f in (st, refl, (d.0, d.1, v), e, refl)

  verified-Chosen :
      (st : State) (r : Result Bool)
      → fits w.server.node_id st ≡ true
      → O.verify st.register_id ≡ r
      → Chosen O w (some st) (verified (log w (verify_called st.register_id)) st.register_id r)
  verified-Chosen st (err e) f v = (not-IsUsable st (ap says_valid v), inr refl, refl)
  verified-Chosen st (ok true) f v = id-Chosen st st.register_id f v refl
  verified-Chosen st (ok false) f v = (not-IsUsable st (ap says_valid v), inr refl, refl)

  reuse-Chosen : (o : Option State) → Chosen O w o (reuse O w o)
  reuse-Chosen none = (λ st e. absurd (none-ne-some st e), inl refl, refl)
  reuse-Chosen (some st) =
      if_elim (Chosen O w (some st)) (fits w.server.node_id st)
        (λ f. verified-Chosen st (O.verify st.register_id) f refl)
        (λ f. (
          λ u e h.
              let same = ap (λ (x : State). fits w.server.node_id x) (some-injective st u e) in
              false≢true (sym f ∙ same ∙ (fits_iff w.server.node_id u).1 (h.0, h.1)),
          inl refl,
          refl,
        ))

  registered-Registers :
      (o : Option State) (t : World) (hostname : Bytes) (port : ℤ) (r : Result Bytes)
      → ((st : State) → o ≡ some st → ¬ IsUsable O w.server.node_id st)
      → IsCleared w t.disk
      → t.server ≡ w.server
      → O.register w.server.node_id hostname port ≡ r
      → Registers O w o (registered O t hostname r)
  registered-Registers o t hostname port (err e) n d s g = ap (λ (x : Server). x.register_id) s
  registered-Registers o t hostname port (ok id) n d s g = (
    refl,
    inr (
      n,
      hostname,
      port,
      t.disk,
      g,
      d,
      ap
          (λ (x : Server).
            (save_state O.codec t.disk x.data_dir
              (record { register_id = id; node_id = x.node_id; hostname = hostname })).0)
          s,
    ),
  )

  register_node-Registers :
      (o : Option State) (hostname : Bytes) (port : ℤ) (q : World × Bytes)
      → Chosen O w o q
      → Registers O w o (register_node O hostname port q)
  register_node-Registers o hostname port (t, []) (n, d, s) =
      registered-Registers o (log t (register_called hostname port)) hostname port
        (O.register t.server.node_id hostname port) n d s
        (ap (λ (x : Server). O.register x.node_id hostname port) (sym s))
  register_node-Registers o hostname port (t, c ∷ id) (st, e, u, same, from) = (
    refl,
    inl (st, e, u, sym same, ap (λ (x : World). x.disk) from, ap (λ (x : World). x.calls) from),
  )

configured-Registers :
    (O : Outside) (w : World) (hostname : Bytes) (o : Option State) (r : Result NodeConfig)
    → Registers O w o (configured O w hostname o r)
configured-Registers O w hostname o (err e) = refl
configured-Registers O w hostname o (ok other_type) = refl
configured-Registers O w hostname o (ok (anytls c)) =
    let v = with_server w (record (w.server) { anytls_config = some c }) in
    register_node-Registers O v o hostname c.server_port (reuse O v o) (reuse-Chosen O v o)

named-Registers :
    (O : Outside) (w : World) (r : Result Bytes) → Registers O w (saved O w) (named O w r)
named-Registers O w (err e) = refl
named-Registers O w (ok hostname) =
    configured-Registers O w hostname (saved O w) (O.config w.server.node_id)

-- `Start` goes on under the id of the state file exactly when that id is of this node and the panel
-- says it is valid; then the file stays as it is and nothing is registered. Else it goes on under
-- the id that the panel gives it, which `SaveState` gets; if it fails, the id of the server is as it
-- was. The user service works under the same id.
pub start_registered-Registers :
    (O : Outside) (w : World) → Registers O w (saved O w) (start_registered O w)
unfolding start_registered
start_registered-Registers O w =
    named-Registers O (with_server w (record (w.server) { api_client = true })) O.hostname
