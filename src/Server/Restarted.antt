-- ===== src/Server/Restarted.antt =====
-- One run and the next: the id that a run saved is the id of the run behind it.
use server_anytls.Prelude.{
  ◌≡◌, refl, sym, ap, ◌∙◌, ◌≢◌, subst, true, [], ◌∷◌, ◌++◌, none, some, Bytes, ok, if_elim,
}
use mathlib.Core.Bool.{false≢true}
use server_anytls.Number.{ℤ}
use server_anytls.StateFile.{Disk, State, get_state_file_path, save_state}
use server_anytls.StateFile.Atomic.{load_state-save_state}
use server_anytls.Server.{AnyTlsConfig, anytls, Outside, verify_called, World, log, with_server}
use server_anytls.Server.Register.{
  Outcome, going, failed, saved_state, verified, fits, reuse, register_node, configured, named,
  start_registered,
}
use server_anytls.Server.Registered.{IsUsable, fits_iff}

-- `Start` goes on under the id of the state, having asked the panel only to verify it.
abbrev pub Resumes : World → State → Outcome → Type 0
Resumes w st (going t) =
    (t.server.register_id ≡ st.register_id)
    × (t.server.registered_as ≡ st.register_id)
    × (t.disk ≡ w.disk)
    × (t.calls ≡ w.calls ++ (verify_called st.register_id ∷ []))
Resumes w st (failed t e) = ⊥

module _ (O : Outside) (w : World) (st : State) where
  register_node-Resumes :
      (hostname : Bytes) (port : ℤ) (id : Bytes)
      → st.register_id ≡ id
      → st.register_id ≢ []
      → Resumes w st (register_node O hostname port (log w (verify_called st.register_id), id))
  register_node-Resumes hostname port [] e n = absurd (n e)
  register_node-Resumes hostname port (c ∷ id) e n = (sym e, sym e, refl, refl)

  reuse-Resumes :
      (hostname : Bytes) (port : ℤ)
      → IsUsable O w.server.node_id st
      → Resumes w st (register_node O hostname port (reuse O w (some st)))
  reuse-Resumes hostname port (n, m, v) =
      let f = (fits_iff w.server.node_id st).1 (n, m) in
      if_elim (λ q. Resumes w st (register_node O hostname port q)) (fits w.server.node_id st)
        (λ _.
          subst
            (λ r. Resumes w st (
              register_node O hostname port
                (verified (log w (verify_called st.register_id)) st.register_id r)))
            (sym v) (register_node-Resumes hostname port st.register_id refl n))
        (λ e. absurd (false≢true (sym e ∙ f)))

-- A state that `SaveState` wrote without an error is the one that the next `Start` on that disk goes
-- on with, as long as the panel says that its id is valid: the node is not registered again. The
-- state file is readable, the encoding of the state decodes to it, and the name of the host and the
-- configuration of the node are there.
pub start_registered-Resumes :
    (O : Outside) (d : Disk) (w : World) (st : State) (hostname : Bytes) (c : AnyTlsConfig)
    → save_state O.codec d w.server.data_dir st ≡ (w.disk, none)
    → d.read_fault (get_state_file_path w.server.data_dir) ≡ none
    → ((b : Bytes) → O.codec.marshal st ≡ ok b → O.codec.unmarshal b ≡ ok st)
    → IsUsable O w.server.node_id st
    → O.hostname ≡ ok hostname
    → O.config w.server.node_id ≡ ok (anytls c)
    → Resumes w st (start_registered O w)
unfolding start_registered
start_registered-Resumes O d w st hostname c written readable trip usable host conf =
    let v = with_server w (record (w.server) { api_client = true }) in
    let u = with_server v (record (v.server) { anytls_config = some c }) in
    let found =
      ap saved_state
        (load_state-save_state O.codec d w.disk w.server.data_dir st written readable trip) in
    subst (λ r. Resumes w st (named O v r)) (sym host)
      (subst (λ o. Resumes w st (configured O v hostname o (O.config w.server.node_id))) (sym found)
        (subst (λ r. Resumes w st (configured O v hostname (some st) r)) (sym conf)
          (reuse-Resumes O u st hostname c.server_port usable)))
