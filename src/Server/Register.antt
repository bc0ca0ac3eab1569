-- ===== src/Server/Register.antt =====
-- server.go, the first half of `Start`: the node's configuration and its register id, the one of the
-- last run if the panel still knows it, or a new one.
use server_anytls.Prelude.{
  Bool, true, false, ◌&&◌, not, [], ◌∷◌, Option, none, some, Bytes, codes, Error, message, wrapped,
  Result, ok, err, equal, if◌then◌else◌,
}
use server_anytls.Number.{ℤ, equal_ℤ}
use server_anytls.StateFile.{Disk, State, load_state, save_state, clear_state}
use server_anytls.Server.{
  NodeConfig, anytls, other_type, Outside, verify_called, register_called, World, log, with_server,
}

-- `Start` on its way, or back with an error.
pub data Outcome : Type 0 where
  going : World → Outcome
  failed : World → Error → Outcome

infixl 5 ◌>>>◌
abbrev pub ◌>>>◌ : Outcome → (World → Outcome) → Outcome
going w >>> f = f w
failed w e >>> f = failed w e

-- A state that cannot be loaded is only logged.
abbrev pub saved_state : Result (Option State) → Option State
saved_state (err e) = none
saved_state (ok o) = o

abbrev pub with_disk : World → Disk × Option Error → World
with_disk w (d, e) = record w { disk = d }

-- `ClearState`, its error logged.
abbrev pub clear : World → World
clear w = with_disk w (clear_state w.disk w.server.data_dir)

-- The answer to `Verify`; no id is the empty text.
abbrev pub verified : World → Bytes → Result Bool → World × Bytes
verified w id (err e) = (clear w, [])
verified w id (ok true) = (w, id)
verified w id (ok false) = (clear w, [])

abbrev pub fits : ℤ → State → Bool
fits node_id st = not (equal st.register_id []) && equal_ℤ st.node_id node_id

-- The second step: the saved id, if it is of this node and `Verify` says it is valid.
abbrev pub reuse : Outside → World → Option State → World × Bytes
reuse O w none = (w, [])
reuse O w (some st) =
    if fits w.server.node_id st
    then verified (log w (verify_called st.register_id)) st.register_id (O.verify st.register_id)
    else (w, [])

-- The id goes into the server at once, so that `Close` can give it back.
abbrev pub with_id : World → Bytes → Outcome
with_id w id = going (with_server w (record (w.server) { register_id = id; registered_as = id }))

abbrev pub new_state : World → Bytes → Bytes → State
new_state w hostname id = record {
  register_id = id;
  node_id = w.server.node_id;
  hostname = hostname;
}

-- `SaveState`, its error logged.
abbrev pub save : Outside → World → State → World
save O w st = with_disk w (save_state O.codec w.disk w.server.data_dir st)

abbrev pub registered : Outside → World → Bytes → Result Bytes → Outcome
registered O w hostname (err e) = failed w (wrapped (codes "failed to register node: ") e)
registered O w hostname (ok id) = with_id (save O w (new_state w hostname id)) id

-- The third step: no id, so the node is registered.
abbrev pub register_node : Outside → Bytes → ℤ → World × Bytes → Outcome
register_node O hostname port (w, []) =
    registered O (log w (register_called hostname port)) hostname
      (O.register w.server.node_id hostname port)
register_node O hostname port (w, c ∷ id) = with_id w (c ∷ id)

-- The first step, with the answer of `Config`.
abbrev pub configured : Outside → World → Bytes → Option State → Result NodeConfig → Outcome
configured O w hostname saved (err e) = failed w (wrapped (codes "failed to get node config: ") e)
configured O w hostname saved (ok other_type) =
    failed w (message (codes "unexpected node config type"))
configured O w hostname saved (ok (anytls c)) =
    register_node O hostname c.server_port
      (reuse O (with_server w (record (w.server) { anytls_config = some c })) saved)

abbrev pub named : Outside → World → Result Bytes → Outcome
named O w (err e) = failed w (wrapped (codes "failed to get hostname: ") e)
named O w (ok hostname) =
    configured O w hostname (saved_state (load_state O.codec w.disk w.server.data_dir))
      (O.config w.server.node_id)

-- `Start` up to the register id.
unfoldable pub start_registered : Outside → World → Outcome
start_registered O w = named O (with_server w (record (w.server) { api_client = true })) O.hostname
