-- ===== src/StateFile/Atomic.antt =====
-- What `SaveState` and `ClearState` leave for `LoadState`.
use server_anytls.Prelude.{
  ◌≡◌, refl, sym, ap, ◌∙◌, subst, Bool, false, Option, none, some, Bytes, Error, closed_pipe,
  net_closed, eof, unexpected_eof, deadline_exceeded, conn_failed, message, not_exist, wrapped,
  config_error, ◌≢◌, ok, arith, equal, equal_refl, bytes_eq, if◌then◌else◌,
}
use server_anytls.Prelude.Maps.{lookup, delete, lookup-delete}
use server_anytls.StateFile.{
  Disk, content, read_unless, remove, remove_unless, remove_content, State, Codec, or_default,
  get_state_file_path, loaded, after_read, load_state, tmp_path, save_state, cleared, clear_state,
}
use server_anytls.StateFile.Replaced.{
  apart_of_length, tmp_path_longer, Replaces, after_mkdir-Replaces,
}

-- What `LoadState` says behind a `SaveState`: the new state after a success, and after a failure
-- what it said before. No other file has changed but the temporary one.
abbrev pub Saves : Codec → Disk → Bytes → State → Bytes → Disk × Option Error → Type 0
Saves codec d data_dir state p (d', none) =
    (load_state codec d' data_dir ≡ ok (some state)) × (lookup p d'.files ≡ lookup p d.files)
Saves codec d data_dir state p (d', some e) =
    (load_state codec d' data_dir ≡ load_state codec d data_dir)
    × (lookup p d'.files ≡ lookup p d.files)

module _ (codec : Codec) (data_dir : Bytes) where
  load_state_readable :
      (x : Disk)
      → x.read_fault (get_state_file_path data_dir) ≡ none
      → load_state codec x data_dir
        ≡ after_read codec (content (lookup (get_state_file_path data_dir) x.files))
  unfolding load_state
  load_state_readable x e =
      ap (λ (o : Option Error). after_read codec (read_unless x (get_state_file_path data_dir) o)) e

  same_fault :
      (x d : Disk)
      → x.read_fault ≡ d.read_fault
      → d.read_fault (get_state_file_path data_dir) ≡ none
      → x.read_fault (get_state_file_path data_dir) ≡ none
  same_fault x d s e = ap (λ (f : Bytes → Option Error). f (get_state_file_path data_dir)) s ∙ e

  load_state_same :
      (x d : Disk)
      → d.read_fault (get_state_file_path data_dir) ≡ none
      → x.read_fault ≡ d.read_fault
      → lookup (get_state_file_path data_dir) x.files
        ≡ lookup (get_state_file_path data_dir) d.files
      → load_state codec x data_dir ≡ load_state codec d data_dir
  load_state_same x d e s h =
      load_state_readable x (same_fault x d s e)
      ∙ ap (λ (o : Option Bytes). after_read codec (content o)) h
      ∙ sym (load_state_readable d e)

  Replaces-Saves :
      (d : Disk) (state : State) (p : Bytes) (r : Disk × Option Error)
      → Replaces d (get_state_file_path data_dir) p (codec.marshal state) r
      → d.read_fault (get_state_file_path data_dir) ≡ none
      → ((b : Bytes) → codec.marshal state ≡ ok b → codec.unmarshal b ≡ ok state)
      → Saves codec d data_dir state p r
  Replaces-Saves d state p (x, none) h e trip = (
    load_state_readable x (same_fault x d h.2 e)
        ∙ ap (λ (o : Option Bytes). after_read codec (content o)) h.0.2
        ∙ ap loaded (trip h.0.0 h.0.1),
    h.1,
  )
  Replaces-Saves d state p (x, some g) h e trip = (load_state_same x d e h.2 h.0, h.1)

-- `SaveState` is atomic, wherever it fails: after a success `LoadState` gives the state back, and
-- after a failure it gives what it gave before; no file but the state file and the temporary one
-- beside it has changed. The state file is readable, and the encoding of the state decodes to it.
pub save_state-Saves :
    (codec : Codec) (d : Disk) (data_dir : Bytes) (state : State) (p : Bytes)
    → equal (get_state_file_path data_dir) p ≡ false
    → equal (tmp_path (get_state_file_path data_dir)) p ≡ false
    → d.read_fault (get_state_file_path data_dir) ≡ none
    → ((b : Bytes) → codec.marshal state ≡ ok b → codec.unmarshal b ≡ ok state)
    → Saves codec d data_dir state p (save_state codec d data_dir state)
unfolding save_state
save_state-Saves codec d data_dir state p elsewhere not_tmp readable trip =
    Replaces-Saves codec data_dir d state p _
      (after_mkdir-Replaces d (get_state_file_path data_dir) p elsewhere not_tmp codec state
        (d.mkdir_all (or_default data_dir)))
      readable trip

-- The same without another file, for a result that is known.
pub load_state-save_state :
    (codec : Codec) (d x : Disk) (data_dir : Bytes) (state : State)
    → save_state codec d data_dir state ≡ (x, none)
    → d.read_fault (get_state_file_path data_dir) ≡ none
    → ((b : Bytes) → codec.marshal state ≡ ok b → codec.unmarshal b ≡ ok state)
    → load_state codec x data_dir ≡ ok (some state)
load_state-save_state codec d x data_dir state e readable trip =
    let path = get_state_file_path data_dir in
    let far = tmp_path (tmp_path path) in
    let longer = tmp_path_longer path in
    let longest = tmp_path_longer (tmp_path path) in
    (subst (Saves codec d data_dir state far) e (
      save_state-Saves codec d data_dir state far
        (apart_of_length path far (λ h. absurd (omega (arith, h, longer, longest))))
        (apart_of_length (tmp_path path) far (λ h. absurd (omega (arith, h, longest)))) readable
        trip)).0

-- What `LoadState` says behind a `ClearState`: there is no state after a success, and after a
-- failure what there was.
abbrev pub Clears : Codec → Disk → Bytes → Disk × Option Error → Type 0
Clears codec d data_dir (d', none) = load_state codec d' data_dir ≡ ok none
Clears codec d data_dir (d', some e) = load_state codec d' data_dir ≡ load_state codec d data_dir

module _ (codec : Codec) (d : Disk) (data_dir : Bytes) where
  cleared_fault-Clears : (e : Error) → e ≢ not_exist → Clears codec d data_dir (cleared (d, some e))
  cleared_fault-Clears closed_pipe h = refl
  cleared_fault-Clears net_closed h = refl
  cleared_fault-Clears eof h = refl
  cleared_fault-Clears unexpected_eof h = refl
  cleared_fault-Clears deadline_exceeded h = refl
  cleared_fault-Clears (conn_failed n) h = refl
  cleared_fault-Clears (message b) h = refl
  cleared_fault-Clears not_exist h = absurd (h refl)
  cleared_fault-Clears (wrapped b e) h = refl
  cleared_fault-Clears (config_error b e) h = refl

  remove_content-Clears :
      (o : Option Bytes)
      → lookup (get_state_file_path data_dir) d.files ≡ o
      → d.read_fault (get_state_file_path data_dir) ≡ none
      → Clears codec d data_dir (cleared (remove_content d (get_state_file_path data_dir) o))
  remove_content-Clears none e h =
      load_state_readable codec data_dir d h
      ∙ ap (λ (o : Option Bytes). after_read codec (content o)) e
  remove_content-Clears (some b) e h =
      let path = get_state_file_path data_dir in
      load_state_readable codec data_dir (record d { files = delete path d.files }) h
      ∙ ap (λ (o : Option Bytes). after_read codec (content o))
          (lookup-delete path path d.files
            ∙ ap (λ (t : Bool). if t then none else lookup path d.files) (equal_refl path))

  remove_unless-Clears :
      (o : Option Error)
      → o ≢ some not_exist
      → d.read_fault (get_state_file_path data_dir) ≡ none
      → Clears codec d data_dir (cleared (remove_unless d (get_state_file_path data_dir) o))
  remove_unless-Clears none n h =
      remove_content-Clears (lookup (get_state_file_path data_dir) d.files) refl h
  remove_unless-Clears (some e) n h = cleared_fault-Clears e (λ s. n (ap some s))

-- After a `ClearState` that succeeds, `LoadState` finds no state and no error, also if there was no
-- file; after one that fails it gives what it gave before. The state file is readable, and the
-- system does not claim that a file is missing that is there.
pub clear_state-Clears :
    (codec : Codec) (d : Disk) (data_dir : Bytes)
    → d.read_fault (get_state_file_path data_dir) ≡ none
    → d.remove_fault (get_state_file_path data_dir) ≢ some not_exist
    → Clears codec d data_dir (clear_state d data_dir)
unfolding clear_state remove
clear_state-Clears codec d data_dir readable honest =
    remove_unless-Clears codec d data_dir (d.remove_fault (get_state_file_path data_dir)) honest
      readable
