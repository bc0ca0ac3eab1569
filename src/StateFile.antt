-- ===== src/StateFile.antt =====
-- internal/app/server/state.go: the file that keeps the register id of a node between two runs. The
-- disk is the contents by path, with what the system answers to each call. JSON is a `Codec`.
pub mod Replaced
pub mod Atomic
use server_anytls.Prelude.{
  ℕ, List, [], ◌∷◌, ◌++◌, Option, none, some, Bytes, codes, take, Error, not_exist, wrapped, Result,
  ok, err, bytes_eq, Bool, true, false,
}
use server_anytls.Prelude.Maps.{Map, lookup, insert, delete}
use server_anytls.Number.{ℤ}
use server_anytls.Path.{join_path}

-- How `os.WriteFile` goes: all is written, the file cannot be opened, or the write breaks off after
-- some bytes.
pub data Fate : Type 0 where
  written : Fate
  refused : Error → Fate
  broken : ℕ → Error → Fate

-- The files, and the errors that the system answers with; `none` is success.
pub record Disk : Type 0 where
  pub files : Map Bytes Bytes
  pub mkdir_all : Bytes → Option Error
  pub read_fault : Bytes → Option Error
  pub write_fate : Bytes → Fate
  pub rename_fault : Bytes → Option Error
  pub remove_fault : Bytes → Option Error

abbrev pub content : Option Bytes → Result Bytes
content none = err not_exist
content (some b) = ok b

abbrev pub read_unless : Disk → Bytes → Option Error → Result Bytes
read_unless d path (some e) = err e
read_unless d path none = content (lookup path d.files)

-- `os.ReadFile`
abbrev pub read_file : Disk → Bytes → Result Bytes
read_file d path = read_unless d path (d.read_fault path)

-- `os.WriteFile`
abbrev pub write_as : Disk → Bytes → Bytes → Fate → Disk × Option Error
write_as d path b written = (record d { files = insert path b d.files }, none)
write_as d path b (refused e) = (d, some e)
write_as d path b (broken n e) = (record d { files = insert path (take n b) d.files }, some e)

abbrev pub move_content : Disk → Bytes → Bytes → Option Bytes → Disk × Option Error
move_content d old new none = (d, some not_exist)
move_content d old new (some b) = (record d { files = insert new b (delete old d.files) }, none)

abbrev pub rename_unless : Disk → Bytes → Bytes → Option Error → Disk × Option Error
rename_unless d old new (some e) = (d, some e)
rename_unless d old new none = move_content d old new (lookup old d.files)

-- `os.Rename`
unfoldable pub rename : Disk → Bytes → Bytes → Disk × Option Error
rename d old new = rename_unless d old new (d.rename_fault old)

abbrev pub remove_content : Disk → Bytes → Option Bytes → Disk × Option Error
remove_content d path none = (d, some not_exist)
remove_content d path (some b) = (record d { files = delete path d.files }, none)

abbrev pub remove_unless : Disk → Bytes → Option Error → Disk × Option Error
remove_unless d path (some e) = (d, some e)
remove_unless d path none = remove_content d path (lookup path d.files)

-- `os.Remove`
unfoldable pub remove : Disk → Bytes → Disk × Option Error
remove d path = remove_unless d path (d.remove_fault path)

-- `State`
pub record State : Type 0 where
  pub register_id : Bytes
  pub node_id : ℤ
  pub hostname : Bytes

-- `json.MarshalIndent` and `json.Unmarshal` for a `State`.
pub record Codec : Type 0 where
  pub marshal : State → Result Bytes
  pub unmarshal : Bytes → Result State

abbrev pub default_data_dir : Bytes
default_data_dir = codes "/var/lib/anytls-node"

abbrev pub state_file_name : Bytes
state_file_name = codes "state.json"

abbrev pub or_default : Bytes → Bytes
or_default [] = default_data_dir
or_default (c ∷ cs) = c ∷ cs

unfoldable pub get_state_file_path : Bytes → Bytes
get_state_file_path data_dir = join_path (or_default data_dir) state_file_name

abbrev pub loaded : Result State → Result (Option State)
loaded (err e) = err (wrapped (codes "failed to unmarshal state: ") e)
loaded (ok s) = ok (some s)

-- `os.IsNotExist` looks at the error of the call itself.
abbrev pub after_read : Codec → Result Bytes → Result (Option State)
after_read codec (err not_exist) = ok none
after_read codec (err e) = err (wrapped (codes "failed to read state file: ") e)
after_read codec (ok b) = loaded (codec.unmarshal b)

unfoldable pub load_state : Codec → Disk → Bytes → Result (Option State)
load_state codec d data_dir = after_read codec (read_file d (get_state_file_path data_dir))

abbrev pub tmp_path : Bytes → Bytes
tmp_path path = path ++ codes ".tmp"

abbrev pub after_rename : Bytes → Disk × Option Error → Disk × Option Error
after_rename path (d, none) = (d, none)
after_rename path (d, some e) =
    ((remove d (tmp_path path)).0, some (wrapped (codes "failed to rename state file: ") e))

abbrev pub after_write : Bytes → Disk × Option Error → Disk × Option Error
after_write path (d, some e) = (d, some (wrapped (codes "failed to write state file: ") e))
after_write path (d, none) = after_rename path (rename d (tmp_path path) path)

abbrev pub after_marshal : Disk → Bytes → Result Bytes → Disk × Option Error
after_marshal d path (err e) = (d, some (wrapped (codes "failed to marshal state: ") e))
after_marshal d path (ok b) =
    after_write path (write_as d (tmp_path path) b (d.write_fate (tmp_path path)))

abbrev pub after_mkdir : Codec → Disk → Bytes → State → Option Error → Disk × Option Error
after_mkdir codec d path state (some e) =
    (d, some (wrapped (codes "failed to create data directory: ") e))
after_mkdir codec d path state none = after_marshal d path (codec.marshal state)

unfoldable pub save_state : Codec → Disk → Bytes → State → Disk × Option Error
save_state codec d data_dir state =
    after_mkdir codec d (get_state_file_path data_dir) state (d.mkdir_all (or_default data_dir))

abbrev pub cleared : Disk × Option Error → Disk × Option Error
cleared (d, none) = (d, none)
cleared (d, some not_exist) = (d, none)
cleared (d, some e) = (d, some (wrapped (codes "failed to remove state file: ") e))

unfoldable pub clear_state : Disk → Bytes → Disk × Option Error
clear_state d data_dir = cleared (remove d (get_state_file_path data_dir))
