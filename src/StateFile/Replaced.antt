-- ===== src/StateFile/Replaced.antt =====
-- state.go: what `SaveState` does to the files, by the place where it fails.
use server_anytls.Prelude.{
  ◌+◌, codes, ◌≡◌, refl, ap, ◌∙◌, Bool, false, Option, none, some, Bytes, Error, ◌≢◌, Result, ok,
  err, length, length-append, arith, inl, inr, Bool-cases, equal, equal_iff, equal_refl, bytes_eq,
  take, if◌then◌else◌,
}
use mathlib.Core.Option.{none-ne-some}
use server_anytls.Prelude.Maps.{lookup, insert, delete, lookup-insert, lookup-delete}
use server_anytls.StateFile.{
  Fate, written, refused, broken, Disk, write_as, rename, move_content, rename_unless, remove,
  remove_unless, remove_content, State, Codec, tmp_path, after_rename, after_write, after_marshal,
  after_mkdir,
}

pub apart_of_length : (v w : Bytes) → length v ≢ length w → equal v w ≡ false
apart_of_length v w n = elim (Bool-cases (equal v w)) [
  | inl e ↦ absurd (n (ap length ((equal_iff v w).0 e)))
  | inr e ↦ e
]

pub tmp_path_longer : (path : Bytes) → length (tmp_path path) ≡ length path + 4
tmp_path_longer path = length-append path (codes ".tmp")

tmp_path_apart : (path : Bytes) → equal (tmp_path path) path ≡ false
tmp_path_apart path =
    apart_of_length (tmp_path path) path (λ e. absurd (omega (arith, e, tmp_path_longer path)))

-- After a success the file at `path` holds `m`; after a failure it holds what it held. The file at
-- `p` and the faults of reading are those of before.
abbrev pub Replaces : Disk → Bytes → Bytes → Result Bytes → Disk × Option Error → Type 0
Replaces d path p m (d', none) =
    ((b : Bytes) × (m ≡ ok b) × (lookup path d'.files ≡ some b))
    × (lookup p d'.files ≡ lookup p d.files)
    × (d'.read_fault ≡ d.read_fault)
Replaces d path p m (d', some e) =
    (lookup path d'.files ≡ lookup path d.files)
    × (lookup p d'.files ≡ lookup p d.files)
    × (d'.read_fault ≡ d.read_fault)

module _ (d : Disk) (path p : Bytes) (elsewhere : equal path p ≡ false)
    (not_tmp : equal (tmp_path path) p ≡ false) where
  -- A disk that agrees with the first one but for the temporary file.
  abbrev Agrees : Disk → Type 0
  Agrees x =
      (lookup path x.files ≡ lookup path d.files)
      × (lookup p x.files ≡ lookup p d.files)
      × (x.read_fault ≡ d.read_fault)

  insert-Agrees :
      (v : Bytes) (x : Disk)
      → Agrees x
      → Agrees (record x { files = insert (tmp_path path) v x.files })
  insert-Agrees v x h =
      let apart = tmp_path_apart path in
      (
        lookup-insert (tmp_path path) path v x.files ∙ ground (arith, apart),
        lookup-insert (tmp_path path) p v x.files ∙ ground (arith, not_tmp),
        h.2,
      )

  remove_content-Agrees :
      (x : Disk) (o : Option Bytes) → Agrees x → Agrees ((remove_content x (tmp_path path) o).0)
  remove_content-Agrees x none h = h
  remove_content-Agrees x (some v) h =
      let apart = tmp_path_apart path in
      (
        lookup-delete (tmp_path path) path x.files ∙ ground (arith, apart),
        lookup-delete (tmp_path path) p x.files ∙ ground (arith, not_tmp),
        h.2,
      )

  remove_unless-Agrees :
      (x : Disk) (o : Option Error) → Agrees x → Agrees ((remove_unless x (tmp_path path) o).0)
  remove_unless-Agrees x none h = remove_content-Agrees x (lookup (tmp_path path) x.files) h
  remove_unless-Agrees x (some e) h = h

  failed-Replaces :
      (m : Result Bytes) (x : Disk)
      → Agrees x
      → (e : Error) → Replaces d path p m (after_rename path (x, some e))
  unfolding remove
  failed-Replaces m x h e = remove_unless-Agrees x (x.remove_fault (tmp_path path)) h

  move_content-Replaces :
      (b : Bytes) (x : Disk) (o : Option Bytes)
      → Agrees x
      → o ≡ some b
      → Replaces d path p (ok b) (after_rename path (move_content x (tmp_path path) path o))
  move_content-Replaces b x none h e = absurd (none-ne-some b e)
  move_content-Replaces b x (some v) h e =
      let moved = delete (tmp_path path) x.files in
      (
        (
          b,
          refl,
          lookup-insert path path v moved
              ∙ ap (λ (t : Bool). if t then some v else lookup path moved) (equal_refl path)
              ∙ e,
        ),
        lookup-insert path p v moved
            ∙ ap (λ (t : Bool). if t then some v else lookup p moved) elsewhere
            ∙ lookup-delete (tmp_path path) p x.files
            ∙ ap (λ (t : Bool). if t then none else lookup p x.files) not_tmp
            ∙ h.1,
        h.2,
      )

  rename_unless-Replaces :
      (b : Bytes) (x : Disk) (o : Option Error)
      → Agrees x
      → lookup (tmp_path path) x.files ≡ some b
      → Replaces d path p (ok b) (after_rename path (rename_unless x (tmp_path path) path o))
  rename_unless-Replaces b x none h e =
      move_content-Replaces b x (lookup (tmp_path path) x.files) h e
  rename_unless-Replaces b x (some g) h e = failed-Replaces (ok b) x h g

  write_as-Replaces :
      (b : Bytes) (f : Fate)
      → Replaces d path p (ok b) (after_write path (write_as d (tmp_path path) b f))
  unfolding rename
  write_as-Replaces b written =
      rename_unless-Replaces b _ (d.rename_fault (tmp_path path))
        (insert-Agrees b d (refl, refl, refl))
        (lookup-insert (tmp_path path) (tmp_path path) b d.files
          ∙ ap (λ (t : Bool). if t then some b else lookup (tmp_path path) d.files)
              (equal_refl (tmp_path path)))
  write_as-Replaces b (refused e) = (refl, refl, refl)
  write_as-Replaces b (broken n e) = insert-Agrees (take n b) d (refl, refl, refl)

  after_marshal-Replaces : (m : Result Bytes) → Replaces d path p m (after_marshal d path m)
  after_marshal-Replaces (ok b) = write_as-Replaces b (d.write_fate (tmp_path path))
  after_marshal-Replaces (err e) = (refl, refl, refl)

  pub after_mkdir-Replaces :
      (codec : Codec) (state : State) (o : Option Error)
      → Replaces d path p (codec.marshal state) (after_mkdir codec d path state o)
  after_mkdir-Replaces codec state none = after_marshal-Replaces (codec.marshal state)
  after_mkdir-Replaces codec state (some e) = (refl, refl, refl)
