-- ===== src/Path.antt =====
-- Go's `path/filepath` on Unix, as internal/app/server/server.go and state.go use it.
use server_anytls.Prelude.{
  ℕ, Bool, true, false, not, ◌&&◌, List, [], ◌∷◌, ◌++◌, Bytes, codes, equal, ◌==◌, if◌then◌else◌,
}
use server_anytls.StringMap.{split, join}

abbrev dot_dot : Bytes
dot_dot = codes ".."

-- The elements that `Clean` keeps, the last one first. Behind the root, `..` is dropped.
unfoldable pub step_up : Bool → List Bytes → List Bytes
step_up true [] = []
step_up false [] = dot_dot ∷ []
step_up rooted (w ∷ ws) = if equal w dot_dot then dot_dot ∷ w ∷ ws else ws

unfoldable pub add_element : Bool → List Bytes → Bytes → List Bytes
unfolding step_up
add_element rooted kept w =
    if equal w []
    then kept
    else if equal w (codes ".")
    then kept
    else if equal w dot_dot
    then step_up rooted kept
    else w ∷ kept

-- With the elements in order again.
unfoldable pub add_elements : Bool → List Bytes → List Bytes → List Bytes
unfolding add_element
add_elements rooted kept [] = kept
add_elements rooted kept (w ∷ ws) = add_elements rooted (add_element rooted kept w) ws

abbrev pub reverse_onto : List Bytes → List Bytes → List Bytes
reverse_onto done [] = done
reverse_onto done (w ∷ ws) = reverse_onto (w ∷ done) ws

-- `filepath.IsAbs`
abbrev pub is_abs : Bytes → Bool
is_abs [] = false
is_abs (c ∷ cs) = c == b'/'

abbrev or_dot : Bytes → Bytes
or_dot [] = codes "."
or_dot (c ∷ cs) = c ∷ cs

-- `filepath.Clean`
unfoldable pub clean : Bytes → Bytes
unfolding split join add_elements
clean path =
    let rooted = is_abs path in
    let rest = join b'/' (reverse_onto [] (add_elements rooted [] (split b'/' path))) in
    if rooted then b'/' ∷ rest else or_dot rest

-- `filepath.Join` of two elements.
unfoldable pub join_path : Bytes → Bytes → Bytes
unfolding clean
join_path [] [] = []
join_path [] (c ∷ cs) = clean (c ∷ cs)
join_path (b ∷ bs) cs = clean ((b ∷ bs) ++ (b'/' ∷ cs))

abbrev cons_dir : ℕ → Bytes → Bytes
cons_dir c [] = if c == b'/' then c ∷ [] else []
cons_dir c (b ∷ bs) = c ∷ b ∷ bs

-- The path through its last slash.
unfoldable pub through_last_slash : Bytes → Bytes
through_last_slash [] = []
through_last_slash (c ∷ cs) = cons_dir c (through_last_slash cs)

-- `filepath.Dir`
unfoldable pub dir : Bytes → Bytes
unfolding through_last_slash clean
dir path = clean (through_last_slash path)

abbrev pub contains : ℕ → Bytes → Bool
contains b [] = false
contains b (c ∷ cs) = if c == b then true else contains b cs

abbrev first_dot : ℕ → Bytes → Bytes → Bytes
first_dot c cs [] = if c == b'.' && not (contains b'/' cs) then c ∷ cs else []
first_dot c cs (b ∷ bs) = b ∷ bs

-- `filepath.Ext`
unfoldable pub ext : Bytes → Bytes
ext [] = []
ext (c ∷ cs) = first_dot c cs (ext cs)
