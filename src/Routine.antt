-- ===== src/Routine.antt =====
-- internal/pkg/util/routine.go: a task that runs at every tick until its context is done.
use server_anytls.Prelude.{
  ℕ, zero, suc, ◌≡◌, refl, List, [], ◌∷◌, ◌++◌, Option, none, some, replicate,
}

-- What the `select` takes.
pub data Choice : Type 0 where
  ticked ctx_done : Choice

-- The goroutine of `StartRoutine`. A task changes a state, `none` is a panic: it is recovered, and
-- the goroutine ends all the same.
module _ {S : Type 0} (f : S → Option S) where
  abbrev pub go_on : (S → S) → S → Option S → S
  go_on rest s none = s
  go_on rest s (some t) = rest t

  unfoldable pub start_routine : List Choice → S → S
  start_routine [] s = s
  start_routine (ctx_done ∷ choices) s = s
  start_routine (ticked ∷ choices) s = go_on (start_routine choices) s (f s)

-- `n` runs of the task, as long as it does not panic.
unfoldable pub run_times : {S : Type 0} → (S → Option S) → ℕ → S → S
run_times f zero s = s
run_times f (suc n) s = go_on f (run_times f n) s (f s)

go_on_same :
    {S : Type 0} (f : S → Option S) (g h : S → S) (s : S) (o : Option S)
    → ((t : S) → g t ≡ h t)
    → go_on f g s o ≡ go_on f h s o
go_on_same f g h s none e = refl
go_on_same f g h s (some t) e = e t

-- A task runs once for each tick before its context is done, and never behind that, nor behind a
-- panic of its own.
pub start_routine_runs :
    {S : Type 0} (f : S → Option S) (n : ℕ) (choices : List Choice) (s : S)
    → start_routine f (replicate n ticked ++ (ctx_done ∷ choices)) s ≡ run_times f n s
unfolding start_routine run_times
start_routine_runs f zero choices s = refl
start_routine_runs f (suc n) choices s =
    go_on_same f (start_routine f (replicate n ticked ++ (ctx_done ∷ choices))) (run_times f n) s
      (f s) (start_routine_runs f n choices)
