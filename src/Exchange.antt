-- ===== src/Exchange.antt =====
-- The exchange between the goroutine of MutateWalk (walk.go) and the loop of mutate
-- (cmd/mutation-framework/mutate.go) over the channel `changed`. The channel has no buffer, so a
-- send and a receive are one step of both sides. The file is shared: the walk writes it, and
-- saveAST reads it.
pub mod Phases
use mutation_framework.Base.{Bool, true, false, List, [], ◌∷◌, ◌++◌, ℕ, ◌+◌, ◌*◌, length}
use mutation_framework.Ast.{Node}

-- What is left to do in the goroutine of the walk: the effect of Change or Reset on the file,
-- `w.changed <- true`, `<-w.changed`, `close(w.changed)`.
pub data WalkOp : Type 0 where
  write : Node → WalkOp
  send receive close : WalkOp

-- Where the loop of mutate stands: at `_, ok := <-changed`; before saveAST; at the first
-- `changed <- true`; at `<-changed`; at the second `changed <- true`; behind the loop. A send on
-- a closed channel panics.
pub data Reader : Type 0 where
  waiting saving answering receiving resuming done panicked : Reader

-- The file, the rest of the walk, whether the channel is closed, the reader, the saved mutants.
pub data State : Type 0 where
  state : Node → List WalkOp → Bool → Reader → List Node → State

pub data Step : State → State → Type 0 where
  write_file :
      {f n : Node} {ops : List WalkOp} {b : Bool} {r : Reader} {saved : List Node}
      → Step (state f (write n ∷ ops) b r saved) (state n ops b r saved)
  send_mutant :
      {f : Node} {ops : List WalkOp} {b : Bool} {saved : List Node}
      → Step (state f (send ∷ ops) b waiting saved) (state f ops b saving saved)
  save :
      {f : Node} {ops : List WalkOp} {b : Bool} {saved : List Node}
      → Step (state f ops b saving saved) (state f ops b answering (saved ++ f ∷ []))
  answer :
      {f : Node} {ops : List WalkOp} {b : Bool} {saved : List Node}
      → Step (state f (receive ∷ ops) b answering saved) (state f ops b receiving saved)
  send_original :
      {f : Node} {ops : List WalkOp} {b : Bool} {saved : List Node}
      → Step (state f (send ∷ ops) b receiving saved) (state f ops b resuming saved)
  resume :
      {f : Node} {ops : List WalkOp} {b : Bool} {saved : List Node}
      → Step (state f (receive ∷ ops) b resuming saved) (state f ops b waiting saved)
  close_channel :
      {f : Node} {ops : List WalkOp} {b : Bool} {r : Reader} {saved : List Node}
      → Step (state f (close ∷ ops) b r saved) (state f ops true r saved)
  end :
      {f : Node} {ops : List WalkOp} {saved : List Node}
      → Step (state f ops true waiting saved) (state f ops true done saved)
  receive_closed :
      {f : Node} {ops : List WalkOp} {saved : List Node}
      → Step (state f ops true receiving saved) (state f ops true resuming saved)
  answer_closed :
      {f : Node} {ops : List WalkOp} {saved : List Node}
      → Step (state f ops true answering saved) (state f ops true panicked saved)
  resume_closed :
      {f : Node} {ops : List WalkOp} {saved : List Node}
      → Step (state f ops true resuming saved) (state f ops true panicked saved)

pub data Reach (s : State) : State → Type 0 where
  here : Reach s s
  next : {t u : State} → Reach s t → Step t u → Reach s u

-- What the goroutine does, from what the file holds at each signal: Visit's loop, then close.
abbrev pub script : List Node → List WalkOp
script [] = close ∷ []
script (n ∷ ns) = write n ∷ send ∷ receive ∷ script ns

-- The start of the loop for one operator.
abbrev pub start : Node → List Node → State
start file signals = state file (script signals) false waiting []

abbrev pub reader : State → Reader
reader (state f ops b r saved) = r

abbrev pub saved_files : State → List Node
saved_files (state f ops b r saved) = saved

abbrev pub shared_file : State → Node
shared_file (state f ops b r saved) = f

abbrev pub rank : Reader → ℕ
rank waiting = 1
rank saving = 3
rank answering = 2
rank receiving = 3
rank resuming = 2
rank done = 0
rank panicked = 0

-- An upper bound of the steps that are left.
abbrev pub measure : State → ℕ
measure (state f ops b r saved) = 3 * length ops + rank r
