-- ===== src/Exchange/Phases.antt =====
-- The phases of the exchange: each step leads from one phase to the next.
use mutation_framework.Base.{
  true, false, List, [], ◌∷◌, ◌++◌, ℕ, suc, ◌+◌, ◌*◌, ◌≤◌, ◌<◌, length, ◌≡◌, ◌≢◌, refl, sym, ◌∙◌,
  ◌⊎◌, inl, inr, arith, append_assoc, append-nil,
}
use mutation_framework.Ast.{Node}
use mutation_framework.MutateWalk.Files.{signals}
use mutation_framework.Exchange.{
  WalkOp, write, send, receive, waiting, saving, answering, receiving, resuming, done, panicked,
  State, state, Step, write_file, send_mutant, save, answer, send_original, resume, close_channel,
  end, receive_closed, answer_closed, resume_closed, Reach, here, next, script, start, reader,
  saved_files, shared_file, measure,
}

-- `files` are all mutants and `o` is the original file. `rest` are the mutants to come.
module _ (files : List Node) (o : Node) where
  abbrev rest_script : List Node → List WalkOp
  rest_script rest = script (signals rest o)

  abbrev after_original : List Node → List WalkOp
  after_original rest = receive ∷ rest_script rest

  abbrev after_mutant : List Node → List WalkOp
  after_mutant rest = receive ∷ write o ∷ send ∷ after_original rest

  data Phase : State → Type 0 where
    between :
        {saved : List Node} (rest : List Node)
        → saved ++ rest ≡ files
        → Phase (state o (rest_script rest) false waiting saved)
    mutated :
        {c : Node} {saved : List Node} (rest : List Node)
        → saved ++ c ∷ rest ≡ files
        → Phase (state c (send ∷ after_mutant rest) false waiting saved)
    received :
        {c : Node} {saved : List Node} (rest : List Node)
        → saved ++ c ∷ rest ≡ files
        → Phase (state c (after_mutant rest) false saving saved)
    written :
        {c : Node} {saved : List Node} (rest : List Node)
        → saved ++ rest ≡ files
        → Phase (state c (after_mutant rest) false answering saved)
    answered :
        {c : Node} {saved : List Node} (rest : List Node)
        → saved ++ rest ≡ files
        → Phase (state c (write o ∷ send ∷ after_original rest) false receiving saved)
    restored :
        {saved : List Node} (rest : List Node)
        → saved ++ rest ≡ files
        → Phase (state o (send ∷ after_original rest) false receiving saved)
    told :
        {saved : List Node} (rest : List Node)
        → saved ++ rest ≡ files
        → Phase (state o (after_original rest) false resuming saved)
    closed : {saved : List Node} → saved ++ [] ≡ files → Phase (state o [] true waiting saved)
    ended : {saved : List Node} → saved ++ [] ≡ files → Phase (state o [] true done saved)

  between-Step :
      {t : State} {saved : List Node} (rest : List Node)
      → saved ++ rest ≡ files
      → Step (state o (rest_script rest) false waiting saved) t
      → Phase t
  between-Step [] e close_channel = closed e
  between-Step (c ∷ rest) e write_file = mutated rest e

  Step-Phase : {s t : State} → Phase s → Step s t → Phase t
  Step-Phase (between rest e) st = between-Step rest e st
  Step-Phase (mutated rest e) send_mutant = received rest e
  Step-Phase (received {c} {saved} rest e) save =
      written rest (append_assoc saved (c ∷ []) rest ∙ e)
  Step-Phase (written rest e) answer = answered rest e
  Step-Phase (answered rest e) write_file = restored rest e
  Step-Phase (restored rest e) send_original = told rest e
  Step-Phase (told rest e) resume = between rest e
  Step-Phase (closed e) end = ended e
  Step-Phase (ended e) st = elim st [ ]

  Reach-Phase : {t : State} → Reach (start o (signals files o)) t → Phase t
  Reach-Phase here = between files refl
  Reach-Phase (next r st) = Step-Phase (Reach-Phase r) st

  -- What holds in every phase: the exchange goes on or the loop has ended, nothing panics, what is
  -- saved are the first mutants, and at the end it is all of them and the file is the original.
  abbrev pub IsSound : State → Type 0
  IsSound t =
      ((reader t ≡ done) ⊎ ((u : State) × Step t u))
      × (reader t ≢ panicked)
      × ((rest : List Node) × (saved_files t ++ rest ≡ files))
      × (reader t ≡ done → (saved_files t ≡ files) × (shared_file t ≡ o))

  between-moves :
      {saved : List Node} (rest : List Node)
      → (u : State) × Step (state o (rest_script rest) false waiting saved) u
  between-moves [] = (_, close_channel)
  between-moves (c ∷ rest) = (_, write_file)

  Phase-IsSound : {t : State} → Phase t → IsSound t
  Phase-IsSound (between rest e) = (inr (between-moves rest), λ p. cc, (rest, e), λ p. cc)
  Phase-IsSound (mutated {c} rest e) = (inr (_, send_mutant), λ p. cc, (c ∷ rest, e), λ p. cc)
  Phase-IsSound (received {c} rest e) = (inr (_, save), λ p. cc, (c ∷ rest, e), λ p. cc)
  Phase-IsSound (written rest e) = (inr (_, answer), λ p. cc, (rest, e), λ p. cc)
  Phase-IsSound (answered rest e) = (inr (_, write_file), λ p. cc, (rest, e), λ p. cc)
  Phase-IsSound (restored rest e) = (inr (_, send_original), λ p. cc, (rest, e), λ p. cc)
  Phase-IsSound (told rest e) = (inr (_, resume), λ p. cc, (rest, e), λ p. cc)
  Phase-IsSound (closed e) = (inr (_, end), λ p. cc, ([], e), λ p. cc)
  Phase-IsSound (ended {saved} e) =
      (inl refl, λ p. cc, ([], e), λ p. (sym (append-nil saved) ∙ e, refl))

  -- In every state that the two goroutines can reach, whatever their order: the exchange is not
  -- stuck before the loop ends, no send meets a closed channel, what is saved are the first of the
  -- mutants, and at the end of the loop all are saved and the file is the original.
  pub Reach-IsSound : {t : State} → Reach (start o (signals files o)) t → IsSound t
  Reach-IsSound r = Phase-IsSound (Reach-Phase r)

-- Every step lowers the measure.
Step-measure : {s t : State} → Step s t → measure t < measure s
Step-measure write_file = omega arith
Step-measure send_mutant = omega arith
Step-measure save = omega arith
Step-measure answer = omega arith
Step-measure send_original = omega arith
Step-measure resume = omega arith
Step-measure close_channel = omega arith
Step-measure end = omega arith
Step-measure receive_closed = omega arith
Step-measure answer_closed = omega arith
Step-measure resume_closed = omega arith

-- The steps of a run.
pub steps : {s t : State} → Reach s t → ℕ
steps here = 0
steps (next r st) = suc (steps r)

steps-measure : {s t : State} (r : Reach s t) → steps r + measure t ≤ measure s
unfolding steps
steps-measure here = omega arith
steps-measure (next r st) = omega (arith, steps-measure r, Step-measure st)

length-script :
    (files : List Node) (o : Node) → length (script (signals files o)) ≡ 6 * length files + 1
length-script [] o = omega arith
length-script (c ∷ files) o = omega (arith, length-script files o)

-- Every run of the exchange ends: it takes at most 18 steps for each mutant, and 4 more.
pub steps-le :
    (files : List Node) (o : Node) {t : State} (r : Reach (start o (signals files o)) t)
    → steps r ≤ 18 * length files + 4
steps-le files o r = omega (arith, steps-measure r, length-script files o)
