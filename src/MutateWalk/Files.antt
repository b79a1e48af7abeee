-- ===== src/MutateWalk/Files.antt =====
-- What the reader of MutateWalk's channel sees: mutants and the original file, in turn, and each
-- mutant differs from the original by one mutation at one node.
use mathlib.Core.List.{map-append, map-map, map-id}
use mutation_framework.Base.{ℕ, zero, suc, ◌+◌, ◌≤◌, List, [], ◌∷◌, ◌++◌, length, All, map, arith}
use mutation_framework.Base.{◌≡◌, refl, ap, ◌≢◌, ◌∙◌, Result, ok, ◌>>=◌, panic}
use mutation_framework.Base.{
  ◌<◌, ◌⊎◌, inl, inr, Returns-ok, All-append, All-map, length-append, out_of_fuel,
}
use mutation_framework.Ast.{Node, nil_node}
use mutation_framework.Ast.Children.{
  children, with_children, with_children-children, height, children-Below, Below,
}
use mutation_framework.Ast.Walk.{walk, walk_all, walk_lem}
use mutation_framework.Mutator.{Mutation, Mutator, call, Undoes, IsReversible}
use mutation_framework.MutateWalk.{
  Walked, visit, walk_children, mutate_walk, mutate_file, count_visitor, count_walk,
}

-- One of the mutations of a list, and the node that its Change leaves.
pub data ChangedBy (n n' : Node) : List Mutation → Type 0 where
  this : {mu : Mutation} {ms : List Mutation} → call mu.change n ≡ ok n' → ChangedBy n n' (mu ∷ ms)
  next : {mu : Mutation} {ms : List Mutation} → ChangedBy n n' ms → ChangedBy n n' (mu ∷ ms)

-- `Edit m n n'`: n' is n with one mutation of `m` applied to one of its nodes.
mutual
  pub data Edit (m : Mutator) : Node → Node → Type 0 where
    here :
        {n n' : Node} (ms : List Mutation)
        → n ≢ nil_node
        → m n ≡ ok ms
        → ChangedBy n n' ms
        → Edit m n n'
    below :
        {n n' : Node} (cs : List Node)
        → EditOne m (children n) cs
        → n' ≡ with_children n cs
        → Edit m n n'

  pub data EditOne (m : Mutator) : List Node → List Node → Type 0 where
    first : {c c' : Node} {cs : List Node} → Edit m c c' → EditOne m (c ∷ cs) (c' ∷ cs)
    later : {c : Node} {cs cs' : List Node} → EditOne m cs cs' → EditOne m (c ∷ cs) (c ∷ cs')

-- Each mutant, followed by the original.
abbrev pub signals {ℓ} : {A : Type ℓ} → List A → A → List A
signals [] original = []
signals (x ∷ xs) original = x ∷ original ∷ signals xs original

signals-append {ℓ} :
    {A : Type ℓ} (xs ys : List A) (o : A) → signals (xs ++ ys) o ≡ signals xs o ++ signals ys o
signals-append [] ys o = refl
signals-append (x ∷ xs) ys o = ap (λ zs. x ∷ o ∷ zs) (signals-append xs ys o)

length-map {ℓ} : {A B : Type ℓ} (f : A → B) (xs : List A) → length (map f xs) ≡ length xs
length-map f [] = refl
length-map f (x ∷ xs) = ap suc (length-map f xs)

All-mapped {ℓ} :
    {A B : Type ℓ} (P : B → Type 0) (f : A → B) (xs : List A)
    → All (λ x. P (f x)) xs
    → All P (map f xs)
All-mapped P f [] h = tt
All-mapped P f (x ∷ xs) (h, hs) = (h, All-mapped P f xs hs)

-- A walk that lists the mutants `files` of `a`, in every place of a file, and leaves `a` as it was.
abbrev Lists : {A : Type 0} → ((A → Node) → Walked A) → A → List A → Type 0
Lists {A} run a files = (k : A → Node) → run k ≡ ok (signals (map k files) (k a), a)

undone :
    (mu : Mutation) (n : Node)
    → Undoes n mu
    → (n' : Node) × (call mu.change n ≡ ok n') × (call mu.reset n' ≡ ok n)
undone mu n h = go (call mu.change n) refl h
  where
    go :
        (r : Result Node)
        → call mu.change n ≡ r
        → (r >>= call mu.reset) ≡ ok n
        → (n' : Node) × (call mu.change n ≡ ok n') × (call mu.reset n' ≡ ok n)
    go (ok n') e u = (n', e, u)
    go panic e u = cc
    go out_of_fuel e u = cc

visit-files :
    (n : Node) (ms : List Mutation)
    → All (Undoes n) ms
    → (files : List Node) × Lists (λ k. visit k ms n) n files
      × All (λ n'. ChangedBy n n' ms) files
      × (length files ≡ length ms)
unfolding visit
visit-files n [] h = ([], λ k. refl, tt, refl)
visit-files n (mu ∷ ms) (h, hs) =
    let (n', changes, resets) = undone mu n h in
    let (files, lists, edits, count) = visit-files n ms hs in
    (
      n' ∷ files,
      λ k. rw (changes, resets, lists k) refl,
      (this changes, All-map _ (λ x. ChangedBy n x (mu ∷ ms)) (λ x. next) files edits),
      ap suc count,
    )

-- The walk of one node, and the count of CountWalk there.
abbrev Walks : Mutator → ℕ → Node → Type 0
Walks m f n =
    (files : List Node) × Lists (λ k. mutate_walk f m k n) n files
    × All (Edit m n) files
    × ((c : ℕ) → walk (count_visitor m) (ok c) n ≡ ok (c + length files))

abbrev WalksAll : Mutator → ℕ → List Node → Type 0
WalksAll m f cs =
    (files : List (List Node)) × Lists (λ k. walk_children (mutate_walk f m) k cs) cs files
    × All (EditOne m cs) files
    × ((c : ℕ) → walk_all (count_visitor m) (ok c) cs ≡ ok (c + length files))

both-length :
    (c : Node) (cs fs : List Node) (gs : List (List Node))
    → length (map (λ x. x ∷ cs) fs ++ map (λ xs. c ∷ xs) gs) ≡ length fs + length gs
both-length c cs fs gs = simp (length-append, length-map)

walk_children-files : (m : Mutator) (f : ℕ) (cs : List Node) → All (Walks m f) cs → WalksAll m f cs
unfolding walk_children
walk_children-files m f [] h = ([], λ k. refl, tt, λ c. ap ok (omega arith))
walk_children-files m f (c ∷ cs) ((fs, lists, edits, count), h) =
    let (gs, lists', edits', count') = walk_children-files m f cs h in
    (
      map (λ x. x ∷ cs) fs ++ map (λ xs. c ∷ xs) gs,
      λ k. simp (lists, lists', map-append, map-map, signals-append),
      All-append (EditOne m (c ∷ cs)) _ _
          (All-mapped _ _ fs (All-map (Edit m c) _ (λ x. first) fs edits))
          (All-mapped _ _ gs (All-map (EditOne m cs) _ (λ x. later) gs edits')),
      λ d. rw (count d, count' (d + length fs), both-length c cs fs gs) (ap ok (omega arith)),
    )

-- The walk of a node that is not nil.
mutate_walk_step :
    (f : ℕ) (m : Mutator) (k : Node → Node) (n : Node)
    → n ≢ nil_node
    → mutate_walk (suc f) m k n ≡ (do
      ms ← m n
      (files, n') ← visit k ms n
      (more, cs) ← walk_children (mutate_walk f m) (λ xs. k (with_children n' xs)) (children n')
      ok (files ++ more, with_children n' cs))
unfolding mutate_walk
mutate_walk_step f m k nil_node h = absurd (h refl)
mutate_walk_step f m k _ h = refl

node-files :
    (m : Mutator) (f : ℕ) (n : Node) (ms : List Mutation)
    → n ≢ nil_node
    → m n ≡ ok ms
    → All (Undoes n) ms
    → WalksAll m f (children n)
    → Walks m (suc f) n
node-files m f n ms real answers undo (gs, lists', edits', count') =
    let (fs, lists, edits, count) = visit-files n ms undo in
    (
      fs ++ map (with_children n) gs,
      λ k.
          rw (mutate_walk_step f m k n real, answers, lists k)
            (simp (lists', with_children-children, map-append, map-map, signals-append)),
      All-append (Edit m n) fs _ (All-map _ _ (λ x. here ms real answers) fs edits)
          (All-mapped _ _ gs (All-map _ _ (λ cs e. below cs e refl) gs edits')),
      λ d.
          rw (walk_lem (count_visitor m) (ok d) n real, answers, count' (d + length ms))
            (ap ok (rw (length-append, length-map, count) (omega arith))),
    )

height-pos : (n : Node) → 0 < height n
unfolding height
height-pos nil_node = omega arith
height-pos _ = omega arith

nil-cases : (n : Node) → (n ≡ nil_node) ⊎ (n ≢ nil_node)
nil-cases nil_node = inl refl
nil-cases _ = inr (λ e. cc)

nil-files : (m : Mutator) (f : ℕ) → Walks m (suc f) nil_node
unfolding mutate_walk walk
nil-files m f = ([], λ k. refl, tt, λ c. ap ok (omega arith))

mutate_walk-files : (m : Mutator) (f : ℕ) (n : Node) → IsReversible m → height n ≤ f → Walks m f n
mutate_walk-files m zero n rev le = absurd (omega (arith, height-pos n))
mutate_walk-files m (suc f) n rev le = elim (nil-cases n) [
  | inl e ↦ rw e (nil-files m f)
  | inr real ↦
      let (ms, answers, undo) = Returns-ok (m n) (rev n) in
      node-files m f n ms real answers undo (
        walk_children-files m f (children n) (
          All-map (Below f) (Walks m f) (λ c lower. mutate_walk-files m f c rev lower) (children n)
            (children-Below n f le)))
]

-- For a mutator whose mutations can all be undone, MutateWalk ends without a panic, shows each
-- mutant followed by the original file, and leaves the original file; each mutant is the file with
-- one mutation of one node, and CountWalk counts the mutants.
pub mutate_file-count_walk :
    (m : Mutator) (file : Node)
    → IsReversible m
    → (files : List Node) × (mutate_file m file ≡ ok (signals files file, file))
      × All (Edit m file) files
      × (count_walk m file ≡ ok (length files))
unfolding mutate_file count_walk
mutate_file-count_walk m file rev =
    let (files, lists, edits, count) = mutate_walk-files m (height file) file rev (omega arith) in
    (files, rw lists (simp map-id), edits, count 0 ∙ ap ok (omega arith))
