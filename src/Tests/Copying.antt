-- ===== src/Tests/Copying.antt =====
-- Copies, moves and wild cards on a small disk.
use mutation_framework.Base.{
  ◌+◌, ◌*◌, ◌≤◌, ◌≢◌, ◌⊎◌, arith, Bool, subst, true, false, ◌||◌, List, [], ◌∷◌, ◌++◌, length, none,
  some, All, ok, Returns, ◌≡◌, refl, inl, if◌then◌else◌,
}
use mutation_framework.Base.Text.{Text, codes, text_eq}
use mutation_framework.Paths.{has_prefix_slash, append_folder, do_not_copy_dir, slash, split}
use mutation_framework.FileSystem.{
  FileSystem, not_exist, found, listed, History, done, made_dir, attempt, would_overwrite,
}
use mutation_framework.Copies.{copy_recursive}
use mutation_framework.Copies.Handles.{Closed, ClosedBut, copy_recursive-closes}
use mutation_framework.Copies.Trees.{
  Tree, empty, file, dir, depth, entries, ShowsAll, Writes, copies_made, wanted,
  copy_recursive-wanted,
}
use mutation_framework.Moves.{
  copy_folder_contents, move_all_contents_except_mutant_folder, owner_mode,
}
use mutation_framework.Moves.Fuel.{Levels}
use mutation_framework.Moves.Laws.{
  move_all_contents_except_mutant_folder-absolute, copy_folder_contents-done,
}
use mutation_framework.Config.WildCard.{is_valid_wild_card}
use mutation_framework.Config.Expand.{OtherGlobs, names_of, expand_wild_card}
use mutation_framework.Config.Expand.Exist.{Listable, Exists}
use mutation_framework.Config.Expand.Laws.{expand_wild_card-Exists}

-- The folder src with a file and a folder with one file. Every call works.
abbrev pub disk : FileSystem
disk = record {
  open_file = λ h p. none;
  create = λ h p. none;
  close_file = λ h p. none;
  io_copy = λ h p q. none;
  stat = λ h p.
      if text_eq p (codes "src/a.go") || text_eq p (codes "src/lib/b.go")
      then found false 420
      else found true 493;
  read_dir = λ h p.
      if text_eq p (codes "src")
      then listed ((codes "a.go", false) ∷ (codes "lib", true) ∷ [])
      else listed ((codes "b.go", false) ∷ []);
  mkdir_all = λ h p m. none;
  chmod = λ h p m. none;
  read_file = λ h p. some (codes "package main");
  write_file = λ h p src. none;
}

abbrev small : Tree
small = file (codes "a.go") 420 (dir (codes "lib") 493 (file (codes "b.go") 420 empty) empty)

disk-Writes : Writes disk
disk-Writes = record {
  opens = λ h p. inl refl;
  creates = λ h p. refl;
  closes = λ h p. refl;
  copies = λ h p q. refl;
  makes = λ h p m. refl;
  sets = λ h p m. refl;
}

copy_recursive-closes_example :
    let r = copy_recursive disk 2 true (codes "src") (codes "copy") (codes "mutants/") [] in
    (r.0 ≢ would_overwrite) × Closed [] (r.1)
    ⊎ (r.0 ≡ would_overwrite) × ((q : Text) × ClosedBut q [] (r.1))
copy_recursive-closes_example =
    copy_recursive-closes disk 2 true (codes "src") (codes "copy") (codes "mutants/") []

small-ShowsAll : ShowsAll disk (codes "mutants/") (codes "src") small
unfolding text_eq append_folder
small-ShowsAll =
    (λ h. refl, λ h. refl, (λ copied. (λ h. refl, λ h. refl, (λ h. refl, λ h. refl, tt)), tt))

src-listed : (h : History) → disk.read_dir h (codes "src") ≡ listed (entries small)
unfolding text_eq
src-listed h = refl

src-found : (h : History) → disk.stat h (codes "src") ≡ found true 493
unfolding text_eq
src-found h = refl

small-depth : depth small ≤ 2
small-depth = omega arith

copy_recursive-wanted_example :
    (v : History) × (copy_recursive disk 2 true (codes "src") (codes "copy") (codes "mutants/") []
      ≡ (done, v))
    × (copies_made v
        ≡ copies_made [] ++ wanted (codes "mutants/") (codes "src") (codes "copy") small)
copy_recursive-wanted_example =
    copy_recursive-wanted disk (codes "mutants/") disk-Writes 2 small 493 (codes "src")
      (codes "copy") [] small-depth src-found src-listed small-ShowsAll

-- Two files are copied.
two_copies :
    wanted (codes "mutants/") (codes "src") (codes "copy") small
    ≡ (codes "src/a.go", codes "copy/a.go") ∷ (codes "src/lib/b.go", codes "copy/lib/b.go") ∷ []
unfolding append_folder do_not_copy_dir
two_copies = refl

is_absolute : has_prefix_slash (codes "/tmp/mutants/") ≡ true
unfolding has_prefix_slash
is_absolute = refl

move_all_contents_except_mutant_folder-absolute_example :
    move_all_contents_except_mutant_folder disk 3
      (codes "src")
      (codes "original")
      (codes "/tmp/mutants/")
      []
    ≡ attempt none (made_dir (codes "original") owner_mode ∷ [])
move_all_contents_except_mutant_folder-absolute_example =
    move_all_contents_except_mutant_folder-absolute disk 2 (codes "src") (codes "original")
      (codes "/tmp/mutants/") (entries small) [] is_absolute (src-listed [])

-- The folder src holds a folder with a file in it, and no file can be made.
abbrev full : FileSystem
full = record disk {
  read_dir = λ h p.
      if text_eq p (codes "src")
      then listed ((codes "lib", true) ∷ [])
      else listed ((codes "b.go", false) ∷ []);
  create = λ h p. some not_exist;
}

same_items : {xs ys : List (Text × Bool)} → listed xs ≡ listed ys → xs ≡ ys
same_items e = cc

full-Levels : Levels full 2 (codes "src")
unfolding text_eq append_folder
full-Levels h items e =
    subst (All (λ item. item.1 ≡ true → Levels full 1 (append_folder (codes "src") (item.0))))
      (same_items e) (inside, tt)
  where
    inside : true ≡ true → Levels full 1 (codes "src/lib")
    inside _ h items e =
        subst
          (All (λ item. item.1 ≡ true → Levels full 0 (append_folder (codes "src/lib") (item.0))))
          (same_items e) ((λ is_dir. cc), tt)

full-listed : full.read_dir [] (codes "src") ≡ listed ((codes "lib", true) ∷ [])
unfolding text_eq
full-listed = refl

copy_folder_contents-done_example :
    (copy_folder_contents full (λ name. true) 2 (codes "src") (codes "copy") []).0 ≡ done
copy_folder_contents-done_example =
    copy_folder_contents-done full 2 (λ name. true) (codes "src") (codes "copy")
      ((codes "lib", true) ∷ []) [] full-Levels full-listed (refl, tt) refl

-- Every folder holds one file.
abbrev pub flat : FileSystem
flat = record disk {
  stat = λ h p. found true 493;
  read_dir = λ h p. listed ((codes "a.go", false) ∷ []);
}

abbrev pub no_globs : OtherGlobs
no_globs glob = some (λ name. false)

flat-Listable : Listable flat [] no_globs (codes "/project/")
unfolding names_of
flat-Listable = record {
  root = (true, 493, refl);
  answers = λ path e. cc;
  lists = λ path h. ((codes "a.go", false) ∷ [], refl);
  plain = λ path entries e.
      subst (λ names. All (λ name. is_valid_wild_card name ≡ none) (names_of true names))
        (same_items e) tt;
  compiles = λ glob. (λ name. false, refl);
}

expand_wild_card-Exists_example : Returns (All (Exists flat [] no_globs (codes "/project/"))) (
    expand_wild_card flat [] no_globs
      (codes "/project/")
      (2 * length (split slash (codes "lib/*.go")) + 2)
      (codes "lib/*.go"))
expand_wild_card-Exists_example =
    expand_wild_card-Exists flat [] no_globs (codes "/project/") flat-Listable (codes "lib/*.go")

expanded :
    expand_wild_card flat [] no_globs (codes "/project/") 6 (codes "lib/*.go")
    ≡ ok (codes "lib/a.go" ∷ [])
unfolding expand_wild_card
expanded = refl
