-- ===== src/Search/Laws.antt =====
-- What findAllMutantsInFolder of cmd/mutation-framework/test_runner.go finds, and that it ends.
use mutation_framework.Base.{
  ℕ, zero, suc, Bool, true, false, List, [], ◌∷◌, ◌++◌, Option, none, some, ok, ◌>>=◌, Returns,
  Returns-ok, ◌≡◌, refl, subst, Bool-cases, inl, inr,
}
use mutation_framework.Base.Text.{Text}
use mutation_framework.Regex.{match_string, find_all}
use mutation_framework.Paths.{append_folder, clean}
use mutation_framework.Config.{MutationConfig}
use mutation_framework.MutantNames.{get_absolute_mutation_folder_path}
use mutation_framework.Runner.{MutantInfo, no_stats, StatsMap, lookup, insert}
use mutation_framework.FileSystem.{FileSystem, History, Listing, listed, unlisted}
use mutation_framework.Parsing.{Loader, parse_and_type_check_file}
use mutation_framework.Search.{
  mutant_pattern, is_mutant, get_mutated_file_relative_path, Search, Searched, get_checksum,
  check_files, create_new_mutant_info, after_info, find_in_entries, in_listing,
  find_mutants_recursive, find_all_mutants_in_folder, all_or_none,
}
use mutation_framework.Search.Found.{
  match_string-find_from, IsSound, IsSearched, Finds, finds, IsFine, EndsWithin, found_info,
  accept_lem, Continues, continues, Finds-bind,
}

module _ (fs : FileSystem) (h : History) (md5 : Text → Text) (loader : Loader)
    (files : List (Text × Text)) where
  module _
      (parses : (file : Text)
        → Returns (λ parsed. Unit) (parse_and_type_check_file fs loader file h)) where
    check_files-Finds :
        (original current : Text) (mutants : List MutantInfo) (all_stats : StatsMap)
        (next : Search → Searched)
        → IsSound fs h md5 loader files (mutants, all_stats)
        → Continues fs h md5 loader files next
        → Finds fs h md5 loader files (
            check_files fs h md5 loader files original current
              (get_checksum fs h md5 loader files (append_folder current original))
              (lookup original files)
              all_stats
            >>= λ info. after_info fs h md5 loader files mutants info next)
    check_files-Finds original current mutants all_stats next sound (continues go_on) =
        read (fs.read_file h (append_folder current original)) refl (lookup original files) refl
      where
        read :
            (r : Option Text)
            → fs.read_file h (append_folder current original) ≡ r
            → (l : Option Text) → lookup original files ≡ l
            → Finds fs h md5 loader files (
                check_files fs h md5 loader files original current
                  (get_checksum fs h md5 loader files (append_folder current original))
                  (lookup original files)
                  all_stats
                >>= λ info. after_info fs h md5 loader files mutants info next)
        read none e l f = finds false (mutants, all_stats) (rw e refl) sound
        read (some content) e none f = rw (e, f) (go_on (mutants, all_stats) sound)
        read (some content) e (some abs) f =
            let (parsed, p, _) =
              Returns-ok (parse_and_type_check_file fs loader original h) (parses original) in
            rw (e, f, p)
              (go_on
                (
                  mutants ++ found_info fs h md5 loader files original current content parsed ∷ [],
                  insert original no_stats all_stats,
                )
                (accept_lem fs h md5 loader files original current abs content mutants all_stats
                  parsed f e sound))

    create_new_mutant_info-Finds :
        (path_so_far name abs_path : Text) (mutants : List MutantInfo) (all_stats : StatsMap)
        (next : Search → Searched)
        → is_mutant name ≡ true
        → clean name ≡ name
        → IsSound fs h md5 loader files (mutants, all_stats)
        → Continues fs h md5 loader files next
        → Finds fs h md5 loader files (
            create_new_mutant_info fs h md5 loader files path_so_far name abs_path all_stats
            >>= λ info. after_info fs h md5 loader files mutants info next)
    unfolding create_new_mutant_info is_mutant get_mutated_file_relative_path find_all
        mutant_pattern
    create_new_mutant_info-Finds path_so_far name abs_path mutants all_stats next is plain sound
          go_on =
        let (group, groups, e) =
          match_string-find_from mutant_pattern name refl
            (subst (λ n. match_string mutant_pattern n ≡ true) plain is) in
        rw e (
          check_files-Finds (append_folder path_so_far group) (append_folder abs_path name) mutants
            all_stats next sound go_on)

    find_in_entries-Finds :
        (step : Text → Text → Search → Searched) (P : Text → Type 0)
        → ((abs_path path_so_far : Text) (state : Search)
            → P abs_path
            → IsSound fs h md5 loader files state
            → Finds fs h md5 loader files (step abs_path path_so_far state))
        → (abs_path path_so_far : Text) (entries : List (Text × Bool)) (state : Search)
        → IsFine fs h md5 loader files P abs_path (listed entries)
        → IsSound fs h md5 loader files state
        → Finds fs h md5 loader files
            (find_in_entries fs h md5 loader files step abs_path path_so_far entries state)
    unfolding find_in_entries
    find_in_entries-Finds step P steps abs_path path_so_far [] state fine sound =
        finds true state refl sound
    find_in_entries-Finds step P steps abs_path path_so_far ((name, false) ∷ entries) state
          (f, fine) sound =
        find_in_entries-Finds step P steps abs_path path_so_far entries state fine sound
    find_in_entries-Finds step P steps abs_path path_so_far ((name, true) ∷ entries)
          (mutants, all_stats) (f, fine) sound =
        let (plain, below) = f refl in
        let rest : Continues fs h md5 loader files (λ state.
          find_in_entries fs h md5 loader files step abs_path path_so_far entries state) =
          continues (λ state sound.
            find_in_entries-Finds step P steps abs_path path_so_far entries state fine sound) in
        elim (Bool-cases (is_mutant name)) [
          | inl is ↦ rw is (
              create_new_mutant_info-Finds path_so_far name abs_path mutants all_stats _ is plain
                sound rest)
          | inr e ↦ rw e (
              Finds-bind fs h md5 loader files
                (steps (append_folder abs_path name) (append_folder path_so_far name)
                  (mutants, all_stats) (below e) sound)
                rest)
        ]

    find_mutants_recursive-Finds :
        (f : ℕ) (abs_path path_so_far : Text) (state : Search)
        → EndsWithin fs h md5 loader files f abs_path
        → IsSound fs h md5 loader files state
        → Finds fs h md5 loader files
            (find_mutants_recursive fs h md5 loader files f abs_path path_so_far state)
    unfolding find_mutants_recursive
    find_mutants_recursive-Finds zero abs_path path_so_far state ends sound = absurd ends
    find_mutants_recursive-Finds (suc f) abs_path path_so_far state ends sound =
        go
          (λ below path state ends sound.
            find_mutants_recursive-Finds f below path state ends sound)
          (fs.read_dir h abs_path) ends
      where
        go :
            ((below path : Text) (state : Search)
              → EndsWithin fs h md5 loader files f below
              → IsSound fs h md5 loader files state
              → Finds fs h md5 loader files
                  (find_mutants_recursive fs h md5 loader files f below path state))
            → (listing : Listing)
            → IsFine fs h md5 loader files
                (λ below. EndsWithin fs h md5 loader files f below)
                abs_path
                listing
            → Finds fs h md5 loader files (
                in_listing fs h md5 loader files
                  (λ abs_path path_so_far state.
                    find_mutants_recursive fs h md5 loader files f abs_path path_so_far state)
                  abs_path
                  path_so_far
                  listing
                  state)
        go steps (unlisted e) fine = finds false state refl sound
        go steps (listed entries) fine =
            find_in_entries-Finds _ (λ below. EndsWithin fs h md5 loader files f below) steps
              abs_path path_so_far entries state fine sound

    -- Where the loader never panics, the fuel is enough for the directories below the mutants folder
    -- and ReadDir gives plain names, findAllMutantsInFolder returns. Each mutant that it finds is one
    -- of a specified file, with statistics that count nothing yet, and with the checksum of the
    -- mutated file, which stands in its directory.
    pub find_all_mutants_in_folder-IsSound :
        (fuel : ℕ) (config : MutationConfig)
        → EndsWithin fs h md5 loader files fuel (get_absolute_mutation_folder_path config)
        → Returns
            (IsSearched fs h md5 loader files)
            (find_all_mutants_in_folder fs h md5 loader files fuel config [])
    unfolding find_all_mutants_in_folder
    find_all_mutants_in_folder-IsSound fuel config ends = go (
        find_mutants_recursive-Finds fuel (get_absolute_mutation_folder_path config) [] ([], [])
          ends (tt, tt))
      where
        go :
            {r : Searched}
            → Finds fs h md5 loader files r
            → Returns (IsSearched fs h md5 loader files) (r >>= λ answer. ok (all_or_none answer))
        go (finds true state e sound) = rw e sound
        go (finds false state e sound) = rw e (sound.1)
