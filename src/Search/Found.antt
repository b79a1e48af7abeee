-- ===== src/Search/Found.antt =====
-- What a mutant that the search finds is like, and the search continued
-- (cmd/mutation-framework/test_runner.go).
use mutation_framework.Base.{
  ℕ, zero, suc, Bool, true, false, List, [], ◌∷◌, ◌++◌, length, Option, none, some, All, All-map,
  All-append, if◌then◌else◌, ok, ◌>>=◌, ◌≡◌, refl, ap, sym, ◌∙◌,
}
use mutation_framework.Base.Text.{Text, text_eq_refl}
use mutation_framework.Regex.{Item, Found, match_here, match_string, find_from}
use mutation_framework.Paths.{append_folder, clean}
use mutation_framework.Runner.{MutantInfo, MutationStats, no_stats, StatsMap, lookup, insert}
use mutation_framework.Runner.Redundant.Laws.{lookup-insert}
use mutation_framework.Runner.Execute.Counts.Tally.{HasStats-insert}
use mutation_framework.FileSystem.{FileSystem, History, Listing, listed, unlisted}
use mutation_framework.Parsing.{Loader, Parsed}
use mutation_framework.Making.Files.{IsFresh, insert-IsFresh}
use mutation_framework.Search.{is_mutant, Search, Searched, package_of}

-- Where the expression matches a text, FindAllStringSubmatch finds something.
pub match_string-find_from :
    (items : List Item) (s : Text)
    → match_here items [] ≡ none
    → match_string items s ≡ true
    → (group : Text) × (groups : List Text) × (find_from (length s) items s ≡ group ∷ groups)
unfolding match_string find_from
match_string-find_from items [] e h = none_found h e
  where
    none_found : {A : Type 0} → match_string items [] ≡ true → match_here items [] ≡ none → A
    none_found h e = cc
match_string-find_from items (c ∷ s) e h =
    go (match_here items (c ∷ s)) refl (λ later. match_string-find_from items s e later)
  where
    go :
        (r : Found)
        → match_here items (c ∷ s) ≡ r
        → (match_string items s ≡ true
            → (group : Text) × (groups : List Text) × (find_from (length s) items s
                ≡ group ∷ groups))
        → (group : Text) × (groups : List Text) × (find_from (length (c ∷ s)) items (c ∷ s)
            ≡ group ∷ groups)
    go none at next =
        let (group, groups, later) = next (sym (rw at refl) ∙ h) in
        (group, groups, rw (find_from, at) later)
    go (some (group, rest)) at next =
        (group, find_from (length s) items rest, rw (find_from, at) refl)

module _ (fs : FileSystem) (h : History) (md5 : Text → Text) (loader : Loader)
    (files : List (Text × Text)) where
  -- A mutant that is found: its file is one of the specified ones and has statistics, the mutated
  -- file stands below the directory of the mutant, and the checksum is that of its content.
  abbrev pub IsFound : StatsMap → MutantInfo → Type 0
  IsFound all_stats m =
      ((abs : Text) × (lookup m.original_file_relative_path files ≡ some abs))
      × ((stats : MutationStats) × (lookup m.original_file_relative_path all_stats ≡ some stats))
      × (m.mutation_file_abs_path
          ≡ append_folder m.mutant_dir_path_abs_path m.original_file_relative_path)
      × ((content : Text) × (fs.read_file h m.mutation_file_abs_path ≡ some content)
          × (m.checksum ≡ md5 content))

  abbrev pub IsSound : Search → Type 0
  IsSound (mutants, all_stats) = All (IsFound all_stats) mutants × IsFresh all_stats

  -- Without an error, what the search returns is sound; in any case nothing is counted.
  abbrev pub IsSearched : Option (List MutantInfo) × StatsMap → Type 0
  IsSearched (none, all_stats) = IsFresh all_stats
  IsSearched (some mutants, all_stats) = IsSound (mutants, all_stats)

  -- A search that ends in a sound state.
  pub data Finds (r : Searched) : Type 0 where
    finds : (b : Bool) (state : Search) → r ≡ ok (b, state) → IsSound state → Finds r

  -- The directories below a path end within the fuel, and ReadDir gives plain names.
  abbrev pub IsFine : (Text → Type 0) → Text → Listing → Type 0
  IsFine P path (unlisted e) = Unit
  IsFine P path (listed entries) =
      All
        (λ entry.
          (entry.1 ≡ true)
          → (clean (entry.0) ≡ entry.0)
            × (is_mutant (entry.0) ≡ false → P (append_folder path (entry.0))))
        entries

  abbrev pub EndsWithin : ℕ → Text → Type 0
  EndsWithin zero path = ⊥
  EndsWithin (suc f) path = IsFine (λ below. EndsWithin f below) path (fs.read_dir h path)

  keep-IsFound :
      (file : Text) (all_stats : StatsMap) (m : MutantInfo)
      → IsFound all_stats m
      → IsFound (insert file no_stats all_stats) m
  keep-IsFound file all_stats m (accepted, has, place, sum) = (
    accepted,
    HasStats-insert m.original_file_relative_path file no_stats all_stats has,
    place,
    sum,
  )

  abbrev pub found_info : Text → Text → Text → Option Parsed → MutantInfo
  found_info original current content parsed = record {
    pkg = package_of parsed;
    original_file_relative_path = original;
    mutant_dir_path_abs_path = current;
    mutation_file_abs_path = append_folder current original;
    checksum = md5 content;
  }

  pub accept_lem :
      (original current abs content : Text) (mutants : List MutantInfo) (all_stats : StatsMap)
      (parsed : Option Parsed)
      → lookup original files ≡ some abs
      → fs.read_file h (append_folder current original) ≡ some content
      → IsSound (mutants, all_stats)
      → IsSound (
        mutants ++ found_info original current content parsed ∷ [],
        insert original no_stats all_stats,
      )
  accept_lem original current abs content mutants all_stats parsed at reads (sound, fresh) = (
    All-append _ mutants _ (All-map _ _ (keep-IsFound original all_stats) mutants sound) (
      (
        (abs, at),
        (
          no_stats,
          lookup-insert original original no_stats all_stats
              ∙ ap (λ b. if b then some no_stats else lookup original all_stats)
                  (text_eq_refl original),
        ),
        refl,
        (content, reads, refl),
      ),
      tt,
    ),
    insert-IsFresh original all_stats fresh,
  )

  pub data Continues (next : Search → Searched) : Type 0 where
    continues : ((state : Search) → IsSound state → Finds (next state)) → Continues next

  pub Finds-bind :
      {r : Searched} {next : Search → Searched}
      → Finds r
      → Continues next
      → Finds (r >>= λ below. next (below.1))
  Finds-bind (finds b state e sound) (continues go_on) = rw e (go_on state sound)
