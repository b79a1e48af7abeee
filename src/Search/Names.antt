-- ===== src/Search/Names.antt =====
-- The names that buildMutantName (cmd/mutation-framework/mutate.go) gives to mutants, read back by
-- isMutant and getMutatedFileRelativePath (test_runner.go).
use mutation_framework.Base.{
  ℕ, zero, suc, ◌+◌, ◌/◌, ◌%◌, ◌<◌, ◌≤◌, Bool, true, false, ◌&&◌, List, [], ◌∷◌, ◌++◌, length, some,
  ltb, ◌==◌, All-append, All-map, ok, ◌≡◌, refl, ap, sym, subst, ◌∙◌, inl, inr, arith, Bool-cases,
  append-nil,
}
use mutation_framework.Base.Text.{Text, codes, text_eq, occurs_in}
use mutation_framework.Regex.{Item, match_here, match_string, is_digit, find_from, find_all}
use mutation_framework.Paths.{slash, has_prefix_slash, split, clean_pieces, clean, append_folder}
use mutation_framework.Config.Expand.{is_name_char}
use mutation_framework.MutantNames.{digits, decimal, safe_mutation_name, build_mutant_name}
use mutation_framework.Search.{mutant_pattern, is_mutant, get_mutated_file_relative_path}
use mutation_framework.Search.Pattern.{IsName, IsDigits, name_of, suffix_of, name-found}

-- A name without a slash is clean.
split_plain : (s : Text) → IsName s → split slash s ≡ s ∷ []
unfolding split
split_plain [] h = refl
split_plain (c ∷ s) (h, hs) = rw (split_plain s hs, no_slash c h) refl
  where
    no_slash : (c : ℕ) → is_name_char c ≡ true → (c == slash) ≡ false
    no_slash c h = ground arith

clean_parts :
    (path : Text)
    → has_prefix_slash path ≡ false
    → split slash path ≡ path ∷ []
    → text_eq path [] ≡ false
    → text_eq path (codes ".") ≡ false
    → text_eq path (codes "..") ≡ false
    → clean path ≡ path
unfolding clean clean_pieces
clean_parts path h s empty dot dots = rw (h, s, empty, dot, dots) (append-nil path)

clean_plain :
    (c d e : ℕ) (s : Text) → IsName (c ∷ d ∷ e ∷ s) → clean (c ∷ d ∷ e ∷ s) ≡ c ∷ d ∷ e ∷ s
unfolding has_prefix_slash text_eq
clean_plain c d e s (h, hs) =
    clean_parts (c ∷ d ∷ e ∷ s) (no_slash h) (split_plain (c ∷ d ∷ e ∷ s) (h, hs)) refl
      (and_false (c == b'.')) dots
  where
    no_slash : is_name_char c ≡ true → (c == slash) ≡ false
    no_slash h = ground arith

    and_false : (a : Bool) → (a && false) ≡ false
    and_false a = ground arith

    dots : (c == b'.' && (d == b'.' && false)) ≡ false
    dots = ground arith

-- The text is not empty and consists of digits.
abbrev IsNumber : Text → Type 0
IsNumber s = (d : ℕ) × (ds : Text) × (s ≡ d ∷ ds) × IsDigits (d ∷ ds)

small-is_digit : (n : ℕ) → n < 10 → is_digit (b'0' + n) ≡ true
small-is_digit n h = ground arith

digits-IsNumber :
    (f n d : ℕ) (ds : Text) → n < f → IsDigits (d ∷ ds) → IsNumber (digits f n (d ∷ ds))
unfolding digits
digits-IsNumber zero n d ds le h = absurd (none_left le)
  where
    none_left : n < 0 → ⊥
    none_left le = omega (arith, le)
digits-IsNumber (suc f) n d ds le h = elim (Bool-cases (ltb n 10)) [
  | inl e ↦ rw e (b'0' + n, d ∷ ds, refl, (small-is_digit n (below e), h))
  | inr e ↦ rw e (
      digits-IsNumber f (n / 10) (b'0' + n % 10) (d ∷ ds) (smaller e)
        (small-is_digit (n % 10) (omega arith), h))
]
  where
    below : ltb n 10 ≡ true → n < 10
    below e = ground arith

    above : ltb n 10 ≡ false → 10 ≤ n
    above e = ground arith

    smaller : ltb n 10 ≡ false → n / 10 < f
    smaller e = omega (arith, le, above e)

decimal-IsNumber : (n : ℕ) → IsNumber (decimal n)
unfolding decimal digits
decimal-IsNumber n = elim (Bool-cases (ltb n 10)) [
  | inl e ↦ rw e (b'0' + n, [], refl, (small-is_digit n (below e), tt))
  | inr e ↦ rw e (
      digits-IsNumber n (n / 10) (b'0' + n % 10) [] (smaller e)
        (small-is_digit (n % 10) (omega arith), tt))
]
  where
    below : ltb n 10 ≡ true → n < 10
    below e = ground arith

    above : ltb n 10 ≡ false → 10 ≤ n
    above e = ground arith

    smaller : ltb n 10 ≡ false → n / 10 < n
    smaller e = omega (arith, above e)

digit-is_name_char : (c : ℕ) → is_digit c ≡ true → is_name_char c ≡ true
digit-is_name_char c h = ground arith

match_string-some :
    (items : List Item) (c : ℕ) (s group rest : Text)
    → match_here items (c ∷ s) ≡ some (group, rest)
    → match_string items (c ∷ s) ≡ true
unfolding match_string
match_string-some items c s group rest e = rw e refl

find_all-some :
    (items : List Item) (c : ℕ) (s group rest : Text)
    → match_here items (c ∷ s) ≡ some (group, rest)
    → (groups : List Text) × (find_all items (c ∷ s) ≡ group ∷ groups)
unfolding find_all find_from
find_all-some items c s group rest e =
    (find_from (length s) items rest, rw (find_all, find_from, e) refl)

recognised :
    (c : ℕ) (s group rest path : Text)
    → clean (c ∷ s) ≡ c ∷ s
    → match_here mutant_pattern (c ∷ s) ≡ some (group, rest)
    → (is_mutant (c ∷ s) ≡ true)
      × (get_mutated_file_relative_path path (c ∷ s) ≡ ok (append_folder path group))
unfolding is_mutant get_mutated_file_relative_path
recognised c s group rest path plain at =
    let (groups, all) = find_all-some mutant_pattern c s group rest at in
    (
      ap (match_string mutant_pattern) plain ∙ match_string-some mutant_pattern c s group rest at,
      rw all refl,
    )

name_of-clean :
    (c : ℕ) (stem op : Text) (d : ℕ) (ds : Text)
    → IsName (c ∷ stem)
    → IsName op
    → IsDigits (d ∷ ds)
    → clean (name_of (c ∷ stem) op d ds) ≡ name_of (c ∷ stem) op d ds
name_of-clean c stem op d ds named plain numbered = go stem whole
  where
    whole : IsName (name_of (c ∷ stem) op d ds)
    whole =
        All-append _ (c ∷ stem ++ codes ".go") (suffix_of op d ds)
          (All-append _ (c ∷ stem) (codes ".go") named (refl, (refl, (refl, tt))))
          (
            refl,
            All-append _ op (b'.' ∷ d ∷ ds) plain
                (refl, All-map _ _ digit-is_name_char (d ∷ ds) numbered),
          )

    go :
        (stem : Text)
        → IsName (name_of (c ∷ stem) op d ds)
        → clean (name_of (c ∷ stem) op d ds) ≡ name_of (c ∷ stem) op d ds
    go [] h = clean_plain c b'.' b'g' _ h
    go (x ∷ []) h = clean_plain c x b'.' _ h
    go (x ∷ y ∷ stem) h = clean_plain c x y _ h

-- The name of a mutant of a file is recognised as one, and the search reads the file's name back
-- from it. The file's base name has letters, digits, underscores, hyphens, dots and spaces and the
-- suffix ".go" behind at least one of them; the operator's name, its slashes replaced, has such
-- characters and does not contain "go".
pub get_mutated_file_relative_path-build_mutant_name :
    (c : ℕ) (stem operator : Text) (k : ℕ) (path : Text)
    → IsName (c ∷ stem)
    → IsName (safe_mutation_name operator)
    → occurs_in (codes "go") (safe_mutation_name operator) ≡ false
    → (is_mutant (build_mutant_name operator (c ∷ stem ++ codes ".go") k) ≡ true)
      × (get_mutated_file_relative_path path
            (build_mutant_name operator (c ∷ stem ++ codes ".go") k)
          ≡ ok (append_folder path (c ∷ stem ++ codes ".go")))
unfolding build_mutant_name
get_mutated_file_relative_path-build_mutant_name c stem operator k path named plain no_go =
    go (decimal-IsNumber k)
  where
    go :
        IsNumber (decimal k)
        → (is_mutant (build_mutant_name operator (c ∷ stem ++ codes ".go") k) ≡ true)
          × (get_mutated_file_relative_path path
                (build_mutant_name operator (c ∷ stem ++ codes ".go") k)
              ≡ ok (append_folder path (c ∷ stem ++ codes ".go")))
    go (d, ds, e, numbered) =
        let op = safe_mutation_name operator in
        let (rest, at) = name-found op d ds plain no_go numbered c stem named in
        subst
          (λ number.
            (is_mutant ((c ∷ stem ++ codes ".go") ++ b'.' ∷ (op ++ b'.' ∷ number)) ≡ true)
            × (get_mutated_file_relative_path path
                  ((c ∷ stem ++ codes ".go") ++ b'.' ∷ (op ++ b'.' ∷ number))
                ≡ ok (append_folder path (c ∷ stem ++ codes ".go"))))
          (sym e)
          (recognised c ((stem ++ codes ".go") ++ suffix_of op d ds) _ rest path
            (name_of-clean c stem op d ds named plain numbered) at)
