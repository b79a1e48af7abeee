-- ===== src/Regex.antt =====
-- Go's package regexp for the expressions that the program compiles: sequences of classes with a
-- quantifier, one capturing group, `$`. The choice among matches is Go's: leftmost, then greedy.
use mathlib.Core.Option
use mathlib.Core.Option.{or_else}
use mutation_framework.Base.{ℕ, zero, suc, Bool, true, false, ◌&&◌, ◌||◌, Option, none, some, List}
use mutation_framework.Base.{[], ◌∷◌, not, leb, ◌==◌, if◌then◌else◌, length}
use mutation_framework.Base.Text.{Text}

pub data Quantifier : Type 0 where
  one opt star plus : Quantifier

-- `chars q captured p`: characters of the class `p`, inside the group or not.
pub data Item : Type 0 where
  chars : Quantifier → Bool → (ℕ → Bool) → Item
  at_end : Item

-- What the group captured, and the text behind the match.
abbrev pub Found : Type 0
Found = Option (Text × Text)

abbrev pub keep : Bool → ℕ → Found → Found
keep true c m = Option.map (λ r. (c ∷ r.0, r.1)) m
keep false c m = m

-- `p*` before the rest `k` of the expression: as many characters as the rest allows.
unfoldable pub run_star : (ℕ → Bool) → Bool → (Text → Found) → Text → Found
unfolding or_else
run_star p captured k [] = k []
run_star p captured k (c ∷ s) =
    if p c then or_else (keep captured c (run_star p captured k s)) (k (c ∷ s)) else k (c ∷ s)

abbrev pub run_item : Item → (Text → Found) → Text → Found
run_item (chars star captured p) k s = run_star p captured k s
run_item (chars one captured p) k [] = none
run_item (chars one captured p) k (c ∷ s) = if p c then keep captured c (k s) else none
run_item (chars plus captured p) k [] = none
run_item (chars plus captured p) k (c ∷ s) =
    if p c then keep captured c (run_star p captured k s) else none
run_item (chars opt captured p) k [] = k []
run_item (chars opt captured p) k (c ∷ s) =
    if p c then or_else (keep captured c (k s)) (k (c ∷ s)) else k (c ∷ s)
run_item at_end k [] = k []
run_item at_end k (c ∷ s) = none

-- The match that begins at the head of the text.
unfoldable pub match_here : List Item → Text → Found
unfolding run_star
match_here [] s = some ([], s)
match_here (item ∷ items) s = run_item item (match_here items) s

abbrev found : Found → Bool
found none = false
found (some _) = true

-- MatchString: a match at some position.
unfoldable pub match_string : List Item → Text → Bool
unfolding match_here
match_string items [] = found (match_here items [])
match_string items (c ∷ s) = found (match_here items (c ∷ s)) || match_string items s

unfoldable pub find_from : ℕ → List Item → Text → List Text
unfolding match_here
find_from zero items s = []
find_from (suc f) items [] = []
find_from (suc f) items (c ∷ s) = elim (match_here items (c ∷ s)) [
  | none ↦ find_from f items s
  | some (group, rest) ↦ group ∷ find_from f items rest
]

-- FindAllStringSubmatch, for an expression that matches no empty text: what the group captured in
-- each match. Every round takes at least one character, so the length of the text is fuel enough.
unfoldable pub find_all : List Item → Text → List Text
unfolding find_from
find_all items s = find_from (length s) items s

-- The items of a literal text.
unfoldable pub literal : Bool → Text → List Item
literal captured [] = []
literal captured (c ∷ s) = chars one captured (λ d. d == c) ∷ literal captured s

-- The classes `.`, `\d`, `\w` and `\s`.
abbrev pub any_char : ℕ → Bool
any_char c = not (c == 10)

abbrev pub is_digit : ℕ → Bool
is_digit c = leb b'0' c && leb c b'9'

abbrev pub is_letter : ℕ → Bool
is_letter c = leb b'A' c && leb c b'Z' || leb b'a' c && leb c b'z'

abbrev pub is_word : ℕ → Bool
is_word c = is_digit c || is_letter c || c == b'_'

abbrev pub is_space : ℕ → Bool
is_space c = c == 9 || c == 10 || c == 12 || c == 13 || c == 32
