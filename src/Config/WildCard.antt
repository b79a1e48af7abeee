-- ===== src/Config/WildCard.antt =====
-- isValidWildCard and removeWildCardPaths of cmd/mutation-framework/config.go.
pub mod Laws
use mutation_framework.Base.{
  ℕ, zero, suc, ◌+◌, ◌≤◌, ◌<◌, Bool, true, false, not, ◌&&◌, ◌||◌, List, [], ◌∷◌, ◌++◌, Option,
  none, some, ◌≡◌, refl, ap, sym, ◌∙◌, append-nil, if◌then◌else◌, inl, inr, Bool-cases, ◌==◌,
  length, arith,
}
use mutation_framework.Base.Text.{Text}
use mutation_framework.Regex.{Item, chars, one, star, find_all}

-- `([^\*]*\*[^\*]*)`
unfoldable pub valid_wild_card : List Item
valid_wild_card =
    chars star true (λ c. not (c == b'*'))
    ∷ chars one true (λ c. c == b'*')
    ∷ chars star true (λ c. not (c == b'*'))
    ∷ []

abbrev only_match : List Text → Option Text
only_match [] = none
only_match (glob ∷ []) = some glob
only_match (glob ∷ _ ∷ _) = none

-- The glob, when the piece is a valid wild card.
unfoldable pub is_valid_wild_card : Text → Option Text
unfolding find_all valid_wild_card
is_valid_wild_card piece = only_match (find_all valid_wild_card piece)

abbrev keep_plain : Option Text → Text → List Text → List Text
keep_plain none file files = file ∷ files
keep_plain (some glob) file files = files

unfoldable pub remove_wild_card_paths : List Text → List Text
unfolding is_valid_wild_card
remove_wild_card_paths [] = []
remove_wild_card_paths (file ∷ paths) =
    keep_plain (is_valid_wild_card file) file (remove_wild_card_paths paths)
