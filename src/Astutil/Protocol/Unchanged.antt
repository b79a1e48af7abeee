-- ===== src/Astutil/Protocol/Unchanged.antt =====
-- The class in front of the group takes the digit too, so the group of the expression is always
-- empty, Atoi fails, and the argument of the call stays.
use mathlib.Core.Option.{or_else}
use mutation_framework.Base.{ℕ, true, false, List, [], ◌∷◌, some, none, ◌≡◌, refl, ap, arith}
use mutation_framework.Base.{◌⊎◌, inl, inr, ok, panic}
use mutation_framework.Base.Text.{Text}
use mutation_framework.Regex.{Item, chars, opt, at_end, match_here, run_star, is_digit, Found}
use mutation_framework.Ast.{Node, call_expr, ident, cons, nil}
use mutation_framework.Astutil.Protocol.{
  get_network_version, parsed_version, atoi, version_regex, bell_to_z, swap_network_version,
}

abbrev tail_of_regex : List Item
tail_of_regex = chars opt true is_digit ∷ at_end ∷ []

-- A digit is in the class in front of the group.
digit-in-class : (c : ℕ) → is_digit c ≡ true → bell_to_z c ≡ true
digit-in-class c h = ground arith

-- Behind the star nothing but the end is matched, unless the star gave a last digit back.
tail-group :
    (c : ℕ) (s group rest : Text)
    → bell_to_z c ≡ false
    → match_here tail_of_regex (c ∷ s) ≡ some (group, rest)
    → group ≡ []
unfolding match_here or_else
tail-group c s group rest h e = ground (arith, digit-in-class c)

star-end : match_here tail_of_regex [] ≡ some ([], [])
unfolding match_here
star-end = refl

tail-long : (c d : ℕ) (s : Text) → match_here tail_of_regex (c ∷ d ∷ s) ≡ none
unfolding match_here or_else
tail-long c d s = ground arith

-- The group is empty wherever the expression matches.
star-group :
    (s group rest : Text)
    → run_star bell_to_z false (match_here tail_of_regex) s ≡ some (group, rest)
    → group ≡ []
unfolding run_star or_else
star-group [] group rest h = cc (star-end)
star-group (c ∷ []) group rest h = ground (arith, star-end, tail-group c [] group rest)
star-group (c ∷ d ∷ s) group rest h = ground (arith, tail-long c d s, star-group (d ∷ s) group rest)

parsed_version_fails :
    (s : Text) (found : Found)
    → match_here version_regex s ≡ found
    → (parsed_version found ≡ panic) ⊎ (parsed_version found ≡ ok none)
unfolding match_here
parsed_version_fails s none e = inl refl
parsed_version_fails s (some (group, rest)) e =
    inr (ap (λ g. ok (atoi g)) (star-group s group rest e))

-- getNetworkVersion finds no version in any text: it panics or returns the error of Atoi.
pub get_network_version_fails :
    (version_string : Text)
    → (get_network_version version_string ≡ panic) ⊎ (get_network_version version_string ≡ ok none)
unfolding get_network_version
get_network_version_fails s = parsed_version_fails s (match_here version_regex s) refl

-- The Change of SwapProtocolVersion never changes a node: it returns the node as it is, or panics.
pub swap_network_version_unchanged :
    (random : ℕ) (protocol : Text) (n : Node)
    → (swap_network_version random protocol n ≡ ok n)
      ⊎ (swap_network_version random protocol n ≡ panic)
unfolding swap_network_version
swap_network_version_unchanged random protocol (call_expr fun nil) = inr refl
swap_network_version_unchanged random protocol (call_expr fun (cons (ident r name) args)) =
    ground (arith, get_network_version_fails name)
swap_network_version_unchanged random protocol _ = inl refl
