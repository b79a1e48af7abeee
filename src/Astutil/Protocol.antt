-- ===== src/Astutil/Protocol.antt =====
-- astutil/locate.go: another protocol version in a listen call.
pub mod Unchanged
use mutation_framework.Base.{ℕ, ◌+◌, ◌-◌, ◌%◌, Bool, true, false, List, [], ◌∷◌, ◌++◌, ◌&&◌, ◌||◌}
use mutation_framework.Base.{Option, none, some, if◌then◌else◌, ltb, leb, ◌==◌}
use mutation_framework.Base.{Result, ok, panic, ◌>>=◌, out_of_fuel}
use mutation_framework.Base.Text.{Text, codes, text_eq, lower_text}
use mutation_framework.Regex.{Item, chars, at_end, star, opt, match_here, is_digit, Found}
use mutation_framework.Ast.{Node, nil_node, ident, selector_expr, call_expr, new_ident}
use mutation_framework.Ast.{to_list, nil, cons}
use mutation_framework.Mutator.{Mutation, Closure}

-- A NetworkVersion is an int: `version v`, or `below_zero v` for -v - 1.
pub data NetworkVersion : Type 0 where
  version : ℕ → NetworkVersion
  below_zero : ℕ → NetworkVersion

-- NetworkVersionMap, with the empty string for a missing key
unfoldable pub get_string_representation : NetworkVersion → Text
get_string_representation (version v) =
    if v == 1 then codes "4" else if v == 2 then codes "6" else []
get_string_representation (below_zero v) = []

abbrev int_limit : ℕ
int_limit = 9223372036854775808

-- `%` of Go on a negative number keeps the sign.
abbrev negative : ℕ → NetworkVersion
negative m = if m == 0 then version 0 else below_zero (m - 1)

-- getOtherVersion, at the number that rand.Int returns; the sum wraps at 2 ^ 63.
unfoldable pub get_other_version : ℕ → ℕ → NetworkVersion
get_other_version v random_quantity =
    if ltb (v + random_quantity) int_limit
    then version ((v + random_quantity) % 3)
    else negative ((int_limit + int_limit - (v + random_quantity)) % 3)

-- [\a-zA-Z]: the range from the bell character to z, and the capitals
abbrev pub bell_to_z : ℕ → Bool
bell_to_z c = leb 7 c && leb c b'z' || leb b'A' c && leb c b'Z'

-- ^[\a-zA-Z]*([\d]?)$
abbrev pub version_regex : List Item
version_regex = chars star false bell_to_z ∷ chars opt true is_digit ∷ at_end ∷ []

-- strconv.Atoi on no text or one digit, which is all that the group can hold
abbrev pub atoi : Text → Option ℕ
atoi (d ∷ []) = some (d - b'0')
atoi _ = none

-- matches[0] panics where the expression does not match.
abbrev pub parsed_version : Found → Result (Option ℕ)
parsed_version none = panic
parsed_version (some (numeric_version, rest)) = ok (atoi numeric_version)

-- getNetworkVersion; `none` is the error of Atoi.
unfoldable pub get_network_version : Text → Result (Option ℕ)
unfolding match_here
get_network_version version_string = parsed_version (match_here version_regex version_string)

-- The first argument with another version.
unfoldable pub swapped : ℕ → Text → Node → Option ℕ → Node
unfolding get_other_version get_string_representation
swapped random protocol argument none = argument
swapped random protocol argument (some v) =
    new_ident (protocol ++ get_string_representation (get_other_version v random))

-- swapNetworkVersion
unfoldable pub swap_network_version : ℕ → Text → Node → Result Node
unfolding swapped get_network_version
swap_network_version random protocol (call_expr fun nil) = panic
swap_network_version random protocol (call_expr fun (cons (ident r name) args)) = do
  found ← get_network_version name
  ok (call_expr fun (cons (swapped random protocol (ident r name) found) args))
swap_network_version random protocol n = ok n

-- call.Args[0] = originalArg
abbrev pub restore_argument : Node → Node → Result Node
restore_argument original (call_expr fun nil) = panic
restore_argument original (call_expr fun (cons _ args)) = ok (call_expr fun (cons original args))
restore_argument original n = ok n

abbrev no_closures : Mutation
no_closures = record { change = none; reset = none }

abbrev closures : ℕ → Text → Node → Mutation
closures random protocol original = record {
  change = some (swap_network_version random protocol);
  reset = some (restore_argument original);
}

-- The switch over the selected name.
unfoldable pub swap_by_name : ℕ → Text → Node → Mutation
unfolding lower_text text_eq
swap_by_name random name original =
    if text_eq (lower_text name) (codes "listentcp")
    then closures random (codes "tcp") original
    else if text_eq (lower_text name) (codes "listenudp")
    then closures random (codes "udp") original
    else no_closures

-- SwapProtocolVersion: call.Args[0] is read for every call of a selector.
unfoldable pub swap_protocol_version : ℕ → Node → Result Mutation
unfolding swap_by_name swap_network_version
swap_protocol_version random (call_expr (selector_expr x r name) nil) = panic
swap_protocol_version random (call_expr (selector_expr x r name) (cons original args)) =
    ok (swap_by_name random name original)
swap_protocol_version random _ = ok no_closures
