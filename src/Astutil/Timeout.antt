-- ===== src/Astutil/Timeout.antt =====
-- astutil/locate.go: calls of time.Sleep.
use mutation_framework.Base.{Bool, true, false, List, [], ◌∷◌, ◌++◌, none, some}
use mutation_framework.Base.{if◌then◌else◌}
use mutation_framework.Base.Text.{Text, codes, text_eq, equal_fold}
use mutation_framework.Regex.{Item, chars, star, match_string, literal, is_word}
use mutation_framework.Ast.{Node, ident, selector_expr}
use mutation_framework.Ast.Info.{Info, Implicit, Definition}

-- package ([\w]*) \("time"\)
abbrev pub time_library_regex : List Item
unfolding literal
time_library_regex =
    literal false (codes "package ")
    ++ chars star true is_word ∷ literal false (codes " (\"time\")")

unfoldable pub is_time_library : Text → Bool
unfolding match_string
is_time_library test_string = match_string time_library_regex test_string

-- The loop over info.Implicits. Path.Value keeps its quotation marks.
unfoldable pub time_import_name : Text → List Implicit → Text
unfolding text_eq
time_import_name name [] = name
time_import_name name (entry ∷ entries) =
    time_import_name
      (elim entry.import_path [
        | none ↦ name
        | some path ↦ if text_eq path (codes "time") then entry.object.name else name
      ])
      entries

-- The loop over info.Defs.
unfoldable pub time_defined_name : Text → List Definition → Text
unfolding is_time_library
time_defined_name name [] = name
time_defined_name name (entry ∷ entries) =
    time_defined_name
      (elim entry.object [
        | none ↦ name
        | some obj ↦ if is_time_library obj.object_string then entry.identifier_name else name
      ])
      entries

-- The name under which the file knows the package.
unfoldable pub time_library_name : Info → Text
unfolding time_import_name time_defined_name
time_library_name info =
    time_defined_name (time_import_name (codes "time") info.implicits) info.defs

-- selectorMatchesTimeLibrary, at the operand of the selector
unfoldable pub selector_matches_time_library : Info → Node → Bool
unfolding time_library_name
selector_matches_time_library info (ident r name) = text_eq name (time_library_name info)
selector_matches_time_library info _ = false

-- IsTimeoutCall, at the function that is called
unfoldable pub is_timeout_call : Info → Node → Bool
unfolding selector_matches_time_library equal_fold
is_timeout_call info (selector_expr x r name) =
    if equal_fold name (codes "Sleep") then selector_matches_time_library info x else false
is_timeout_call info _ = false
