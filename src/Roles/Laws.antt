-- ===== src/Roles/Laws.antt =====
-- The numbers that GetNodeStaticAnalysisInfo of compositions/compositions.go tells of a role.
use mutation_framework.Base.{ℕ, suc, ◌+◌, ◌-◌, ◌≤◌, false, List, [], ◌∷◌, length, ◌≡◌, All}
use mutation_framework.Base.Text.{Text, text_eq}
use mutation_framework.Runner.{ℤ, pos, negsuc}
use mutation_framework.Roles.{FileInfo, NodeRole, RoleInfo, Roles}

-- The lines of a piece, where it ends at its start or behind it, and of pieces.
abbrev pub lines_between : ℤ → ℤ → ℕ
lines_between (pos m) (pos n) = n - m
lines_between (pos m) (negsuc n) = 0
lines_between (negsuc m) (pos n) = n + suc m
lines_between (negsuc m) (negsuc n) = m - n

abbrev pub lines_of : List FileInfo → ℕ
lines_of [] = 0
lines_of (code ∷ source_code) = lines_between code.start_line code.end_line + lines_of source_code

abbrev pub StartsBefore : ℤ → ℤ → Type 0
StartsBefore (pos m) (pos n) = m ≤ n
StartsBefore (pos m) (negsuc n) = ⊥
StartsBefore (negsuc m) (pos n) = Unit
StartsBefore (negsuc m) (negsuc n) = n ≤ m

abbrev pub IsOrdered : List FileInfo → Type 0
IsOrdered source_code = All (λ code. StartsBefore code.start_line code.end_line) source_code

-- No more network calls than calls.
abbrev Counted : ℕ × ℕ → Type 0
Counted (network, calls) = network ≤ calls

-- What is told of a role: at most as many files as pieces of source code, at most as many network
-- calls as calls, all addresses, and the lines of the pieces added up, where they are ordered.
pub data Describes (role : NodeRole) (info : RoleInfo) : Type 0 where
  describes :
      info.num_files ≤ length role.source_code
      → (info.network_ratio).0 ≤ (info.network_ratio).1
      → info.num_addresses ≡ length role.addresses
      → (IsOrdered role.source_code → info.num_lines ≡ pos (lines_of role.source_code))
      → Describes role info

-- The first role of a name.
pub data FirstOf (name : Text) (role : NodeRole) : Roles → Type 0 where
  here : {roles : Roles} → role.name ≡ name → FirstOf name role (role ∷ roles)
  there :
      {other : NodeRole} {roles : Roles}
      → text_eq other.name name ≡ false
      → FirstOf name role roles
      → FirstOf name role (other ∷ roles)
