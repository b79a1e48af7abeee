-- ===== src/Roles.antt =====
-- The roles of nodes (compositions/compositions.go): NodeRole, Roles and what they tell of the
-- source code. The parser is a parameter. The float of CalculateNetworkRatio is the pair of its
-- numerator and its denominator; what the loop only writes is left out.
pub mod Laws
use mutation_framework.Base.{
  ℕ, suc, ◌+◌, ◌-◌, Bool, true, false, ◌&&◌, List, [], ◌∷◌, ◌++◌, length, map, Option, none, some,
  leb, if◌then◌else◌,
}
use mutation_framework.Base.Text.{Text, codes, text_eq, text_mem}
use mutation_framework.Ast.{Node, ident, selector_expr, call_expr}
use mutation_framework.Ast.Walk.{Visitor, walk}
use mutation_framework.Paths.{slash, clean}
use mutation_framework.Runner.{ℤ, pos, negsuc}

pub record FileInfo : Type 0 where
  pub path : Text
  pub start_line : ℤ
  pub end_line : ℤ

pub record Address : Type 0 where
  pub ip : Text
  pub port : Text

pub record NodeRole : Type 0 where
  pub name : Text
  pub addresses : List Address
  pub source_code : List FileInfo

pub record RoleInfo : Type 0 where
  pub num_files : ℕ
  pub num_lines : ℤ
  pub num_addresses : ℕ
  pub network_ratio : ℕ × ℕ

-- Roles
abbrev pub Roles : Type 0
Roles = List NodeRole

abbrev pub minus : ℕ → ℕ → ℤ
minus m n = if leb n m then pos (m - n) else negsuc (n - m - 1)

infixl 50 ◌+ℤ◌
abbrev pub ◌+ℤ◌ : ℤ → ℤ → ℤ
pos m +ℤ pos n = pos (m + n)
pos m +ℤ negsuc n = minus m (suc n)
negsuc m +ℤ pos n = minus n (suc m)
negsuc m +ℤ negsuc n = negsuc (suc (m + n))

infixl 50 ◌-ℤ◌
abbrev pub ◌-ℤ◌ : ℤ → ℤ → ℤ
pos m -ℤ pos n = minus m n
pos m -ℤ negsuc n = pos (m + suc n)
negsuc m -ℤ pos n = negsuc (m + n)
negsuc m -ℤ negsuc n = minus n m

-- The loop of GetTotalLines. Line numbers are far below the bounds of an int.
unfoldable pub add_lines : ℤ → List FileInfo → ℤ
add_lines num_lines [] = num_lines
add_lines num_lines (code ∷ source_code) =
    add_lines (num_lines +ℤ (code.end_line -ℤ code.start_line)) source_code

unfoldable pub get_total_lines : NodeRole → ℤ
unfolding add_lines
get_total_lines nr = add_lines (pos 0) nr.source_code

-- The loop of GetTotalFiles, with the keys of the map.
unfoldable pub add_paths : List Text → List FileInfo → List Text
unfolding text_mem
add_paths m [] = m
add_paths m (code ∷ source_code) =
    add_paths (if text_mem code.path m then m else code.path ∷ m) source_code

unfoldable pub get_total_files : NodeRole → ℕ
unfolding add_paths
get_total_files nr = length (add_paths [] nr.source_code)

-- NetworkLibraryDatabase
unfoldable pub network_library_database : List Text
network_library_database =
    codes "net"
    ∷ codes "http"
    ∷ codes "rpc"
    ∷ codes "jsonrpc"
    ∷ codes "cgi"
    ∷ codes "cookiejar"
    ∷ codes "fcgi"
    ∷ codes "httptest"
    ∷ codes "httptrace"
    ∷ codes "httputil"
    ∷ codes "pprof"
    ∷ codes "mail"
    ∷ codes "smtp"
    ∷ codes "url"
    ∷ codes "textproto"
    ∷ codes "iptables"
    ∷ codes "ipvs"
    ∷ codes "utilnet"
    ∷ codes "utiliptables"
    ∷ []

-- Whether the function of a call is one of a network library.
unfoldable pub is_network_function : Node → Bool
unfolding network_library_database text_mem
is_network_function (selector_expr (ident r pack) r' name) = text_mem pack network_library_database
is_network_function _ = false

-- The counts of network calls and of calls, at a node that ast.Inspect visits.
abbrev pub count_call : ℕ × ℕ → Node → ℕ × ℕ
count_call (network, calls) (call_expr fun args) =
    ((if is_network_function fun then suc network else network), suc calls)
count_call counts _ = counts

abbrev pub call_counter : Visitor (ℕ × ℕ)
call_counter = record { enter = λ counts n. (count_call counts n, true); leave = λ counts. counts }

-- path.Join(gopath, "src", filepath)
abbrev pub full_path : Text → Text → Text
full_path [] filepath =
    clean (if text_eq filepath [] then codes "src" else codes "src/" ++ filepath)
full_path (c ∷ gopath) filepath = clean (
    if text_eq filepath []
    then (c ∷ gopath) ++ codes "/src"
    else (c ∷ gopath) ++ (codes "/src/" ++ filepath))

module _ (parse_file : Text → Option Node) (gopath : Text) where
  abbrev pub inspect : Option Node → ℕ × ℕ → ℕ × ℕ
  inspect none counts = counts
  inspect (some file) counts = walk call_counter counts file

  -- The loop over the source code; a file that does not parse is passed over.
  unfoldable pub count_network_calls : ℕ × ℕ → List FileInfo → ℕ × ℕ
  unfolding walk clean text_eq is_network_function
  count_network_calls counts [] = counts
  count_network_calls counts (code ∷ source_code) =
      count_network_calls (inspect (parse_file (full_path gopath code.path)) counts) source_code

  unfoldable pub calculate_network_ratio : NodeRole → ℕ × ℕ
  unfolding count_network_calls
  calculate_network_ratio nr = count_network_calls (0, 0) nr.source_code

  -- What is found out of a role.
  abbrev pub role_info : NodeRole → RoleInfo
  role_info r = record {
    num_files = get_total_files r;
    num_lines = get_total_lines r;
    num_addresses = length r.addresses;
    network_ratio = calculate_network_ratio r;
  }

  -- GetNodeStaticAnalysisInfo; `none` is the error.
  unfoldable pub get_node_static_analysis_info : Roles → Text → Option RoleInfo
  unfolding get_total_files get_total_lines calculate_network_ratio text_eq
  get_node_static_analysis_info [] role_name = none
  get_node_static_analysis_info (r ∷ roles) role_name =
      if text_eq r.name role_name
      then some (role_info r)
      else get_node_static_analysis_info roles role_name

abbrev pub get_num_node_roles : Roles → ℕ
get_num_node_roles roles = length roles

unfoldable pub get_node_role_names : Roles → List Text
get_node_role_names [] = []
get_node_role_names (r ∷ roles) = r.name ∷ get_node_role_names roles
