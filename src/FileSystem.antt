-- ===== src/FileSystem.antt =====
-- The file system as the program calls it through afero: a parameter. What a call answers may
-- depend on every call that was made before, the last one first.
use mutation_framework.Base.{ℕ, Bool, List, Option, none, some}
use mutation_framework.Base.Text.{Text}

pub data FsError : Type 0 where
  not_exist other_error : FsError

-- The calls that open, close or write; Open and Create with their success.
pub data FsEvent : Type 0 where
  opened : Text → Bool → FsEvent
  created : Text → Bool → FsEvent
  closed : Text → FsEvent
  made_dir : Text → ℕ → FsEvent
  copied : Text → Text → FsEvent
  mode_set : Text → ℕ → FsEvent
  wrote : Text → Text → FsEvent

abbrev pub History : Type 0
History = List FsEvent

-- Stat: whether the path is a directory, and its mode.
pub data StatResult : Type 0 where
  found : Bool → ℕ → StatResult
  missing : FsError → StatResult

-- ReadDir: names, and which of them are directories.
pub data Listing : Type 0 where
  listed : List (Text × Bool) → Listing
  unlisted : FsError → Listing

-- Where the answer is an error or nil, `none` is nil.
pub record FileSystem : Type 0 where
  pub open_file : History → Text → Option FsError
  pub create : History → Text → Option FsError
  pub close_file : History → Text → Option FsError
  pub io_copy : History → Text → Text → Option FsError
  pub stat : History → Text → StatResult
  pub read_dir : History → Text → Listing
  pub mkdir_all : History → Text → ℕ → Option FsError
  pub chmod : History → Text → ℕ → Option FsError
  pub read_file : History → Text → Option Text
  pub write_file : History → Text → Text → Option FsError

-- What a function returns: nil, an error of the file system, the error that a copy would overwrite
-- a file. `out_of_fuel` belongs to the model only.
pub data Outcome : Type 0 where
  done : Outcome
  failed : FsError → Outcome
  would_overwrite : Outcome
  out_of_fuel : Outcome

abbrev pub FsRun : Type 0
FsRun = Outcome × History

infixl 5 ◌then◌
-- `if err != nil { return err }` between two steps.
unfoldable pub ◌then◌ : FsRun → (History → FsRun) → FsRun
(done, h) then next = next h
(failed e, h) then next = (failed e, h)
(would_overwrite, h) then next = (would_overwrite, h)
(out_of_fuel, h) then next = (out_of_fuel, h)

abbrev pub attempt : Option FsError → History → FsRun
attempt none h = (done, h)
attempt (some e) h = (failed e, h)
