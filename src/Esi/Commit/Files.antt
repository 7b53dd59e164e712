-- ===== src/Esi/Commit/Files.antt =====
-- The files and links that `commit_documents` of esi.rs works on, and how reading follows a link.
use elfshaker.Prelude.{
  ℕ, zero, suc, Option, none, some, List, if◌then◌else◌, Result, ok, err, ◌==◌, list_eq, nat_eq,
}

abbrev pub FilePath : Type 0
FilePath = List ℕ

pub data IoError : Type 0 where
  not_found : IoError
  os : ℕ → IoError
  duplicate_target aliased_backup : FilePath → IoError
  rollback_failed : IoError → IoError → IoError

-- `ExistingFile`, and what a `StagedFile` holds
pub record ExistingFile : Type 0 where
  pub bytes : List ℕ
  pub permissions : ℕ

-- A name in a directory: a file, or a symbolic link, with the place that it leads to.
pub data Entry : Type 0 where
  regular : ExistingFile → Entry
  link : FilePath → Entry

-- What stands at each place, a name in a directory, and how many calls changed that.
pub record World : Type 0 where
  pub entries : FilePath → Option Entry
  pub calls : ℕ

-- The operating system: the place of a path, whose last component is not followed, what
-- `fs::canonicalize` and `current_dir` answer, the permissions of a new file, and the faults of
-- each call; `none` is a call that succeeds.
pub record Io : Type 0 where
  pub place : FilePath → FilePath
  pub canonicalize : FilePath → Result IoError FilePath
  pub current_dir : Result IoError FilePath
  pub default_permissions : ℕ
  pub read_fault : FilePath → Option IoError
  pub stage_fault : FilePath → Option IoError
  pub replace_fault : ℕ → FilePath → Option IoError
  pub remove_fault : ℕ → FilePath → Option IoError

abbrev pub update : (FilePath → Option Entry) → FilePath → Option Entry → FilePath → Option Entry
update entries p v x = if p == x then v else entries x

-- the links that are followed at most, and ELOOP
abbrev pub max_links : ℕ
max_links = 40

abbrev pub too_many_links : IoError
too_many_links = os 40

abbrev pub as_entry : Option ExistingFile → Option Entry
as_entry none = none
as_entry (some f) = some (regular f)

-- the file that a place leads to, through so many links
unfoldable pub follow :
    ℕ → (FilePath → Option Entry) → FilePath → Result IoError (Option ExistingFile)
follow zero entries x = elim (entries x) [
  | none ↦ ok none
  | some entry ↦ elim entry [ regular f ↦ ok (some f) | link y ↦ err too_many_links ]
]
follow (suc n) entries x = elim (entries x) [
  | none ↦ ok none
  | some entry ↦ elim entry [ regular f ↦ ok (some f) | link y ↦ follow n entries y ]
]
