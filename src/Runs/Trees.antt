-- ===== src/Runs/Trees.antt =====
-- Runs of what touches the working tree: repo/symlink.rs, repo/fs.rs and repo/repository.rs.
use elfshaker.Prelude.{
  ℕ, ◌≡◌, ◌↔◌, refl, Bool, true, false, none, Option, List, [], ◌∷◌, ◌++◌, All, Result, ok, err,
  list_eq, nat_eq,
}
use elfshaker.PackPath
use elfshaker.HashSet
use elfshaker.PackIndex.Types.{FileEntry, regular, portable_utf8}
use elfshaker.Repo.Symlink.{
  decode_target, encode_target, verify_materialized, decode_portable_target,
}
use elfshaker.Repo.Symlink.Targets.{decode_target-encode_target, verify_materialized-decode_target}
use elfshaker.Repo.Diff.{compute_entry_diff}
use elfshaker.Repo.Diff.Differences.{IsDifference, compute_entry_diff-IsDifference}
use elfshaker.Repo.Clean
use elfshaker.Repo.Clean.{
  Names, Str, Error, normalize_relative_path, path_components, relative_data_dir, clean_file_list,
}
use elfshaker.Repo.Clean.Accepted.{Clean, clean_file_list-Clean}
use elfshaker.Repo.Ancestors.{
  IoError, not_found, preflight_destination_ancestors, check_destination_ancestors, check_from,
}
use elfshaker.Repo.Ancestors.Links.{
  IsFileSystem, IsReachable, preflight_destination_ancestors-IsReachable,
}
use elfshaker.Repo.Cleanup.{Store}
use elfshaker.Repo.Cleanup.Cleaned.{IsLeaf}
use elfshaker.Repo.Cleanup.Safety.{Ends, clean_up, clean_up-Ends}

abbrev all_utf8 : List ℕ → Bool
all_utf8 bytes = true

-- "/a", which is not portable
abbrev absolute_target : List ℕ
absolute_target = b'/' ∷ b'a' ∷ []

decode_target-encode_target_example :
    decode_target all_utf8
      (encode_target all_utf8 absolute_target).0
      (encode_target all_utf8 absolute_target).1
    ≡ ok absolute_target
decode_target-encode_target_example = decode_target-encode_target all_utf8 absolute_target refl

abbrev own_digest : List ℕ → List ℕ
own_digest bytes = bytes

decodes : decode_target all_utf8 (b'a' ∷ []) portable_utf8 ≡ ok (b'a' ∷ [])
unfolding decode_target decode_portable_target
decodes = refl

verify_materialized-decode_target_example :
    (verify_materialized all_utf8 own_digest (ok (b'a' ∷ [])) portable_utf8 (b'a' ∷ []) ≡ ok tt)
    ↔ (own_digest (b'a' ∷ []) ≡ b'a' ∷ [])
verify_materialized-decode_target_example =
    verify_materialized-decode_target all_utf8 own_digest (b'a' ∷ []) (b'a' ∷ []) portable_utf8
      (b'a' ∷ []) decodes

abbrev entry_for : ℕ → ℕ → FileEntry
entry_for name mode = record {
  path = name ∷ [];
  checksum = 1 ∷ [];
  object_metadata = record { offset = 0; size = 5 };
  metadata = regular mode;
}

-- "a" stays, the mode of "b" changes, and "c" is new
abbrev from_entries : List FileEntry
from_entries = entry_for b'a' 0o644 ∷ entry_for b'b' 0o644 ∷ []

abbrev to_entries : List FileEntry
to_entries = entry_for b'c' 0o644 ∷ entry_for b'b' 0o755 ∷ entry_for b'a' 0o644 ∷ []

abbrev HasSize : FileEntry → Type 0
HasSize e = e.object_metadata.size ≡ 5

compute_entry_diff-IsDifference_example :
    IsDifference from_entries to_entries (compute_entry_diff from_entries to_entries).0
    × IsDifference to_entries from_entries (compute_entry_diff from_entries to_entries).1
    × All HasSize (compute_entry_diff from_entries to_entries).0
    × All HasSize (compute_entry_diff from_entries to_entries).1
compute_entry_diff-IsDifference_example =
    compute_entry_diff-IsDifference HasSize HasSize from_entries to_entries (refl, (refl, tt))
      (refl, (refl, (refl, tt)))

-- "./x/../a//b"
abbrev roundabout : Str
roundabout = b'.' ∷ b'/' ∷ b'x' ∷ b'/' ∷ b'.' ∷ b'.' ∷ b'/' ∷ b'a' ∷ b'/' ∷ b'/' ∷ b'b' ∷ []

abbrev a_b : Names
a_b = (b'a' ∷ []) ∷ (b'b' ∷ []) ∷ []

normalizes : normalize_relative_path (path_components roundabout) ≡ ok a_b
unfolding normalize_relative_path Clean.normalize_from Clean.drop_last path_components
    Clean.rest_components PackPath.split
normalizes = refl

abbrev no_links : Names → Result Error Bool
no_links path = ok false

-- the repository "/r" with its data in "/r/d"
abbrev repo_dir : Str
repo_dir = b'/' ∷ b'r' ∷ []

abbrev data_dir : Str
data_dir = repo_dir ++ b'/' ∷ b'd' ∷ []

-- a file of the data directory, and another one
abbrev files : List Str
files = (b'd' ∷ b'/' ∷ b'x' ∷ []) ∷ roundabout ∷ []

cleans : clean_file_list no_links repo_dir data_dir files ≡ ok (a_b ∷ [])
unfolding clean_file_list Clean.clean_each relative_data_dir Clean.reject_symlink_ancestors
    Clean.reject_from Clean.starts_with HashSet.insert normalize_relative_path Clean.normalize_from
    Clean.drop_last path_components Clean.rest_components PackPath.split
cleans = refl

clean_file_list-Clean_example :
    (dir : Option Names) × (relative_data_dir repo_dir data_dir ≡ ok dir)
    × Clean no_links dir files (a_b ∷ [])
clean_file_list-Clean_example =
    clean_file_list-Clean no_links repo_dir data_dir files (a_b ∷ []) cleans

-- "/r/x/y" and "/r/z", the second with a file
abbrev repository : Names
repository = (b'r' ∷ []) ∷ []

abbrev leaf_y : Names
leaf_y = repository ++ (b'x' ∷ []) ∷ (b'y' ∷ []) ∷ []

abbrev leaf_z : Names
leaf_z = repository ++ (b'z' ∷ []) ∷ []

abbrev tree : Store
tree = record {
  dirs = repository ∷ (repository ++ (b'x' ∷ []) ∷ []) ∷ leaf_y ∷ leaf_z ∷ [];
  others = (leaf_z ++ (b'f' ∷ []) ∷ []) ∷ [];
}

abbrev no_fault : Names → Option ℕ
no_fault dir = none

leaf_y-IsLeaf : IsLeaf repository leaf_y
leaf_y-IsLeaf = record {
  relative = (b'x' ∷ []) ∷ (b'y' ∷ []) ∷ [];
  inside = refl;
  no_parent = refl;
}

leaf_z-IsLeaf : IsLeaf repository leaf_z
leaf_z-IsLeaf = record { relative = (b'z' ∷ []) ∷ []; inside = refl; no_parent = refl }

clean_up-Ends_example :
    Ends no_fault repository tree (clean_up no_fault tree none (leaf_y ∷ leaf_z ∷ []) repository)
clean_up-Ends_example =
    clean_up-Ends no_fault tree (leaf_y ∷ leaf_z ∷ []) repository
      (leaf_y-IsLeaf, (leaf_z-IsLeaf, tt))

-- links at the top, and nothing behind them
abbrev top_links : Names → Result IoError Bool
top_links [] = ok false
top_links (n ∷ []) = ok true
top_links (n ∷ m ∷ names) = err not_found

behind_missing :
    (p q : Names) (link : Bool)
    → top_links (p ++ q) ≡ ok link
    → (there : Bool) × (top_links p ≡ ok there)
behind_missing [] q link h = (false, refl)
behind_missing (n ∷ []) q link h = (true, refl)
behind_missing (n ∷ m ∷ p) q link h = cc

abbrev removed : List Names
removed = ((b'l' ∷ []) ∷ []) ∷ []

top_links-IsFileSystem : IsFileSystem top_links removed
top_links-IsFileSystem = record { behind_missing = behind_missing }

-- "l/a", where the link "l" is removed
abbrev below_link : List (List ℕ)
below_link = (b'l' ∷ b'/' ∷ b'a' ∷ []) ∷ []

passes : preflight_destination_ancestors top_links removed below_link ≡ ok tt
unfolding preflight_destination_ancestors check_destination_ancestors check_from Clean.drop_last
    PackPath.split
passes = refl

preflight_destination_ancestors-IsReachable_example :
    All (λ path. IsReachable top_links removed (PackPath.components path)) below_link
preflight_destination_ancestors-IsReachable_example =
    preflight_destination_ancestors-IsReachable top_links removed top_links-IsFileSystem below_link
      passes
