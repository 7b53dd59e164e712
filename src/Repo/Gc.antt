-- ===== src/Repo/Gc.antt =====
-- `find_unreferenced_objects` of repo/repository.rs: the loose objects that garbage collection may
-- delete.
pub mod Unreferenced
use elfshaker.Prelude.{ℕ, Bool, List, [], ◌∷◌, Result, ok, err, and_then, contains, list_eq, nat_eq}
use elfshaker.HashSet
use elfshaker.EntryPool.{EntryPool}
use elfshaker.PackIndex.Types.{ObjectChecksum}
use elfshaker.PackIndex.Index.{PackIndex}

-- `object_checksums`: the entries of the object pool
pub object_checksums : PackIndex → List ObjectChecksum
object_checksums index = index.object_pool.entries

-- `for checksum in pack.object_checksums() { unreferenced_objects.remove(checksum); }`
pub remove_each : List ObjectChecksum → List ObjectChecksum → List ObjectChecksum
remove_each set [] = set
remove_each set (checksum ∷ rest) = remove_each (HashSet.remove checksum set).0 rest

-- Each root is what loading its index gave. The tasks remove under a lock, each all of its
-- checksums at once, and here in the order of the roots; an error of a root is the answer.
pub find_unreferenced_objects {ℓ} :
    {E : Type ℓ} → List ObjectChecksum → List (Result E PackIndex) → Result E (List ObjectChecksum)
unfolding object_checksums remove_each
find_unreferenced_objects objects [] = ok objects
find_unreferenced_objects objects (root ∷ roots) =
    and_then root
      λ pack. find_unreferenced_objects (remove_each objects (object_checksums pack)) roots
