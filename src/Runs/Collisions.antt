-- ===== src/Runs/Collisions.antt =====
-- Runs of `preflight_untracked_collisions` of repo/repository.rs.
use elfshaker.Prelude.{ℕ, ◌≡◌, refl, Option, none, some, List, [], ◌∷◌, ok, All}
use elfshaker.HashSet
use elfshaker.PackPath
use elfshaker.Repo.Policy
use elfshaker.Repo.Policy.{Unicode, Key, unix}
use elfshaker.Repo.Clean.{Names}
use elfshaker.Repo.Collisions
use elfshaker.Repo.Collisions.{Node, leaf, dir, end, child, track, preflight_untracked_collisions}
use elfshaker.Repo.Collisions.Tracked.{Tracks}
use elfshaker.Repo.Collisions.Owned.{IsClear, preflight_untracked_collisions-IsClear}

abbrev plain : Unicode
plain = record { from_utf8 = some; lowercase = λ t. t; nfd_lowercase = λ t. t }

abbrev no_fault : Names → Option ℕ
no_fault path = none

-- the file "a/b"
abbrev tree : Node
tree = dir (child (b'a' ∷ []) (dir (child (b'b' ∷ []) leaf end)) end)

abbrev head_entries : List (List ℕ)
head_entries = (b'a' ∷ b'/' ∷ b'b' ∷ []) ∷ []

-- "a/b" again, a file in the place of the directory "a", and the new "c"
abbrev entries : List (List ℕ)
entries = (b'a' ∷ b'/' ∷ b'b' ∷ []) ∷ (b'a' ∷ []) ∷ (b'c' ∷ []) ∷ []

passes : preflight_untracked_collisions plain unix no_fault tree entries head_entries [] ≡ ok tt
unfolding preflight_untracked_collisions track Collisions.prefixes_from HashSet.insert
    Collisions.check_entries Collisions.walk Collisions.entered Collisions.key_of Collisions.find
    Collisions.any_ancestor Collisions.dedup Policy.target_path_key Policy.component_keys
    Policy.component_key PackPath.from_native PackPath.append_components PackPath.new
    PackPath.validate PackPath.check_components PackPath.check_component PackPath.split
passes = refl

preflight_untracked_collisions-IsClear_example :
    (sets : List Key × List Key) × (track plain unix no_fault [] [] head_entries ≡ ok sets)
    × Tracks plain unix head_entries sets
    × All (IsClear plain unix no_fault sets.0 sets.1 tree []) entries
preflight_untracked_collisions-IsClear_example =
    preflight_untracked_collisions-IsClear plain unix no_fault tree entries head_entries [] passes
