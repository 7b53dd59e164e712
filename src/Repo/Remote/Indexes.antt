-- ===== src/Repo/Remote/Indexes.antt =====
-- `update_remote_pack_indexes` of repo/remote.rs: no index is replaced by a broken one.
use elfshaker.Prelude.{
  ℕ, ◌≡◌, ◌⊎◌, refl, sym, ◌∙◌, ap, true, false, Option, some, List, [], ◌∷◌, length, ok, returns,
  ◌>>=◌, Result-cases, Run-cases, Bool-cases, inl, inr, list_eq, nat_eq, ◌==◌,
}
use elfshaker.Esi.{Str}
use elfshaker.Repo.Remote.{
  FilePath, Url, RemotePack, found, not_modified, not_found, Net, Files, update,
  read_remote_resource, file_name,
}
use elfshaker.Repo.Remote.Transfer.{
  Decoders, size_matches, parses, store_index, index_answer, update_pack_index, verify_checksum,
  in_dir, update_one, index_name, update_remote_pack_indexes,
}
use elfshaker.Repo.Remote.Packs.{write_done}

module _ (n : Net) (d : Decoders) where
  -- the file is as it was, or an index that parses
  abbrev pub Sound : Files → Files → FilePath → Type 0
  Sound files files' x =
      (files' x ≡ files x)
      ⊎ ((bytes : List ℕ) × (files' x ≡ some bytes) × (parses n d bytes ≡ true))

  Sound-same : (files files' : Files) (x : FilePath) → files ≡ files' → Sound files files' x
  Sound-same files files' x e = inl (ap (λ (f : Files). f x) (sym e))

  Sound-update :
      (files files' : Files) (path : FilePath) (bytes : List ℕ) (x : FilePath)
      → files' ≡ update files path bytes
      → parses n d bytes ≡ true
      → Sound files files' x
  Sound-update files files' path bytes x e p = elim (Bool-cases (path == x)) [
    | inl here ↦ inr (bytes, ap (λ (f : Files). f x) e ∙ rw here refl, p)
    | inr other ↦ inl (ap (λ (f : Files). f x) e ∙ rw other refl)
  ]

  store_index-Sound :
      (files files' : Files) (path : FilePath) (expected : Option ℕ) (bytes : List ℕ) (x : FilePath)
      → store_index n d files path expected bytes ≡ (files', ok tt)
      → Sound files files' x
  unfolding store_index
  store_index-Sound files files' path expected bytes x h =
      elim (Bool-cases (size_matches expected (length bytes))) [
        | inr bad ↦ cc (rw (bad, store_index) at h)
        | inl fits ↦ elim (Bool-cases (parses n d bytes)) [
          | inr broken ↦ Sound-same files files' x (cc (rw (fits, broken, store_index) at h))
          | inl good ↦
              Sound-update files files' path bytes x
                (write_done n files files' path bytes (rw (fits, good, store_index) at h)) good
        ]
      ]

  update_pack_index-Sound :
      (files files' : Files) (url : Url) (path : FilePath) (expected : Option ℕ) (x : FilePath)
      → update_pack_index n d files url path expected ≡ (files', ok tt)
      → Sound files files' x
  unfolding update_pack_index index_answer
  update_pack_index-Sound files files' url path expected x h =
      elim (Result-cases (read_remote_resource n url (n.modified path))) [
        | inl (e, bad) ↦ cc (rw (bad, update_pack_index) at h)
        | inr (not_modified, got) ↦
            Sound-same files files' x (cc (rw (got, update_pack_index, index_answer) at h))
        | inr (not_found, got) ↦ cc (rw (got, update_pack_index, index_answer) at h)
        | inr (found bytes, got) ↦
            store_index-Sound files files' path expected bytes x
              (rw (got, update_pack_index, index_answer) at h)
      ]

  update_one-Sound :
      (files files' : Files) (dir : FilePath) (pack : RemotePack) (url : Url) (name : Str)
      (x : FilePath)
      → update_one n d files dir pack url name ≡ (files', ok tt)
      → Sound files files' x
  unfolding update_one
  update_one-Sound files files' dir pack url name x h =
      elim (Result-cases (verify_checksum n d files (in_dir n d dir name) pack.index_checksum)) [
        | inl (e, bad) ↦ cc (rw (bad, update_one) at h)
        | inr (true, same) ↦ Sound-same files files' x (cc (rw (same, update_one) at h))
        | inr (false, differ) ↦
            update_pack_index-Sound files files' url (in_dir n d dir name) pack.index_size x
              (rw (differ, update_one) at h)
      ]

  Sound-trans : (a b c : Files) (x : FilePath) → Sound a b x → Sound b c x → Sound a c x
  Sound-trans a b c x (inl p) (inl q) = inl (q ∙ p)
  Sound-trans a b c x (inr (bytes, p, good)) (inl q) = inr (bytes, q ∙ p, good)
  Sound-trans a b c x p (inr q) = inr q

  -- Where updating the indexes of a remote succeeds, every file is as it was or holds an index that
  -- parses: an answer that is broken is not written.
  pub update_remote_pack_indexes-Sound :
      (files files' : Files) (dir : FilePath) (packs : List RemotePack)
      → update_remote_pack_indexes n d files dir packs ≡ returns (files', ok tt)
      → (x : FilePath) → Sound files files' x
  unfolding update_remote_pack_indexes
  update_remote_pack_indexes-Sound files files' dir [] h x = Sound-same files files' x cc
  update_remote_pack_indexes-Sound files files' dir (pack ∷ packs) h x =
      elim (Run-cases (index_name n d pack)) [
        | inl stop ↦ cc (rw (stop, update_remote_pack_indexes) at h)
        | inr (target, named) ↦
            let one = update_one n d files dir pack target.0 target.1 in
            elim (Result-cases one.1) [
              | inl (e, bad) ↦ cc (rw (named, ◌>>=◌, bad, update_remote_pack_indexes) at h)
              | inr (u, good) ↦ elim (Run-cases (file_name pack)) [
                | inl stop ↦ cc (rw (named, ◌>>=◌, good, stop, update_remote_pack_indexes) at h)
                | inr (name, shown) ↦
                    Sound-trans files one.0 files' x
                      (update_one-Sound files one.0 dir pack target.0 target.1 x
                        (λ i. (one.0, good i)))
                      (update_remote_pack_indexes-Sound one.0 files' dir packs
                        (rw (named, ◌>>=◌, good, shown, update_remote_pack_indexes) at h) x)
              ]
            ]
      ]
