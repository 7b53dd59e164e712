-- ===== src/Repo/Remote/Packs.antt =====
-- Packs and their indexes from repo/remote.rs: what is written of a download.
use elfshaker.Prelude.{
  ℕ, ◌≡◌, ◌⊎◌, refl, ◌∙◌, true, Option, none, some, List, length, ok, err, returns, ◌>>=◌, unwrap,
  Result-cases, Option-cases, Bool-cases, inl, inr, list_eq, nat_eq, list_beq_iff, ◌==◌, arith,
}
use elfshaker.Repo.Remote.{
  FilePath, RemotePack, Error, found, not_modified, not_found, Net, Files, update,
  open_remote_resource, write_file,
}
use elfshaker.Repo.Remote.Transfer.{size_matches, done, store_pack, pack_answer, update_remote_pack}
use elfshaker.Repo.Remote.Install.{write_file_lem}

module _ (n : Net) where
  done-ok :
      (w : Files × Option Error) (files' : Files)
      → done n w ≡ (files', ok tt)
      → (w.1 ≡ none) × (files' ≡ w.0)
  done-ok (files, none) files' h = (refl, cc)
  done-ok (files, some e) files' h = cc

  pub write_done :
      (files files' : Files) (path : FilePath) (bytes : List ℕ)
      → done n (write_file n files path bytes) ≡ (files', ok tt)
      → files' ≡ update files path bytes
  write_done files files' path bytes h =
      let w = write_file n files path bytes in
      let (fine, same) = done-ok w files' h in
      elim (write_file_lem n files w.0 path bytes w.1 refl) [
        | inl (_, all) ↦ same ∙ all
        | inr (k, bad) ↦ cc
      ]

  size_matches_lem :
      (size : Option ℕ) (k s : ℕ) → size_matches size k ≡ true → size ≡ some s → k ≡ s
  size_matches_lem none k s h e = cc
  size_matches_lem (some t) k s h e = let same : t ≡ s = cc in ground arith

  -- the bytes have the checksum, and the size where one is given
  pub record IsPack (pack : RemotePack) (bytes : List ℕ) : Type 0 where
    pub checksum : n.sha1 bytes ≡ pack.pack_checksum
    pub size : (s : ℕ) → pack.pack_size ≡ some s → length bytes ≡ s

  -- An update of a pack that succeeds leaves every file as it was, or has stored at the path bytes
  -- with the checksum that the remote index gives for the pack, and with the size where it gives one.
  pub update_remote_pack-IsPack :
      (files files' : Files) (pack : RemotePack) (path : FilePath)
      → update_remote_pack n files pack path ≡ returns (files', ok tt)
      → (files' ≡ files)
        ⊎ ((bytes : List ℕ) × (files' ≡ update files path bytes) × IsPack pack bytes)
  unfolding update_remote_pack pack_answer store_pack
  update_remote_pack-IsPack files files' pack path h = elim (Option-cases (n.parse_url pack.url)) [
    | inl bad ↦ cc (rw (bad, update_remote_pack) at h)
    | inr (url, good) ↦ elim (Result-cases (open_remote_resource n url (n.modified path))) [
      | inl (e, bad) ↦ cc (rw (good, unwrap, ◌>>=◌, bad, update_remote_pack) at h)
      | inr (err e, got) ↦ cc (rw (good, unwrap, ◌>>=◌, got, update_remote_pack, pack_answer) at h)
      | inr (ok not_modified, got) ↦
          inl (cc (rw (good, unwrap, ◌>>=◌, got, update_remote_pack, pack_answer) at h))
      | inr (ok not_found, got) ↦
          cc (rw (good, unwrap, ◌>>=◌, got, update_remote_pack, pack_answer) at h)
      | inr (ok (found bytes), got) ↦
          let h' : store_pack n files pack path bytes ≡ (files', ok tt) =
            cc (rw (good, unwrap, ◌>>=◌, got, update_remote_pack, pack_answer) at h) in
          elim (Bool-cases (n.sha1 bytes == pack.pack_checksum)) [
            | inr bad ↦ cc (rw (bad, store_pack) at h')
            | inl same ↦ elim (Bool-cases (size_matches pack.pack_size (length bytes))) [
              | inr bad ↦ cc (rw (same, bad, store_pack) at h')
              | inl fits ↦ inr (
                bytes,
                write_done files files' path bytes (rw (same, fits, store_pack) at h'),
                record {
                  checksum = (list_beq_iff (n.sha1 bytes) pack.pack_checksum).0 same;
                  size = λ s e. size_matches_lem pack.pack_size (length bytes) s fits e;
                },
              )
            ]
          ]
    ]
  ]
