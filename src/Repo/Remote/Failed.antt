-- ===== src/Repo/Remote/Failed.antt =====
-- Failed transfers of repo/remote.rs leave the files alone.
use elfshaker.Prelude.{◌≡◌, false, none, err, returns, Result-cases, Option-cases, inl, inr}
use elfshaker.Esi.{Str, Calls}
use elfshaker.Repo.Remote.{
  FilePath, Url, RemoteIndex, Error, found, not_modified, not_found, Net, Files, v2_sibling_url,
  read_remote_resource, require_found,
}
use elfshaker.Repo.Remote.Transfer.{fetch_from, fetch_sibling, fetch_remote, refresh, update_remote}
use elfshaker.Repo.Remote.Install.{is_io, install_remote_failed}

module _ (n : Net) (c : Calls) (files files' : Files) (e : Error) (other : is_io e ≡ false) where
  fetch_from_failed :
      (path : FilePath) (url : Url)
      → fetch_from n c files path url ≡ returns (files', err e)
      → files' ≡ files
  unfolding fetch_from require_found
  fetch_from_failed path url h = elim (Result-cases (read_remote_resource n url none)) [
    | inl (x, bad) ↦ cc (rw (bad, fetch_from) at h)
    | inr (not_modified, got) ↦ cc (rw (got, fetch_from) at h)
    | inr (not_found, got) ↦ cc (rw (got, fetch_from) at h)
    | inr (found bytes, got) ↦
        install_remote_failed n c files files' path url bytes e (cc (rw (got, fetch_from) at h))
          other
  ]

  -- A fetch that fails, but not with an error of the file system, has changed no file.
  pub fetch_remote_failed :
      (text : Str) (path : FilePath)
      → fetch_remote n c files text path ≡ returns (files', err e)
      → files' ≡ files
  unfolding fetch_remote fetch_sibling
  fetch_remote_failed text path h = elim (Option-cases (n.parse_url text)) [
    | inl bad ↦ cc (rw (bad, fetch_remote) at h)
    | inr (supplied, good) ↦ elim (Option-cases (v2_sibling_url n supplied)) [
      | inl alone ↦ fetch_from_failed path supplied (rw (good, alone, fetch_remote) at h)
      | inr (versioned, sib) ↦ elim (Result-cases (read_remote_resource n versioned none)) [
        | inl (x, bad) ↦ cc (rw (good, sib, bad, fetch_remote) at h)
        | inr (not_modified, got) ↦ cc (rw (good, sib, got, fetch_remote, fetch_sibling) at h)
        | inr (not_found, got) ↦
            fetch_from_failed path supplied (rw (good, sib, got, fetch_remote, fetch_sibling) at h)
        | inr (found bytes, got) ↦
            install_remote_failed n c files files' path versioned bytes e
              (cc (rw (good, sib, got, fetch_remote, fetch_sibling) at h)) other
      ]
    ]
  ]

  -- An update that fails, but not with an error of the file system, has changed no file.
  pub update_remote_failed :
      (remote : RemoteIndex)
      → update_remote n c files remote ≡ returns (files', err e)
      → files' ≡ files
  unfolding update_remote refresh
  update_remote_failed remote h = elim (Option-cases remote.path) [
    | inl bad ↦ cc (rw (bad, update_remote) at h)
    | inr (path, there) ↦ elim (Option-cases (n.parse_url remote.url)) [
      | inl bad ↦ cc (rw (there, bad, update_remote) at h)
      | inr (url, good) ↦ elim (Result-cases (read_remote_resource n url (n.modified path))) [
        | inl (x, bad) ↦ cc (rw (there, good, bad, update_remote) at h)
        | inr (not_modified, got) ↦ cc (rw (there, good, got, update_remote, refresh) at h)
        | inr (not_found, got) ↦ cc (rw (there, good, got, update_remote, refresh) at h)
        | inr (found bytes, got) ↦
            install_remote_failed n c files files' path url bytes e
              (cc (rw (there, good, got, update_remote, refresh) at h)) other
      ]
    ]
  ]
