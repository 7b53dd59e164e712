-- ===== src/Repo/Remote/Transfer.antt =====
-- The transfers of repo/remote.rs: which files are fetched, and what is written of them.
use elfshaker.Prelude.{
  ℕ, Bool, true, false, not, ◌&&◌, Option, none, some, List, [], ◌∷◌, ◌++◌, length, eqb,
  if◌then◌else◌, Result, ok, err, Run, returns, panics, ◌>>=◌, unwrap, ◌==◌, list_eq, nat_eq,
}
use elfshaker.PackPath.{slash}
use elfshaker.Esi.{Str, Calls}
use elfshaker.PackIndex.Types.{ObjectChecksum}
use elfshaker.PackIndex.Parts.{full}
use elfshaker.PackIndex.Legacy.{LegacyEnvelope}
use elfshaker.PackIndex.Wire.{Envelope, parse}
use elfshaker.Repo.Remote.{
  FilePath, Url, RemotePack, RemoteIndex, Error, bad_url_text, io, status, corrupt_pack,
  corrupt_pack_index, RemoteResource, found, not_modified, not_found, Net, Files, dot_idx, last,
  file_name, bind_option, read, load, v2_sibling_url, validate_endpoint_version,
  open_remote_resource, read_remote_resource, require_found, write_file,
}

-- What `PackIndex::parse` calls: see PackIndex.Wire.
pub record Decoders : Type 0 where
  pub decode_v3 : List ℕ → Envelope
  pub decode_legacy : List ℕ → LegacyEnvelope
  pub from_utf16 : List ℕ → Option (List ℕ)

-- The files after an operation, and its result.
abbrev pub Outcome {ℓ} : Type ℓ → Type ℓ
Outcome A = Files × Result Error A

-- `size.map(|size| size == n).unwrap_or(true)`
abbrev pub size_matches : Option ℕ → ℕ → Bool
size_matches none n = true
size_matches (some size) n = eqb size n

abbrev pub written : FilePath → RemoteIndex → Files × Option Error → Outcome RemoteIndex
written path remote (files, some e) = (files, err e)
written path remote (files, none) = (files, ok (record remote { path = some path }))

module _ (n : Net) (c : Calls) where
  unfoldable pub install_remote : Files → FilePath → Url → List ℕ → Outcome RemoteIndex
  install_remote files path url bytes = elim (read n c bytes) [
    | err e ↦ (files, err e)
    | ok remote ↦ elim (validate_endpoint_version n url remote.meta) [
      | some e ↦ (files, err e)
      | none ↦ written path remote (write_file n files path bytes)
    ]
  ]

  -- `require_found(read_remote_resource(..)?)?`, and the installation
  unfoldable pub fetch_from : Files → FilePath → Url → Run (Outcome RemoteIndex)
  fetch_from files path url = elim (read_remote_resource n url none) [
    | err e ↦ returns (files, err e)
    | ok resource ↦ require_found resource >>= λ body. (elim body [
      | err e ↦ returns (files, err e)
      | ok bytes ↦ returns (install_remote files path url bytes)
    ])
  ]

  -- what the answer for the second version leads to
  unfoldable pub fetch_sibling :
      Files → FilePath → Url → Url → RemoteResource → Run (Outcome RemoteIndex)
  fetch_sibling files path supplied versioned (found bytes) =
      returns (install_remote files path versioned bytes)
  fetch_sibling files path supplied versioned not_found = fetch_from files path supplied
  fetch_sibling files path supplied versioned not_modified = panics

  unfoldable pub fetch_remote : Files → Str → FilePath → Run (Outcome RemoteIndex)
  fetch_remote files text path = elim (n.parse_url text) [
    | none ↦ returns (files, err bad_url_text)
    | some supplied ↦ elim (v2_sibling_url n supplied) [
      | none ↦ fetch_from files path supplied
      | some versioned ↦ elim (read_remote_resource n versioned none) [
        | err e ↦ returns (files, err e)
        | ok resource ↦ fetch_sibling files path supplied versioned resource
      ]
    ]
  ]

  unfoldable pub refresh : Files → FilePath → Url → RemoteResource → Outcome RemoteIndex
  refresh files path url (found bytes) = install_remote files path url bytes
  refresh files path url not_modified = (files, load n c files path)
  refresh files path url not_found = (files, err (status 404))

  -- `expect` at the path
  unfoldable pub update_remote : Files → RemoteIndex → Run (Outcome RemoteIndex)
  update_remote files remote = unwrap remote.path >>= λ path. (elim (n.parse_url remote.url) [
    | none ↦ returns (files, err bad_url_text)
    | some url ↦ elim (read_remote_resource n url (n.modified path)) [
      | err e ↦ returns (files, err e)
      | ok resource ↦ returns (refresh files path url resource)
    ]
  ])

module _ (n : Net) where
  -- an error of writing, or `Ok(())`
  abbrev pub done : Files × Option Error → Outcome (Unit {0})
  done (files, some e) = (files, err e)
  done (files, none) = (files, ok tt)

  unfoldable pub store_pack : Files → RemotePack → FilePath → List ℕ → Outcome (Unit {0})
  store_pack files pack path bytes =
      if n.sha1 bytes == pack.pack_checksum && size_matches pack.pack_size (length bytes)
      then done (write_file n files path bytes)
      else (files, err corrupt_pack)

  unfoldable pub pack_answer :
      Files → RemotePack → FilePath → Result ℕ RemoteResource → Outcome (Unit {0})
  pack_answer files pack path (err e) = (files, err (io e))
  pack_answer files pack path (ok (found bytes)) = store_pack files pack path bytes
  pack_answer files pack path (ok not_modified) = (files, ok tt)
  pack_answer files pack path (ok not_found) = (files, err (status 404))

  unfoldable pub update_remote_pack : Files → RemotePack → FilePath → Run (Outcome (Unit {0}))
  update_remote_pack files pack path = unwrap (n.parse_url pack.url) >>= λ url.
      (elim (open_remote_resource n url (n.modified path)) [
        | err e ↦ returns (files, err e)
        | ok answer ↦ returns (pack_answer files pack path answer)
      ])

  module _ (d : Decoders) where
    -- `PackIndex::parse(..)` is an `Ok`
    unfoldable pub parses : List ℕ → Bool
    parses bytes = elim (parse full d.decode_v3 d.decode_legacy d.from_utf16 bytes) [
      | err e ↦ false
      | ok index ↦ true
    ]

    -- A broken index is reported in the log only.
    unfoldable pub store_index : Files → FilePath → Option ℕ → List ℕ → Outcome (Unit {0})
    store_index files path expected bytes =
        if not (size_matches expected (length bytes))
        then (files, err corrupt_pack_index)
        else if parses bytes
        then done (write_file n files path bytes)
        else (files, ok tt)

    unfoldable pub index_answer : Files → FilePath → Option ℕ → RemoteResource → Outcome (Unit {0})
    index_answer files path expected (found bytes) = store_index files path expected bytes
    index_answer files path expected not_modified = (files, ok tt)
    index_answer files path expected not_found = (files, err (status 404))

    unfoldable pub update_pack_index : Files → Url → FilePath → Option ℕ → Outcome (Unit {0})
    update_pack_index files url path expected =
        elim (read_remote_resource n url (n.modified path)) [
          | err e ↦ (files, err e)
          | ok resource ↦ index_answer files path expected resource
        ]

    -- `verify_checksum`: a file that is not there does not match
    unfoldable pub verify_checksum : Files → FilePath → ObjectChecksum → Result Error Bool
    verify_checksum files path checksum = elim (files path) [
      | none ↦ ok false
      | some bytes ↦ elim (n.read_fault path) [
        | some e ↦ err (io e)
        | none ↦ ok (n.sha1 bytes == checksum)
      ]
    ]

    -- `base_dir.join(file_name)`
    abbrev pub in_dir : FilePath → Str → FilePath
    in_dir dir name = dir ++ slash ∷ name

    -- one round of the loop, for the URL of the index and its last segment
    unfoldable pub update_one : Files → FilePath → RemotePack → Url → Str → Outcome (Unit {0})
    update_one files dir pack url name =
        elim (verify_checksum files (in_dir dir name) pack.index_checksum) [
          | err e ↦ (files, err e)
          | ok true ↦ (files, ok tt)
          | ok false ↦ update_pack_index files url (in_dir dir name) pack.index_size
        ]

    -- `unwrap` at the URL, its segments and the last of them
    abbrev pub index_name : RemotePack → Run (Url × Str)
    index_name pack = unwrap (n.parse_url (pack.url ++ dot_idx)) >>= λ url.
        unwrap (bind_option (n.path_segments url) last) >>= λ name. returns (url, name)

    unfoldable pub update_remote_pack_indexes :
        Files → FilePath → List RemotePack → Run (Outcome (Unit {0}))
    update_remote_pack_indexes files dir [] = returns (files, ok tt)
    update_remote_pack_indexes files dir (pack ∷ packs) = index_name pack >>= λ target.
        (let one = update_one files dir pack target.0 target.1 in
          let rest = update_remote_pack_indexes one.0 dir packs in
          elim one.1 [ err e ↦ returns (one.0, err e) | ok _ ↦ file_name pack >>= λ _. rest ])
