-- ===== src/Runs/Remotes.antt =====
-- Runs of repo/remote.rs.
use elfshaker.Prelude.{
  ℕ, ◌≡◌, ◌⊎◌, refl, none, some, List, [], ◌∷◌, ◌++◌, ok, err, returns, list_eq, nat_eq, ◌==◌,
  if◌then◌else◌,
}
use elfshaker.PackPath.{split}
use elfshaker.Esi
use elfshaker.Esi.{v1, v2}
use elfshaker.Esi.Parse
use elfshaker.Repo.Id.{strip_suffix}
use elfshaker.Repo.Remote
use elfshaker.Repo.Remote.{
  Url, RemotePack, RemoteIndex, Net, Response, Files, FilePath, update, dot_esi, v2_sibling_url,
  is_versioned_endpoint, endpoint_version, read_remote_resource, not_found, status,
}
use elfshaker.Repo.Remote.Transfer.{
  Decoders, fetch_remote, update_remote, update_remote_pack, update_remote_pack_indexes,
}
use elfshaker.Repo.Remote.Transfer
use elfshaker.Repo.Remote.Install.{FetchedFrom, fetch_remote-Fetched}
use elfshaker.Repo.Remote.Packs.{IsPack, update_remote_pack-IsPack}
use elfshaker.Repo.Remote.Indexes.{Sound, update_remote_pack_indexes-Sound}
use elfshaker.PackIndex.Wire
use elfshaker.PackIndex.Wire.{Envelope, magic}
use elfshaker.PackIndex.Legacy.Load.{legacy_envelope}
use elfshaker.Runs.Documents.{digest, calls, text}

-- A URL is its path. The server has what `body` answers, and nothing for a second version.
abbrev net_with : (Url → Response) → Net
net_with answer = record {
  parse_url = λ u. some u;
  join = λ base u. some u;
  url_path = λ u. u;
  path_segments = λ u. some (split u);
  set_path = λ u p. p;
  get = λ u since. ok (answer u);
  modified = λ p. none;
  read_fault = λ p. none;
  create_fault = λ p. none;
  write_fault = λ p. none;
  sha1 = λ bytes. bytes;
}

-- "r.esi"
abbrev supplied : Url
supplied = b'r' ∷ dot_esi

-- an index of the first version at "r.esi" only
abbrev server : Net
server = net_with λ u.
    (if u == supplied
      then record { status = 200; body = ok text }
      else record { status = 404; body = ok [] })

abbrev empty_server : Net
empty_server = net_with λ u. record { status = 404; body = ok [] }

abbrev no_files : Files
no_files p = none

abbrev place : FilePath
place = b'x' ∷ []

abbrev remote : RemoteIndex
remote = record {
  path = some place;
  meta = v1;
  url = b'u' ∷ [];
  packs =
      record {
        index_checksum = digest;
        pack_checksum = digest;
        url = b'p' ∷ [];
        index_size = none;
        pack_size = none;
      }
      ∷ [];
}

fetches :
    fetch_remote server calls no_files supplied place
    ≡ returns (update no_files place text, ok remote)
unfolding fetch_remote v2_sibling_url is_versioned_endpoint Remote.rsplit_once split strip_suffix
    read_remote_resource Remote.open_remote_resource Transfer.fetch_sibling Transfer.fetch_from
    Remote.require_found Transfer.install_remote Remote.read Remote.from_document
    Remote.remote_packs Remote.resolved_entry_url Remote.validate_endpoint_version Remote.meta_beq
    Remote.write_file Esi.entries Esi.validate_field_value Esi.validate_index_url Parse.parse
    Parse.split_lines Parse.split_from Parse.line_of Parse.strip_return Parse.parse_lines
    Parse.parse_header Parse.fields Parse.parts_from Parse.header_value Parse.meta_from_str
    Parse.parse_rest Parse.parse_entry Parse.entry_of Parse.parse_checksum Parse.parse_sizes
    Esi.check_join
fetches = refl

fetch_remote-Fetched_example :
    (url : Url) × (server.parse_url supplied ≡ some url)
    × (((versioned : Url) × (v2_sibling_url server url ≡ some versioned)
          × FetchedFrom server calls no_files (update no_files place text) place remote versioned)
        ⊎ (((v2_sibling_url server url ≡ none)
              ⊎ ((versioned : Url) × (v2_sibling_url server url ≡ some versioned)
                  × (read_remote_resource server versioned none ≡ ok not_found)))
            × FetchedFrom server calls no_files (update no_files place text) place remote url))
fetch_remote-Fetched_example =
    fetch_remote-Fetched server calls no_files (update no_files place text) supplied place remote
      fetches

fetch_fails :
    fetch_remote empty_server calls no_files supplied place ≡ returns (no_files, err (status 404))
unfolding fetch_remote v2_sibling_url is_versioned_endpoint Remote.rsplit_once split strip_suffix
    read_remote_resource Remote.open_remote_resource Transfer.fetch_sibling Transfer.fetch_from
    Remote.require_found
fetch_fails = refl

update_fails :
    update_remote empty_server calls no_files remote ≡ returns (no_files, err (status 404))
unfolding update_remote read_remote_resource Remote.open_remote_resource Transfer.refresh
update_fails = refl

-- a pack of three bytes, which are their own digest
abbrev pack : RemotePack
pack = record {
  index_checksum = 9 ∷ [];
  pack_checksum = 1 ∷ 2 ∷ 3 ∷ [];
  url = b'/' ∷ b'p' ∷ [];
  index_size = none;
  pack_size = some 3;
}

abbrev pack_server : Net
pack_server = net_with λ u. record { status = 200; body = ok (1 ∷ 2 ∷ 3 ∷ []) }

transfers :
    update_remote_pack pack_server no_files pack place
    ≡ returns (update no_files place (1 ∷ 2 ∷ 3 ∷ []), ok tt)
unfolding update_remote_pack Remote.open_remote_resource Transfer.pack_answer Transfer.store_pack
    Remote.write_file
transfers = refl

update_remote_pack-IsPack_example :
    (update no_files place (1 ∷ 2 ∷ 3 ∷ []) ≡ no_files)
    ⊎ ((bytes : List ℕ) × (update no_files place (1 ∷ 2 ∷ 3 ∷ []) ≡ update no_files place bytes)
        × IsPack pack_server pack bytes)
update_remote_pack-IsPack_example =
    update_remote_pack-IsPack pack_server no_files (update no_files place (1 ∷ 2 ∷ 3 ∷ [])) pack
      place transfers

-- an index without snapshots, behind the bytes of the magic and the version
abbrev decoders : Decoders
decoders = record {
  decode_v3 = λ bytes. record {
    fields = ok 7;
    features = ok 0;
    snapshot_tags = ok [];
    snapshot_deltas = ok [];
    path_pool = ok [];
    object_pool = ok [];
    object_metadata = ok [];
    extensions = ok [];
  };
  decode_legacy = λ bytes. legacy_envelope [] [] [] [] [];
  from_utf16 = some;
}

abbrev index_bytes : List ℕ
index_bytes = magic ++ 0 ∷ 0 ∷ 0 ∷ 3 ∷ []

abbrev index_server : Net
index_server = net_with λ u. record { status = 200; body = ok index_bytes }

-- "d/p.idx"
abbrev index_place : FilePath
index_place = b'd' ∷ b'/' ∷ b'p' ∷ Remote.dot_idx

updates :
    update_remote_pack_indexes index_server decoders no_files (b'd' ∷ []) (pack ∷ [])
    ≡ returns (update no_files index_place index_bytes, ok tt)
unfolding update_remote_pack_indexes Transfer.update_one Transfer.verify_checksum
    Transfer.update_pack_index read_remote_resource Remote.open_remote_resource
    Transfer.index_answer Transfer.store_index Transfer.parses Wire.parse Wire.read_magic
    Wire.check_version Wire.parse_v3 Wire.load_tables Wire.read_tables Remote.write_file split
    Remote.file_name Remote.rsplit_once
updates = refl

update_remote_pack_indexes-Sound_example :
    Sound index_server decoders no_files (update no_files index_place index_bytes) index_place
update_remote_pack_indexes-Sound_example =
    update_remote_pack_indexes-Sound index_server decoders no_files
      (update no_files index_place index_bytes) (b'd' ∷ []) (pack ∷ []) updates index_place

-- "r.v2.esi"
abbrev sibling : Url
sibling = b'r' ∷ Remote.dot_v2_esi

has_sibling : v2_sibling_url server supplied ≡ some sibling
unfolding v2_sibling_url is_versioned_endpoint Remote.rsplit_once split strip_suffix
has_sibling = refl
