-- ===== src/Repo/Remote.antt =====
-- repo/remote.rs: remote indexes, and the transfer of indexes and packs from a server.
pub mod Endpoint
pub mod Install
pub mod Transfer
pub mod Failed
pub mod Packs
pub mod Indexes
use elfshaker.Prelude.{
  ℕ, Bool, true, false, not, ◌&&◌, ◌||◌, Option, none, some, List, [], ◌∷◌, ◌++◌, length, take, eqb,
  leb, if◌then◌else◌, Result, ok, err, and_then, map_err, Run, returns, panics, ◌>>=◌, unwrap, Eq,
  ◌==◌, list_eq, nat_eq,
}
use elfshaker.PackPath.{slash, dot, split}
use elfshaker.Esi.{
  Str, MetaVersion, v1, v2, FormatError, bad_url, Entry, Document, Calls, entries,
  validate_field_value, validate_index_url,
}
use elfshaker.Esi.Parse
use elfshaker.PackIndex.Types.{ObjectChecksum}
use elfshaker.Repo.Id.{strip_prefix, strip_suffix, is_some}

abbrev pub FilePath : Type 0
FilePath = List ℕ

-- a URL as the url crate prints it
abbrev pub Url : Type 0
Url = Str

pub record RemotePack : Type 0 where
  pub index_checksum : ObjectChecksum
  pub pack_checksum : ObjectChecksum
  pub url : Str
  pub index_size : Option ℕ
  pub pack_size : Option ℕ

pub record RemoteIndex : Type 0 where
  pub path : Option FilePath
  pub meta : MetaVersion
  pub url : Str
  pub packs : List RemotePack

-- why a remote index is refused: its text, or the version that its endpoint asks for
pub data FormatReason : Type 0 where
  document : FormatError → FormatReason
  wrong_version : MetaVersion → MetaVersion → FormatReason
  unsupported_endpoint : FormatReason
  unversioned_endpoint : MetaVersion → FormatReason

pub data Error : Type 0 where
  http status io : ℕ → Error
  bad_url_text : Error
  format : FormatReason → Error
  corrupt_pack corrupt_pack_index : Error

pub record Response : Type 0 where
  pub status : ℕ
  -- the body, or the error that reading it ends with
  pub body : Result ℕ (List ℕ)

pub data RemoteResource : Type 0 where
  found : List ℕ → RemoteResource
  not_modified not_found : RemoteResource

-- What the code calls: the url crate, the server, and the operating system.
pub record Net : Type 0 where
  pub parse_url : Str → Option Url
  pub join : Str → Str → Option Str
  pub url_path : Url → Str
  pub path_segments : Url → Option (List Str)
  pub set_path : Url → Str → Url
  -- the answer to a request, with the time of `If-Modified-Since`
  pub get : Url → Option ℕ → Result ℕ Response
  pub modified : FilePath → Option ℕ
  pub read_fault : FilePath → Option ℕ
  pub create_fault : FilePath → Option ℕ
  -- how many bytes are written before the error
  pub write_fault : FilePath → Option (ℕ × ℕ)
  pub sha1 : List ℕ → ObjectChecksum

abbrev pub Files : Type 0
Files = FilePath → Option (List ℕ)

abbrev pub update : Files → FilePath → List ℕ → Files
update files p bytes x = if p == x then some bytes else files x

-- ".esi", ".v", ".v2.esi", ".idx"
abbrev pub dot_esi : Str
dot_esi = dot ∷ b'e' ∷ b's' ∷ b'i' ∷ []

abbrev pub dot_v : Str
dot_v = dot ∷ b'v' ∷ []

abbrev pub dot_v2_esi : Str
dot_v2_esi = dot ∷ b'v' ∷ b'2' ∷ dot ∷ b'e' ∷ b's' ∷ b'i' ∷ []

abbrev pub dot_idx : Str
dot_idx = dot ∷ b'i' ∷ b'd' ∷ b'x' ∷ []

abbrev pub dot_pack : Str
dot_pack = dot ∷ b'p' ∷ b'a' ∷ b'c' ∷ b'k' ∷ []

-- `rsplit_once`: around the last place where the separator stands
unfoldable pub rsplit_once : Str → Str → Option (Str × Str)
rsplit_once separator [] = none
rsplit_once separator (c ∷ s) = elim (rsplit_once separator s) [
  | some (front, back) ↦ some (c ∷ front, back)
  | none ↦ elim (strip_prefix separator (c ∷ s)) [ some back ↦ some ([], back) | none ↦ none ]
]

abbrev pub last : List Str → Option Str
last [] = none
last (s ∷ []) = some s
last (s ∷ t ∷ ss) = last (t ∷ ss)

abbrev pub bind_option {ℓ κ} : {A : Type ℓ} {B : Type κ} → Option A → (A → Option B) → Option B
bind_option none f = none
bind_option (some a) f = f a

abbrev pub all_digits : Str → Bool
all_digits [] = true
all_digits (c ∷ cs) = leb b'0' c && leb c b'9' && all_digits cs

unfoldable pub meta_beq : MetaVersion → MetaVersion → Bool
meta_beq v1 v1 = true
meta_beq v2 v2 = true
meta_beq _ _ = false

-- `file_name`: `unwrap` where the URL has no '/'
unfoldable pub file_name : RemotePack → Run Str
unfolding rsplit_once
file_name p = elim (rsplit_once (slash ∷ []) p.url) [
  | none ↦ panics
  | some (front, back) ↦ returns back
]

unfoldable pub find_named : Str → List RemotePack → Run (Option RemotePack)
find_named name [] = returns none
find_named name (p ∷ ps) =
    let rest = find_named name ps in
    file_name p >>= λ n. (if n == name then returns (some p) else rest)

unfoldable pub find_pack : RemoteIndex → Str → Run (Option RemotePack)
find_pack remote pack_name = find_named (pack_name ++ dot_pack) remote.packs

module _ (n : Net) (c : Calls) where
  unfoldable pub resolved_entry_url : Document → Entry → Result FormatError Str
  resolved_entry_url doc e = and_then (validate_index_url c doc.url) λ _.
      and_then (validate_field_value c e.url)
        λ _. (elim (n.join doc.url e.url) [ none ↦ err bad_url | some url ↦ ok url ])

  unfoldable pub remote_packs : Document → List Entry → Result FormatError (List RemotePack)
  remote_packs doc [] = ok []
  remote_packs doc (e ∷ es) = and_then (resolved_entry_url doc e) λ url.
      and_then (remote_packs doc es) λ rest. ok (
        record {
          url = url;
          index_checksum = e.index_checksum;
          pack_checksum = e.pack_checksum;
          pack_size = e.pack_size;
          index_size = e.index_size;
        }
        ∷ rest)

  unfoldable pub from_document : Document → Result Error RemoteIndex
  from_document doc =
      map_err (λ e. format (document e))
        (and_then (remote_packs doc (entries doc))
          λ packs. ok (record { path = none; meta = doc.meta; url = doc.url; packs = packs }))

  -- `RemoteIndex::read`
  unfoldable pub read : List ℕ → Result Error RemoteIndex
  read bytes =
      and_then (map_err (λ e. format (document e)) (Parse.parse c bytes)) λ doc. from_document doc

  unfoldable pub load : Files → FilePath → Result Error RemoteIndex
  load files path = elim (n.read_fault path) [
    | some e ↦ err (io e)
    | none ↦ elim (files path) [
      | none ↦ err (io 2)
      | some bytes ↦ and_then (read bytes) λ remote. ok (record remote { path = some path })
    ]
  ]

unfoldable pub require_found : RemoteResource → Run (Result Error (List ℕ))
require_found (found body) = returns (ok body)
require_found not_modified = panics
require_found not_found = returns (err (status 404))

module _ (n : Net) where
  abbrev pub version_of : Url → Option Str
  version_of url = bind_option (n.path_segments url) λ segments.
      bind_option (last segments) λ file_name.
        bind_option (strip_suffix dot_esi file_name)
          λ stem. bind_option (rsplit_once dot_v stem) λ parts. some parts.1

  unfoldable pub is_versioned_endpoint : Url → Bool
  is_versioned_endpoint url = elim (version_of url) [
    | none ↦ false
    | some version ↦ not (version == []) && all_digits version
  ]

  abbrev pub known_version : Str → Option MetaVersion
  known_version version =
      if version == (b'1' ∷ []) then some v1 else if version == (b'2' ∷ []) then some v2 else none

  unfoldable pub endpoint_version : Url → Option MetaVersion
  endpoint_version url = bind_option (version_of url) λ version. known_version version

  unfoldable pub v2_sibling_url : Url → Option Url
  v2_sibling_url url =
      if is_versioned_endpoint url
      then none
      else bind_option (strip_suffix dot_esi (n.url_path url))
          (λ stem. some (n.set_path url (stem ++ dot_v2_esi)))

  -- `none` is `Ok(())`
  unfoldable pub validate_endpoint_version : Url → MetaVersion → Option Error
  validate_endpoint_version url meta =
      if is_versioned_endpoint url
      then elim (endpoint_version url) [
        | none ↦ some (format unsupported_endpoint)
        | some expected ↦
            if meta_beq expected meta then none else some (format (wrong_version expected meta))
      ]
      else if is_some (strip_suffix dot_esi (n.url_path url)) && not (meta_beq meta v1)
      then some (format (unversioned_endpoint meta))
      else none

  unfoldable pub open_remote_resource : Url → Option ℕ → Result Error (Result ℕ RemoteResource)
  open_remote_resource url since = and_then (map_err http (n.get url since)) λ response.
      if eqb response.status 200
      then ok (and_then response.body (λ bytes. ok (found bytes)))
      else if eqb response.status 304
      then ok (ok not_modified)
      else if eqb response.status 404
      then ok (ok not_found)
      else err (status response.status)

  -- the body is read to its end
  unfoldable pub read_remote_resource : Url → Option ℕ → Result Error RemoteResource
  read_remote_resource url since =
      and_then (open_remote_resource url since) λ resource. map_err http resource

  -- `create_file(path)?.write_all(data)`: creating the file empties it
  unfoldable pub write_file : Files → FilePath → List ℕ → Files × Option Error
  write_file files path bytes = elim (n.create_fault path) [
    | some e ↦ (files, some (io e))
    | none ↦ elim (n.write_fault path) [
      | none ↦ (update files path bytes, none)
      | some (written, e) ↦ (update files path (take written bytes), some (io e))
    ]
  ]
