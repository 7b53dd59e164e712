-- ===== src/Repo/Remote/Install.antt =====
-- The remote index of repo/remote.rs: what a fetch has stored, and what a failed one leaves.
use elfshaker.Prelude.{
  ℕ, ◌≡◌, ◌⊎◌, refl, sym, ◌∙◌, subst, Bool, true, false, Option, none, some, List, ok, err, returns,
  Result-cases, Option-cases, inl, inr, list_eq, nat_eq, ap, Bool-cases, ◌++◌,
}
use elfshaker.Esi.{Str, MetaVersion, v1, v2, Calls}
use elfshaker.Repo.Id.Safety.{strip_suffix-append}
use elfshaker.Repo.Remote.{
  FilePath, Url, RemoteIndex, Error, io, found, not_modified, not_found, Net, Files, update, read,
  v2_sibling_url, validate_endpoint_version, read_remote_resource, require_found, write_file,
  is_versioned_endpoint, endpoint_version, meta_beq, dot_esi,
}
use elfshaker.Repo.Remote.Transfer.{
  written, install_remote, fetch_from, fetch_sibling, fetch_remote,
}

abbrev pub is_io : Error → Bool
is_io (io e) = true
is_io _ = false

meta_beq→eq : (a b : MetaVersion) → meta_beq a b ≡ true → a ≡ b
unfolding meta_beq
meta_beq→eq v1 v1 h = refl
meta_beq→eq v1 v2 h = cc
meta_beq→eq v2 v1 h = cc
meta_beq→eq v2 v2 h = refl

written-ok :
    (path : FilePath) (r : RemoteIndex) (w : Files × Option Error) (remote : RemoteIndex)
    (files' : Files)
    → written path r w ≡ (files', ok remote)
    → (w.1 ≡ none) × (files' ≡ w.0) × (remote ≡ record r { path = some path })
written-ok path r (files, some e) remote files' h = cc
written-ok path r (files, none) remote files' h = (refl, cc, cc)

module _ (n : Net) where
  -- A write that fails fails with an error of the operating system.
  pub write_file_lem :
      (files files' : Files) (path : FilePath) (bytes : List ℕ) (e : Option Error)
      → write_file n files path bytes ≡ (files', e)
      → ((e ≡ none) × (files' ≡ update files path bytes)) ⊎ ((k : ℕ) × (e ≡ some (io k)))
  unfolding write_file
  write_file_lem files files' path bytes e h = elim (Option-cases (n.create_fault path)) [
    | inr (k, bad) ↦ inr (k, cc (rw (bad, write_file) at h))
    | inl fine ↦ elim (Option-cases (n.write_fault path)) [
      | inr ((w, k), bad) ↦ inr (k, cc (rw (fine, bad, write_file) at h))
      | inl good ↦
          inl (cc (rw (fine, good, write_file) at h), cc (rw (fine, good, write_file) at h))
    ]
  ]

  -- A versioned endpoint has an index of its version, and another one that ends in ".esi" one of
  -- the first version.
  pub record IsVersion (url : Url) (meta : MetaVersion) : Type 0 where
    pub versioned : is_versioned_endpoint n url ≡ true → endpoint_version n url ≡ some meta
    pub unversioned :
        (stem : Str)
        → is_versioned_endpoint n url ≡ false
        → n.url_path url ≡ stem ++ dot_esi
        → meta ≡ v1

  validate_endpoint_version-IsVersion :
      (url : Url) (meta : MetaVersion)
      → validate_endpoint_version n url meta ≡ none
      → IsVersion url meta
  unfolding validate_endpoint_version
  validate_endpoint_version-IsVersion url meta h = record {
    versioned = λ v. elim (Option-cases (endpoint_version n url)) [
      | inl bad ↦ cc (rw (v, bad, validate_endpoint_version) at h)
      | inr (expected, e) ↦ elim (Bool-cases (meta_beq expected meta)) [
        | inr other ↦ cc (rw (v, e, other, validate_endpoint_version) at h)
        | inl same ↦ e ∙ ap some (meta_beq→eq expected meta same)
      ]
    ];
    unversioned = λ stem plain path. elim (Bool-cases (meta_beq meta v1)) [
      | inl same ↦ meta_beq→eq meta v1 same
      | inr other ↦
          let stripped = strip_suffix-append dot_esi stem in
          cc (rw (plain, path, stripped, other, validate_endpoint_version) at h)
    ];
  }

  module _ (c : Calls) where
    -- The bytes that the endpoint sent were stored, and are an index of the version it asks for.
    pub record Fetched (files files' : Files) (path : FilePath) (remote : RemoteIndex) (url : Url)
        (bytes : List ℕ) : Type 0 where
      pub stored : files' ≡ update files path bytes
      pub parsed :
          (r : RemoteIndex) × (read n c bytes ≡ ok r) × (remote ≡ record r { path = some path })
      pub version : IsVersion url remote.meta

    install_remote-Fetched :
        (files files' : Files) (path : FilePath) (url : Url) (bytes : List ℕ) (remote : RemoteIndex)
        → install_remote n c files path url bytes ≡ (files', ok remote)
        → Fetched files files' path remote url bytes
    unfolding install_remote
    install_remote-Fetched files files' path url bytes remote h =
        elim (Result-cases (read n c bytes)) [
          | inl (e, bad) ↦ cc (rw (bad, install_remote) at h)
          | inr (r, good) ↦ elim (Option-cases (validate_endpoint_version n url r.meta)) [
            | inr (e, bad) ↦ cc (rw (good, bad, install_remote) at h)
            | inl fits ↦
                let w = write_file n files path bytes in
                let h' : written path r w ≡ (files', ok remote) =
                  rw (good, fits, install_remote) at h in
                elim (write_file_lem files w.0 path bytes w.1 refl) [
                  | inr (k, bad) ↦ let (none_, _, _) = written-ok path r w remote files' h' in cc
                  | inl (fine, all) ↦
                      let (_, e, f) = written-ok path r w remote files' h' in
                      record {
                        stored = e ∙ all;
                        parsed = (r, good, f);
                        version = rw f (validate_endpoint_version-IsVersion url r.meta fits);
                      }
                ]
          ]
        ]

    -- an answer with the bytes, and what was stored of them
    abbrev pub FetchedFrom : Files → Files → FilePath → RemoteIndex → Url → Type 0
    FetchedFrom files files' path remote url =
        (bytes : List ℕ) × (read_remote_resource n url none ≡ ok (found bytes))
        × Fetched files files' path remote url bytes

    fetch_from-Fetched :
        (files files' : Files) (path : FilePath) (url : Url) (remote : RemoteIndex)
        → fetch_from n c files path url ≡ returns (files', ok remote)
        → FetchedFrom files files' path remote url
    unfolding fetch_from require_found
    fetch_from-Fetched files files' path url remote h =
        elim (Result-cases (read_remote_resource n url none)) [
          | inl (e, bad) ↦ cc (rw (bad, fetch_from) at h)
          | inr (not_modified, got) ↦ cc (rw (got, fetch_from) at h)
          | inr (not_found, got) ↦ cc (rw (got, fetch_from) at h)
          | inr (found bytes, got) ↦ (
            bytes,
            got,
            install_remote-Fetched files files' path url bytes remote
                (cc (rw (got, fetch_from) at h)),
          )
        ]

    -- A fetch that succeeds has stored, at the path and nowhere else, what the given URL or its
    -- sibling of the second version sent: a remote index that parses. A versioned endpoint has an
    -- index of its version, and another one that ends in ".esi" one of the first. The given URL is asked where it has no sibling or the server does not.
    pub fetch_remote-Fetched :
        (files files' : Files) (text : Str) (path : FilePath) (remote : RemoteIndex)
        → fetch_remote n c files text path ≡ returns (files', ok remote)
        → (supplied : Url) × (n.parse_url text ≡ some supplied)
          × (((versioned : Url) × (v2_sibling_url n supplied ≡ some versioned)
                × FetchedFrom files files' path remote versioned)
              ⊎ (((v2_sibling_url n supplied ≡ none)
                    ⊎ ((versioned : Url) × (v2_sibling_url n supplied ≡ some versioned)
                        × (read_remote_resource n versioned none ≡ ok not_found)))
                  × FetchedFrom files files' path remote supplied))
    unfolding fetch_remote fetch_sibling
    fetch_remote-Fetched files files' text path remote h = elim (Option-cases (n.parse_url text)) [
      | inl bad ↦ cc (rw (bad, fetch_remote) at h)
      | inr (supplied, ok_) ↦ elim (Option-cases (v2_sibling_url n supplied)) [
        | inl alone ↦ (
          supplied,
          ok_,
          inr (
            inl alone,
            fetch_from-Fetched files files' path supplied remote
                (rw (ok_, alone, fetch_remote) at h),
          ),
        )
        | inr (versioned, sibling) ↦ elim (Result-cases (read_remote_resource n versioned none)) [
          | inl (e, bad) ↦ cc (rw (ok_, sibling, bad, fetch_remote) at h)
          | inr (not_modified, got) ↦ cc (rw (ok_, sibling, got, fetch_remote, fetch_sibling) at h)
          | inr (not_found, got) ↦ (
            supplied,
            ok_,
            inr (
              inr (versioned, sibling, got),
              fetch_from-Fetched files files' path supplied remote
                  (rw (ok_, sibling, got, fetch_remote, fetch_sibling) at h),
            ),
          )
          | inr (found bytes, got) ↦ (
            supplied,
            ok_,
            inl (
              versioned,
              sibling,
              (
                bytes,
                got,
                install_remote-Fetched files files' path versioned bytes remote
                    (cc (rw (ok_, sibling, got, fetch_remote, fetch_sibling) at h)),
              ),
            ),
          )
        ]
      ]
    ]

    pub install_remote_failed :
        (files files' : Files) (path : FilePath) (url : Url) (bytes : List ℕ) (e : Error)
        → install_remote n c files path url bytes ≡ (files', err e)
        → is_io e ≡ false
        → files' ≡ files
    unfolding install_remote
    install_remote_failed files files' path url bytes e h k = elim (Result-cases (read n c bytes)) [
      | inl (bad, p) ↦ cc (rw (p, install_remote) at h)
      | inr (r, p) ↦ elim (Option-cases (validate_endpoint_version n url r.meta)) [
        | inr (bad, q) ↦ cc (rw (p, q, install_remote) at h)
        | inl q ↦
            let w = write_file n files path bytes in
            written_failed path r w files' e (rw (p, q, install_remote) at h)
              (write_file_lem files w.0 path bytes w.1 refl) k
      ]
    ]
      where
        written_failed :
            (at_ : FilePath) (r : RemoteIndex) (w : Files × Option Error) (files2 : Files)
            (x : Error)
            → written at_ r w ≡ (files2, err x)
            → ((w.1 ≡ none) × (w.0 ≡ update files at_ bytes)) ⊎ ((j : ℕ) × (w.1 ≡ some (io j)))
            → is_io x ≡ false
            → files2 ≡ files
        written_failed at_ r (fs, none) files2 x g u q = cc
        written_failed at_ r (fs, some y) files2 x g (inl (a, b)) q = cc
        written_failed at_ r (fs, some y) files2 x g (inr (j, a)) q =
            let t : y ≡ io j = cc in
            let s : y ≡ x = cc in
            let z : is_io x ≡ true = subst (λ d. is_io d ≡ true) (sym t ∙ s) refl in cc
