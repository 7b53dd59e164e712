-- ===== src/Esi/Create.antt =====
-- `create` of esi.rs: a new document has no entry.
use elfshaker.Prelude.{
  ◌≡◌, refl, sym, ap, ◌∙◌, Bool, [], ◌∷◌, List, Result, ok, err, Result-cases, inl, inr, ◌++◌,
  list_eq, nat_eq,
}
use elfshaker.Esi.{
  Str, MetaVersion, FormatError, Entry, Document, Calls, entries, entries_of, validate_index_url,
  create, add,
}
use elfshaker.Esi.Edit.{HasUniqueUrls, add-Adds}

abbrev entries_or : Result FormatError Document → List Entry
entries_or (ok doc) = entries_of doc.lines
entries_or (err e) = []

module _ (c : Calls) where
  create-entries_of :
      (meta : MetaVersion) (url : Str) (doc : Document)
      → create c meta url ≡ ok doc
      → entries_of doc.lines ≡ []
  unfolding create
  create-entries_of meta url doc h = elim (Result-cases (validate_index_url c url)) [
    | inl (e, bad) ↦ cc (rw (bad, create) at h)
    | inr (u, good) ↦ ap entries_or (sym (rw (good, create) at h))
  ]

  -- An entry that is added to a new document is its only one.
  create-add :
      (meta : MetaVersion) (url : Str) (doc doc' : Document) (e : Entry) (force : Bool)
      → create c meta url ≡ ok doc
      → add c doc e force ≡ ok doc'
      → (entries doc' ≡ e ∷ []) × HasUniqueUrls doc'.lines
  unfolding HasUniqueUrls entries
  create-add meta url doc doc' e force made added =
      let none = create-entries_of meta url doc made in
      let a = add-Adds c doc doc' e force (rw none refl) added in
      (a.added ∙ ap (λ l. l ++ e ∷ []) none, a.unique (rw none tt))
