-- ===== src/Esi/Remove.antt =====
-- `remove` of esi.rs.
use elfshaker.Prelude.{
  ◌≡◌, refl, ◌∙◌, arith, Bool, true, false, not, none, some, List, [], ◌∷◌, ◌&&◌, ◌⊎◌, ok, err,
  contains, Bool-cases, Option-cases, inl, inr, subst, list_beq_iff, ◌==◌, list_eq, nat_eq,
}
use elfshaker.Esi.{
  Str, does_not_exist, Entry, blank, entry, meta_line, url_line, LineKind, Line, Document,
  entries_of, is_entry_for, at_position, remove,
}
use elfshaker.Esi.Edit.{urls_of, HasUniqueUrls}

-- what taking out the line of a URL leaves
pub record Removes (ls : List Line) (url : Str) (ls' : List Line) : Type 0 where
  pub members : (x : Str) → contains (urls_of ls') x ≡ (contains (urls_of ls) x && not (url == x))
  pub unique : HasUniqueUrls ls'

at_position-here :
    (url : Str) (l : Line) (ls : List Line)
    → is_entry_for url l ≡ true
    → (e : Entry) × (entries_of (l ∷ ls) ≡ e ∷ entries_of ls) × (e.url ≡ url)
unfolding is_entry_for
at_position-here url l ls h = entry_here url l.kind l refl ls h
  where
    entry_here :
        (u : Str) (k : LineKind) (m : Line)
        → m.kind ≡ k
        → (ms : List Line) → is_entry_for u m ≡ true
        → (e : Entry) × (entries_of (m ∷ ms) ≡ e ∷ entries_of ms) × (e.url ≡ u)
    entry_here u (entry e) m p ms q = (e, rw p refl, (list_beq_iff e.url u).0 (rw p at q))
    entry_here u meta_line m p ms q = cc (rw p at q)
    entry_here u url_line m p ms q = cc (rw p at q)
    entry_here u blank m p ms q = cc (rw p at q)

entries_of-cases :
    (l : Line)
    → ((e : Entry) × ((ls : List Line) → entries_of (l ∷ ls) ≡ e ∷ entries_of ls))
      ⊎ ((ls : List Line) → entries_of (l ∷ ls) ≡ entries_of ls)
entries_of-cases l = of_kind l.kind l refl
  where
    of_kind :
        (k : LineKind) (m : Line)
        → m.kind ≡ k
        → ((e : Entry) × ((ms : List Line) → entries_of (m ∷ ms) ≡ e ∷ entries_of ms))
          ⊎ ((ms : List Line) → entries_of (m ∷ ms) ≡ entries_of ms)
    of_kind (entry e) m p = inl (e, λ ms. rw p refl)
    of_kind meta_line m p = inr (λ ms. rw p refl)
    of_kind url_line m p = inr (λ ms. rw p refl)
    of_kind blank m p = inr (λ ms. rw p refl)

HasUniqueUrls-tail : (l : Line) (ls : List Line) → HasUniqueUrls (l ∷ ls) → HasUniqueUrls ls
unfolding HasUniqueUrls
HasUniqueUrls-tail l ls u = elim (entries_of-cases l) [
  | inl (e, whole) ↦ (rw (whole ls) at u).1
  | inr whole ↦ rw (whole ls) at u
]

-- the line for the URL is taken out of the lines behind an entry with another URL
Removes-cons :
    (url : Str) (l : Line) (ls ls' : List Line)
    → is_entry_for url l ≡ false
    → HasUniqueUrls (l ∷ ls)
    → Removes ls url ls'
    → Removes (l ∷ ls) url (l ∷ ls')
unfolding is_entry_for HasUniqueUrls
Removes-cons url l ls ls' other u r = record {
  members = λ x. ground (arith, r.members x, other, list_beq_iff url x);
  unique = elim (entries_of-cases l) [
    | inl (e, whole) ↦
        let (once, _) = rw (whole ls) at u in
        let before : contains (urls_of ls) e.url ≡ false = once in
        let gone : contains (urls_of ls') e.url ≡ false = ground (arith, r.members e.url, before) in
        rw (whole ls') (gone, r.unique)
    | inr whole ↦ rw (whole ls') r.unique
  ];
}

at_position-Removes :
    (url : Str) (ls ls' : List Line)
    → HasUniqueUrls ls
    → at_position url (λ _. []) ls ≡ some ls'
    → Removes ls url ls'
unfolding at_position HasUniqueUrls
at_position-Removes url [] ls' u h = cc
at_position-Removes url (l ∷ ls) ls' u h = elim (Bool-cases (is_entry_for url l)) [
  | inl here ↦
      let (e, whole, same) = at_position-here url l ls here in
      let rest : ls ≡ ls' = cc (rw (here, at_position) at h) in
      let (once, d) = rw whole at u in
      subst (λ k. Removes (l ∷ ls) url k) rest
        (record {
          members = λ x. rw whole (elim (Bool-cases (url == x)) [
            | inl named ↦
                let p : e.url ≡ x = same ∙ (list_beq_iff url x).0 named in
                let gone : contains (urls_of ls) x ≡ false =
                  subst (λ k. contains (urls_of ls) k ≡ false) p once in
                rw (gone, named) (ground arith)
            | inr different ↦
                ground (arith, same, list_beq_iff e.url x, list_beq_iff url x, different)
          ]);
          unique = d;
        })
  | inr other ↦ elim (Option-cases (at_position url (λ _. []) ls)) [
    | inl missing ↦ cc (rw (other, missing, at_position) at h)
    | inr (rest, there) ↦
        let whole : l ∷ rest ≡ ls' = cc (rw (other, there, at_position) at h) in
        subst (λ k. Removes (l ∷ ls) url k) whole
          (Removes-cons url l ls rest other u
            (at_position-Removes url ls rest (HasUniqueUrls-tail l ls u) there))
  ]
]

at_position-inv :
    (url : Str) (ls : List Line)
    → at_position url (λ _. []) ls ≡ none
    → contains (urls_of ls) url ≡ false
unfolding at_position is_entry_for
at_position-inv url [] h = refl
at_position-inv url (l ∷ ls) h = elim (Bool-cases (is_entry_for url l)) [
  | inl here ↦ cc (rw (here, at_position) at h)
  | inr other ↦ elim (Option-cases (at_position url (λ _. []) ls)) [
    | inl missing ↦ ground (arith, other, at_position-inv url ls missing)
    | inr (rest, there) ↦ cc (rw (other, there, at_position) at h)
  ]
]

at_position_found :
    (url : Str) (ls ls' : List Line)
    → at_position url (λ _. []) ls ≡ some ls'
    → contains (urls_of ls) url ≡ true
unfolding at_position is_entry_for
at_position_found url [] ls' h = cc
at_position_found url (l ∷ ls) ls' h = elim (Bool-cases (is_entry_for url l)) [
  | inl here ↦
      let (e, whole, same) = at_position-here url l ls here in
      rw whole (ground (arith, same, list_beq_iff e.url url))
  | inr other ↦ elim (Option-cases (at_position url (λ _. []) ls)) [
    | inl missing ↦ cc (rw (other, missing, at_position) at h)
    | inr (rest, there) ↦ elim (entries_of-cases l) [
      | inl (e, whole) ↦ rw (whole ls) (ground (arith, at_position_found url ls rest there))
      | inr whole ↦ rw (whole ls) (at_position_found url ls rest there)
    ]
  ]
]

-- In a document whose URLs are different, a removal fails exactly where it is not forced and the
-- URL has no entry, and then names that error; where it succeeds, since it is forced or the URL
-- has an entry, the URL is gone, every other URL is there as before, and the URLs are still
-- different.
pub remove-Removes :
    (doc : Document) (url : Str) (force : Bool)
    → HasUniqueUrls doc.lines
    → ((remove doc url force ≡ err does_not_exist)
        × (force ≡ false)
        × (contains (urls_of doc.lines) url ≡ false))
      ⊎ (((force ≡ true) ⊎ (contains (urls_of doc.lines) url ≡ true))
          × ((doc' : Document) × (remove doc url force ≡ ok doc')
              × Removes doc.lines url doc'.lines))
unfolding remove
remove-Removes doc url force u = elim (Option-cases (at_position url (λ _. []) doc.lines)) [
  | inr (rest, there) ↦ inr (
    inr (at_position_found url doc.lines rest there),
    (
      record doc { lines = rest },
      rw (there, remove) refl,
      at_position-Removes url doc.lines rest u there,
    ),
  )
  | inl missing ↦
      let absent = at_position-inv url doc.lines missing in
      elim (Bool-cases force) [
        | inl forced ↦ inr (
          inl forced,
          (
            doc,
            rw (missing, forced, remove) refl,
            record { members = λ x. ground (arith, absent, list_beq_iff url x); unique = u },
          ),
        )
        | inr plain ↦ inl (rw (missing, plain, remove) refl, plain, absent)
      ]
]
