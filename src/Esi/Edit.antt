-- ===== src/Esi/Edit.antt =====
-- `add` and `remove` of esi.rs.
use elfshaker.Prelude.{
  ℕ, ◌≡◌, refl, ap, ◌∙◌, arith, Bool, true, false, none, some, List, [], ◌∷◌, ◌++◌, ◌||◌, map, ok,
  contains, Bool-cases, Result-cases, inl, inr, subst, list_beq_iff, ==_refl, list_eq, nat_eq,
}
use elfshaker.HashSet.{IsDistinct}
use elfshaker.Esi.{
  Str, Entry, entry, Line, Document, Calls, entries_of, entries, is_entry_for, at_position, remove,
  end_last, ended_with_newline, push_line, put, add, canonical_line, preferred_line_ending,
  validate_field_value, validate_index_url, check_join,
}

abbrev pub urls_of : List Line → List Str
urls_of ls = map (λ e. e.url) (entries_of ls)

-- no two entries have one URL
unfoldable pub HasUniqueUrls : List Line → Type 0
HasUniqueUrls ls = IsDistinct (urls_of ls)

entries_of-append : (ls ms : List Line) → entries_of (ls ++ ms) ≡ entries_of ls ++ entries_of ms
entries_of-append [] ms = refl
entries_of-append (l ∷ ls) ms = ground (arith, entries_of-append ls ms)

entries_of-end_last :
    (ending : List ℕ) (ls : List Line) → entries_of (end_last ending ls) ≡ entries_of ls
unfolding end_last
entries_of-end_last ending [] = refl
entries_of-end_last ending (l ∷ []) = refl
entries_of-end_last ending (l ∷ m ∷ ls) = ground (arith, entries_of-end_last ending (m ∷ ls))

entries_of-push_line :
    (canonical : List ℕ) (e : Entry) (ls : List Line)
    → entries_of (push_line canonical e ls) ≡ entries_of ls ++ e ∷ []
unfolding push_line
entries_of-push_line canonical e ls = elim (Bool-cases (ended_with_newline ls)) [
  | inl there ↦
      rw (there, push_line)
        (entries_of-append ls
          (record { content = canonical; ending = preferred_line_ending ls; kind = entry e } ∷ []))
  | inr bare ↦
      rw (bare, push_line)
        (entries_of-append (end_last (preferred_line_ending ls) ls)
            (record { content = canonical; ending = []; kind = entry e } ∷ [])
          ∙ ap (λ x. x ++ e ∷ []) (entries_of-end_last (preferred_line_ending ls) ls))
]

-- the URL has no line
at_position-none :
    (url : Str) (change : Line → List Line) (ls : List Line)
    → contains (urls_of ls) url ≡ false
    → at_position url change ls ≡ none
unfolding at_position is_entry_for
at_position-none url change [] h = refl
at_position-none url change (l ∷ ls) h = ground (arith, at_position-none url change ls)

contains_of-urls_of-append :
    (x : Str) (es fs : List Entry)
    → contains (map (λ e. e.url) (es ++ fs)) x
      ≡ (contains (map (λ e. e.url) es) x || contains (map (λ e. e.url) fs) x)
contains_of-urls_of-append x [] fs = refl
contains_of-urls_of-append x (e ∷ es) fs = ground (arith, contains_of-urls_of-append x es fs)

IsDistinct-snoc :
    (es : List Entry) (e : Entry)
    → IsDistinct (map (λ e. e.url) es)
    → contains (map (λ e. e.url) es) e.url ≡ false
    → IsDistinct (map (λ e. e.url) (es ++ e ∷ []))
IsDistinct-snoc [] e d h = (refl, tt)
IsDistinct-snoc (x ∷ es) e (once, d) h = (
  ground (
    arith,
    contains_of-urls_of-append x.url es (e ∷ []),
    once,
    list_beq_iff x.url e.url,
    list_beq_iff e.url x.url,
    h,
  ),
  IsDistinct-snoc es e d (ground (arith, h)),
)

tail-fresh :
    (url : Str) (l : Line) (ls : List Line)
    → contains (urls_of (l ∷ ls)) url ≡ false
    → contains (urls_of ls) url ≡ false
tail-fresh url l ls h = ground (arith, h)

is_entry_for-fresh :
    (url : Str) (l : Line) (ls : List Line)
    → contains (urls_of (l ∷ ls)) url ≡ false
    → is_entry_for url l ≡ false
unfolding is_entry_for
is_entry_for-fresh url l ls h = ground (arith, h)

at_position-last :
    (url : Str) (ls : List Line) (l : Line)
    → contains (urls_of ls) url ≡ false
    → is_entry_for url l ≡ true
    → at_position url (λ _. []) (ls ++ l ∷ []) ≡ some ls
unfolding at_position
at_position-last url [] l h last = rw (last, at_position) refl
at_position-last url (m ∷ ls) l h last =
    rw
      (
        is_entry_for-fresh url m ls h,
        at_position-last url ls l (tail-fresh url m ls h) last,
        at_position,
      )
      refl

at_position-push_line :
    (canonical : List ℕ) (e : Entry) (ls : List Line)
    → contains (urls_of ls) e.url ≡ false
    → (ls' : List Line) × (at_position e.url (λ _. []) (push_line canonical e ls) ≡ some ls')
      × (entries_of ls' ≡ entries_of ls)
unfolding push_line is_entry_for
at_position-push_line canonical e ls h = elim (Bool-cases (ended_with_newline ls)) [
  | inl there ↦ (
    ls,
    rw (there, push_line)
        (at_position-last e.url ls
          (record { content = canonical; ending = preferred_line_ending ls; kind = entry e }) h
          (==_refl e.url)),
    refl,
  )
  | inr bare ↦
      let same = entries_of-end_last (preferred_line_ending ls) ls in
      (
        end_last (preferred_line_ending ls) ls,
        rw (bare, push_line)
            (at_position-last e.url (end_last (preferred_line_ending ls) ls)
              (record { content = canonical; ending = []; kind = entry e }) (rw same h)
              (==_refl e.url)),
        same,
      )
]

module _ (c : Calls) where
  add_inv :
      (doc doc' : Document) (e : Entry) (force : Bool)
      → add c doc e force ≡ ok doc'
      → (canonical : List ℕ) × (canonical_line c doc.meta e ≡ ok canonical)
        × (put c doc e canonical force ≡ ok doc')
  unfolding add
  add_inv doc doc' e force h = elim (Result-cases (validate_field_value c e.url)) [
    | inl (x, bad) ↦ cc (rw (bad, add) at h)
    | inr (_, field) ↦ elim (Result-cases (validate_index_url c doc.url)) [
      | inl (x, bad) ↦ cc (rw (field, bad, add) at h)
      | inr (_, base) ↦ elim (Result-cases (check_join c doc.url e.url)) [
        | inl (x, bad) ↦ cc (rw (field, base, bad, add) at h)
        | inr (_, joined) ↦ elim (Result-cases (canonical_line c doc.meta e)) [
          | inl (x, bad) ↦ cc (rw (field, base, joined, bad, add) at h)
          | inr (canonical, good) ↦ (canonical, good, rw (field, base, joined, good, add) at h)
        ]
      ]
    ]
  ]

  put-fresh :
      (doc : Document) (e : Entry) (canonical : List ℕ) (force : Bool)
      → contains (urls_of doc.lines) e.url ≡ false
      → put c doc e canonical force ≡ ok (record doc { lines = push_line canonical e doc.lines })
  unfolding put
  put-fresh doc e canonical force h =
      rw
        (
          at_position-none e.url (λ l. record l { content = canonical; kind = entry e } ∷ [])
              doc.lines h,
          put,
        )
        refl

  -- what adding an entry with a URL that is not in the document gives
  pub record Adds (doc : Document) (e : Entry) (doc' : Document) : Type 0 where
    pub added : entries doc' ≡ entries doc ++ e ∷ []
    pub unique : HasUniqueUrls doc.lines → HasUniqueUrls doc'.lines
    pub undone :
        (force : Bool)
        → (back : Document) × (remove doc' e.url force ≡ ok back) × (entries back ≡ entries doc)

  -- Where adding an entry whose URL is new succeeds, the entry is the last of the document and
  -- the others are as they were, no URL stands twice where none did, and removing the URL
  -- again gives the entries from before.
  pub add-Adds :
      (doc doc' : Document) (e : Entry) (force : Bool)
      → contains (urls_of doc.lines) e.url ≡ false
      → add c doc e force ≡ ok doc'
      → Adds doc e doc'
  unfolding entries remove HasUniqueUrls
  add-Adds doc doc' e force fresh h =
      let (canonical, line, stored) = add_inv doc doc' e force h in
      let same : record doc { lines = push_line canonical e doc.lines } ≡ doc' =
        cc (stored, put-fresh doc e canonical force fresh) in
      let pushed = entries_of-push_line canonical e doc.lines in
      let (ls', gone, entries') = at_position-push_line canonical e doc.lines fresh in
      subst (λ d. Adds doc e d) same
        (record {
          added = pushed;
          unique = λ u. rw pushed (IsDistinct-snoc (entries_of doc.lines) e u fresh);
          undone = λ again. (record doc { lines = ls' }, rw (gone, remove) refl, entries');
        })
