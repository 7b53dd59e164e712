-- ===== src/Esi/Parse/Unique.antt =====
-- `Document::parse` of esi.rs accepts no URL twice.
use elfshaker.Prelude.{
  ℕ, ◌≡◌, refl, sym, arith, true, false, List, [], ◌∷◌, ok, and_then, contains, Bool-cases,
  Result-cases, inl, inr, subst, list_beq_iff, ==_refl, list_eq, nat_eq,
}
use elfshaker.Esi.{Str, MetaVersion, blank, entry, Line, Document, Calls}
use elfshaker.Esi.Parse.{all_blank, parse_entry, parse_rest, parse, split_lines}
use elfshaker.Esi.Parse.Inversion.{parse_lines-Parsed}
use elfshaker.Esi.Edit.{urls_of, HasUniqueUrls}

-- the URLs are different from one another and from those before
record Fresh (urls : List Str) (rest : List Line) : Type 0 where
  unique : HasUniqueUrls rest
  apart : (x : Str) → contains urls x ≡ true → contains (urls_of rest) x ≡ false

module _ (c : Calls) where
  parse_rest-Fresh :
      (meta : MetaVersion) (base : Str) (urls : List Str) (ls rest : List Line)
      → parse_rest c meta base urls ls ≡ ok rest
      → Fresh urls rest
  unfolding parse_rest HasUniqueUrls
  parse_rest-Fresh meta base urls [] rest h =
      let same : [] ≡ rest = cc in
      subst (Fresh urls) same (record { unique = tt; apart = λ x p. refl })
  parse_rest-Fresh meta base urls (l ∷ ls) rest h = elim (Bool-cases (all_blank l.content)) [
    | inl empty ↦ elim (Result-cases (parse_rest c meta base urls ls)) [
      | inl (e, bad) ↦ cc (rw (empty, bad, parse_rest) at h)
      | inr (r, good) ↦
          let same : record l { kind = blank } ∷ r ≡ rest =
            cc (rw (empty, good, parse_rest) at h) in
          let f = parse_rest-Fresh meta base urls ls r good in
          subst (Fresh urls) same (record { unique = f.unique; apart = f.apart })
    ]
    | inr full ↦ elim (Result-cases (parse_entry c l.content meta base)) [
      | inl (e, bad) ↦ cc (rw (full, bad, parse_rest) at h)
      | inr (e, parsed) ↦ elim (Bool-cases (contains urls e.url)) [
        | inl twice ↦ cc (rw (full, parsed, and_then, twice, parse_rest) at h)
        | inr once ↦ elim (Result-cases (parse_rest c meta base (e.url ∷ urls) ls)) [
          | inl (e', bad) ↦ cc (rw (full, parsed, and_then, once, bad, parse_rest) at h)
          | inr (r, good) ↦
              let same : record l { kind = entry e } ∷ r ≡ rest =
                cc (rw (full, parsed, and_then, once, good, parse_rest) at h) in
              let f = parse_rest-Fresh meta base (e.url ∷ urls) ls r good in
              subst (Fresh urls) same (record {
                unique = (f.apart e.url (ground (arith, ==_refl e.url)), f.unique);
                apart = λ x p. ground (arith, f.apart x, once, p, list_beq_iff e.url x);
              })
        ]
      ]
    ]
  ]

  -- In a document that parses no two entries have one URL.
  pub parse-HasUniqueUrls :
      (bs : List ℕ) (doc : Document) → parse c bs ≡ ok doc → HasUniqueUrls doc.lines
  unfolding parse HasUniqueUrls
  parse-HasUniqueUrls bs doc h =
      let p = parse_lines-Parsed c (split_lines bs) doc h in
      subst (λ (d : Document). HasUniqueUrls d.lines) (sym p.document)
        (parse_rest-Fresh p.meta p.url [] p.behind p.rest p.entries).unique
