-- ===== src/Esi/Parse/Lossless.antt =====
-- A document of esi.rs that is parsed and written again has the same bytes.
use elfshaker.Prelude.{
  ℕ, ◌≡◌, refl, ap, sym, ◌∙◌, arith, some, List, [], ◌∷◌, ◌++◌, eqb, ok, and_then, contains,
  append-nil, append_assoc, Bool-cases, Option-cases, Result-cases, inl, inr, list_eq, nat_eq,
}
use elfshaker.Esi.Parse.Inversion.{parse_lines-Parsed}
use elfshaker.Esi.{
  Str, MetaVersion, blank, entry, Line, Document, Calls, newline, carriage_return, to_bytes,
}
use elfshaker.Esi.Parse.{
  strip_return, line_of, split_from, split_lines, all_blank, parse_entry, parse_rest, parse_lines,
  parse,
}

strip_return-inv :
    (bs front : List ℕ) → strip_return bs ≡ some front → bs ≡ front ++ carriage_return ∷ []
unfolding strip_return
strip_return-inv [] front h = cc
strip_return-inv (b ∷ []) front h = ground (arith, h)
strip_return-inv (b ∷ c ∷ bs) front h = elim (Option-cases (strip_return (c ∷ bs))) [
  | inl missing ↦ cc (rw (missing, strip_return) at h)
  | inr (f, there) ↦
      let q = rw (there, strip_return) at h in ground (arith, q, strip_return-inv (c ∷ bs) f there)
]

line_of-bytes : (bs : List ℕ) → (line_of bs).content ++ (line_of bs).ending ≡ bs ++ newline ∷ []
unfolding line_of
line_of-bytes bs = elim (Option-cases (strip_return bs)) [
  | inl missing ↦ rw (missing, line_of) refl
  | inr (front, there) ↦
      rw (there, line_of)
        (sym (append_assoc front (carriage_return ∷ []) (newline ∷ []))
          ∙ ap (λ x. x ++ newline ∷ []) (sym (strip_return-inv bs front there)))
]

to_bytes-split_from : (begun bs : List ℕ) → to_bytes (split_from begun bs) ≡ begun ++ bs
unfolding split_from to_bytes
to_bytes-split_from [] [] = refl
to_bytes-split_from (b ∷ begun) [] = append-nil ((b ∷ begun) ++ [])
to_bytes-split_from begun (b ∷ bs) = elim (Bool-cases (eqb b newline)) [
  | inl there ↦
      let same : b ≡ newline = ground (arith, there) in
      rw (there, split_from)
        (ap (λ x. x ++ to_bytes (split_from [] bs)) (line_of-bytes begun)
          ∙ append_assoc begun (newline ∷ []) (to_bytes (split_from [] bs))
          ∙ ap (λ x. begun ++ newline ∷ x) (to_bytes-split_from [] bs)
          ∙ ap (λ x. begun ++ x ∷ bs) (sym same))
  | inr other ↦
      rw (other, split_from)
        (to_bytes-split_from (begun ++ b ∷ []) bs ∙ append_assoc begun (b ∷ []) bs)
]

-- Splitting into lines loses no byte.
pub to_bytes-split_lines : (bs : List ℕ) → to_bytes (split_lines bs) ≡ bs
unfolding split_lines
to_bytes-split_lines bs = to_bytes-split_from [] bs

module _ (c : Calls) where
  parse_rest-bytes :
      (meta : MetaVersion) (base : Str) (urls : List Str) (ls rest : List Line)
      → parse_rest c meta base urls ls ≡ ok rest
      → to_bytes rest ≡ to_bytes ls
  unfolding parse_rest to_bytes
  parse_rest-bytes meta base urls [] rest h = let same : [] ≡ rest = cc in ap to_bytes (sym same)
  parse_rest-bytes meta base urls (l ∷ ls) rest h = elim (Bool-cases (all_blank l.content)) [
    | inl empty ↦ elim (Result-cases (parse_rest c meta base urls ls)) [
      | inl (e, bad) ↦ cc (rw (empty, bad, parse_rest) at h)
      | inr (r, good) ↦
          let same : record l { kind = blank } ∷ r ≡ rest =
            cc (rw (empty, good, parse_rest) at h) in
          ap to_bytes (sym same)
          ∙ ap (λ x. l.content ++ l.ending ++ x) (parse_rest-bytes meta base urls ls r good)
    ]
    | inr full ↦ elim (Result-cases (parse_entry c l.content meta base)) [
      | inl (e, bad) ↦ cc (rw (full, bad, parse_rest) at h)
      | inr (e, parsed) ↦ elim (Bool-cases (contains urls e.url)) [
        | inl twice ↦ cc (rw (full, parsed, and_then, twice, parse_rest) at h)
        | inr once ↦ elim (Result-cases (parse_rest c meta base (e.url ∷ urls) ls)) [
          | inl (e', bad) ↦ cc (rw (full, parsed, and_then, once, bad, parse_rest) at h)
          | inr (r, good) ↦
              let same : record l { kind = entry e } ∷ r ≡ rest =
                cc (rw (full, parsed, and_then, once, good, parse_rest) at h) in
              ap to_bytes (sym same)
              ∙ ap (λ x. l.content ++ l.ending ++ x)
                  (parse_rest-bytes meta base (e.url ∷ urls) ls r good)
        ]
      ]
    ]
  ]

  parse_lines-bytes :
      (ls : List Line) (doc : Document)
      → parse_lines c ls ≡ ok doc
      → to_bytes doc.lines ≡ to_bytes ls
  unfolding to_bytes
  parse_lines-bytes ls doc h =
      let p = parse_lines-Parsed c ls doc h in
      ap (λ (d : Document). to_bytes d.lines) p.document
      ∙ ap (λ x. p.first.content ++ p.first.ending ++ (p.second.content ++ p.second.ending ++ x))
          (parse_rest-bytes p.meta p.url [] p.behind p.rest p.entries)
      ∙ ap to_bytes (sym p.lines)

  -- A document that parses is written back byte for byte, blanks and line endings included.
  pub to_bytes-parse :
      (bs : List ℕ) (doc : Document) → parse c bs ≡ ok doc → to_bytes doc.lines ≡ bs
  unfolding parse
  to_bytes-parse bs doc h = parse_lines-bytes (split_lines bs) doc h ∙ to_bytes-split_lines bs
