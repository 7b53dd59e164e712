-- ===== src/Esi/Parse/Inversion.antt =====
-- What a successful `Document::parse` of esi.rs went through.
use elfshaker.Prelude.{◌≡◌, refl, List, [], ◌∷◌, ok, Result-cases, inl, inr, list_eq, nat_eq}
use elfshaker.Esi.{Str, MetaVersion, meta_line, url_line, Line, Document, Calls, validate_index_url}
use elfshaker.Esi.Parse.{meta_from_str, parse_header, parse_rest, parse_lines}

module _ (c : Calls) where
  pub record Parsed (ls : List Line) (doc : Document) : Type 0 where
    pub first : Line
    pub second : Line
    pub behind : List Line
    pub meta : MetaVersion
    pub url : Str
    pub rest : List Line
    pub lines : ls ≡ first ∷ second ∷ behind
    pub entries : parse_rest c meta url [] behind ≡ ok rest
    pub document : doc ≡ record {
      lines = record first { kind = meta_line } ∷ record second { kind = url_line } ∷ rest;
      meta = meta;
      url = url;
    }

  pub parse_lines-Parsed :
      (ls : List Line) (doc : Document) → parse_lines c ls ≡ ok doc → Parsed ls doc
  unfolding parse_lines
  parse_lines-Parsed [] doc h = cc
  parse_lines-Parsed (m ∷ []) doc h = cc
  parse_lines-Parsed (m ∷ u ∷ ls) doc h =
      elim (Result-cases (parse_header c m.content (b'm' ∷ b'e' ∷ b't' ∷ b'a' ∷ []))) [
        | inl (e, bad) ↦ cc (rw (bad, parse_lines) at h)
        | inr (meta_value, mh) ↦ elim (Result-cases (meta_from_str meta_value)) [
          | inl (e, bad) ↦ cc (rw (mh, bad, parse_lines) at h)
          | inr (meta, mv) ↦
              elim (Result-cases (parse_header c u.content (b'u' ∷ b'r' ∷ b'l' ∷ []))) [
                | inl (e, bad) ↦ cc (rw (mh, mv, bad, parse_lines) at h)
                | inr (url, uh) ↦ elim (Result-cases (validate_index_url c url)) [
                  | inl (e, bad) ↦ cc (rw (mh, mv, uh, bad, parse_lines) at h)
                  | inr (_, uv) ↦ elim (Result-cases (parse_rest c meta url [] ls)) [
                    | inl (e, bad) ↦ cc (rw (mh, mv, uh, uv, bad, parse_lines) at h)
                    | inr (rest, good) ↦ record {
                      first = m;
                      second = u;
                      behind = ls;
                      meta = meta;
                      url = url;
                      rest = rest;
                      lines = refl;
                      entries = good;
                      document = cc (rw (mh, mv, uh, uv, good, parse_lines) at h);
                    }
                  ]
                ]
              ]
        ]
      ]
