-- ===== src/Runs/Documents.antt =====
-- Runs of esi.rs.
use elfshaker.Prelude.{
  ℕ, ◌≡◌, ◌⊎◌, refl, true, false, none, some, List, [], ◌∷◌, ok, err, contains, list_eq, nat_eq,
}
use elfshaker.Esi
use elfshaker.Esi.{
  Calls, Document, Entry, Line, LineKind, meta_line, url_line, entry, v1, add, remove, to_bytes,
  newline, does_not_exist,
}
use elfshaker.Esi.Parse
use elfshaker.Esi.Parse.{parse}
use elfshaker.Esi.Parse.Lossless.{to_bytes-parse}
use elfshaker.Esi.Parse.Unique.{parse-HasUniqueUrls}
use elfshaker.Esi.Edit.{urls_of, HasUniqueUrls, Adds, add-Adds}
use elfshaker.Esi.Remove.{Removes, remove-Removes}

abbrev pub digest : List ℕ
digest =
    1 ∷ 2 ∷ 3 ∷ 4 ∷ 5 ∷ 6 ∷ 7 ∷ 8 ∷ 9 ∷ 10 ∷ 11 ∷ 12 ∷ 13 ∷ 14 ∷ 15 ∷ 16 ∷ 17 ∷ 18 ∷ 19 ∷ 20 ∷ []

-- one digest, and every text a URL
abbrev pub calls : Calls
calls = record {
  is_url = λ url. true;
  joins = λ base url. true;
  hex_encode = λ bytes. b'd' ∷ [];
  hex_decode = λ text. some digest;
  is_utf8 = λ bytes. true;
  has_whitespace = λ text. false;
}

-- "meta v1", "url u" and "d d p", with both line endings and the last one missing
abbrev pub text : List ℕ
text =
    b'm' ∷ b'e' ∷ b't' ∷ b'a' ∷ b' ' ∷ b'v' ∷ b'1' ∷ Esi.carriage_return ∷ newline ∷ b'u' ∷ b'r'
    ∷ b'l' ∷ Esi.tab ∷ b'u' ∷ newline ∷ b'd' ∷ b' ' ∷ b'd' ∷ b' ' ∷ b' ' ∷ b'p' ∷ []

abbrev entry_for : ℕ → Entry
entry_for name = record {
  index_checksum = digest;
  pack_checksum = digest;
  url = name ∷ [];
  pack_size = none;
  index_size = none;
}

abbrev pub parsed : Document
parsed = record {
  lines =
      record {
        content = b'm' ∷ b'e' ∷ b't' ∷ b'a' ∷ b' ' ∷ b'v' ∷ b'1' ∷ [];
        ending = Esi.carriage_return ∷ newline ∷ [];
        kind = meta_line;
      }
      ∷ record {
        content = b'u' ∷ b'r' ∷ b'l' ∷ Esi.tab ∷ b'u' ∷ [];
        ending = newline ∷ [];
        kind = url_line;
      }
      ∷ record {
        content = b'd' ∷ b' ' ∷ b'd' ∷ b' ' ∷ b' ' ∷ b'p' ∷ [];
        ending = [];
        kind = entry (entry_for b'p');
      }
      ∷ [];
  meta = v1;
  url = b'u' ∷ [];
}

pub text_parses : parse calls text ≡ ok parsed
unfolding parse Parse.split_lines Parse.split_from Parse.line_of Parse.strip_return
    Parse.parse_lines Parse.parse_header Parse.fields Parse.parts_from Parse.header_value
    Parse.meta_from_str Parse.parse_rest Parse.parse_entry Parse.entry_of Parse.parse_checksum
    Parse.parse_sizes Esi.validate_field_value Esi.validate_index_url Esi.check_join
text_parses = refl

to_bytes-parse_example : to_bytes parsed.lines ≡ text
to_bytes-parse_example = to_bytes-parse calls text parsed text_parses

parse-HasUniqueUrls_example : HasUniqueUrls parsed.lines
parse-HasUniqueUrls_example = parse-HasUniqueUrls calls text parsed text_parses

abbrev with_q : Document
with_q = record parsed {
  lines =
      record {
        content = b'm' ∷ b'e' ∷ b't' ∷ b'a' ∷ b' ' ∷ b'v' ∷ b'1' ∷ [];
        ending = Esi.carriage_return ∷ newline ∷ [];
        kind = meta_line;
      }
      ∷ record {
        content = b'u' ∷ b'r' ∷ b'l' ∷ Esi.tab ∷ b'u' ∷ [];
        ending = newline ∷ [];
        kind = url_line;
      }
      ∷ record {
        content = b'd' ∷ b' ' ∷ b'd' ∷ b' ' ∷ b' ' ∷ b'p' ∷ [];
        ending = Esi.carriage_return ∷ newline ∷ [];
        kind = entry (entry_for b'p');
      }
      ∷ record {
        content = b'd' ∷ Esi.tab ∷ b'd' ∷ Esi.tab ∷ b'q' ∷ [];
        ending = [];
        kind = entry (entry_for b'q');
      }
      ∷ [];
}

adds_q : add calls parsed (entry_for b'q') false ≡ ok with_q
unfolding add Esi.validate_field_value Esi.validate_index_url Esi.check_join Esi.canonical_line
    Esi.sizes Esi.put Esi.at_position Esi.is_entry_for Esi.push_line Esi.ended_with_newline
    Esi.end_last Esi.preferred_line_ending
adds_q = refl

add-Adds_example : Adds calls parsed (entry_for b'q') with_q
add-Adds_example = add-Adds calls parsed with_q (entry_for b'q') false refl adds_q

remove-Removes_example :
    ((remove parsed (b'p' ∷ []) false ≡ err does_not_exist)
      × (false ≡ false)
      × (contains (urls_of parsed.lines) (b'p' ∷ []) ≡ false))
    ⊎ (((false ≡ true) ⊎ (contains (urls_of parsed.lines) (b'p' ∷ []) ≡ true))
        × ((doc' : Document) × (remove parsed (b'p' ∷ []) false ≡ ok doc')
            × Removes parsed.lines (b'p' ∷ []) doc'.lines))
remove-Removes_example =
    remove-Removes parsed (b'p' ∷ []) false (parse-HasUniqueUrls calls text parsed text_parses)
