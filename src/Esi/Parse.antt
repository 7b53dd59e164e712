-- ===== src/Esi/Parse.antt =====
-- `Document::parse` of esi.rs.
pub mod Inversion
pub mod Lossless
pub mod Unique
use elfshaker.Prelude.{
  ℕ, ◌+◌, ◌*◌, ◌-◌, ◌^◌, Bool, true, false, not, ◌&&◌, ◌||◌, Option, none, some, List, [], ◌∷◌,
  ◌++◌, length, eqb, leb, ltb, if◌then◌else◌, Result, ok, err, and_then, contains, Eq, ◌==◌,
  list_eq, nat_eq,
}
use elfshaker.Algo.{u64_mod}
use elfshaker.Esi.{
  Str, MetaVersion, v1, v2, FormatError, expected_headers, bad_meta, invalid_utf8, expected_header,
  too_many, too_few, no_value, bad_checksum, bad_size, bad_url, duplicate_url, Entry, LineKind,
  meta_line, url_line, blank, entry, Line, Document, Calls, newline, carriage_return, tab,
  validate_field_value, validate_index_url, check_join,
}

-- the bytes before a last carriage return
unfoldable pub strip_return : List ℕ → Option (List ℕ)
strip_return [] = none
strip_return (b ∷ []) = if eqb b carriage_return then some [] else none
strip_return (b ∷ c ∷ bs) =
    let rest = strip_return (c ∷ bs) in elim rest [ none ↦ none | some front ↦ some (b ∷ front) ]

-- a line that ends with a line feed
unfoldable pub line_of : List ℕ → Line
unfolding strip_return
line_of bytes = elim (strip_return bytes) [
  | some content ↦ record {
    content = content;
    ending = carriage_return ∷ newline ∷ [];
    kind = blank;
  }
  | none ↦ record { content = bytes; ending = newline ∷ []; kind = blank }
]

-- the loop of `split_lines`; `begun` is what stands between `start` and the index
unfoldable pub split_from : List ℕ → List ℕ → List Line
unfolding line_of
split_from begun [] =
    if begun == [] then [] else record { content = begun; ending = []; kind = blank } ∷ []
split_from begun (b ∷ bs) = elim (eqb b newline) [
  | true ↦ line_of begun ∷ split_from [] bs
  | false ↦ split_from (begun ++ b ∷ []) bs
]

unfoldable pub split_lines : List ℕ → List Line
unfolding split_from
split_lines bytes = split_from [] bytes

abbrev pub is_blank_byte : ℕ → Bool
is_blank_byte b = eqb b b' ' || eqb b tab

abbrev pub all_blank : List ℕ → Bool
all_blank [] = true
all_blank (b ∷ bs) = is_blank_byte b && all_blank bs

-- `split([' ', '\t']).filter(|part| !part.is_empty())`; `begun` is the part that is not ended yet
unfoldable pub parts_from : Str → List ℕ → List Str
parts_from begun [] = if begun == [] then [] else begun ∷ []
parts_from begun (b ∷ bs) = elim (is_blank_byte b) [
  | true ↦ if begun == [] then parts_from [] bs else begun ∷ parts_from [] bs
  | false ↦ parts_from (begun ++ b ∷ []) bs
]

unfoldable pub meta_from_str : Str → Result FormatError MetaVersion
meta_from_str value =
    if value == (b'v' ∷ b'1' ∷ [])
    then ok v1
    else if value == (b'v' ∷ b'2' ∷ [])
    then ok v2
    else err bad_meta

abbrev pub digits : ℕ → Str → Option ℕ
digits n [] = some n
digits n (d ∷ ds) =
    let more = digits (n * 10 + (d - b'0')) ds in
    if leb b'0' d && leb d b'9' && ltb (n * 10 + (d - b'0')) u64_mod then more else none

-- `str::parse::<u64>`: digits, after a plus sign or none
pub parse_u64 : Str → Option ℕ
parse_u64 [] = none
parse_u64 (d ∷ ds) =
    if eqb d b'+' then (if ds == [] then none else digits 0 ds) else digits 0 (d ∷ ds)

pub parse_size : Str → Result FormatError ℕ
unfolding parse_u64
parse_size value = elim (parse_u64 value) [ none ↦ err bad_size | some n ↦ ok n ]

unfoldable pub header_value : Str → List Str → Result FormatError Str
header_value expected_key [] = err expected_header
header_value expected_key (key ∷ values) =
    if key == expected_key
    then elim values [
      | [] ↦ err no_value
      | value ∷ more ↦ if more == [] then ok value else err too_many
    ]
    else err expected_header

module _ (c : Calls) where
  unfoldable pub fields : List ℕ → Result FormatError (List Str)
  unfolding parts_from
  fields content = if c.is_utf8 content then ok (parts_from [] content) else err invalid_utf8

  unfoldable pub parse_header : List ℕ → Str → Result FormatError Str
  unfolding fields header_value
  parse_header content expected_key = and_then (fields content) (header_value expected_key)

  unfoldable pub parse_checksum : Str → Result FormatError (List ℕ)
  parse_checksum value = elim (c.hex_decode value) [
    | none ↦ err bad_checksum
    | some decoded ↦ if eqb (length decoded) 20 then ok decoded else err bad_checksum
  ]

  unfoldable pub parse_sizes : MetaVersion → List Str → Result FormatError (Option ℕ × Option ℕ)
  unfolding parse_size
  parse_sizes v2 (pack ∷ index ∷ _) =
      and_then (parse_size pack) λ p. and_then (parse_size index) λ i. ok (some p, some i)
  parse_sizes _ _ = ok (none, none)

  -- the entry of as many fields as are expected
  unfoldable pub entry_of : MetaVersion → Str → List Str → Result FormatError Entry
  unfolding parse_checksum parse_sizes
  entry_of meta base (index ∷ pack ∷ url ∷ more) = and_then (parse_checksum index) λ i.
      and_then (parse_checksum pack) λ p. and_then (validate_field_value c url) λ _.
        and_then (check_join c base url) λ _. and_then (parse_sizes meta more) λ s. ok (record {
          index_checksum = i;
          pack_checksum = p;
          url = url;
          pack_size = s.0;
          index_size = s.1;
        })
  entry_of meta base _ = err too_few

  abbrev pub expected : MetaVersion → ℕ
  expected v1 = 3
  expected v2 = 5

  unfoldable pub parse_entry : List ℕ → MetaVersion → Str → Result FormatError Entry
  unfolding fields entry_of
  parse_entry content meta base = and_then (fields content) λ fs.
      if ltb (length fs) (expected meta)
      then err too_few
      else if ltb (expected meta) (length fs)
      then err too_many
      else entry_of meta base fs

  -- the loop over the lines behind the headers; `urls` holds the URLs before
  unfoldable pub parse_rest :
      MetaVersion → Str → List Str → List Line → Result FormatError (List Line)
  unfolding parse_entry
  parse_rest meta base urls [] = ok []
  parse_rest meta base urls (l ∷ ls) = elim (all_blank l.content) [
    | true ↦ and_then (parse_rest meta base urls ls) λ rest. ok (record l { kind = blank } ∷ rest)
    | false ↦ and_then (parse_entry l.content meta base) λ e. elim (contains urls e.url) [
      | true ↦ err duplicate_url
      | false ↦
          and_then (parse_rest meta base (e.url ∷ urls) ls)
            λ rest. ok (record l { kind = entry e } ∷ rest)
    ]
  ]

  unfoldable pub parse_lines : List Line → Result FormatError Document
  unfolding parse_header meta_from_str parse_rest
  parse_lines (m ∷ u ∷ ls) =
      and_then (parse_header m.content (b'm' ∷ b'e' ∷ b't' ∷ b'a' ∷ [])) λ meta_value.
        and_then (meta_from_str meta_value) λ meta.
          and_then (parse_header u.content (b'u' ∷ b'r' ∷ b'l' ∷ [])) λ url.
            and_then (validate_index_url c url) λ _. and_then (parse_rest meta url [] ls) λ rest.
              ok (record {
                lines = record m { kind = meta_line } ∷ record u { kind = url_line } ∷ rest;
                meta = meta;
                url = url;
              })
  parse_lines _ = err expected_headers

  unfoldable pub parse : List ℕ → Result FormatError Document
  unfolding split_lines parse_lines
  parse bytes = parse_lines (split_lines bytes)
