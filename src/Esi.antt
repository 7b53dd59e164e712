-- ===== src/Esi.antt =====
-- esi.rs: the document of a remote index, as lines that keep their endings. A string is its bytes.
pub mod Parse
pub mod Edit
pub mod Remove
pub mod Create
pub mod Commit
use elfshaker.Prelude.{
  ℕ, ◌+◌, ◌*◌, ◌-◌, ◌/◌, ◌%◌, suc, zero, Bool, true, false, not, ◌&&◌, ◌||◌, Option, none, some,
  List, [], ◌∷◌, ◌++◌, eqb, leb, if◌then◌else◌, Result, ok, err, and_then, Eq, ◌==◌, list_eq,
  nat_eq,
}

abbrev pub Str : Type 0
Str = List ℕ

pub data MetaVersion : Type 0 where
  v1 v2 : MetaVersion

-- the messages of `FormatError`
pub data FormatError : Type 0 where
  expected_headers bad_meta invalid_utf8 expected_header too_many too_few no_value : FormatError
  bad_checksum bad_size bad_url bad_index_url empty_value whitespace : FormatError
  missing_size duplicate_url already_exists does_not_exist : FormatError

pub record Entry : Type 0 where
  pub index_checksum : List ℕ
  pub pack_checksum : List ℕ
  pub url : Str
  pub pack_size : Option ℕ
  pub index_size : Option ℕ

pub data LineKind : Type 0 where
  meta_line url_line blank : LineKind
  entry : Entry → LineKind

pub record Line : Type 0 where
  pub content : List ℕ
  pub ending : List ℕ
  pub kind : LineKind

pub record Document : Type 0 where
  pub lines : List Line
  pub meta : MetaVersion
  pub url : Str

-- What the code calls: of the url crate, whether a text is a URL and whether a base joins with
-- a text; of the hex crate, both directions; of the standard library, the tests on text.
pub record Calls : Type 0 where
  pub is_url : Str → Bool
  pub joins : Str → Str → Bool
  pub hex_encode : List ℕ → Str
  pub hex_decode : Str → Option (List ℕ)
  pub is_utf8 : List ℕ → Bool
  pub has_whitespace : Str → Bool

abbrev pub newline : ℕ
newline = 0x0a

abbrev pub carriage_return : ℕ
carriage_return = 0x0d

abbrev pub tab : ℕ
tab = 0x09

-- the bytes of a `u64` in decimal; twenty digits are enough
abbrev pub decimal : ℕ → ℕ → Str
decimal zero n = []
decimal (suc fuel) n =
    let front = decimal fuel (n / 10) in
    if leb n 9 then (b'0' + n) ∷ [] else front ++ (b'0' + n % 10) ∷ []

-- `lines.last().map(|line| !line.ending.is_empty()).unwrap_or(false)`
unfoldable pub ended_with_newline : List Line → Bool
ended_with_newline [] = false
ended_with_newline (l ∷ []) = not (l.ending == [])
ended_with_newline (l ∷ m ∷ ls) = ended_with_newline (m ∷ ls)

-- `if let Some(last) = lines.last_mut() { last.ending = ending.clone(); }`
unfoldable pub end_last : List ℕ → List Line → List Line
end_last ending [] = []
end_last ending (l ∷ []) = record l { ending = ending } ∷ []
end_last ending (l ∷ m ∷ ls) = l ∷ end_last ending (m ∷ ls)

unfoldable pub preferred_line_ending : List Line → List ℕ
preferred_line_ending [] = newline ∷ []
preferred_line_ending (l ∷ ls) =
    let later = preferred_line_ending ls in if l.ending == [] then later else l.ending

abbrev pub entries_of : List Line → List Entry
entries_of [] = []
entries_of (l ∷ ls) = elim l.kind [ entry e ↦ e ∷ entries_of ls | _ ↦ entries_of ls ]

unfoldable pub entries : Document → List Entry
entries doc = entries_of doc.lines

unfoldable pub is_entry_for : Str → Line → Bool
is_entry_for url line = elim line.kind [ entry e ↦ e.url == url | _ ↦ false ]

-- the first line for the URL, replaced by what `change` makes of it; `none` where there is none
unfoldable pub at_position : Str → (Line → List Line) → List Line → Option (List Line)
unfolding is_entry_for
at_position url change [] = none
at_position url change (l ∷ ls) =
    let later = at_position url change ls in
    if is_entry_for url l
    then some (change l ++ ls)
    else elim later [ none ↦ none | some ls' ↦ some (l ∷ ls') ]

pub remove : Document → Str → Bool → Result FormatError Document
unfolding at_position
remove doc url force = elim (at_position url (λ _. []) doc.lines) [
  | some lines ↦ ok (record doc { lines = lines })
  | none ↦ if force then ok doc else err does_not_exist
]

unfoldable pub to_bytes : List Line → List ℕ
to_bytes [] = []
to_bytes (l ∷ ls) = l.content ++ l.ending ++ to_bytes ls

-- the push at the end of `add`
unfoldable pub push_line : List ℕ → Entry → List Line → List Line
unfolding ended_with_newline end_last preferred_line_ending
push_line canonical e lines =
    let ending = preferred_line_ending lines in
    if ended_with_newline lines
    then lines ++ record { content = canonical; ending = ending; kind = entry e } ∷ []
    else end_last ending lines ++ record { content = canonical; ending = []; kind = entry e } ∷ []

-- `Display` for the version, behind "v"
abbrev pub version_digit : MetaVersion → ℕ
version_digit v1 = b'1'
version_digit v2 = b'2'

module _ (c : Calls) where
  unfoldable pub validate_field_value : Str → Result FormatError (Unit {0})
  validate_field_value value =
      if value == []
      then err empty_value
      else if c.has_whitespace value
      then err whitespace
      else ok tt

  unfoldable pub validate_index_url : Str → Result FormatError (Unit {0})
  unfolding validate_field_value
  validate_index_url value =
      and_then (validate_field_value value)
        λ _. (if c.is_url value then ok tt else err bad_index_url)

  -- `base.join(url)`
  unfoldable pub check_join : Str → Str → Result FormatError (Unit {0})
  check_join base url = if c.joins base url then ok tt else err bad_url

  unfoldable pub sizes : MetaVersion → Entry → Result FormatError Str
  sizes v1 e = ok []
  sizes v2 e = elim e.pack_size [
    | none ↦ err missing_size
    | some pack ↦ elim e.index_size [
      | none ↦ err missing_size
      | some index ↦ ok (tab ∷ decimal 20 pack ++ tab ∷ decimal 20 index)
    ]
  ]

  unfoldable pub canonical_line : MetaVersion → Entry → Result FormatError (List ℕ)
  unfolding validate_field_value sizes
  canonical_line meta e = and_then (validate_field_value e.url) λ _. and_then (sizes meta e) λ rest.
      ok
        (c.hex_encode e.index_checksum ++ tab ∷ c.hex_encode e.pack_checksum ++ tab ∷ e.url ++ rest)

  unfoldable pub put : Document → Entry → List ℕ → Bool → Result FormatError Document
  unfolding at_position push_line
  put doc e canonical force =
      elim (at_position e.url (λ l. record l { content = canonical; kind = entry e } ∷ [])
        doc.lines) [
          | some lines ↦ if force then ok (record doc { lines = lines }) else err already_exists
          | none ↦ ok (record doc { lines = push_line canonical e doc.lines })
        ]

  unfoldable pub add : Document → Entry → Bool → Result FormatError Document
  unfolding validate_field_value validate_index_url check_join put
  add doc e force = and_then (validate_field_value e.url) λ _.
      and_then (validate_index_url doc.url) λ _.
        and_then (check_join doc.url e.url)
          λ _. and_then (canonical_line doc.meta e) λ canonical. put doc e canonical force

  -- `Document::create`
  unfoldable pub create : MetaVersion → Str → Result FormatError Document
  create meta url = and_then (validate_index_url url) λ _. ok (record {
    lines =
        record {
          content = b'm' ∷ b'e' ∷ b't' ∷ b'a' ∷ tab ∷ b'v' ∷ version_digit meta ∷ [];
          ending = newline ∷ [];
          kind = meta_line;
        }
        ∷ record {
          content = b'u' ∷ b'r' ∷ b'l' ∷ tab ∷ url;
          ending = newline ∷ [];
          kind = url_line;
        }
        ∷ [];
    meta = meta;
    url = url;
  })
