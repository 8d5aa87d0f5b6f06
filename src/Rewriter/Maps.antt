-- ===== src/Rewriter/Maps.antt =====
-- zpoline_rewriter/src/maps.rs: `parse_maps_line`. A text is its list
-- of code points; the functions of std that the code calls are written from std's documentation.
pub mod File
pub mod Numbers
pub mod Fields
pub mod RoundTrip
mod Tests
use zpoline_rs.Prelude.{
  ℕ, ◌+◌, ◌-◌, ◌*◌, ◌^◌, Bool, true, false, ◌&&◌, ◌||◌, List, [], ◌∷◌, ◌++◌, Option, none, some,
  ltb, leb, ◌==◌, if◌then◌else◌,
}
use zpoline_rs.Slice.{◌>>=◌}
use zpoline_rs.Rewriter.Region.{MemoryRegion}
use zpoline_rs.Rewriter.FilePath.{split_on}

-- `char::is_whitespace`.
abbrev pub is_whitespace : ℕ → Bool
is_whitespace c =
    (leb 9 c && leb c 13)
    || c == 0x20
    || c == 0x85
    || c == 0xa0
    || c == 0x1680
    || (leb 0x2000 c && leb c 0x200a)
    || c == 0x2028
    || c == 0x2029
    || c == 0x202f
    || c == 0x205f
    || c == 0x3000

abbrev pub keep_word : List ℕ → List (List ℕ) → List (List ℕ)
keep_word [] words = words
keep_word (c ∷ cs) words = (c ∷ cs) ∷ words

-- `str::split_whitespace`, with the word that stands before the text.
unfoldable pub words_from : List ℕ → List ℕ → List (List ℕ)
words_from word [] = keep_word word []
words_from word (c ∷ cs) =
    if is_whitespace c then keep_word word (words_from [] cs) else words_from (word ++ c ∷ []) cs

abbrev pub split_whitespace : List ℕ → List (List ℕ)
split_whitespace text = words_from [] text

-- `char::to_digit`.
abbrev pub to_digit : ℕ → ℕ → Option ℕ
to_digit radix c =
    let v =
      if leb b'0' c && leb c b'9'
      then c - b'0'
      else if leb b'a' c && leb c b'z'
      then c - b'a' + 10
      else if leb b'A' c && leb c b'Z'
      then c - b'A' + 10
      else radix in
    if ltb v radix then some v else none

-- What `from_str_radix` does with the digits: `none` on another character and on an overflow.
unfoldable pub digits_from : ℕ → ℕ → List ℕ → Option ℕ
digits_from radix n [] = some n
digits_from radix n (c ∷ cs) = do
  d ← to_digit radix c
  m ← if ltb (n * radix + d) (2 ^ 64) then some (n * radix + d) else none
  digits_from radix m cs

-- `usize::from_str_radix` and `u64::from_str_radix`; `str::parse` is the one with radix 10. One plus
-- sign may stand in front.
abbrev pub unsigned_digits : ℕ → List ℕ → Option ℕ
unsigned_digits radix [] = none
unsigned_digits radix (c ∷ cs) = digits_from radix 0 (c ∷ cs)

abbrev pub from_str_radix : ℕ → List ℕ → Option ℕ
from_str_radix radix [] = none
from_str_radix radix (c ∷ cs) =
    if c == b'+' then unsigned_digits radix cs else unsigned_digits radix (c ∷ cs)

-- `str::len`: the bytes of the text.
abbrev pub utf8_len : ℕ → ℕ
utf8_len c = if ltb c 0x80 then 1 else if ltb c 0x800 then 2 else if ltb c 0x10000 then 3 else 4

abbrev pub byte_len : List ℕ → ℕ
byte_len [] = 0
byte_len (c ∷ cs) = utf8_len c + byte_len cs

-- The four permissions.
pub record Perms : Type 0 where
  pub may_read : Bool
  pub may_write : Bool
  pub may_execute : Bool
  pub is_private : Bool

abbrev pub four_chars : List ℕ → Option Perms
four_chars (r ∷ w ∷ x ∷ p ∷ rest) = some (record {
  may_read = r == b'r';
  may_write = w == b'w';
  may_execute = x == b'x';
  is_private = p == b'p';
})
four_chars _ = none

abbrev pub parse_perms : List ℕ → Option Perms
parse_perms perms = if byte_len perms == 4 then four_chars perms else none

-- The start and the end.
abbrev pub address_parts : List (List ℕ) → Option (ℕ × ℕ)
address_parts (a ∷ b ∷ []) = do
  start ← from_str_radix 16 a
  end ← from_str_radix 16 b
  some (start, end)
address_parts _ = none

unfoldable pub parse_addresses : List ℕ → Option (ℕ × ℕ)
unfolding split_on
parse_addresses text = address_parts (split_on b'-' text)

-- `join(" ")`.
abbrev pub join_spaced : List (List ℕ) → List ℕ
join_spaced [] = []
join_spaced (w ∷ []) = w
join_spaced (w ∷ v ∷ ws) = w ++ b' ' ∷ join_spaced (v ∷ ws)

abbrev pub path_of : List (List ℕ) → Option (List ℕ)
path_of [] = none
path_of (w ∷ ws) = some (join_spaced (w ∷ ws))

-- Behind the addresses, which are looked at before the number of the fields is.
abbrev pub fields_from : ℕ → ℕ → List (List ℕ) → Option MemoryRegion
fields_from start end (perms_field ∷ offset_field ∷ device ∷ inode_field ∷ rest) = do
  perms ← parse_perms perms_field
  offset ← from_str_radix 16 offset_field
  inode ← from_str_radix 10 inode_field
  some (record {
    start = start;
    end = end;
    readable = perms.may_read;
    writable = perms.may_write;
    executable = perms.may_execute;
    private = perms.is_private;
    offset = offset;
    device = device;
    inode = inode;
    pathname = path_of rest;
  })
fields_from start end _ = none

abbrev pub parse_parts : List (List ℕ) → Option MemoryRegion
parse_parts [] = none
parse_parts (addresses ∷ parts) = do
  bounds ← parse_addresses addresses
  fields_from bounds.0 bounds.1 parts

unfoldable pub parse_maps_line : List ℕ → Option MemoryRegion
unfolding words_from digits_from
parse_maps_line line = parse_parts (split_whitespace line)
