-- ===== src/Rewriter/Maps/Tests.antt =====
-- The theorems of the parser at the lines of the crate's own tests.
use zpoline_rs.Prelude.{ℕ, List, ◌≡◌, refl, true, false, [], ◌∷◌, some, arith}
use zpoline_rs.Rewriter.Region.{MemoryRegion}
use zpoline_rs.Rewriter.Maps.{Perms, parse_maps_line}
use zpoline_rs.Rewriter.Maps.File.{
  read_line, failed_line, Opened, opened, read_maps, failed_maps, parse_lines, parse_maps_file,
  proc_self_maps, parse_maps_file-line_of,
}
use zpoline_rs.Rewriter.Maps.Numbers.{value_from}
use zpoline_rs.Rewriter.Maps.RoundTrip.{Entry, IsEntry, line_of, region_of, parse_maps_line-line_of}

-- 7f8b4c000000-7f8b4c021000 r-xp 00000000 08:01 1234 /l
abbrev libc_entry : Entry
libc_entry = record {
  start = record { first = 7; more = 15 ∷ 8 ∷ 11 ∷ 4 ∷ 12 ∷ 0 ∷ 0 ∷ 0 ∷ 0 ∷ 0 ∷ 0 ∷ [] };
  end = record { first = 7; more = 15 ∷ 8 ∷ 11 ∷ 4 ∷ 12 ∷ 0 ∷ 2 ∷ 1 ∷ 0 ∷ 0 ∷ 0 ∷ [] };
  perms = record { may_read = true; may_write = false; may_execute = true; is_private = true };
  offset = record { first = 0; more = 0 ∷ 0 ∷ 0 ∷ 0 ∷ 0 ∷ 0 ∷ 0 ∷ [] };
  device = b'0' ∷ b'8' ∷ b':' ∷ b'0' ∷ b'1' ∷ [];
  inode = record { first = 1; more = 2 ∷ 3 ∷ 4 ∷ [] };
  blanks = 0;
  path = (b'/' ∷ b'l' ∷ []) ∷ [];
}

abbrev libc_region : MemoryRegion
libc_region = record {
  start = 0x7f8b4c000000;
  end = 0x7f8b4c021000;
  readable = true;
  writable = false;
  executable = true;
  private = true;
  offset = 0;
  device = b'0' ∷ b'8' ∷ b':' ∷ b'0' ∷ b'1' ∷ [];
  inode = 1234;
  pathname = some (b'/' ∷ b'l' ∷ []);
}

libc_line : parse_maps_line (line_of libc_entry) ≡ some libc_region
unfolding parse_maps_line zpoline_rs.Rewriter.Maps.parse_addresses
libc_line = refl

libc_entry-IsEntry : IsEntry libc_entry
unfolding value_from
libc_entry-IsEntry =
    (ground arith, ground arith, ground arith, ground arith, ground arith, ground arith)

parse_maps_line-line_of_example : parse_maps_line (line_of libc_entry) ≡ some (region_of libc_entry)
parse_maps_line-line_of_example = parse_maps_line-line_of libc_entry libc_entry-IsEntry

-- The line twice, and one that is not read.
abbrev libc_file : List ℕ → Opened
libc_file path = opened (read_line (line_of libc_entry) ∷ read_line (line_of libc_entry) ∷ [])

parse_maps_file-line_of_example :
    parse_maps_file libc_file proc_self_maps
    ≡ read_maps (region_of libc_entry ∷ region_of libc_entry ∷ [])
parse_maps_file-line_of_example =
    parse_maps_file-line_of libc_file proc_self_maps (libc_entry ∷ libc_entry ∷ []) refl
      (libc_entry-IsEntry, (libc_entry-IsEntry, tt))

unread_line :
    parse_maps_file (λ path. opened (read_line [] ∷ failed_line "I/O" ∷ [])) [] ≡ failed_maps "I/O"
unfolding parse_maps_file parse_lines
unread_line = refl
