-- ===== src/Rewriter/Maps/RoundTrip.antt =====
-- zpoline_rewriter/src/maps.rs: a line in the format of /proc/self/maps, and what it is parsed to.
use zpoline_rs.Prelude.{
  ℕ, ◌^◌, ◌<◌, ◌≡◌, refl, ap, ◌∙◌, false, List, [], ◌∷◌, ◌++◌, some, arith, ◌==◌, All, replicate,
  if◌then◌else◌,
}
use zpoline_rs.Rewriter.Region.{MemoryRegion}
use zpoline_rs.Rewriter.Maps.{
  is_whitespace, split_whitespace, from_str_radix, Perms, parse_perms, parse_addresses, join_spaced,
  path_of, parse_maps_line,
}
use zpoline_rs.Rewriter.Maps.Numbers.{digit_char, digits_text, value_from, from_str_radix_lem}
use zpoline_rs.Rewriter.Maps.Fields.{
  Clean, IsWord, first_word, split_whitespace-join_spaced, skip_spaces, Without, split_on-two,
}

-- A number as its digits, which may begin with zeros.
pub record Numeral : Type 0 where
  pub first : ℕ
  pub more : List ℕ

abbrev pub digits_of : Numeral → List ℕ
digits_of m = m.first ∷ m.more

abbrev pub text_of : Numeral → List ℕ
text_of m = digits_text (digits_of m)

abbrev pub value_of : ℕ → Numeral → ℕ
value_of radix m = value_from radix 0 (digits_of m)

abbrev pub IsNumeral : ℕ → Numeral → Type 0
IsNumeral radix m = All (λ d. d < radix) (digits_of m) × (value_of radix m < 2 ^ 64)

-- The fields of a line; the path is its words, and there are blanks in front of it.
pub record Entry : Type 0 where
  pub start : Numeral
  pub end : Numeral
  pub perms : Perms
  pub offset : Numeral
  pub device : List ℕ
  pub inode : Numeral
  pub blanks : ℕ
  pub path : List (List ℕ)

abbrev pub IsEntry : Entry → Type 0
IsEntry e =
    IsNumeral 16 e.start
    × IsNumeral 16 e.end
    × IsNumeral 16 e.offset
    × IsWord e.device
    × IsNumeral 10 e.inode
    × All IsWord e.path

abbrev pub perms_text : Perms → List ℕ
perms_text p =
    (if p.may_read then b'r' else b'-')
    ∷ (if p.may_write then b'w' else b'-')
    ∷ (if p.may_execute then b'x' else b'-')
    ∷ (if p.is_private then b'p' else b's')
    ∷ []

abbrev pub addresses_text : Entry → List ℕ
addresses_text e = text_of e.start ++ b'-' ∷ text_of e.end

-- `start-end perms offset device inode`, and the path.
abbrev pub line_of : Entry → List ℕ
line_of e =
    addresses_text e
    ++ b' '
      ∷ (perms_text e.perms
          ++ b' '
            ∷ (text_of e.offset
                ++ b' '
                  ∷ (e.device
                      ++ b' '
                        ∷ (text_of e.inode
                            ++ b' ' ∷ (replicate e.blanks b' ' ++ join_spaced e.path)))))

abbrev pub region_of : Entry → MemoryRegion
region_of e = record {
  start = value_of 16 e.start;
  end = value_of 16 e.end;
  readable = e.perms.may_read;
  writable = e.perms.may_write;
  executable = e.perms.may_execute;
  private = e.perms.is_private;
  offset = value_of 16 e.offset;
  device = e.device;
  inode = value_of 10 e.inode;
  pathname = path_of e.path;
}

digit_char-Clean : (d : ℕ) → d < 16 → is_whitespace (digit_char d) ≡ false
digit_char-Clean d h = ground arith

digit_char-no_dash : (d : ℕ) → (digit_char d == b'-') ≡ false
digit_char-no_dash d = ground arith

digits_text-Clean : (ds : List ℕ) → All (λ d. d < 16) ds → Clean (digits_text ds)
digits_text-Clean [] h = tt
digits_text-Clean (d ∷ ds) (h, hs) = (digit_char-Clean d h, digits_text-Clean ds hs)

digits_text-no_dash : (ds : List ℕ) → Without b'-' (digits_text ds)
digits_text-no_dash [] = tt
digits_text-no_dash (d ∷ ds) = (digit_char-no_dash d, digits_text-no_dash ds)

below_16 : (ds : List ℕ) → All (λ d. d < 10) ds → All (λ d. d < 16) ds
below_16 [] h = tt
below_16 (d ∷ ds) (h, hs) = (omega arith, below_16 ds hs)

Clean-append : (a b : List ℕ) → Clean a → Clean b → Clean (a ++ b)
Clean-append [] b h k = k
Clean-append (x ∷ a) b (h, hs) k = (h, Clean-append a b hs k)

perms_text-IsWord : (p : Perms) → IsWord (perms_text p)
perms_text-IsWord p = (ground arith, (ground arith, (ground arith, (ground arith, tt))))

perms_lem : (p : Perms) → parse_perms (perms_text p) ≡ some p
perms_lem p = ground arith

hex_lem : (m : Numeral) → IsNumeral 16 m → from_str_radix 16 (text_of m) ≡ some (value_of 16 m)
hex_lem m h = from_str_radix_lem 16 (omega arith) (λ n. omega arith) m.first m.more h.0 h.1

decimal_lem : (m : Numeral) → IsNumeral 10 m → from_str_radix 10 (text_of m) ≡ some (value_of 10 m)
decimal_lem m h = from_str_radix_lem 10 (omega arith) (λ n. omega arith) m.first m.more h.0 h.1

fields_lem :
    (e : Entry)
    → IsEntry e
    → split_whitespace (line_of e)
      ≡ addresses_text e
        ∷ perms_text e.perms
        ∷ text_of e.offset
        ∷ e.device
        ∷ text_of e.inode
        ∷ e.path
fields_lem e (start, end, offset, device, inode, path) =
    let addresses =
      Clean-append (text_of e.start) (b'-' ∷ text_of e.end)
        (digits_text-Clean (digits_of e.start) start.0)
        (refl, digits_text-Clean (digits_of e.end) end.0) in
    first_word (addresses_text e) _ addresses
    ∙ ap (λ ws. addresses_text e ∷ ws)
        (first_word (perms_text e.perms) _ (perms_text-IsWord e.perms)
          ∙ ap (λ ws. perms_text e.perms ∷ ws)
              (first_word (text_of e.offset) _ (digits_text-Clean (digits_of e.offset) offset.0)
                ∙ ap (λ ws. text_of e.offset ∷ ws)
                    (first_word e.device _ device
                      ∙ ap (λ ws. e.device ∷ ws)
                          (first_word (text_of e.inode) _ (
                              digits_text-Clean (digits_of e.inode)
                                (below_16 (digits_of e.inode) inode.0))
                            ∙ ap (λ ws. text_of e.inode ∷ ws)
                                (skip_spaces e.blanks _
                                  ∙ split_whitespace-join_spaced e.path path)))))

addresses_lem :
    (e : Entry)
    → IsEntry e
    → parse_addresses (addresses_text e) ≡ some (value_of 16 e.start, value_of 16 e.end)
unfolding parse_addresses
addresses_lem e h =
    rw
      (split_on-two (text_of e.start) (text_of e.end) (digits_text-no_dash (digits_of e.start))
        (digits_text-no_dash (digits_of e.end)))
      (rw (hex_lem e.start h.0) (rw (hex_lem e.end h.1) refl))

-- A line in the format of /proc/self/maps: addresses and offset in hexadecimal and the inode in
-- decimal, each below 2 ^ 64 and perhaps with zeros in front, a device without white space, and a path
-- that is empty or has words with one blank between, behind any number of blanks. It is parsed to the
-- region with those values, its four permissions, its device and its path.
pub parse_maps_line-line_of :
    (e : Entry) → IsEntry e → parse_maps_line (line_of e) ≡ some (region_of e)
unfolding parse_maps_line
parse_maps_line-line_of e h = rw (fields_lem e h) (
    rw (addresses_lem e h)
      (rw (perms_lem e.perms) (rw (hex_lem e.offset h.2) (rw (decimal_lem e.inode h.4) refl))))
