-- ===== src/Rewriter/Maps/File.antt =====
-- zpoline_rewriter/src/maps.rs: `parse_maps_file` and `parse_proc_maps`. What opening a file gives is a
-- parameter: its lines, each read or not, or an error; an error is its text.
use mathlib.Core.List.{append-nil, append_assoc}
use Prim.Native.String.{String}
use zpoline_rs.Prelude.{ℕ, ◌≡◌, sym, ap, ◌∙◌, List, [], ◌∷◌, ◌++◌, map, Option, none, some, All}
use zpoline_rs.Rewriter.Region.{MemoryRegion}
use zpoline_rs.Rewriter.Maps.{parse_maps_line}
use zpoline_rs.Rewriter.Maps.RoundTrip.{Entry, IsEntry, line_of, region_of, parse_maps_line-line_of}

pub data Line : Type 0 where
  read_line : List ℕ → Line
  failed_line : String → Line

pub data Opened : Type 0 where
  opened : List Line → Opened
  not_opened : String → Opened

-- `std::io::Result<Vec<MemoryRegion>>`.
pub data ProcMaps : Type 0 where
  read_maps : List MemoryRegion → ProcMaps
  failed_maps : String → ProcMaps

abbrev pub pushed : List MemoryRegion → Option MemoryRegion → List MemoryRegion
pushed regions none = regions
pushed regions (some region) = regions ++ region ∷ []

-- The loop over the lines, with the regions so far; a line that is not parsed is left out.
unfoldable pub parse_lines : List MemoryRegion → List Line → ProcMaps
parse_lines regions [] = read_maps regions
parse_lines regions (failed_line e ∷ lines) = failed_maps e
parse_lines regions (read_line line ∷ lines) =
    parse_lines (pushed regions (parse_maps_line line)) lines

abbrev pub parse_opened : Opened → ProcMaps
parse_opened (not_opened e) = failed_maps e
parse_opened (opened lines) = parse_lines [] lines

unfoldable pub parse_maps_file : (List ℕ → Opened) → List ℕ → ProcMaps
unfolding parse_lines
parse_maps_file open_file path = parse_opened (open_file path)

-- "/proc/self/maps"
abbrev pub proc_self_maps : List ℕ
proc_self_maps =
    b'/' ∷ b'p' ∷ b'r' ∷ b'o' ∷ b'c' ∷ b'/' ∷ b's' ∷ b'e' ∷ b'l' ∷ b'f' ∷ b'/' ∷ b'm' ∷ b'a' ∷ b'p'
    ∷ b's' ∷ []

abbrev pub parse_proc_maps : (List ℕ → Opened) → ProcMaps
parse_proc_maps open_file = parse_maps_file open_file proc_self_maps

parse_lines-line_of :
    (es : List Entry) (regions : List MemoryRegion)
    → All IsEntry es
    → parse_lines regions (map (λ e. read_line (line_of e)) es)
      ≡ read_maps (regions ++ map region_of es)
unfolding parse_lines
parse_lines-line_of [] regions h = ap read_maps (sym (append-nil regions))
parse_lines-line_of (e ∷ es) regions (here, h) =
    ap (λ r. parse_lines (pushed regions r) (map (λ x. read_line (line_of x)) es))
      (parse_maps_line-line_of e here)
    ∙ parse_lines-line_of es (regions ++ region_of e ∷ []) h
    ∙ ap read_maps (append_assoc regions (region_of e ∷ []) (map region_of es))

-- A file of lines in the format of /proc/self/maps, each of them read, is parsed to the regions of its
-- lines, in their order.
pub parse_maps_file-line_of :
    (open_file : List ℕ → Opened) (path : List ℕ) (es : List Entry)
    → open_file path ≡ opened (map (λ e. read_line (line_of e)) es)
    → All IsEntry es
    → parse_maps_file open_file path ≡ read_maps (map region_of es)
unfolding parse_maps_file
parse_maps_file-line_of open_file path es f h = rw f (parse_lines-line_of es [] h)
