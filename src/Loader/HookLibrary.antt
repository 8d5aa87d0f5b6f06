-- ===== src/Loader/HookLibrary.antt =====
-- zpoline_loader/src/dlmopen.rs: which hook library is loaded, and what its loading gives. The linker
-- is a parameter. Texts are lists of bytes; a null pointer is 0.
pub mod Sourced
use Prim.Native.String.{String}
use zpoline_rs.Prelude.{ℕ, suc, Bool, List, [], ◌∷◌, Option, none, some, ◌==◌, if◌then◌else◌}
use zpoline_rs.HookApi.Process.{HookFn}
use zpoline_rs.Loader.Config.{parent, join_relative}

pub data DlmopenError : Type 0 where
  library_not_specified : DlmopenError
  dlmopen_failed : String → DlmopenError
  symbol_not_found : String → DlmopenError

-- The dynamic linker, with its state, and what std and the processor add to it: `dlmopen` in a new
-- namespace with RTLD_NOW | RTLD_LOCAL, `dlsym`, `dlerror` as text, a call of the function without
-- arguments at an address, the hook function at an address, and the text that the error of
-- `CString::new` makes for the place of a zero byte.
pub record Linker (L : Type 0) : Type 0 where
  pub dlmopen : List ℕ → L → ℕ × L
  pub dlsym : ℕ → String → L → ℕ × L
  pub dlerror : L → Option String × L
  pub call : ℕ → L → ℕ × L
  pub hook_at : ℕ → HookFn
  pub invalid_path_text : ℕ → String

pub data Loaded : Type 0 where
  ok : HookFn → Loaded
  err : DlmopenError → Loaded

-- `CString::new`: the place of the first zero byte, if there is one.
unfoldable pub zero_byte_at : List ℕ → ℕ → Option ℕ
zero_byte_at [] i = none
zero_byte_at (x ∷ xs) i = if x == 0 then some i else zero_byte_at xs (suc i)

abbrev pub error_message : Option String → String
error_message none = "Unknown error"
error_message (some text) = text

module _ {L : Type 0} (linker : Linker L) where
  -- From the handle on: the symbol, and what the library's function gives.
  abbrev pub take_hook : ℕ × L → Loaded × L
  take_hook (hook_fn_ptr, l) =
      if hook_fn_ptr == 0
      then (err (symbol_not_found "hook function returned null"), l)
      else (ok (linker.hook_at hook_fn_ptr), l)

  abbrev pub run_init : ℕ × L → Loaded × L
  run_init (init_fn_ptr, l) =
      if init_fn_ptr == 0
      then (err (symbol_not_found "zpoline_hook_init"), l)
      else take_hook (linker.call init_fn_ptr l)

  abbrev pub after_open : ℕ × L → Loaded × L
  after_open (handle, l) =
      if handle == 0
      then (let e = linker.dlerror l in (err (dlmopen_failed (error_message e.0)), e.1))
      else run_init (linker.dlsym handle "zpoline_hook_init" l)

  abbrev pub open_path : List ℕ → Option ℕ → L → Loaded × L
  open_path lib_path (some i) l = (err (dlmopen_failed (linker.invalid_path_text i)), l)
  open_path lib_path none l = after_open (linker.dlmopen lib_path l)

  unfoldable pub load_hook_library : Option (List ℕ) → L → Loaded × L
  unfolding zero_byte_at
  load_hook_library none l = (err library_not_specified, l)
  load_hook_library (some lib_path) l = open_path lib_path (zero_byte_at lib_path 0) l

-- The variable ZPOLINE_HOOK, `Path::exists`, and `to_string_lossy` of a path.
pub record HookSettings : Type 0 where
  pub zpoline_hook : Option (List ℕ)
  pub exists_at : List ℕ → Bool
  pub lossy : List ℕ → List ℕ

-- "libzpoline_hook_impl.so"
abbrev pub hook_impl_library : List ℕ
hook_impl_library =
    b'l' ∷ b'i' ∷ b'b' ∷ b'z' ∷ b'p' ∷ b'o' ∷ b'l' ∷ b'i' ∷ b'n' ∷ b'e' ∷ b'_' ∷ b'h' ∷ b'o' ∷ b'o'
    ∷ b'k' ∷ b'_' ∷ b'i' ∷ b'm' ∷ b'p' ∷ b'l' ∷ b'.' ∷ b's' ∷ b'o' ∷ []

abbrev pub default_path : HookSettings → Option (List ℕ) → Option (List ℕ)
default_path s none = none
default_path s (some dir) =
    let path = join_relative dir hook_impl_library in
    if s.exists_at path then some (s.lossy path) else none

abbrev pub beside_program : HookSettings → Option (List ℕ) → Option (List ℕ)
beside_program s none = none
beside_program s (some exe_path) = default_path s (parent exe_path)

abbrev pub chosen_path : HookSettings → Option (List ℕ) → Option (List ℕ) → Option (List ℕ)
chosen_path s current_exe (some custom_path) = some custom_path
chosen_path s current_exe none = beside_program s current_exe

-- The second argument is what `current_exe` gives.
unfoldable pub get_hook_library_path : HookSettings → Option (List ℕ) → Option (List ℕ)
get_hook_library_path s current_exe = chosen_path s current_exe s.zpoline_hook

-- zpoline_loader/src/lib.rs: the hook function of the library, where one is found and loads. An error
-- is only printed.
abbrev pub usable : {L : Type 0} → Loaded × L → Option HookFn × L
usable (ok hook_fn, l) = (some hook_fn, l)
usable (err e, l) = (none, l)

module _ {L : Type 0} (linker : Linker L) where
  abbrev pub loaded_from : Option (List ℕ) → L → Option HookFn × L
  loaded_from none l = (none, l)
  loaded_from (some lib_path) l = usable (load_hook_library linker (some lib_path) l)

  unfoldable pub find_hook : HookSettings → Option (List ℕ) → L → Option HookFn × L
  unfolding load_hook_library get_hook_library_path
  find_hook s current_exe l = loaded_from (get_hook_library_path s current_exe) l
