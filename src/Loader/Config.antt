-- ===== src/Loader/Config.antt =====
-- zpoline_loader/src/init.rs: `build_rewrite_config`. What it asks of its surroundings is a record.
pub mod Ranges
use zpoline_rs.Prelude.{
  ℕ, Bool, true, false, List, [], ◌∷◌, ◌++◌, Option, none, some, ◌==◌, add_64, if◌then◌else◌,
}
use zpoline_rs.Slice.{◌>>=◌}
use zpoline_rs.Rewriter.FilePath.{
  Component, root_dir, cur_dir, parent_dir, normal, components, split_on,
}
use zpoline_rs.Rewriter.Config.{RewriteConfig, new_config, exclude_path, exclude_range}

-- `std::env::current_exe`, the address of `zpoline_hook_api::raw_syscall`, and the variable
-- ZPOLINE_EXCLUDE.
pub record Surroundings : Type 0 where
  pub current_exe : Option (List ℕ)
  pub raw_syscall_addr : ℕ
  pub zpoline_exclude : Option (List ℕ)

-- The text of a component and of a path. Slashes that are repeated are not kept, which no comparison
-- of paths can tell.
abbrev pub component_text : Component → List ℕ
component_text root_dir = []
component_text cur_dir = b'.' ∷ []
component_text parent_dir = b'.' ∷ b'.' ∷ []
component_text (normal t) = t

unfoldable pub joined : List Component → List ℕ
joined [] = []
joined (c ∷ []) = component_text c
joined (c ∷ d ∷ cs) = component_text c ++ b'/' ∷ joined (d ∷ cs)

abbrev pub path_text : List Component → List ℕ
path_text (root_dir ∷ []) = b'/' ∷ []
path_text cs = joined cs

-- `Path::parent`: all components but the last, which is not the root.
unfoldable pub without_last : List Component → Option (List Component)
without_last [] = none
without_last (root_dir ∷ []) = none
without_last (c ∷ []) = some []
without_last (c ∷ d ∷ cs) = do rest ← without_last (d ∷ cs); some (c ∷ rest)

unfoldable pub parent : List ℕ → Option (List ℕ)
unfolding without_last joined
parent path = do cs ← without_last (components path); some (path_text cs)

abbrev pub ends_in_slash : List ℕ → Bool
ends_in_slash [] = true
ends_in_slash (x ∷ []) = x == b'/'
ends_in_slash (x ∷ y ∷ xs) = ends_in_slash (y ∷ xs)

-- `Path::join` with a relative path.
abbrev pub join_relative : List ℕ → List ℕ → List ℕ
join_relative path tail = if ends_in_slash path then path ++ tail else path ++ b'/' ∷ tail

abbrev pub loader_library : List ℕ
loader_library =
    b'l' ∷ b'i' ∷ b'b' ∷ b'z' ∷ b'p' ∷ b'o' ∷ b'l' ∷ b'i' ∷ b'n' ∷ b'e' ∷ b'_' ∷ b'l' ∷ b'o' ∷ b'a'
    ∷ b'd' ∷ b'e' ∷ b'r' ∷ b'.' ∷ b's' ∷ b'o' ∷ []

abbrev pub exclude_beside : Option (List ℕ) → RewriteConfig → RewriteConfig
exclude_beside none config = config
exclude_beside (some dir) config = exclude_path config (join_relative dir loader_library)

abbrev pub exclude_loader : Option (List ℕ) → RewriteConfig → RewriteConfig
exclude_loader none config = config
exclude_loader (some exe_path) config = exclude_beside (parent exe_path) config

-- The loop over the parts of ZPOLINE_EXCLUDE.
unfoldable pub exclude_each : List (List ℕ) → RewriteConfig → RewriteConfig
exclude_each [] config = config
exclude_each ([] ∷ paths) config = exclude_each paths config
exclude_each ((x ∷ xs) ∷ paths) config = exclude_each paths (exclude_path config (x ∷ xs))

abbrev pub exclude_variable : Option (List ℕ) → RewriteConfig → RewriteConfig
exclude_variable none config = config
exclude_variable (some text) config = exclude_each (split_on b':' text) config

unfoldable pub build_rewrite_config : Surroundings → RewriteConfig
build_rewrite_config s =
    let config = exclude_loader s.current_exe new_config in
    let hook_api_start = s.raw_syscall_addr in
    let hook_api_end = add_64 hook_api_start 4096 in
    let config = exclude_range config hook_api_start hook_api_end in
    let config = exclude_range config 0 65536 in exclude_variable s.zpoline_exclude config
