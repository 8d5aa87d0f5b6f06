-- ===== src/Loader/HookLibrary/Sourced.antt =====
-- Where a hook of a hook library comes from.
use zpoline_rs.Prelude.{ℕ, ◌≡◌, ◌≢◌, true, List, Option, none, some, All}
use zpoline_rs.HookApi.Process.{HookFn}
use zpoline_rs.Loader.Config.{parent, join_relative}
use zpoline_rs.Loader.HookLibrary.{Linker, HookSettings, hook_impl_library}

-- The way of a hook: the path, its handle, the library's initialization function and the hook's address,
-- none of them null, with the linker's states in between.
pub record Sourced {L : Type 0} (linker : Linker L) (path : List ℕ) (l : L) (f : HookFn) (l' : L)
    : Type 0 where
  pub no_zero : All (λ x. x ≢ 0) path
  pub handle : ℕ
  pub opened : L
  pub init_fn : ℕ
  pub resolved : L
  pub hook_ptr : ℕ
  pub opens : linker.dlmopen path l ≡ (handle, opened)
  pub handle_lem : handle ≢ 0
  pub resolves : linker.dlsym handle "zpoline_hook_init" opened ≡ (init_fn, resolved)
  pub init_lem : init_fn ≢ 0
  pub calls : linker.call init_fn resolved ≡ (hook_ptr, l')
  pub hook_lem : hook_ptr ≢ 0
  pub is_hook : f ≡ linker.hook_at hook_ptr

-- The path of the variable, or else that of a file which exists beside the program.
pub data Chosen (s : HookSettings) (current_exe : Option (List ℕ)) (path : List ℕ) : Type 0 where
  by_variable : s.zpoline_hook ≡ some path → Chosen s current_exe path
  by_default :
      (exe dir : List ℕ)
      → s.zpoline_hook ≡ none
      → current_exe ≡ some exe
      → parent exe ≡ some dir
      → s.exists_at (join_relative dir hook_impl_library) ≡ true
      → path ≡ s.lossy (join_relative dir hook_impl_library)
      → Chosen s current_exe path
