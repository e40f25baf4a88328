-- ===== src/Loader/Dependencies.antt =====
-- src/loader.rs: the dependencies of an image, where they are on disk, and how they are loaded.
pub mod Order
pub mod Ending
use dynld.Prelude.{
  ℕ, ◌+◌, ◌/◌, Bool, true, false, Option, none, some, List, [], ◌∷◌, ◌++◌, ◌==◌, if◌then◌else◌,
  length, drop, Bytes, ◌>>=◌, ◌>>◌, Result, ok, err, panic,
}
use dynld.ExportsTrie.{starts_with}
use dynld.Array.{FixedVec, new_array, push, deref}
use dynld.SharedCache.{DyldSharedCache}
use dynld.SharedCache.Resolve.{is_library_cached}
use dynld.Loader.Parser.{Rpath, at_loader_path, at_executable_path, at_rpath}

-- The limit of `dependencies_collect`.
abbrev pub max_dependencies : ℕ
max_dependencies = 32

-- The rounds over the libraries that are left.
dependencies_loop :
    DyldSharedCache → List (Bytes × ℕ) → FixedVec (Bytes × Bool) → Result (FixedVec (Bytes × Bool))
dependencies_loop cache [] dependencies = ok dependencies
dependencies_loop cache ((lib_name, name_offset) ∷ libraries) dependencies =
    if dependencies.len == max_dependencies then err "exceeded maximum amount of dylibs" else (do
      dependencies' ← push dependencies (lib_name, is_library_cached cache lib_name)
      dependencies_loop cache libraries dependencies')

unfoldable pub dependencies_collect :
    FixedVec (Bytes × ℕ) → DyldSharedCache → Result (FixedVec (Bytes × Bool))
unfolding dependencies_loop
dependencies_collect libraries cache = do
  names ← deref libraries
  dependencies_loop cache names (new_array max_dependencies)

-- `text.strip_prefix(prefix)`
unfoldable pub strip_prefix : Bytes → Bytes → Option Bytes
strip_prefix text prefix =
    if starts_with text prefix then some (drop (length prefix) text) else none

-- "@rpath/"
abbrev pub rpath_prefix : Bytes
rpath_prefix = b'@' ∷ b'r' ∷ b'p' ∷ b'a' ∷ b't' ∷ b'h' ∷ b'/' ∷ []

-- "@loader_path/"
abbrev pub loader_path_prefix : Bytes
loader_path_prefix =
    b'@' ∷ b'l' ∷ b'o' ∷ b'a' ∷ b'd' ∷ b'e' ∷ b'r' ∷ b'_' ∷ b'p' ∷ b'a' ∷ b't' ∷ b'h' ∷ b'/' ∷ []

-- "@executable_path/"
abbrev pub executable_path_prefix : Bytes
executable_path_prefix =
    b'@' ∷ b'e' ∷ b'x' ∷ b'e' ∷ b'c' ∷ b'u' ∷ b't' ∷ b'a' ∷ b'b' ∷ b'l' ∷ b'e' ∷ b'_' ∷ b'p' ∷ b'a'
    ∷ b't' ∷ b'h' ∷ b'/' ∷ []

-- `format!("{exec_dir}/{rest}")`
abbrev pub in_dir : Bytes → Bytes → Bytes
in_dir exec_dir rest = exec_dir ++ (b'/' ∷ rest)

-- Search paths are `unimplemented!`.
under_rpath : Option Rpath → (exec_dir rest : Bytes) → Result Bytes
under_rpath (some at_loader_path) exec_dir rest = ok (in_dir exec_dir rest)
under_rpath (some at_executable_path) exec_dir rest = ok (in_dir exec_dir rest)
under_rpath (some at_rpath) exec_dir rest = panic
under_rpath none exec_dir rest = ok rest

resolved_path : Bytes → Option Rpath → Bytes → Result Bytes
unfolding under_rpath
resolved_path install_name rpath exec_dir = elim (strip_prefix install_name rpath_prefix) [
  | some rest ↦ under_rpath rpath exec_dir rest
  | none ↦ elim (strip_prefix install_name loader_path_prefix) [
    | some rest ↦ ok (in_dir exec_dir rest)
    | none ↦ elim (strip_prefix install_name executable_path_prefix) [
      | some rest ↦ ok (in_dir exec_dir rest)
      | none ↦ ok install_name
    ]
  ]
]

unfoldable pub user_dylib_disk_path_resolve : Bytes → Option Rpath → Bytes → Result Bytes
unfolding resolved_path
user_dylib_disk_path_resolve install_name rpath exec_dir =
    resolved_path install_name rpath exec_dir >>= λ resolved. ok (resolved ++ (0 ∷ []))

-- `Library` as the loader builds it: the bytes of a user dylib are those in memory from its address on,
-- whatever they are when they are read.
pub data LoadedLibrary : Type 0 where
  loaded_system : (path : Bytes) → LoadedLibrary
  loaded_user : (address size : ℕ) → LoadedLibrary

-- `W` is the state of the process; `load` is what opens the file at a path and loads it, to its address
-- and its size.
module _ {W : Type 0} (load : Bytes → W → Result ((ℕ × ℕ) × W)) (exec_dir : Bytes)
    (rpath : Option Rpath) where
  user_dylib_load : Bytes → Bool → W → Result (LoadedLibrary × W)
  user_dylib_load install_name true w = ok (loaded_system install_name, w)
  user_dylib_load install_name false w = do
    dylib_path ← user_dylib_disk_path_resolve install_name rpath exec_dir
    ((vm, vm_size), w') ← load dylib_path w
    ok (loaded_user vm vm_size, w')

  unfoldable pub user_dylibs_load_recursively :
      List (Bytes × Bool) → W → Result (List LoadedLibrary × W)
  unfolding user_dylib_load
  user_dylibs_load_recursively [] w = ok ([], w)
  user_dylibs_load_recursively ((install_name, is_system_dylib) ∷ dependencies) w = do
    (library, w') ← user_dylib_load install_name is_system_dylib w
    (loaded, w'') ← user_dylibs_load_recursively dependencies w'
    ok (library ∷ loaded, w'')
