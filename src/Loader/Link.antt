-- ===== src/Loader/Link.antt =====
-- src/loader.rs: mapping the segments, applying the fixups, and `macho_loader` itself. The kernel and
-- the code that is jumped to are a parameter: what they answer, and what they do to the memory. The
-- state is the memory and the requests so far. A sum of pointers wraps.
pub mod Performed
pub mod Placed
pub mod Stages
pub mod Ending
mod Runs
use dynld.Prelude.{
  ℕ, zero, suc, ◌+◌, ◌-◌, ◌%◌, ◌^◌, min, max, Bool, true, false, not, ◌&&◌, Option, none, some,
  List, [], ◌∷◌, ◌++◌, map, ◌==◌, if◌then◌else◌, Bytes, ◌>>=◌, ◌>>◌, Result, ok_or, failed, ok, err,
  out_of_fuel,
}
use dynld.Container.{Container, little, with_bytes}
use dynld.Scroll.{Scroll}
use dynld.Array.{deref}
use dynld.Image.{Segment}
use dynld.Fixups.Apply.{Memory, Library, system, user, fixup_all_chained_fixups}
use dynld.SharedCache.{DyldSharedCache}
use dynld.SharedCache.Resolve.{symbol_resolve}
use dynld.Loader.Parser.{ParsedImage, macho_parser}
use dynld.Loader.Dependencies.{
  LoadedLibrary, loaded_system, loaded_user, dependencies_collect, user_dylibs_load_recursively,
}

-- PAGE_ZERO_SIZE
abbrev pub page_zero_size : ℕ
page_zero_size = 0x1_0000_0000

-- A request to the kernel, or a call of other code.
pub data Event : Type 0 where
  allocated : (address size : ℕ) → Event
  copied : (file_offset address size : ℕ) → Event
  protected : (address size : ℕ) → (set_maximum : Bool) → (prot : ℕ) → Event
  thread_locals : (address : ℕ) → Event
  called : (address : ℕ) → Event

pub record Process : Type 0 where
  pub memory : Memory
  pub events : List Event

-- src/mach.rs, src/libc.rs, src/mmap.rs, src/tlv.rs and src/jump.rs as the loader sees them. An allocation
-- answers with an address, or fails; a file that is opened has a descriptor, a size, and bytes.
pub record System : Type 0 where
  pub vm_alloc_task_self : Process → ℕ → Option ℕ
  pub vm_copy : Container → (file_offset address size : ℕ) → Memory → Memory
  pub vm_protect : (address size : ℕ) → Bool → ℕ → Bool
  pub tlv_initialize_descriptors : ℕ → Memory → Memory
  pub entry_and_ret : ℕ → Memory → Memory
  pub open_file : Bytes → Option ℕ
  pub fstat : (fd : ℕ) → Option ℕ
  pub mmap_file : (size fd : ℕ) → Option Bytes

abbrev pub happens : Event → Process → Process
happens event p = record p { events = p.events ++ (event ∷ []) }

-- `vm.add(offset)`
abbrev pub at : (vm offset : ℕ) → ℕ
at vm offset = (vm + offset) % 2 ^ 64

-- The lowest address and the end of the highest segment, of those that are left.
abbrev pub range_fold : List Segment → (lo hi : ℕ) → ℕ × ℕ
range_fold [] lo hi = (lo, hi)
range_fold (seg ∷ segments) lo hi =
    range_fold segments (min lo seg.vm_addr) (max hi ((seg.vm_addr + seg.vm_size) % 2 ^ 64))

unfoldable pub vm_range : List Segment → ℕ × ℕ
vm_range segments = range_fold segments (2 ^ 64 - 1) 0

-- `(max_addr - min_addr) as usize`
unfoldable pub vm_size_of : List Segment → ℕ
vm_size_of segments =
    let (min_addr, max_addr) = vm_range segments in (max_addr + 2 ^ 64 - min_addr) % 2 ^ 64

-- The bytes of the memory from an address on.
abbrev pub memory_bytes : Memory → (address size : ℕ) → Bytes
memory_bytes memory address zero = []
memory_bytes memory address (suc n) = memory address ∷ memory_bytes memory (address + 1) n

-- A library with the bytes that it has in memory.
abbrev pub library_in : Memory → LoadedLibrary → Library
library_in memory (loaded_system path) = system path
library_in memory (loaded_user address size) =
    user (with_bytes (memory_bytes memory address size) little) address

module _ (sys : System) where
  -- src/user_dylibs.rs: a file as a container. The descriptor is kept as a `u32`.
  unfoldable pub disk_path_mmap : Bytes → Result Container
  disk_path_mmap path = do
    fd ← ok_or (sys.open_file path) "could not open path"
    size ← ok_or (sys.fstat (fd % 2 ^ 32)) "could not stat cache file"
    bytes ← ok_or (sys.mmap_file size (fd % 2 ^ 32)) "could not mmap cache file"
    ok (with_bytes bytes little)

  -- The file at a path is loaded, to its address and its size.
  dylib_load :
      (Bytes → Container → Process → Result ((ℕ × ℕ) × Process))
      → Bytes
      → Process
      → Result ((ℕ × ℕ) × Process)
  dylib_load loader dylib_path p = do file ← disk_path_mmap dylib_path; loader dylib_path file p

  -- One segment is copied, unless it is the page zero.
  unfoldable pub segment_map : Bool → Container → ℕ → Segment → Process → Process
  segment_map skip_page_zero image vm seg p =
      if skip_page_zero && (seg.vm_addr == 0) then p else record {
        memory = sys.vm_copy image seg.file_offset (at vm seg.vm_addr) seg.vm_size p.memory;
        events = p.events ++ (copied seg.file_offset (at vm seg.vm_addr) seg.vm_size ∷ []);
      }

  unfoldable pub segments_map : Bool → Container → ℕ → List Segment → Process → Process
  segments_map skip_page_zero image vm [] p = p
  segments_map skip_page_zero image vm (seg ∷ segments) p =
      segments_map skip_page_zero image vm segments (segment_map skip_page_zero image vm seg p)

  unfoldable pub macho_segments_map_to_vm :
      Bool → Container → List Segment → Process → Result ((ℕ × ℕ) × Process)
  macho_segments_map_to_vm skip_page_zero image segments p = do
    let vm_size = vm_size_of segments
    vm ← ok_or (sys.vm_alloc_task_self p vm_size) "failed to vm_alloc_task_self"
    ok (
      (vm, vm_size),
      segments_map skip_page_zero image vm segments (happens (allocated vm vm_size) p),
    )

  -- The maximum protection, or the current one.
  protect_one : ℕ → Segment → Bool → Process → Result Process
  protect_one vm seg set_max p =
      if sys.vm_protect (at vm seg.vm_addr) seg.vm_size set_max seg.prot
      then ok (happens (protected (at vm seg.vm_addr) seg.vm_size set_max seg.prot) p)
      else err "could not apply vm protections to a memory region"

  unfoldable pub macho_segments_vm_protect : ℕ → List Segment → Process → Result Process
  unfolding protect_one
  macho_segments_vm_protect vm [] p = ok p
  macho_segments_vm_protect vm (seg ∷ segments) p = do
    p' ← protect_one vm seg true p
    p'' ← protect_one vm seg false p'
    macho_segments_vm_protect vm segments p''

  -- `vm.add(func).add(PAGE_ZERO_SIZE)`
  unfoldable pub macho_init_functions_exec : ℕ → List ℕ → Process → Process
  macho_init_functions_exec vm [] p = p
  macho_init_functions_exec vm (func ∷ init_functions) p =
      macho_init_functions_exec vm init_functions (record {
        memory = sys.entry_and_ret (at vm (func + page_zero_size)) p.memory;
        events = p.events ++ (called (at vm (func + page_zero_size)) ∷ []);
      })

  unfoldable pub macho_tlv_initialize : ℕ → Process → Process
  macho_tlv_initialize vm p = record {
    memory = sys.tlv_initialize_descriptors (at vm page_zero_size) p.memory;
    events = p.events ++ (thread_locals (at vm page_zero_size) ∷ []);
  }

  unfoldable pub image_finalize : ℕ → ParsedImage → List Segment → Bool → Process → Result Process
  image_finalize vm parsed segments is_executable p =
      macho_segments_vm_protect vm segments
        (if is_executable && parsed.has_thread_locals then macho_tlv_initialize vm p else p)
      >>= λ p'. ok (macho_init_functions_exec vm parsed.init_functions p')

  module _ (s : Scroll) (cache : DyldSharedCache) where
    -- The libraries are read in the memory before the fixups, which lie in the image and not in them.
    unfoldable pub image_fixups_apply :
        ℕ → ParsedImage → List LoadedLibrary → Bool → Process → Result Process
    image_fixups_apply vm parsed dependencies is_executable p =
        fixup_all_chained_fixups s vm (if is_executable then page_zero_size else 0) parsed.symbols
          (map (library_in p.memory) dependencies) (some (symbol_resolve s cache)) false
          parsed.fixups p.memory
        >>= λ memory. ok (record p { memory = memory })

    -- The steps on one image; `loader` is the call of the loader on a user dylib.
    unfoldable pub load_image :
        (Bytes → Container → Process → Result ((ℕ × ℕ) × Process))
        → Bool
        → Container
        → Bytes
        → Process
        → Result ((ℕ × ℕ) × Process)
    unfolding dylib_load
    load_image loader is_executable image exec_dir p = do
      parsed ← macho_parser s image
      dependencies ← dependencies_collect parsed.libraries cache
      names ← deref dependencies
      (dylib_images, p1) ←
          user_dylibs_load_recursively (dylib_load loader) exec_dir parsed.rpath names p
      segments ← deref parsed.segments
      ((vm, vm_size), p2) ← macho_segments_map_to_vm is_executable image segments p1
      p3 ← image_fixups_apply vm parsed dylib_images is_executable p2
      p4 ← image_finalize vm parsed segments is_executable p3
      ok (
        (vm, (if is_executable then at vm (parsed.entry_point + page_zero_size) else vm_size)),
        p4,
      )

    abbrev is_none : Option Bytes → Bool
    is_none none = true
    is_none (some _) = false

    -- `dylib_dir` is none for the executable. The fuel is how deep user dylibs may depend on others.
    unfoldable pub macho_loader :
        ℕ → Container → Bytes → (dylib_dir : Option Bytes) → Process → Result ((ℕ × ℕ) × Process)
    macho_loader zero image exec_dir dylib_dir p = out_of_fuel
    macho_loader (suc fuel) image exec_dir dylib_dir p =
        load_image (λ dylib_path file p'. macho_loader fuel file exec_dir (some dylib_path) p')
          (is_none dylib_dir) image exec_dir p
