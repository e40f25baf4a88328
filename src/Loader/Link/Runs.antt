-- ===== src/Loader/Link/Runs.antt =====
-- A kernel that grants everything, and the theorems on mapping and linking at it.
use dynld.Prelude.{
  ℕ, suc, ◌+◌, ◌-◌, ◌≤◌, ◌<◌, ◌≡◌, refl, ◌⊎◌, Bool, true, false, ◌&&◌, none, some, List, [], ◌∷◌,
  ◌++◌, map, arith, ltb, leb, if◌then◌else◌, length, get_elem?, replicate, Bytes, Result, ok, err,
}
use dynld.Container.{Container}
use dynld.Scroll.Images.{loader_image}
use dynld.Array.{
  FixedVec, deref, new_array, new, push, try_push, is_full, remaining_capacity, capacity,
}
use dynld.Array.Shape.{shape}
use dynld.Array.Holding.{Holds, shape-Holds}
use dynld.Image.{Segment}
use dynld.SharedCache.{DyldSharedCache}
use dynld.SharedCache.Attach
use dynld.Loader.Parser.{ParsedImage, empty_image}
use dynld.ExportsTrie.{starts_with}
use dynld.SharedCache.Resolve.{is_library_cached, library_find_by_install_path, library_find}
use dynld.Loader.Dependencies.{
  LoadedLibrary, loaded_user, strip_prefix, user_dylib_disk_path_resolve, dependencies_collect,
  user_dylibs_load_recursively,
}
use dynld.Loader.Dependencies.Order.{
  with_cached, dependencies_collect-all, StandsFor, user_dylibs_load-StandsFor,
}
use dynld.Loader.Link.{
  allocated, Process, System, happens, segments_map, vm_size_of, vm_range, macho_segments_map_to_vm,
  image_finalize,
}
use dynld.Loader.Link.Performed.{performed}
use dynld.Loader.Link.Placed.{MappedInto, macho_segments_map_to_vm-CopiedInto}
use dynld.Loader.Link.Stages.{all_protections, calls, tlv_events, image_finalize-events}

abbrev vm : ℕ
vm = 0x2_0000_0000

-- The copy of a byte of the file; past its end, zero.
abbrev file_byte : Container → ℕ → ℕ
file_byte image i = elim (get_elem? image.bytes i) [ none ↦ 0 | some b ↦ b ]

abbrev kernel : System
kernel = record {
  vm_alloc_task_self = λ p size. some vm;
  vm_copy = λ image file_offset address size memory a.
      if leb address a && ltb a (address + size)
      then file_byte image (file_offset + (a - address))
      else memory a;
  vm_protect = λ address size set_maximum prot. true;
  tlv_initialize_descriptors = λ address memory. memory;
  entry_and_ret = λ address memory. memory;
  open_file = λ path. some 3;
  fstat = λ fd. some (length loader_image.bytes);
  mmap_file = λ size fd. some loader_image.bytes;
}

abbrev before : Process
before = record { memory = λ a. 0; events = [] }

abbrev text : Segment
text = record { file_offset = 0; vm_addr = 0; vm_size = 16; prot = 5 }

abbrev data_segment : Segment
data_segment = record { file_offset = 16; vm_addr = 16; vm_size = 8; prot = 3 }

abbrev segments : List Segment
segments = text ∷ data_segment ∷ []

abbrev after : Process
after = segments_map kernel false loader_image vm segments (happens (allocated vm 24) before)

maps : macho_segments_map_to_vm kernel false loader_image segments before ≡ ok ((vm, 24), after)
unfolding macho_segments_map_to_vm vm_size_of vm_range
maps = refl

macho_segments_map_to_vm-CopiedInto_example :
    MappedInto kernel loader_image false segments before ((vm, 24), after)
macho_segments_map_to_vm-CopiedInto_example =
    macho_segments_map_to_vm-CopiedInto kernel loader_image false segments before after 0 vm 24 text
      (omega arith, (omega arith, tt)) refl refl (omega arith) maps

abbrev parsed : ParsedImage
parsed = record empty_image { init_functions = 0x10 ∷ 0x20 ∷ []; has_thread_locals = true }

image_finalize-events_example :
    (p' : Process) × (image_finalize kernel vm parsed segments true after ≡ ok p')
    × (p'.events
        ≡ after.events
          ++ (tlv_events kernel vm true parsed
              ++ (all_protections vm segments ++ calls vm parsed.init_functions)))
    × ((image : Container)
        → p'.memory
          ≡ performed kernel image
              (tlv_events kernel vm true parsed
                ++ (all_protections vm segments ++ calls vm parsed.init_functions))
              after.memory)
image_finalize-events_example =
    image_finalize-events kernel vm parsed segments true after ((refl, refl), ((refl, refl), tt))

abbrev cache : DyldSharedCache
cache = Attach.new

abbrev libraries : FixedVec (Bytes × ℕ)
libraries = shape ((b'_' ∷ b'a' ∷ [], 24) ∷ []) (replicate 63 none)

abbrev names : List (Bytes × ℕ)
names = (b'_' ∷ b'a' ∷ [], 24) ∷ []

dependencies_collect-all_example :
    (length names ≤ 32
      × (collected : FixedVec (Bytes × Bool)) × (dependencies_collect libraries cache
          ≡ ok collected)
      × Holds 32 collected (map (with_cached cache) names))
    ⊎ (32 < length names
        × (dependencies_collect libraries cache ≡ err "exceeded maximum amount of dylibs"))
dependencies_collect-all_example =
    dependencies_collect-all cache 64 libraries names
      (shape-Holds 64 names (replicate 63 none) refl (omega arith))

-- A loader that counts the files.
abbrev counting : Bytes → ℕ → Result ((ℕ × ℕ) × ℕ)
counting path n = ok ((vm, 24), suc n)

abbrev collected : FixedVec (Bytes × Bool)
collected = shape ((b'_' ∷ b'a' ∷ [], false) ∷ []) (replicate 31 none)

abbrev loaded : List LoadedLibrary
loaded = loaded_user vm 24 ∷ []

collects : dependencies_collect libraries cache ≡ ok collected
unfolding dependencies_collect deref new_array new push try_push is_full remaining_capacity capacity
    is_library_cached library_find_by_install_path library_find
collects = refl

lists :
    (let m : Result (List (Bytes × Bool)) = deref collected in m)
    ≡ ok ((b'_' ∷ b'a' ∷ [], false) ∷ [])
unfolding deref
lists = refl

loads :
    user_dylibs_load_recursively counting (b'/' ∷ []) none ((b'_' ∷ b'a' ∷ [], false) ∷ []) 0
    ≡ ok (loaded, 1)
unfolding user_dylibs_load_recursively user_dylib_disk_path_resolve strip_prefix starts_with
loads = refl

user_dylibs_load-StandsFor_example :
    (length loaded ≡ length names)
    × ((i : ℕ) (name : Bytes) (name_offset : ℕ)
        → get_elem? names i ≡ some (name, name_offset)
        → StandsFor counting
            (b'/' ∷ [])
            none
            (name, is_library_cached cache name)
            (get_elem? loaded i))
user_dylibs_load-StandsFor_example =
    user_dylibs_load-StandsFor counting (b'/' ∷ []) none cache 64 libraries names collected
      ((b'_' ∷ b'a' ∷ [], false) ∷ []) loaded 0 1
      (shape-Holds 64 names (replicate 63 none) refl (omega arith)) collects lists loads
