-- ===== src/MachOImage/Ending.antt =====
-- src/macho_image.rs: the searches over load commands end.
use dynld.Prelude.{
  ℕ, zero, suc, ◌+◌, inl, inr, Option, none, some, List, [], ◌==◌, Bool-cases, Bytes, Result, Ends,
  returned, panicked, ok, err, panic, out_of_fuel,
}
use dynld.Container.Reads.{bind-Ends, Anything, deserialize-Ends, cstr-Ends}
use dynld.Scroll.{Scroll}
use dynld.Bindings.MachO.{lc_reexport_dylib, lc_dyld_exports_trie, lc_dyld_info_only, lc_segment_64}
use dynld.MachOImage.{
  MachOImage, Command, mach_header_read, load_command_read, load_commands_loop, load_commands_find,
  dylib_install_name_read, stateless, exports_trie_span_visit, exports_trie_span_find,
  install_path_visit, dylib_install_path_for_ordinal, push_if_ok, reexport_visit,
  reexported_dylib_paths_collect, linkedit_visit, linkedit_segment_find,
  is_dylib_dependency_command,
}

module _ (s : Scroll) (image : MachOImage) where
  module _ {S T : Type 0} (visit : S → Command → Result (S × Option T))
      (visits : (st : S) (command : Command) → Ends Anything (visit st command)) where
    -- What follows a visit.
    found-Ends :
        (ncmds next : ℕ) (st : S) (found : Option T)
        → Ends Anything (load_commands_loop s ncmds image next visit st)
        → Ends Anything (elim found [
          | some t ↦ ok (st, some t)
          | none ↦ load_commands_loop s ncmds image next visit st
        ])
    found-Ends ncmds next st none rest = rest
    found-Ends ncmds next st (some t) rest = returned tt

    load_commands_loop-Ends :
        (ncmds offset : ℕ) (st : S)
        → Ends Anything (load_commands_loop s ncmds image offset visit st)
    unfolding load_commands_loop load_command_read
    load_commands_loop-Ends zero offset st = returned tt
    load_commands_loop-Ends (suc ncmds) offset st =
        bind-Ends (deserialize-Ends s.load_command image.container offset _) λ command.
          bind-Ends (visits st (command.cmd, offset)) λ (st', found).
            found-Ends ncmds (offset + command.cmdsize) st' found
              (load_commands_loop-Ends ncmds (offset + command.cmdsize) st')

    load_commands_find-Ends : (st : S) → Ends Anything (load_commands_find s image visit st)
    unfolding load_commands_find mach_header_read
    load_commands_find-Ends st =
        bind-Ends (deserialize-Ends s.mach_header_64 image.container image.mach_header_offset _)
          λ header. load_commands_loop-Ends header.ncmds _ st

  dylib_install_name_read-Ends :
      (offset : ℕ) → Ends Anything (dylib_install_name_read s image offset)
  unfolding dylib_install_name_read
  dylib_install_name_read-Ends offset =
      bind-Ends (deserialize-Ends s.dylib_command_header image.container offset _)
        λ header. bind-Ends (cstr-Ends image.container _) λ cstr. returned tt

  span_visit-Ends :
      (st : Unit {0}) (command : Command)
      → Ends Anything (stateless s (exports_trie_span_visit s image) st command)
  unfolding exports_trie_span_visit
  span_visit-Ends st (lc_dyld_exports_trie, offset) =
      bind-Ends
        (bind-Ends (deserialize-Ends s.linkedit_data_command image.container offset _)
          λ c. returned tt)
        λ c. returned tt
  span_visit-Ends st (lc_dyld_info_only, offset) =
      bind-Ends
        (bind-Ends (deserialize-Ends s.dyld_info_command image.container offset _) λ c. returned tt)
        λ c. returned tt
  span_visit-Ends st (_, offset) = returned tt

  pub exports_trie_span_find-Ends : Ends Anything (exports_trie_span_find s image)
  unfolding exports_trie_span_find
  exports_trie_span_find-Ends =
      bind-Ends (load_commands_find-Ends _ span_visit-Ends tt) λ (st, found). returned tt

  install_path_visit-Ends :
      (target seen : ℕ) (command : Command)
      → Ends Anything (install_path_visit s image target seen command)
  unfolding install_path_visit
  install_path_visit-Ends target seen (cmd, offset) =
      elim (Bool-cases (is_dylib_dependency_command cmd)) [
        | inr e ↦ rw e (returned tt)
        | inl e ↦ elim (Bool-cases ((seen + 1) == target)) [
          | inl here ↦
              rw (e, here) (bind-Ends (dylib_install_name_read-Ends offset) λ name. returned tt)
          | inr on ↦ rw (e, on) (returned tt)
        ]
      ]

  pub dylib_install_path-Ends :
      (target : ℕ) → Ends Anything (dylib_install_path_for_ordinal s image target)
  unfolding dylib_install_path_for_ordinal
  dylib_install_path-Ends target =
      bind-Ends (load_commands_find-Ends _ (install_path_visit-Ends target) 0)
        λ (st, found). returned tt

  push_if_ok-Ends :
      (paths : List Bytes) (m : Result Bytes)
      → Ends Anything m
      → Ends Anything (push_if_ok s paths m)
  unfolding push_if_ok
  push_if_ok-Ends paths (ok p) h = returned tt
  push_if_ok-Ends paths (err e) h = returned tt
  push_if_ok-Ends paths panic h = panicked
  push_if_ok-Ends paths out_of_fuel h = elim h [ ]

  reexport_visit-Ends :
      (paths : List Bytes) (command : Command)
      → Ends Anything (reexport_visit s image paths command)
  unfolding reexport_visit
  reexport_visit-Ends paths (lc_reexport_dylib, offset) =
      push_if_ok-Ends paths _ (dylib_install_name_read-Ends offset)
  reexport_visit-Ends paths (_, offset) = returned tt

  pub reexported_dylib_paths-Ends : Ends Anything (reexported_dylib_paths_collect s image)
  unfolding reexported_dylib_paths_collect
  reexported_dylib_paths-Ends =
      bind-Ends (load_commands_find-Ends _ reexport_visit-Ends []) λ (paths, found). returned tt

  linkedit_visit-Ends :
      (st : Unit {0}) (command : Command)
      → Ends Anything (stateless s (linkedit_visit s image) st command)
  unfolding linkedit_visit
  linkedit_visit-Ends st (lc_segment_64, offset) =
      bind-Ends
        (bind-Ends (deserialize-Ends s.segment_command_64 image.container offset _)
          λ c. returned tt)
        λ c. returned tt
  linkedit_visit-Ends st (_, offset) = returned tt

  pub linkedit_segment_find-Ends : Ends Anything (linkedit_segment_find s image)
  unfolding linkedit_segment_find
  linkedit_segment_find-Ends =
      bind-Ends (load_commands_find-Ends _ linkedit_visit-Ends tt) λ (st, found). returned tt
