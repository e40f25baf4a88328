-- ===== src/Lib.antt =====
-- dynld, a dynamic linker for macOS: the code that reads Mach-O images, resolves symbols and
-- applies fixups, and the theorems that make it correct.
--
-- Parts and files. Every read goes through src/container.rs (Container.antt): `Container` with
-- `deserialize_type_at_offset`, `slice`, the two string reads and `read_uleb128`
-- (Container/Uleb.antt). The structures of src/bindings_macho.rs and src/bindings_dsc.rs are the
-- records of Bindings/, and the bit fields of chained pointers the functions of
-- Bindings/ChainedPtr.antt. Scroll.antt names the deserialisers that the scroll crate derives for
-- them. src/macho_image.rs is MachOImage.antt for `MachOImage` and its searches over load commands,
-- and ExportsTrie.antt for `TrieNodeReader` and `exports_trie_walk_for_symbol`. src/dylib.rs is
-- Dylib.antt: `dylib_symbol_resolve` finds the span of the trie, walks it, and turns a re-export
-- into a path and a name; `dylib_symbol_resolve_following_reexports` does this from library to
-- library. src/image.rs is Image.antt: `Segment`, `Symbol` with its constructors, and `LCIterator`.
-- src/fixups.rs is Fixups.antt for the decoders of single pointers and of imports,
-- Fixups/Parse.antt for `chained_fixups_parse_all`, and Fixups/Apply.antt for
-- `fixup_all_chained_fixups` and the two kinds of bind, which call back into Dylib.antt for a user
-- dylib. src/dyld_shared_cache.rs is SharedCache.antt for the subcaches and the translation of
-- addresses, SharedCache/Attach.antt for `from_existing`, and SharedCache/Resolve.antt for
-- `symbol_resolve`. src/allocator.rs is Allocator.antt: `alloc_impl` and `dealloc_impl` on a chunk
-- and a list of free blocks. src/array.rs is Array.antt: `FixedVec`, its `IntoIter` and
-- `FixedString`. src/loader.rs is Loader/: Symbols.antt for `parse_symtab`, Segments.antt for
-- `parse_segment`, Parser.antt for `macho_parser`, which calls them and the parser of fixups for each
-- load command, Dependencies.antt for `dependencies_collect`, `user_dylib_disk_path_resolve` and
-- `user_dylibs_load_recursively`, and Link.antt for the steps from mapping to the initialisers,
-- `disk_path_mmap` of src/user_dylibs.rs, and `macho_loader`. src/entrypoint.rs and src/main.rs are Entrypoint.antt, and src/print.rs is
-- Print.antt.
--
-- Conventions. A function that returns `Result<_, &'static str>` or `Option<_>` is an `Outcome` of
-- Prelude/Results.antt: `ok`, `err`, `panic` for a Rust panic, and `out_of_fuel`, which is no Rust
-- value but a loop that ran out of rounds. A `&mut` iterator is passed on, a closure that captures
-- variables is a function of them, and `?` is the bind. Numbers are naturals. Sums that can leave
-- their type are written with their wrap-around, as in a release build; offsets into an image that
-- was read stay small and are plain sums. The memory that fixups write to is a function from
-- addresses to bytes.
--
-- Parameters. What the kernel answers to a request for memory is an argument of the allocation.
-- Which bytes make a structure is the business of scroll: a `Scroll` record of deserialisers is an
-- argument of whatever reads one, and the theorems ask at most that a read past the end of the
-- bytes is refused (`IsBounded`). Scroll/Sample.antt is a concrete one for the tests. The symbol
-- lookup of the shared cache is an argument of the application of fixups, and the memory that
-- `from_existing` reads is a function from addresses to bytes. The kernel, with its files, and the
-- code that the loader jumps to are the record `System` of Loader/Link.antt: what they answer and
-- what they do to the memory; the state there is the memory with the requests so far. A user dylib is kept as its
-- address and size, and its bytes are read from the memory when an image's fixups are applied. The `write`
-- call of src/print.rs is a function, of which the theorem asks that it takes no more bytes than it
-- is given.
--
-- Bounds and fuel. The trie walk has a visit for each byte of the trie, which is the code's own
-- budget. The chase of re-exports and the resolution in the shared cache have the code's sixteen
-- rounds. The search for the fixups command has one round more than the header announces commands,
-- and a chain one round more than the image has bytes: each round but the last moves on, and a read
-- past the end fails, so that no run of it lacks fuel. The loop over the offsets of initialisers has
-- a round for each byte of the image, `write_all` one for each byte of the buffer, and the search for
-- an arm64 slice two, since the slice that it enters is no fat image. The fuel of `macho_loader` is how
-- deep user dylibs may depend on one another, which the code does not bound.
--
-- Not modelled: system calls, Mach traps, assembly and C helpers; `dynld_entrypoint` and `start`,
-- which read raw pointers and call the modelled parts in turn; and formatting. The bit fields are those
-- of the formats that the parser decodes.
pub mod Prelude
pub mod Container
pub mod Bindings
pub mod ExportsTrie
pub mod Scroll
pub mod MachOImage
pub mod Dylib
pub mod Image
pub mod Fixups
pub mod SharedCache
pub mod Array
pub mod Loader
pub mod Entrypoint
pub mod Print
pub mod Allocator
