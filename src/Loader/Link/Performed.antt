-- ===== src/Loader/Link/Performed.antt =====
-- src/loader.rs: what a sequence of requests and calls does to the memory.
use dynld.Prelude.{◌≡◌, refl, List, [], ◌∷◌, ◌++◌}
use dynld.Container.{Container}
use dynld.Fixups.Apply.{Memory}
use dynld.Loader.Link.{Event, allocated, copied, protected, thread_locals, called, System}

-- The memory after one of them; the copies are made from `image`.
abbrev pub perform : System → Container → Event → Memory → Memory
perform sys image (allocated address size) memory = memory
perform sys image (copied file_offset address size) memory =
    sys.vm_copy image file_offset address size memory
perform sys image (protected address size set_maximum prot) memory = memory
perform sys image (thread_locals address) memory = sys.tlv_initialize_descriptors address memory
perform sys image (called address) memory = sys.entry_and_ret address memory

abbrev pub performed : System → Container → List Event → Memory → Memory
performed sys image [] memory = memory
performed sys image (event ∷ events) memory =
    performed sys image events (perform sys image event memory)

pub performed-append :
    (sys : System) (image : Container) (events more : List Event) (memory : Memory)
    → performed sys image (events ++ more) memory
      ≡ performed sys image more (performed sys image events memory)
performed-append sys image [] more memory = refl
performed-append sys image (event ∷ events) more memory =
    performed-append sys image events more (perform sys image event memory)
