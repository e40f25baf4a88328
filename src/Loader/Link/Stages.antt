-- ===== src/Loader/Link/Stages.antt =====
-- src/loader.rs: in which order the last steps on an image happen, and how the loader composes.
use dynld.Prelude.{
  ℕ, ◌+◌, ◌≡◌, refl, sym, ap, ◌∙◌, inl, inr, Bool, true, false, ◌&&◌, List, [], ◌∷◌, ◌++◌, map,
  append-nil, append_assoc, if◌then◌else◌, Bool-cases, All, ok,
}
use dynld.Image.{Segment}
use dynld.Loader.Parser.{ParsedImage}
use dynld.Container.{Container}
use dynld.Fixups.Apply.{Memory}
use dynld.Loader.Link.Performed.{performed, performed-append}
use dynld.Loader.Link.{
  happens, Event, protected, thread_locals, called, Process, System, at, page_zero_size,
  protect_one, macho_segments_vm_protect, macho_init_functions_exec, macho_tlv_initialize,
  image_finalize,
}

-- The two requests for a segment: its maximum protection, and then the current one.
abbrev pub protections : ℕ → Segment → List Event
protections vm seg =
    protected (at vm seg.vm_addr) seg.vm_size true seg.prot
    ∷ protected (at vm seg.vm_addr) seg.vm_size false seg.prot
    ∷ []

abbrev pub all_protections : ℕ → List Segment → List Event
all_protections vm [] = []
all_protections vm (seg ∷ segments) = protections vm seg ++ all_protections vm segments

abbrev pub calls : ℕ → List ℕ → List Event
calls vm init_functions = map (λ func. called (at vm (func + page_zero_size))) init_functions

-- The kernel grants all of them.
abbrev pub Granted : System → ℕ → List Segment → Type 0
Granted sys vm segments =
    All
      (λ (seg : Segment).
        (sys.vm_protect (at vm seg.vm_addr) seg.vm_size true seg.prot ≡ true)
        × (sys.vm_protect (at vm seg.vm_addr) seg.vm_size false seg.prot ≡ true))
      segments

module _ (sys : System) (vm : ℕ) where
  vm_protect-events :
      (segments : List Segment) (p : Process)
      → Granted sys vm segments
      → macho_segments_vm_protect sys vm segments p
        ≡ ok (record p { events = p.events ++ all_protections vm segments })
  unfolding macho_segments_vm_protect protect_one
  vm_protect-events [] p g = rw (append-nil p.events) refl
  vm_protect-events (seg ∷ segments) p ((maximum, current), g) =
      let first = protected (at vm seg.vm_addr) seg.vm_size true seg.prot in
      let second = protected (at vm seg.vm_addr) seg.vm_size false seg.prot in
      let rest = vm_protect-events segments (happens second (happens first p)) g in
      let both =
        append_assoc (p.events ++ (first ∷ [])) (second ∷ []) (all_protections vm segments)
        ∙ append_assoc p.events (first ∷ []) (second ∷ all_protections vm segments) in
      rw (protect_one, maximum, current) (rest ∙ ap (λ e. ok (record p { events = e })) both)

  init_functions-events :
      (init_functions : List ℕ) (p : Process)
      → (macho_init_functions_exec sys vm init_functions p).events
        ≡ p.events ++ calls vm init_functions
  unfolding macho_init_functions_exec
  init_functions-events [] p = sym (append-nil p.events)
  init_functions-events (func ∷ fs) p =
      let call = called (at vm (func + page_zero_size)) in
      let p1 : Process = record {
        memory = sys.entry_and_ret (at vm (func + page_zero_size)) p.memory;
        events = p.events ++ (call ∷ []);
      } in
      init_functions-events fs p1 ∙ append_assoc p.events (call ∷ []) (calls vm fs)

  -- The thread locals of an executable that has some.
  abbrev pub tlv_events : Bool → ParsedImage → List Event
  tlv_events is_executable parsed =
      if is_executable && parsed.has_thread_locals
      then thread_locals (at vm page_zero_size) ∷ []
      else []

  abbrev with_tlv : Bool → ParsedImage → Process → Process
  with_tlv is_executable parsed p =
      if is_executable && parsed.has_thread_locals then macho_tlv_initialize sys vm p else p

  with_tlv-events :
      (is_executable : Bool) (parsed : ParsedImage) (p : Process)
      → (with_tlv is_executable parsed p).events ≡ p.events ++ tlv_events is_executable parsed
  unfolding macho_tlv_initialize
  with_tlv-events is_executable parsed p =
      elim (Bool-cases (is_executable && parsed.has_thread_locals)) [
        | inl e ↦ rw e refl
        | inr e ↦ rw e (sym (append-nil p.events))
      ]

  module _ (image : Container) where
    protections-performed :
        (segments : List Segment) (memory : Memory)
        → performed sys image (all_protections vm segments) memory ≡ memory
    protections-performed [] memory = refl
    protections-performed (seg ∷ segments) memory = protections-performed segments memory

    init_functions-performed :
        (init_functions : List ℕ) (p : Process)
        → (macho_init_functions_exec sys vm init_functions p).memory
          ≡ performed sys image (calls vm init_functions) p.memory
    unfolding macho_init_functions_exec
    init_functions-performed [] p = refl
    init_functions-performed (func ∷ fs) p = init_functions-performed fs (record {
      memory = sys.entry_and_ret (at vm (func + page_zero_size)) p.memory;
      events = p.events ++ (called (at vm (func + page_zero_size)) ∷ []);
    })

    with_tlv-performed :
        (is_executable : Bool) (parsed : ParsedImage) (p : Process)
        → (with_tlv is_executable parsed p).memory
          ≡ performed sys image (tlv_events is_executable parsed) p.memory
    unfolding macho_tlv_initialize
    with_tlv-performed is_executable parsed p =
        elim (Bool-cases (is_executable && parsed.has_thread_locals)) [
          | inl e ↦ rw e refl
          | inr e ↦ rw e refl
        ]

    stages-performed :
        (is_executable : Bool) (parsed : ParsedImage) (segments : List Segment) (p : Process)
        → performed sys image
            (tlv_events is_executable parsed
              ++ (all_protections vm segments ++ calls vm parsed.init_functions))
            p.memory
          ≡ performed sys image
              (calls vm parsed.init_functions)
              (with_tlv is_executable parsed p).memory
    stages-performed is_executable parsed segments p =
        let last = calls vm parsed.init_functions in
        performed-append sys image (tlv_events is_executable parsed)
          (all_protections vm segments ++ last) p.memory
        ∙ performed-append sys image (all_protections vm segments) last _
        ∙ ap (performed sys image last)
            (protections-performed segments _ ∙ sym (with_tlv-performed is_executable parsed p))

  -- Where the kernel grants the protections, finalising an image succeeds, and the requests and calls that
  -- it makes are, in this order: the thread locals, for an executable that has some; for every segment, in
  -- its order, its maximum protection and then its current one; and a call for every offset that is
  -- recorded as an initialiser, in their order, each to the start of the image plus the offset plus
  -- PAGE_ZERO_SIZE, whether the image is an executable or a dynamic library. So no call is made before all
  -- protections are in place. The memory is what the thread locals and the calls, in this order, make of it.
  pub image_finalize-events :
      (parsed : ParsedImage) (segments : List Segment) (is_executable : Bool) (p : Process)
      → Granted sys vm segments
      → (p' : Process) × (image_finalize sys vm parsed segments is_executable p ≡ ok p')
        × (p'.events
            ≡ p.events
              ++ (tlv_events is_executable parsed
                  ++ (all_protections vm segments ++ calls vm parsed.init_functions)))
        × ((image : Container)
            → p'.memory
              ≡ performed sys image
                  (tlv_events is_executable parsed
                    ++ (all_protections vm segments ++ calls vm parsed.init_functions))
                  p.memory)
  unfolding image_finalize
  image_finalize-events parsed segments is_executable p g =
      let p1 = with_tlv is_executable parsed p in
      let protects = vm_protect-events segments p1 g in
      let p2 : Process = record p1 { events = p1.events ++ all_protections vm segments } in
      let ends = init_functions-events parsed.init_functions p2 in
      let protections_then = all_protections vm segments ++ calls vm parsed.init_functions in
      (
        macho_init_functions_exec sys vm parsed.init_functions p2,
        rw protects refl,
        ends
            ∙ append_assoc p1.events (all_protections vm segments) (calls vm parsed.init_functions)
            ∙ ap (λ (t : List Event). t ++ protections_then)
                (with_tlv-events is_executable parsed p)
            ∙ append_assoc p.events (tlv_events is_executable parsed) protections_then,
        λ image.
            init_functions-performed image parsed.init_functions p2
            ∙ sym (stages-performed image is_executable parsed segments p),
      )
