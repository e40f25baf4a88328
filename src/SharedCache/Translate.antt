-- ===== src/SharedCache/Translate.antt =====
-- The translations of addresses against the mapping tables.
use dynld.Prelude.{
  ℕ, zero, suc, ◌+◌, ◌%◌, ◌^◌, ◌<◌, ◌≡◌, refl, sym, ap, ◌∙◌, inl, inr, Bool, true, false, Option,
  none, some, List, [], ◌∷◌, ◌++◌, append_assoc, arith, Option-cases, length, get_elem?,
  length-append, some_injective, get_elem?-middle, ◌>>=◌, ok_injective, by_bind, bind_assoc, ok,
}
use mathlib.Core.Option
use mathlib.Core.Path.{subst}
use dynld.Scroll.{Scroll}
use dynld.Bindings.SharedCache.{DyldCacheMappingInfo}
use dynld.SharedCache.{
  DyldSharedSubCache, DyldSharedCache, add64, sub64, contains, then_some, mapping_at,
  mappings_find_map, runtime_offset_visit, runtime_offset_for_vm_address, file_offset_visit,
  runtime_offset_for_file_offset, vm_address_visit, vm_address_for_file_offset, subcaches_find,
  subcache_and_offset_locate_from_addr,
}

-- An entry of the mapping table covers the address.
pub record Maps (s : Scroll) (sub : DyldSharedSubCache) (unslid_vm_address : ℕ) : Type 0 where
  pub entry : ℕ
  pub mapping : DyldCacheMappingInfo
  pub listed : entry < sub.mapping_table_entry_count
  pub read : mapping_at s sub entry ≡ ok mapping
  pub covers :
      contains mapping.address (add64 mapping.address mapping.size) unslid_vm_address ≡ true

-- The subcache with this index, as a `u8`, maps the address this far from its base.
pub record Hosts (s : Scroll) (sub_caches : List DyldSharedSubCache)
    (unslid_vm_address index offset : ℕ) : Type 0 where
  pub place : ℕ
  pub sub : DyldSharedSubCache
  pub there : get_elem? sub_caches place ≡ some sub
  pub as_u8 : index ≡ place % 256
  pub distance : offset ≡ sub64 unslid_vm_address sub.unslid_base_vm_address
  pub mapped : Maps s sub unslid_vm_address

then_some-eq :
    (b : Bool) (value : ℕ) {v : ℕ} → then_some b value ≡ some v → (b ≡ true) × (v ≡ value)
then_some-eq true value e = (refl, sym (some_injective e))
then_some-eq false value e = absurd (let q : none ≡ some _ = e in cc)

module _ (s : Scroll) where
  mappings_find_map-found :
      (entries : ℕ) (sub : DyldSharedSubCache) (i : ℕ) (visit : DyldCacheMappingInfo → Option ℕ)
      {v : ℕ}
      → mappings_find_map s entries sub i visit ≡ ok (some v)
      → (j : ℕ) × (mapping : DyldCacheMappingInfo) × (j < i + entries)
        × (mapping_at s sub j ≡ ok mapping)
        × (visit mapping ≡ some v)
  unfolding mappings_find_map
  mappings_find_map-found zero sub i visit h = absurd (let q = ok_injective h in cc)
  mappings_find_map-found (suc entries) sub i visit {v} h =
      by_bind (mapping_at s sub i) _ h λ mapping e h'. elim (Option-cases (visit mapping)) [
        | inr (found, e') ↦ (i, mapping, omega arith, e, e' ∙ ok_injective (rw e' at h'))
        | inl e' ↦
            let (j, m, bound, at, hit) =
              mappings_find_map-found entries sub (i + 1) visit (rw e' at h') in
            (j, m, omega arith, at, hit)
      ]

  runtime_offset-Maps :
      (sub : DyldSharedSubCache) (unslid_vm_address : ℕ) {offset : ℕ}
      → runtime_offset_for_vm_address s sub unslid_vm_address ≡ ok (some offset)
      → Maps s sub unslid_vm_address × (offset ≡ sub64 unslid_vm_address sub.unslid_base_vm_address)
  unfolding runtime_offset_for_vm_address
  runtime_offset-Maps sub a h =
      let (j, m, bound, at, hit) =
        mappings_find_map-found sub.mapping_table_entry_count sub 0 (runtime_offset_visit s sub a)
          h in
      let (inside, far) = then_some-eq (contains m.address (add64 m.address m.size) a) _ hit in
      (record { entry = j; mapping = m; listed = omega arith; read = at; covers = inside }, far)

  subcaches_find-Hosts :
      (before subs : List DyldSharedSubCache) (i a : ℕ) {index offset : ℕ}
      → i ≡ length before
      → subcaches_find s subs i a ≡ ok (some (index, offset))
      → Hosts s (before ++ subs) a index offset
  unfolding subcaches_find
  subcaches_find-Hosts before [] i a at h = absurd (let q = ok_injective h in cc)
  subcaches_find-Hosts before (sub ∷ subs) i a {index} {offset} at h =
      by_bind (runtime_offset_for_vm_address s sub a) _ h λ found e h'. elim (Option-cases found) [
        | inr (o, e') ↦
            let here : (i % 256, o) ≡ (index, offset) =
              some_injective (ok_injective (rw e' at h')) in
            let (mapped, far) = runtime_offset-Maps sub a (e ∙ ap ok e') in
            record {
              place = i;
              sub = sub;
              there = rw at (get_elem?-middle before sub subs);
              as_u8 = sym (ap (λ (x : ℕ × ℕ). x.0) here);
              distance = sym (ap (λ (x : ℕ × ℕ). x.1) here) ∙ far;
              mapped = mapped;
            }
        | inl e' ↦
            subst (λ l. Hosts s l a index offset) (append_assoc before (sub ∷ []) subs)
              (subcaches_find-Hosts (before ++ (sub ∷ [])) subs (i + 1) a
                (ground (arith, length-append before (sub ∷ []))) (rw e' at h'))
      ]

  -- A subcache that is located for an address has an entry in its mapping table that covers it, the
  -- index is its place among the subcaches as a `u8`, and the offset is the distance from its base.
  pub locate-Hosts :
      (cache : DyldSharedCache) (unslid_vm_address index offset : ℕ)
      → subcache_and_offset_locate_from_addr s cache unslid_vm_address ≡ ok (some (index, offset))
      → Hosts s cache.sub_caches unslid_vm_address index offset
  unfolding subcache_and_offset_locate_from_addr
  locate-Hosts cache a index offset h = subcaches_find-Hosts [] cache.sub_caches 0 a refl h

  mappings_find_map-map :
      (entries : ℕ) (sub : DyldSharedSubCache) (i : ℕ) (g : ℕ → ℕ)
      (visit visit' : DyldCacheMappingInfo → Option ℕ)
      → ((m : DyldCacheMappingInfo) → visit' m ≡ Option.map g (visit m))
      → mappings_find_map s entries sub i visit'
        ≡ (mappings_find_map s entries sub i visit >>= λ o. ok (Option.map g o))
  unfolding mappings_find_map
  mappings_find_map-map zero sub i g visit visit' same = refl
  mappings_find_map-map (suc entries) sub i g visit visit' same =
      bind_assoc (mapping_at s sub i) _ _ _ λ m. elim (Option-cases (visit m)) [
        | inr (found, e) ↦ rw (same m, e) refl
        | inl e ↦ rw (same m, e) (mappings_find_map-map entries sub (i + 1) g visit visit' same)
      ]

  then_some-map :
      (b : Bool) (g : ℕ → ℕ) (v w : ℕ) → w ≡ g v → then_some b w ≡ Option.map g (then_some b v)
  then_some-map true g v w e = rw e refl
  then_some-map false g v w e = refl

  -- The two translations of a file offset agree: the runtime offset is the VM address less the base
  -- of the subcache, which is a `u64`, and where one finds no mapping neither does the other.
  pub runtime_offset-vm_address :
      (sub : DyldSharedSubCache) (file_offset : ℕ)
      → sub.unslid_base_vm_address < 2 ^ 64
      → runtime_offset_for_file_offset s sub file_offset ≡ (
          vm_address_for_file_offset s sub file_offset >>= λ found.
          ok (Option.map (λ (vm_address : ℕ). sub64 vm_address sub.unslid_base_vm_address) found))
  unfolding runtime_offset_for_file_offset vm_address_for_file_offset
  runtime_offset-vm_address sub file_offset fits =
      mappings_find_map-map sub.mapping_table_entry_count sub 0 _ (vm_address_visit s file_offset)
        (file_offset_visit s sub file_offset)
        λ m.
          then_some-map (contains m.file_offset (add64 m.file_offset m.size) file_offset) _ _ _
            (omega arith)
