-- ===== src/Loader/Symbols/Table.antt =====
-- src/loader.rs: which entries of the symbol table become symbols.
use dynld.Prelude.{
  ℕ, String, ◌≡◌, refl, Bool, true, false, not, ◌&&◌, List, [], ◌∷◌, ◌++◌, if◌then◌else◌, Bytes,
  ◌>>=◌, Result, ok, err,
}
use dynld.Container.{Container}
use dynld.Scroll.{Scroll}
use dynld.Bindings.MachO.{Nlist64}
use dynld.Image.{Symbol, make_regular_local, make_regular_export, make_weak_def_export}
use dynld.Loader.Symbols.{
  Kind, kind_of, has, n_cold_func, n_arm_thumb_def, defined_symbol, name_or_skip, read_symbol_name,
  classify_defined_symbol,
}

-- The kinds of definition that the loader takes: no alternative entry; a symbol that is not external
-- is no weak definition, and one that is external is no private extern and either a weak definition
-- without a weak reference or, when it is no weak definition, no resolver.
unfoldable pub is_supported : Kind → Bool
is_supported kind =
    not kind.is_alt_entry
    && (if kind.is_external
        then not kind.is_private_extern
          && (if kind.is_weak_def then not kind.is_weak_ref else not kind.is_resolver)
        else not kind.is_weak_def)

-- The symbol of such an entry.
abbrev pub symbol_of : Nlist64 → Bytes → Symbol
symbol_of entry name = record {
  lib_ordinal = 0;
  name = name;
  impl_offset = entry.n_value;
  sect_num = entry.n_sect;
  value = 0;
  is_weak = (kind_of entry).is_weak_def;
  is_thumb = has entry.n_desc n_arm_thumb_def;
  is_cold = has entry.n_desc n_cold_func;
}

-- A result that is `some` value, or an error with some message.
abbrev pub Accepts {ℓ} : {A : Type ℓ} → Bool → A → Result A → Type ℓ
Accepts true a m = m ≡ ok a
Accepts {A} false a m = (message : String) × (m ≡ err message)

module _ (name : Bytes) (value sect : ℕ) (cold thumb : Bool) where
  abbrev built : Bool → Symbol
  built is_weak = record {
    lib_ordinal = 0;
    name = name;
    impl_offset = value;
    sect_num = sect;
    value = 0;
    is_weak = is_weak;
    is_thumb = thumb;
    is_cold = cold;
  }

  pub defined_symbol-Accepts :
      (e p w a r x : Bool)
      → Accepts
          (not a && (if e then not p && (if w then not x else not r) else not w))
          (built w)
          (defined_symbol e p w a r x name value sect cold thumb)
  unfolding defined_symbol make_regular_local make_regular_export make_weak_def_export
  defined_symbol-Accepts false false false false r x = refl
  defined_symbol-Accepts false true false false r x = refl
  defined_symbol-Accepts true false true false r false = refl
  defined_symbol-Accepts true false false false false x = refl
  defined_symbol-Accepts false false false true r x = (_, refl)
  defined_symbol-Accepts false false true true r x = (_, refl)
  defined_symbol-Accepts false false true false r x = (_, refl)
  defined_symbol-Accepts false true true false r x = (_, refl)
  defined_symbol-Accepts false true true true r x = (_, refl)
  defined_symbol-Accepts false true false true r x = (_, refl)
  defined_symbol-Accepts true true false true r x = (_, refl)
  defined_symbol-Accepts true true true true r x = (_, refl)
  defined_symbol-Accepts true true true false r x = (_, refl)
  defined_symbol-Accepts true true false false true x = (_, refl)
  defined_symbol-Accepts true true false false false x = (_, refl)
  defined_symbol-Accepts true false false true r x = (_, refl)
  defined_symbol-Accepts true false true true r x = (_, refl)
  defined_symbol-Accepts true false true false r true = (_, refl)
  defined_symbol-Accepts true false false false true x = (_, refl)

Accepts-bind {ℓ κ} :
    {A : Type ℓ} {B : Type κ} (b : Bool) (a : A) (m : Result A) (f : A → Result B) (c : B)
    → f a ≡ ok c
    → Accepts b a m
    → Accepts b c (m >>= f)
Accepts-bind true a m f c e h = rw h e
Accepts-bind false a m f c e (message, h) = (message, rw h refl)

module _ (s : Scroll) (image : Container) (stroff : ℕ) (entry : Nlist64)
    (symbols : List Symbol) where
  -- An entry with a section, whose name can be read: of a supported kind, it adds one symbol at the end
  -- of the table, at the entry's value and section, weak exactly when it is a weak definition; of any
  -- other kind it is an error. It never panics.
  pub classify_defined_symbol-Accepts :
      (name : Bytes)
      → read_symbol_name s image stroff entry.n_un.n_strx "could not read symbol name" ≡ ok name
      → Accepts
          (is_supported (kind_of entry))
          (symbols ++ (symbol_of entry name ∷ []))
          (classify_defined_symbol s image stroff entry symbols)
  unfolding classify_defined_symbol name_or_skip is_supported
  classify_defined_symbol-Accepts name e =
      let kind = kind_of entry in
      rw (classify_defined_symbol, e)
        (Accepts-bind (is_supported kind) (symbol_of entry name) _
          (λ symbol. ok (symbols ++ (symbol ∷ []))) _ refl
          (defined_symbol-Accepts name entry.n_value entry.n_sect (has entry.n_desc n_cold_func)
            (has entry.n_desc n_arm_thumb_def) kind.is_external kind.is_private_extern
            kind.is_weak_def kind.is_alt_entry kind.is_resolver kind.is_weak_ref))
