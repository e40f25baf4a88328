-- ===== src/Loader/Symbols/Growth.antt =====
-- src/loader.rs: what the symbol table holds after the entries of an image were read.
use dynld.Prelude.{
  ℕ, zero, suc, ◌+◌, ◌%◌, ◌^◌, ◌≤◌, bit_and, String, ◌≡◌, refl, sym, ap, ◌∙◌, inl, inr, Bool, true,
  false, List, [], ◌∷◌, ◌++◌, append-nil, append_assoc, arith, ◌==◌, Bool-cases, Option-cases,
  length, length-append, All, All-append, Bytes, Result, Ends-bind, Ends-mono, Ends, returned,
  refused, panicked, ok, err, panic, out_of_fuel,
}
use dynld.Container.{Container}
use dynld.Container.Reads.{string-Ends, Ends-deserialize}
use dynld.Scroll.{Scroll}
use dynld.Bindings.MachO.{Nlist64}
use dynld.Array.{try_from_str}
use dynld.Array.Text.{try_from_str-some}
use dynld.Image.{symbol_name_len, Symbol, make_undefined}
use dynld.Loader.Symbols.{
  has, n_stab, n_type, n_sect, n_undf, defined_symbol, name_or_skip, read_symbol_name,
  classify_defined_symbol, classify_undefined_symbol, symtab_entry, symtab_loop, parse_symtab,
}
use dynld.Loader.Symbols.Table.{defined_symbol-Accepts, Accepts}

-- A name of the table fits in its `ArrayString`.
abbrev pub NameFits : Symbol → Type 0
NameFits symbol = length symbol.name ≤ symbol_name_len

-- The table was only appended to, by at most `n` symbols whose names fit.
pub record Grown (n : ℕ) (symbols table : List Symbol) : Type 0 where
  pub added : List Symbol
  pub table_is : table ≡ symbols ++ added
  pub count : length added ≤ n
  pub fit : All NameFits added

same-Grown : (n : ℕ) (symbols : List Symbol) → Grown n symbols symbols
same-Grown n symbols = record {
  added = [];
  table_is = sym (append-nil symbols);
  count = omega arith;
  fit = tt;
}

one-Grown :
    (symbols : List Symbol) (symbol : Symbol)
    → NameFits symbol
    → Grown 1 symbols (symbols ++ (symbol ∷ []))
one-Grown symbols symbol fits = record {
  added = symbol ∷ [];
  table_is = refl;
  count = omega arith;
  fit = (fits, tt);
}

Grown-then :
    (n : ℕ) (first second third : List Symbol)
    → Grown 1 first second
    → Grown n second third
    → Grown (suc n) first third
Grown-then n first second third g h = record {
  added = g.added ++ h.added;
  table_is = h.table_is ∙ ap (λ t. t ++ h.added) g.table_is ∙ append_assoc first g.added h.added;
  count = omega (arith, length-append g.added h.added, g.count, h.count);
  fit = All-append NameFits g.added h.added g.fit h.fit;
}

Accepts-Ends {ℓ κ} :
    {A : Type ℓ} {P : A → Type κ} (b : Bool) (a : A) (m : Result A) → P a → Accepts b a m → Ends P m
Accepts-Ends {P} true a m p h = rw h (returned p)
Accepts-Ends false a m p (message, h) = rw h refused

built-NameFits :
    (name : Bytes) (value sect : ℕ) (cold thumb : Bool) (e p w a r x : Bool)
    → length name ≤ symbol_name_len
    → Ends NameFits (defined_symbol e p w a r x name value sect cold thumb)
built-NameFits name value sect cold thumb e p w a r x fits =
    Accepts-Ends _ _ _ fits (defined_symbol-Accepts name value sect cold thumb e p w a r x)

module _ (s : Scroll) (image : Container) (stroff : ℕ) where
  read_symbol_name-Ends :
      (n_strx : ℕ) (message : String)
      → Ends
          (λ name. length name ≤ symbol_name_len)
          (read_symbol_name s image stroff n_strx message)
  unfolding read_symbol_name
  read_symbol_name-Ends n_strx message =
      Ends-bind (string-Ends image ((stroff + n_strx) % 2 ^ 32)) λ text _.
        elim (Option-cases (try_from_str symbol_name_len text)) [
          | inl e ↦ rw e refused
          | inr (t, e) ↦
              let (room, same) = try_from_str-some symbol_name_len text t (omega arith) e in
              rw (e, same) (returned room)
        ]

  name_or_skip-Ends :
      (m : Result Bytes) (symbols : List Symbol) (next : Bytes → Result (List Symbol))
      → Ends (λ name. length name ≤ symbol_name_len) m
      → ((name : Bytes) → length name ≤ symbol_name_len → Ends (Grown 1 symbols) (next name))
      → Ends (Grown 1 symbols) (name_or_skip s image m symbols next)
  unfolding name_or_skip
  name_or_skip-Ends (ok name) symbols next (returned fits) k = k name fits
  name_or_skip-Ends (err e) symbols next refused k = returned (same-Grown 1 symbols)
  name_or_skip-Ends panic symbols next panicked k = panicked
  name_or_skip-Ends out_of_fuel symbols next h k = elim h [ ]

  classify_defined_symbol-Ends :
      (entry : Nlist64) (symbols : List Symbol)
      → Ends (Grown 1 symbols) (classify_defined_symbol s image stroff entry symbols)
  unfolding classify_defined_symbol
  classify_defined_symbol-Ends entry symbols =
      name_or_skip-Ends _ symbols _ (read_symbol_name-Ends entry.n_un.n_strx _) λ name fits.
        Ends-bind (built-NameFits name _ _ _ _ _ _ _ _ _ _ fits)
          λ symbol g. returned (one-Grown symbols symbol g)

  classify_undefined_symbol-Ends :
      (entry : Nlist64) (symbols : List Symbol)
      → Ends (Grown 1 symbols) (classify_undefined_symbol s image stroff entry symbols)
  unfolding classify_undefined_symbol make_undefined
  classify_undefined_symbol-Ends entry symbols = elim (Bool-cases (entry.n_value == 0)) [
    | inl e ↦ rw e (
        name_or_skip-Ends _ symbols _ (read_symbol_name-Ends entry.n_un.n_strx _)
          λ name fits. returned (one-Grown symbols _ fits))
    | inr e ↦ rw e panicked
  ]

  symtab_entry-Ends :
      (entry : Nlist64) (symbols : List Symbol)
      → Ends (Grown 1 symbols) (symtab_entry s image stroff entry symbols)
  unfolding symtab_entry
  symtab_entry-Ends entry symbols = elim (Bool-cases (has entry.n_type n_stab)) [
    | inl e ↦ rw e (returned (same-Grown 1 symbols))
    | inr e ↦ elim (Bool-cases (bit_and entry.n_type n_type == n_sect)) [
      | inl e' ↦ rw (e, e') (classify_defined_symbol-Ends entry symbols)
      | inr e' ↦ elim (Bool-cases (bit_and entry.n_type n_type == n_undf)) [
        | inl e'' ↦ rw (e, e', e'') (classify_undefined_symbol-Ends entry symbols)
        | inr e'' ↦ rw (e, e', e'') (returned (same-Grown 1 symbols))
      ]
    ]
  ]

  symtab_loop-Ends :
      (nsyms nlist_offset : ℕ) (symbols : List Symbol)
      → Ends (Grown nsyms symbols) (symtab_loop s image nsyms nlist_offset stroff symbols)
  unfolding symtab_loop
  symtab_loop-Ends zero nlist_offset symbols = returned (same-Grown 0 symbols)
  symtab_loop-Ends (suc nsyms) nlist_offset symbols =
      Ends-bind (Ends-deserialize s.nlist_64 image _ _) λ entry _.
        Ends-bind (symtab_entry-Ends entry symbols) λ next g.
          Ends-mono (symtab_loop-Ends nsyms _ next)
            λ table h. Grown-then nsyms symbols next table g h

module _ (s : Scroll) (image : Container) where
  -- Reading a symbol table ends, and appends to the symbols those whose names fit.
  pub parse_symtab-Ends :
      (offset : ℕ) (symbols : List Symbol)
      → Ends (λ table. (n : ℕ) × Grown n symbols table) (parse_symtab s image offset symbols)
  unfolding parse_symtab
  parse_symtab-Ends offset symbols =
      Ends-bind (Ends-deserialize s.symtab_command image offset _) λ symtab _.
        Ends-mono (symtab_loop-Ends s image symtab.stroff symtab.nsyms symtab.symoff symbols)
          λ table g. (symtab.nsyms, g)
