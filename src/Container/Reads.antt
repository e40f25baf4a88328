-- ===== src/Container/Reads.antt =====
-- Reads of structures and strings, for proofs that keep them shut.
use dynld.Prelude.{
  ℕ, String, ◌≡◌, refl, ◌≢◌, inl, inr, Option, none, some, Bool-cases, take, ◌>>=◌, Result, Maybe,
  ok_or, map_err, unwrap, to_result, Ends-bind, Ends-mono, Ends-read, Ends-unwrap, Outcome, Ends,
  returned, refused, panicked, ok, err, panic, out_of_fuel,
}
use dynld.Container.{
  Container, Pread, deserialize_type_at_offset, deserialize_string_at_offset, get_from,
  nul_position, is_utf8, deserialize_cstr_at_offset,
}

abbrev pub Anything {ℓ} : {A : Type ℓ} → A → Type 0
Anything a = Unit {0}

pub string-Ends :
    (c : Container) (offset : ℕ)
    → Ends Anything (deserialize_string_at_offset {E = String} c offset)
unfolding deserialize_string_at_offset
string-Ends c offset = Ends-bind (Ends-unwrap (get_from c.bytes offset)) λ bs e.
    Ends-bind (Ends-unwrap (nul_position bs)) λ i e'. elim (Bool-cases (is_utf8 (take i bs))) [
      | inl valid ↦ rw valid (returned tt)
      | inr invalid ↦ rw invalid panicked
    ]

module _ {T : Type 0} (p : Pread T) (c : Container) (offset : ℕ) (message : String) where
  -- A read ends, and what it returns is what the deserialiser found.
  pub Ends-deserialize :
      Ends
        (λ t. p.pread_with c.bytes offset c.endian ≡ some t)
        (map_err (deserialize_type_at_offset ⦃p = p⦄ c offset) message)
  unfolding deserialize_type_at_offset
  Ends-deserialize = Ends-read (p.pread_with c.bytes offset c.endian) message

-- Two calls that end, one after the other.
pub bind-Ends {ℓ κ} :
    {E : Type 0} {A : Type ℓ} {B : Type κ} {m : Outcome E A} {f : A → Outcome E B}
    → Ends Anything m
    → ((a : A) → Ends Anything (f a))
    → Ends Anything (m >>= f)
bind-Ends h k = Ends-bind h (λ a _. k a)

-- A call that has rounds enough ends.
pub Ends-of {ℓ} : {E : Type 0} {A : Type ℓ} (m : Outcome E A) → m ≢ out_of_fuel → Ends Anything m
Ends-of (ok a) h = returned tt
Ends-of (err e) h = refused
Ends-of panic h = panicked
Ends-of out_of_fuel h = absurd (h refl)

pub to_result-Ends {ℓ} : {A : Type ℓ} (m : Maybe A) → m ≢ out_of_fuel → Ends Anything (to_result m)
to_result-Ends (ok a) h = returned tt
to_result-Ends (err e) h = returned tt
to_result-Ends panic h = panicked
to_result-Ends out_of_fuel h = absurd (h refl)

pub ok_or-Ends {ℓ} :
    {A : Type ℓ} (o : Option A) (message : String) → Ends Anything (ok_or o message)
ok_or-Ends none message = refused
ok_or-Ends (some a) message = returned tt

pub unwrap-Ends {ℓ} : {A : Type ℓ} (o : Option A) → Ends Anything (let m : Result A = unwrap o in m)
unwrap-Ends none = panicked
unwrap-Ends (some a) = returned tt

pub deserialize-Ends :
    {T : Type 0} (p : Pread T) (c : Container) (offset : ℕ) (message : String)
    → Ends Anything (map_err (deserialize_type_at_offset ⦃p = p⦄ c offset) message)
deserialize-Ends p c offset message = Ends-mono (Ends-deserialize p c offset message) λ t e. tt

pub cstr-Ends :
    (c : Container) (offset : ℕ) → Ends Anything (deserialize_cstr_at_offset {E = String} c offset)
unfolding deserialize_cstr_at_offset
cstr-Ends c offset =
    Ends-bind (unwrap-Ends (get_from c.bytes offset))
      λ bs _. Ends-bind (unwrap-Ends (nul_position bs)) λ i _. unwrap-Ends _
