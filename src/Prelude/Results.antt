-- ===== src/Prelude/Results.antt =====
-- What a Rust call comes to. `ok` and `err` are `Result`, or `Option` where the error is a unit;
-- `panic` is a Rust panic, which aborts; `out_of_fuel` is no Rust value: a loop ran out of rounds.
use mathlib.Core.Path.{◌≡◌, refl, subst}
use mathlib.Core.Logic.{◌≢◌}
use mathlib.Core.Option.{Option, none, some}
use Prim.Native.String.{String}

pub data Outcome {ℓ} (E : Type 0) (A : Type ℓ) : Type ℓ where
  ok : A → Outcome E A
  err : E → Outcome E A
  panic : Outcome E A
  out_of_fuel : Outcome E A

infixl 5 ◌>>=◌ ◌>>◌
abbrev pub ◌>>=◌ {ℓ κ} :
    {E : Type 0} {A : Type ℓ} {B : Type κ} → Outcome E A → (A → Outcome E B) → Outcome E B
ok a >>= f = f a
err e >>= f = err e
panic >>= f = panic
out_of_fuel >>= f = out_of_fuel

abbrev pub ◌>>◌ {ℓ} : {E : Type 0} {B : Type ℓ} → Outcome E (Unit {0}) → Outcome E B → Outcome E B
m >> k = m >>= λ _. k

-- `Result<A, &'static str>`
abbrev pub Result {ℓ} : Type ℓ → Type ℓ
Result = Outcome String

-- `Option<A>`, in a function that can panic
abbrev pub Maybe {ℓ} : Type ℓ → Type ℓ
Maybe = Outcome (Unit {0})

-- `option.ok_or(e)`
abbrev pub ok_or {ℓ} : {E : Type 0} {A : Type ℓ} → Option A → E → Outcome E A
ok_or none e = err e
ok_or (some a) e = ok a

-- `result.map_err(|_| f)`
abbrev pub map_err {ℓ} : {E F : Type 0} {A : Type ℓ} → Outcome E A → F → Outcome F A
map_err (ok a) f = ok a
map_err (err e) f = err f
map_err panic f = panic
map_err out_of_fuel f = out_of_fuel

-- `option?` in a function that returns an option
abbrev pub try_some {ℓ} : {A : Type ℓ} → Option A → Maybe A
try_some o = ok_or o tt

-- An index or a slice that must be in range, `unwrap` and `expect`.
abbrev pub unwrap {ℓ} : {E : Type 0} {A : Type ℓ} → Option A → Outcome E A
unwrap none = panic
unwrap (some a) = ok a

-- What a caller that matches on the option sees; a panic goes on.
abbrev pub to_result {ℓ} : {A : Type ℓ} → Maybe A → Result (Option A)
to_result (ok a) = ok (some a)
to_result (err _) = ok none
to_result panic = panic
to_result out_of_fuel = out_of_fuel

pub ok_injective {ℓ} :
    {E : Type 0} {A : Type ℓ} {a b : A} → ◌≡◌ {A = Outcome E A} (ok a) (ok b) → a ≡ b
ok_injective e = cc

-- The call neither panics nor runs out of rounds, and what it returns with `ok` satisfies `P`.
pub data Safe {ℓ κ} {E : Type 0} {A : Type ℓ} (P : A → Type κ) : Outcome E A → Type (ℓ ⊔ κ) where
  safe : {a : A} → P a → Safe P (ok a)
  failed : {e : E} → Safe P (err e)

-- What `Safe` says of a call that is named in a statement.
abbrev pub IsTotal {ℓ} : {E : Type 0} {A : Type ℓ} → Outcome E A → Type ℓ
IsTotal m = (m ≢ panic) × (m ≢ out_of_fuel)

pub Safe-IsTotal {ℓ κ} :
    {E : Type 0} {A : Type ℓ} {P : A → Type κ} {m : Outcome E A} → Safe P m → IsTotal m
Safe-IsTotal (safe p) = ((λ e. cc), (λ e. cc))
Safe-IsTotal failed = ((λ e. cc), (λ e. cc))

pub Safe-bind {ℓ κ ℓ' κ'} :
    {E : Type 0} {A : Type ℓ} {B : Type ℓ'} {P : A → Type κ} {Q : B → Type κ'} {m : Outcome E A}
    {f : A → Outcome E B}
    → Safe P m
    → ((a : A) → P a → Safe Q (f a))
    → Safe Q (m >>= f)
Safe-bind (safe p) k = k _ p
Safe-bind failed k = failed

pub Safe-ok_or {ℓ} :
    {E : Type 0} {A : Type ℓ} (o : Option A) (e : E) → Safe (λ a. o ≡ some a) (ok_or o e)
Safe-ok_or none e = failed
Safe-ok_or (some a) e = safe refl

pub Safe-mono {ℓ κ κ'} :
    {E : Type 0} {A : Type ℓ} {P : A → Type κ} {Q : A → Type κ'} {m : Outcome E A}
    → Safe P m
    → ((a : A) → P a → Q a)
    → Safe Q m
Safe-mono (safe p) k = safe (k _ p)
Safe-mono failed k = failed

-- The postcondition at a value that the call returned.
pub Safe-eq-ok {ℓ κ} :
    {E : Type 0} {A : Type ℓ} {P : A → Type κ} {m : Outcome E A} {a : A} → Safe P m → m ≡ ok a → P a
Safe-eq-ok {P} (safe p) e = subst P (ok_injective e) p
Safe-eq-ok failed e = cc

-- A call that returns went through: what follows holds for the value that its first part returned.
pub by_bind {ℓ κ ι} :
    {E : Type 0} {A : Type ℓ} {B : Type κ} {C : Type ι} (m : Outcome E A) (f : A → Outcome E B)
    {b : B}
    → (m >>= f) ≡ ok b
    → ((a : A) → m ≡ ok a → f a ≡ ok b → C)
    → C
by_bind (ok a) f h k = k a refl h
by_bind (err e) f h k = cc
by_bind panic f h k = cc
by_bind out_of_fuel f h k = cc

pub bind_cong {ℓ κ} :
    {E : Type 0} {A : Type ℓ} {B : Type κ} (m : Outcome E A) {f g : A → Outcome E B}
    → ((a : A) → f a ≡ g a)
    → (m >>= f) ≡ (m >>= g)
bind_cong (ok a) h = h a
bind_cong (err e) h = refl
bind_cong panic h = refl
bind_cong out_of_fuel h = refl

pub bind_assoc {ℓ κ ι} :
    {E : Type 0} {A : Type ℓ} {B : Type κ} {C : Type ι} (m : Outcome E A) (f : A → Outcome E B)
    (g : B → Outcome E C) (h : A → Outcome E C)
    → ((a : A) → h a ≡ (f a >>= g))
    → (m >>= h) ≡ ((m >>= f) >>= g)
bind_assoc (ok a) f g h e = e a
bind_assoc (err x) f g h e = refl
bind_assoc panic f g h e = refl
bind_assoc out_of_fuel f g h e = refl

-- The call does not run out of rounds, and what it returns with `ok` satisfies `P`; it may panic.
pub data Ends {ℓ κ} {E : Type 0} {A : Type ℓ} (P : A → Type κ) : Outcome E A → Type (ℓ ⊔ κ) where
  returned : {a : A} → P a → Ends P (ok a)
  refused : {e : E} → Ends P (err e)
  panicked : Ends P panic

pub Ends-bind {ℓ κ ℓ' κ'} :
    {E : Type 0} {A : Type ℓ} {B : Type ℓ'} {P : A → Type κ} {Q : B → Type κ'} {m : Outcome E A}
    {f : A → Outcome E B}
    → Ends P m
    → ((a : A) → P a → Ends Q (f a))
    → Ends Q (m >>= f)
Ends-bind (returned p) k = k _ p
Ends-bind refused k = refused
Ends-bind panicked k = panicked

pub Ends-mono {ℓ κ κ'} :
    {E : Type 0} {A : Type ℓ} {P : A → Type κ} {Q : A → Type κ'} {m : Outcome E A}
    → Ends P m
    → ((a : A) → P a → Q a)
    → Ends Q m
Ends-mono (returned p) k = returned (k _ p)
Ends-mono refused k = refused
Ends-mono panicked k = panicked

-- A read: the value is what the deserialiser found.
pub Ends-read {ℓ} :
    {E : Type 0} {A : Type ℓ} (o : Option A) (e : E)
    → Ends (λ a. o ≡ some a) (map_err (try_some o) e)
Ends-read none e = refused
Ends-read (some a) e = returned refl

pub Ends-unwrap {ℓ} :
    {E : Type 0} {A : Type ℓ} (o : Option A)
    → Ends (λ a. o ≡ some a) (let m : Outcome E A = unwrap o in m)
Ends-unwrap none = panicked
Ends-unwrap (some a) = returned refl

pub Ends-ne_out_of_fuel {ℓ κ} :
    {E : Type 0} {A : Type ℓ} {P : A → Type κ} {m : Outcome E A} → Ends P m → m ≢ out_of_fuel
Ends-ne_out_of_fuel (returned p) = λ e. cc
Ends-ne_out_of_fuel refused = λ e. cc
Ends-ne_out_of_fuel panicked = λ e. cc

pub Ends-eq-ok {ℓ κ} :
    {E : Type 0} {A : Type ℓ} {P : A → Type κ} {m : Outcome E A} {a : A} → Ends P m → m ≡ ok a → P a
Ends-eq-ok {P} (returned p) e = subst P (ok_injective e) p
Ends-eq-ok refused e = cc
Ends-eq-ok panicked e = cc
