-- ===== src/Common/Outcome.antt =====
-- A call that may return an error or panic.
use Prim.Native.Nat.{ℕ}
use mathlib.Core.Bool.{Bool, true, false}
use mathlib.Core.Path.{◌≡◌}

-- lsm/src/lib.rs, `Error`, without the texts and the errors of the libraries that some carry.
pub data Error : Type 0 where
  misc : Error
  corrupt_file : Error
  io : Error
  utf8 : Error
  cursor_not_valid : Error
  invalid_page_number : Error
  invalid_page_type : ℕ → Error
  root_page_not_in_segment_block_list : Error
  poisoned : Error

-- `Result<A>`, and what is left where a call panics.
pub data Outcome {ℓ} (A : Type ℓ) : Type ℓ where
  ok : A → Outcome A
  err : Error → Outcome A
  panic : Outcome A

-- `try!`, and the call after it.
infixl 5 ◌>>=◌ ◌>>◌
abbrev pub ◌>>=◌ {ℓ κ} : {A : Type ℓ} {B : Type κ} → Outcome A → (A → Outcome B) → Outcome B
ok a >>= f = f a
err e >>= f = err e
panic >>= f = panic

abbrev pub ◌>>◌ {ℓ} : {B : Type ℓ} → Outcome (Unit {0}) → Outcome B → Outcome B
m >> k = m >>= λ _. k

abbrev pub guard : Bool → Outcome (Unit {0})
guard true = ok tt
guard false = panic

-- The call neither returns an error nor panics, and its result satisfies `P`.
abbrev pub Succeeds {ℓ} : {A : Type ℓ} → Outcome A → (A → Type 0) → Type 0
Succeeds (ok a) P = P a
Succeeds (err e) P = ⊥
Succeeds panic P = ⊥

pub Succeeds->>= {ℓ κ} :
    {A : Type ℓ} {B : Type κ} (P : A → Type 0) (Q : B → Type 0) (o : Outcome A) (f : A → Outcome B)
    → Succeeds o P
    → ((a : A) → P a → Succeeds (f a) Q)
    → Succeeds (o >>= f) Q
Succeeds->>= P Q (ok a) f h k = k a h
Succeeds->>= P Q (err e) f h k = h
Succeeds->>= P Q panic f h k = h

pub Succeeds-imp {ℓ} :
    {A : Type ℓ} (P Q : A → Type 0) (o : Outcome A)
    → Succeeds o P
    → ((a : A) → P a → Q a)
    → Succeeds o Q
Succeeds-imp P Q (ok a) h k = k a h
Succeeds-imp P Q (err e) h k = h
Succeeds-imp P Q panic h k = h

pub Succeeds-eq {ℓ κ} :
    {A : Type ℓ} {B : Type κ} (P : A → Type 0) (o : Outcome A) (f : A → Outcome B) (b : B)
    → Succeeds o P
    → ((a : A) → P a → f a ≡ ok b)
    → (o >>= f) ≡ ok b
Succeeds-eq P (ok a) f b h k = k a h
Succeeds-eq P (err e) f b h k = absurd h
Succeeds-eq P panic f b h k = absurd h
