-- ===== src/Lsm/MultiCursor/Shown.antt =====
-- The cursors below a `MultiCursor`, each with the entries that it has still to give.
use mathlib.Core.Path.{subst}
use elmo.Common.{ℕ, zero, suc, ◌≤◌, ◌<◌, ◌≡◌, refl, sym, ap, ◌==◌, arith, length, set}
use elmo.Common.{All, Bool, true, false, if◌then◌else◌, Option, none, some, List, [], ◌∷◌, map}
use elmo.Common.Outcome.{Outcome, ok, ◌>>=◌, Succeeds, Succeeds->>=}
use elmo.Lsm.Bcmp.{compare_bytes}
use elmo.Lsm.KeyRef.{KeyRef, into_boxed_slice}
use elmo.Lsm.Cursor.{Cursor}
use elmo.Lsm.Cursor.Forward.{Entry, IsSorted, Forward}
use elmo.Lsm.MultiCursor.Sort.{get, modify_at}
use elmo.Lsm.MultiCursor.Sort.Order.{Key, bytes_of_key, key_at}
use elmo.Lsm.MultiCursor.Merged.{is_equal, past_key}
use elmo.Lsm.MultiCursor.{keys_of}

-- What one of the cursors promises, and its entries.
pub record Source {C : Type 0} (csr : Cursor C) : Type 1 where
  pub entries : List Entry
  pub forward : Forward csr entries
  pub sorted : IsSorted entries

abbrev pub nth : List (List Entry) → ℕ → List Entry
nth [] n = []
nth (es ∷ ess) zero = es
nth (es ∷ ess) (suc n) = nth ess n

abbrev pub key_of : List Entry → Key
key_of [] = none
key_of (e ∷ es) = some e.bytes

abbrev pub is_key : List ℕ → Key → Bool
is_key k none = false
is_key k (some j) = is_equal (compare_bytes j k)

pub past_key_other :
    (k : List ℕ) (es : List Entry) → is_key k (key_of es) ≡ false → past_key k es ≡ es
past_key_other k [] h = refl
past_key_other k (e ∷ es) h = rw h refl

pub past_key_same :
    (k : List ℕ) (es : List Entry)
    → is_key k (key_of es) ≡ true
    → (e : Entry) × (es ≡ e ∷ past_key k es)
past_key_same k [] h = cc
past_key_same k (e ∷ es) h = (e, rw h refl)

pub nth-length :
    (ess : List (List Entry)) (n : ℕ) (e : Entry) (t : List Entry)
    → nth ess n ≡ e ∷ t
    → n < length ess
nth-length [] n e t h = cc
nth-length (es ∷ ess) zero e t h = omega arith
nth-length (es ∷ ess) (suc n) e t h = omega (arith, nth-length ess n e t h)

pub nth-beyond : (ess : List (List Entry)) (n : ℕ) → length ess ≤ n → nth ess n ≡ []
nth-beyond [] n h = refl
nth-beyond (es ∷ ess) zero h = absurd (omega arith)
nth-beyond (es ∷ ess) (suc n) h = nth-beyond ess n (omega (arith, h))

pub nth-set :
    (ess : List (List Entry)) (n m : ℕ) (t : List Entry)
    → n < length ess
    → nth (set ess n t) m ≡ (if n == m then t else nth ess m)
nth-set [] n m t h = absurd (omega arith)
nth-set (es ∷ ess) zero zero t h = refl
nth-set (es ∷ ess) zero (suc m) t h = ground arith
nth-set (es ∷ ess) (suc n) zero t h = ground arith
nth-set (es ∷ ess) (suc n) (suc m) t h =
    let i = nth-set ess n m t (omega (arith, h)) in ground (arith, i)

pub length-set :
    (ess : List (List Entry)) (n : ℕ) (t : List Entry) → length (set ess n t) ≡ length ess
length-set [] n t = refl
length-set (es ∷ ess) zero t = refl
length-set (es ∷ ess) (suc n) t = omega (arith, length-set ess n t)

pub nth-set_same :
    (ess : List (List Entry)) (n : ℕ) (t : List Entry) → n < length ess → nth (set ess n t) n ≡ t
nth-set_same [] n t h = absurd (omega arith)
nth-set_same (es ∷ ess) zero t h = refl
nth-set_same (es ∷ ess) (suc n) t h = nth-set_same ess n t (omega (arith, h))

-- A list that is set and set back.
pub set-set :
    (ess : List (List Entry)) (n : ℕ) (x t : List Entry)
    → t ≡ nth ess n
    → set (set ess n x) n t ≡ ess
set-set [] n x t h = refl
set-set (es ∷ ess) zero x t h = ap (λ l. l ∷ ess) h
set-set (es ∷ ess) (suc n) x t h = ap (λ l. es ∷ l) (set-set ess n x t h)

-- Two lists of lists with the same elements are the same.
pub nth_lem :
    (ess ess' : List (List Entry))
    → length ess ≡ length ess'
    → ((n : ℕ) → nth ess n ≡ nth ess' n)
    → ess ≡ ess'
nth_lem [] [] l h = refl
nth_lem [] (es' ∷ ess') l h = absurd (omega arith)
nth_lem (es ∷ ess) [] l h = absurd (omega arith)
nth_lem (es ∷ ess) (es' ∷ ess') l h =
    let i = nth_lem ess ess' (omega (arith, l)) (λ n. h (suc n)) in let j = h 0 in cc

pub nth-map :
    (f : List Entry → List Entry) (ess : List (List Entry)) (n : ℕ)
    → f [] ≡ []
    → nth (map f ess) n ≡ f (nth ess n)
nth-map f [] n e = sym e
nth-map f (es ∷ ess) zero e = refl
nth-map f (es ∷ ess) (suc n) e = nth-map f ess n e

pub length-map :
    (f : List Entry → List Entry) (ess : List (List Entry)) → length (map f ess) ≡ length ess
length-map f [] = refl
length-map f (es ∷ ess) = omega (arith, length-map f ess)

pub nth-All {ℓ} :
    (P : List Entry → Type ℓ) (ess : List (List Entry)) → ((n : ℕ) → P (nth ess n)) → All P ess
nth-All P [] h = tt
nth-All P (es ∷ ess) h = (h 0, nth-All P ess (λ n. h (suc n)))

module _ {C : Type 0} (csr : Cursor C) where
  abbrev pub ShowsAll : List (Source csr) → List C → List (List Entry) → Type 0
  ShowsAll [] [] [] = Unit
  ShowsAll (f ∷ fs) (c ∷ cs) (es ∷ ess) = f.forward.Shows c es × IsSorted es × ShowsAll fs cs ess
  ShowsAll [] [] (es ∷ ess) = ⊥
  ShowsAll [] (c ∷ cs) ess = ⊥
  ShowsAll (f ∷ fs) [] ess = ⊥
  ShowsAll (f ∷ fs) (c ∷ cs) [] = ⊥

  abbrev pub all_entries : List (Source csr) → List (List Entry)
  all_entries [] = []
  all_entries (f ∷ fs) = f.entries ∷ all_entries fs

  pub all_entries-IsSorted : (fs : List (Source csr)) → All IsSorted (all_entries fs)
  all_entries-IsSorted [] = tt
  all_entries-IsSorted (f ∷ fs) = (f.sorted, all_entries-IsSorted fs)

  pub ShowsAll-IsSorted :
      (fs : List (Source csr)) (cs : List C) (ess : List (List Entry))
      → ShowsAll fs cs ess
      → All IsSorted ess
  ShowsAll-IsSorted [] [] [] s = tt
  ShowsAll-IsSorted (f ∷ fs) (c ∷ cs) (es ∷ ess) s = (s.1, ShowsAll-IsSorted fs cs ess s.2)
  ShowsAll-IsSorted [] [] (es ∷ ess) s = absurd s
  ShowsAll-IsSorted [] (c ∷ cs) ess s = absurd s
  ShowsAll-IsSorted (f ∷ fs) [] ess s = absurd s
  ShowsAll-IsSorted (f ∷ fs) (c ∷ cs) [] s = absurd s

  -- The lengths are the same.
  pub ShowsAll-length :
      (fs : List (Source csr)) (cs : List C) (ess : List (List Entry))
      → ShowsAll fs cs ess
      → (length cs ≡ length ess) × (length (all_entries fs) ≡ length ess)
  ShowsAll-length [] [] [] s = (refl, refl)
  ShowsAll-length (f ∷ fs) (c ∷ cs) (es ∷ ess) s = ground (arith, ShowsAll-length fs cs ess s.2)
  ShowsAll-length [] [] (es ∷ ess) s = absurd s
  ShowsAll-length [] (c ∷ cs) ess s = absurd s
  ShowsAll-length (f ∷ fs) [] ess s = absurd s
  ShowsAll-length (f ∷ fs) (c ∷ cs) [] s = absurd s

  -- A call of cursor `n`.
  pub call_lem :
      {R : Type 0} (g : C → Outcome R) (P : R → Type 0) (fs : List (Source csr)) (cs : List C)
      (ess : List (List Entry)) (n : ℕ) (e : Entry) (t : List Entry)
      → ShowsAll fs cs ess
      → nth ess n ≡ e ∷ t
      → ((f : Source csr) (c : C) → f.forward.Shows c (e ∷ t) → Succeeds (g c) P)
      → Succeeds (get cs n >>= g) P
  call_lem g P [] [] [] n e t s q h = cc
  call_lem g P (f ∷ fs) (c ∷ cs) (es ∷ ess) zero e t s q h = h f c (subst (f.forward.Shows c) q s.0)
  call_lem g P (f ∷ fs) (c ∷ cs) (es ∷ ess) (suc n) e t s q h = call_lem g P fs cs ess n e t s.2 q h
  call_lem g P [] [] (es ∷ ess) n e t s q h = absurd s
  call_lem g P [] (c ∷ cs) ess n e t s q h = absurd s
  call_lem g P (f ∷ fs) [] ess n e t s q h = absurd s
  call_lem g P (f ∷ fs) (c ∷ cs) [] n e t s q h = absurd s

  -- `next` of cursor `n`.
  pub modify_at_lem :
      (fs : List (Source csr)) (cs : List C) (ess : List (List Entry)) (n : ℕ) (e : Entry)
      (t : List Entry)
      → ShowsAll fs cs ess
      → nth ess n ≡ e ∷ t
      → Succeeds (modify_at csr.next cs n) (λ cs'. ShowsAll fs cs' (set ess n t))
  modify_at_lem [] [] [] n e t s q = cc
  modify_at_lem (f ∷ fs) (c ∷ cs) (es ∷ ess) zero e t s q =
      let sorted : IsSorted (e ∷ t) = subst IsSorted q s.1 in
      Succeeds->>= (λ c'. f.forward.Shows c' t) _ (csr.next c) _
        (f.forward.next-Shows c e t (subst (f.forward.Shows c) q s.0)) (λ c' r. (r, sorted.1, s.2))
  modify_at_lem (f ∷ fs) (c ∷ cs) (es ∷ ess) (suc n) e t s q =
      Succeeds->>= (λ cs'. ShowsAll fs cs' (set ess n t)) _ (modify_at csr.next cs n) _
        (modify_at_lem fs cs ess n e t s.2 q) (λ cs' r. (s.0, s.1, r))
  modify_at_lem [] [] (es ∷ ess) n e t s q = absurd s
  modify_at_lem [] (c ∷ cs) ess n e t s q = absurd s
  modify_at_lem (f ∷ fs) [] ess n e t s q = absurd s
  modify_at_lem (f ∷ fs) (c ∷ cs) [] n e t s q = absurd s

  cursor_key :
      (f : Source csr) (c : C) (es : List Entry)
      → f.forward.Shows c es
      → Succeeds
          (if csr.is_valid c then (csr.key c >>= λ k. ok (some k)) else ok none)
          (λ k. bytes_of_key k ≡ key_of es)
  cursor_key f c [] s = rw (f.forward.is_valid-Shows c [] s) refl
  cursor_key f c (e ∷ es) s = rw (f.forward.is_valid-Shows c (e ∷ es) s) (
      Succeeds->>= (λ k. into_boxed_slice k ≡ e.bytes) _ (csr.key c) _
        (f.forward.key-Shows c e es s) (λ k q. ap some q))

  pub keys_of_lem :
      (fs : List (Source csr)) (cs : List C) (ess : List (List Entry))
      → ShowsAll fs cs ess
      → Succeeds
          (keys_of csr cs)
          λ ka. (length ka ≡ length ess) × ((n : ℕ) → key_at ka n ≡ key_of (nth ess n))
  unfolding keys_of
  keys_of_lem [] [] [] s = (refl, λ n. refl)
  keys_of_lem (f ∷ fs) (c ∷ cs) (es ∷ ess) s =
      Succeeds->>= (λ k. bytes_of_key k ≡ key_of es) _
        (if csr.is_valid c then (csr.key c >>= λ k. ok (some k)) else ok none) _
        (cursor_key f c es s.0)
        (λ k e.
          Succeeds->>= _ _ (keys_of csr cs) _ (keys_of_lem fs cs ess s.2)
            (λ ka r. (omega (arith, r.0), keys k ka e r.1)))
    where
      keys :
          (k : Option KeyRef) (ka : List (Option KeyRef))
          → bytes_of_key k ≡ key_of es
          → ((n : ℕ) → key_at ka n ≡ key_of (nth ess n))
          → (n : ℕ) → key_at (k ∷ ka) n ≡ key_of (nth (es ∷ ess) n)
      keys k ka e r zero = e
      keys k ka e r (suc n) = r n
  keys_of_lem [] [] (es ∷ ess) s = absurd s
  keys_of_lem [] (c ∷ cs) ess s = absurd s
  keys_of_lem (f ∷ fs) [] ess s = absurd s
  keys_of_lem (f ∷ fs) (c ∷ cs) [] s = absurd s
