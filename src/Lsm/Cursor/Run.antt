-- ===== src/Lsm/Cursor/Run.antt =====
-- A client's loop over a cursor: `first`, then `key`, `value` and `next` for as long as it is valid.
use elmo.Common.{ℕ, zero, suc, ◌<◌, ◌≡◌, refl, arith, length, ap, Bool, true, false, List, [], ◌∷◌}
use elmo.Common.Outcome.{Outcome, ok, err, panic, ◌>>=◌, Succeeds, Succeeds-imp, Succeeds-eq}
use elmo.Lsm.KeyRef.{KeyRef, into_boxed_slice}
use elmo.Lsm.Cursor.{Cursor, ValueRef}
use elmo.Lsm.Cursor.Forward.{Entry, Forward}

-- The calls of `IForwardCursor` and `ILiveValue`.
pub record ForwardCursor (C : Type 0) : Type 0 where
  pub first : C → Outcome C
  pub next : C → Outcome C
  pub is_valid : C → Outcome Bool
  pub key : C → Outcome KeyRef
  pub value : C → Outcome ValueRef

abbrev pub forward_of : {C : Type 0} → Cursor C → ForwardCursor C
forward_of csr = record {
  first = csr.first;
  next = csr.next;
  is_valid = λ c. ok (csr.is_valid c);
  key = csr.key;
  value = csr.value;
}

module _ {C : Type 0} (csr : ForwardCursor C) where
  -- The entries that a loop of at most `fuel` rounds gets.
  unfoldable pub rest_of : ℕ → C → Outcome (List Entry)
  rest_of zero c = panic
  rest_of (suc fuel) c = do
    v ← csr.is_valid c
    elim v [
      | false ↦ ok []
      | true ↦ (do
        k ← csr.key c
        v ← csr.value c
        c' ← csr.next c
        es ← rest_of fuel c'
        ok (record { bytes = into_boxed_slice k; stored = v } ∷ es))
    ]

  abbrev pub run : ℕ → C → Outcome (List Entry)
  run fuel c = csr.first c >>= rest_of fuel

module _ {C : Type 0} (csr : Cursor C) (all : List Entry) (f : Forward csr all) where
  -- A step of the loop where the cursor shows an entry.
  pub rest_of-step :
      {D : Type 0} (d : ForwardCursor D) (fuel : ℕ) (x : D) (c : C) (e : Entry)
      (es result : List Entry)
      → f.Shows c (e ∷ es)
      → d.is_valid x ≡ ok true
      → d.key x ≡ csr.key c
      → d.value x ≡ csr.value c
      → Succeeds (d.next x) (λ x'. rest_of d fuel x' ≡ ok result)
      → rest_of d (suc fuel) x ≡ ok (e ∷ result)
  unfolding rest_of
  rest_of-step {D = D} d fuel x c e es result s v k w n =
      rw (rest_of, v, k, w, f.value-Shows c e es s)
        (go (csr.key c) (d.next x) (f.key-Shows c e es s) n)
    where
      go :
          (o : Outcome KeyRef) (q : Outcome D)
          → Succeeds o (λ k. into_boxed_slice k ≡ e.bytes)
          → Succeeds q (λ x'. rest_of d fuel x' ≡ ok result)
          → (o >>= λ k. q >>= λ c'. rest_of d fuel c' >>= λ es.
              ok (record { bytes = into_boxed_slice k; stored = e.stored } ∷ es))
            ≡ ok (e ∷ result)
      go (ok k) (ok x') h m = rw (m, h) refl
      go (err r) q h m = absurd h
      go panic q h m = absurd h
      go (ok k) (err r) h m = absurd m
      go (ok k) panic h m = absurd m

  pub rest_of_lem :
      (fuel : ℕ) (c : C) (es : List Entry)
      → length es < fuel
      → f.Shows c es
      → rest_of (forward_of csr) fuel c ≡ ok es
  unfolding rest_of
  rest_of_lem zero c es h s = absurd (omega arith)
  rest_of_lem (suc fuel) c [] h s = rw (rest_of, f.is_valid-Shows c [] s) refl
  rest_of_lem (suc fuel) c (e ∷ es) h s =
      rest_of-step (forward_of csr) fuel c c e es es s (ap ok (f.is_valid-Shows c (e ∷ es) s)) refl
        refl
        (Succeeds-imp (λ c'. f.Shows c' es) _ (csr.next c) (f.next-Shows c e es s)
          (λ c' s'. rest_of_lem fuel c' es (omega arith) s'))

  pub run_lem :
      (fuel : ℕ) (c : C) (es : List Entry)
      → length all < fuel
      → f.Shows c es
      → run (forward_of csr) fuel c ≡ ok all
  run_lem fuel c es h s =
      Succeeds-eq (λ c'. f.Shows c' all) (csr.first c) (rest_of (forward_of csr) fuel) all
        (f.first-Shows c es s) (λ c' s'. rest_of_lem fuel c' all h s')
