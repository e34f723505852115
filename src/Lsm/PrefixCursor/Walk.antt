-- ===== src/Lsm/PrefixCursor/Walk.antt =====
-- What a loop over a `PrefixCursor` gets.
use elmo.Common.{
  ℕ, zero, suc, ◌<◌, ◌≡◌, ◌≢◌, refl, ap, ◌∙◌, arith, All, length, take, Ordering, Bool-cases, inl,
  inr,
}
use elmo.Common.{Bool, true, false, ◌&&◌, ◌==◌, leb, List, [], ◌∷◌, if◌then◌else◌}
use elmo.Common.Outcome.{Outcome, ok, err, panic, ◌>>=◌, Succeeds, Succeeds-eq, Succeeds->>=}
use elmo.Lsm.Bcmp.{compare_bytes}
use elmo.Lsm.Bcmp.Order.{compare_bytes_trans}
use elmo.Lsm.KeyRef.{KeyRef, into_boxed_slice, same_bytes, starts_with}
use elmo.Lsm.KeyRef.Slices.{starts_with_lem, len_lem}
use elmo.Lsm.Cursor.{Cursor, greater_or_equal}
use elmo.Lsm.Cursor.Forward.{
  Entry, IsSorted, is_less, from_key, result_at, Forward, length-from_key,
}
use elmo.Lsm.Cursor.Run.{run, rest_of, rest_of-step}
use elmo.Lsm.LivingCursor.{unwrap}
use elmo.Lsm.PrefixCursor.{PrefixCursor, prefix_cursor, is_valid, key, value, next, first}

abbrev pub is_prefix : List ℕ → List ℕ → Bool
is_prefix [] b = true
is_prefix (x ∷ p) [] = false
is_prefix (x ∷ p) (y ∷ b) = x == y && is_prefix p b

-- The entries whose keys start with `p`.
abbrev pub with_prefix : List ℕ → List Entry → List Entry
with_prefix p [] = []
with_prefix p (e ∷ es) =
    let rest = with_prefix p es in if is_prefix p e.bytes then e ∷ rest else rest

is_prefix-eq :
    (p b : List ℕ) → (leb (length p) (length b) && same_bytes p (take (length p) b)) ≡ is_prefix p b
is_prefix-eq [] b = ground arith
is_prefix-eq (x ∷ p) [] = ground arith
is_prefix-eq (x ∷ p) (y ∷ b) = ground (arith, is_prefix-eq p b)

starts_with-eq : (k : KeyRef) (p : List ℕ) → starts_with k p ≡ ok (is_prefix p (into_boxed_slice k))
starts_with-eq k p =
    starts_with_lem k p ∙ rw (len_lem k) (ap ok (is_prefix-eq p (into_boxed_slice k)))

-- A key below the prefix does not start with it.
below_prefix : (p b : List ℕ) → compare_bytes b p ≡ Ordering.lt → is_prefix p b ≡ false
unfolding compare_bytes
below_prefix [] [] h = cc
below_prefix [] (y ∷ b) h = cc
below_prefix (x ∷ p) [] h = refl
below_prefix (x ∷ p) (y ∷ b) h = ground (arith, below_prefix p b)

-- Between the prefix and a key that starts with it all do.
between_prefix :
    (p a b : List ℕ)
    → compare_bytes a p ≢ Ordering.lt
    → compare_bytes a b ≡ Ordering.lt
    → is_prefix p a ≡ false
    → is_prefix p b ≡ false
unfolding compare_bytes
between_prefix [] a b h l n = cc
between_prefix (x ∷ p) a [] h l n = refl
between_prefix (x ∷ p) [] (z ∷ b) h l n = absurd (h refl)
between_prefix (x ∷ p) (y ∷ a) (z ∷ b) h l n = ground (arith, h, between_prefix p a b)

with_prefix-from_key :
    (p : List ℕ) (es : List Entry) → with_prefix p (from_key p es) ≡ with_prefix p es
with_prefix-from_key p [] = refl
with_prefix-from_key p (e ∷ es) = ground (arith, with_prefix-from_key p es, below_prefix p e.bytes)

-- The key is not below `p`.
abbrev NotBelow : List ℕ → Entry → Type 0
NotBelow p e = compare_bytes e.bytes p ≢ Ordering.lt

after-NotBelow :
    (p : List ℕ) (e : Entry) (es : List Entry)
    → NotBelow p e
    → All (λ g. compare_bytes e.bytes g.bytes ≡ Ordering.lt) es
    → All (NotBelow p) es
after-NotBelow p e [] n a = tt
after-NotBelow p e (g ∷ es) n a =
    ((λ k. n (compare_bytes_trans e.bytes g.bytes p a.0 k)), after-NotBelow p e es n a.1)

from_key-NotBelow : (p : List ℕ) (es : List Entry) → IsSorted es → All (NotBelow p) (from_key p es)
from_key-NotBelow p [] s = tt
from_key-NotBelow p (e ∷ es) s = go (from_key-NotBelow p es s.1) (compare_bytes e.bytes p) refl
  where
    go :
        All (NotBelow p) (from_key p es)
        → (c : Ordering) → compare_bytes e.bytes p ≡ c
        → All (NotBelow p) (if is_less c then from_key p es else e ∷ es)
    go i Ordering.lt h = i
    go i Ordering.eq h = let n : NotBelow p e = λ k. cc in (n, after-NotBelow p e es n s.0)
    go i Ordering.gt h = let n : NotBelow p e = λ k. cc in (n, after-NotBelow p e es n s.0)

from_key-IsSorted : (p : List ℕ) (es : List Entry) → IsSorted es → IsSorted (from_key p es)
from_key-IsSorted p [] s = tt
from_key-IsSorted p (e ∷ es) s = ground (arith, from_key-IsSorted p es, s)

-- Behind an entry without the prefix no entry has it.
after-prefix :
    (p : List ℕ) (e : Entry) (es : List Entry)
    → NotBelow p e
    → is_prefix p e.bytes ≡ false
    → All (λ g. compare_bytes e.bytes g.bytes ≡ Ordering.lt) es
    → with_prefix p es ≡ []
after-prefix p e [] n h a = refl
after-prefix p e (g ∷ es) n h a =
    rw (between_prefix p e.bytes g.bytes n a.0 h) (after-prefix p e es n h a.1)

module _ {C : Type 0} (csr : Cursor C) (all : List Entry) (f : Forward csr all) where
  prefix-is_valid :
      (r : PrefixCursor C) (e : Entry) (es : List Entry)
      → f.Shows r.chain (e ∷ es)
      → is_valid csr r ≡ ok (is_prefix r.prefix e.bytes)
  unfolding is_valid
  prefix-is_valid r e es s =
      rw (is_valid, f.is_valid-Shows r.chain (e ∷ es) s)
        (go (csr.key r.chain) (f.key-Shows r.chain e es s))
    where
      go :
          (o : Outcome KeyRef)
          → Succeeds o (λ k. into_boxed_slice k ≡ e.bytes)
          → (unwrap o >>= λ k. starts_with k r.prefix) ≡ ok (is_prefix r.prefix e.bytes)
      go (ok k) q = starts_with-eq k r.prefix ∙ ap (λ b. ok (is_prefix r.prefix b)) q
      go (err x) q = absurd q
      go panic q = absurd q

  prefix-rest_of :
      (fuel : ℕ) (r : PrefixCursor C) (es : List Entry)
      → length es < fuel
      → f.Shows r.chain es
      → IsSorted es
      → All (NotBelow r.prefix) es
      → rest_of (prefix_cursor csr) fuel r ≡ ok (with_prefix r.prefix es)
  unfolding rest_of is_valid next key value prefix_cursor
  prefix-rest_of zero r es h s so o = absurd (omega arith)
  prefix-rest_of (suc fuel) r [] h s so o =
      rw (rest_of, is_valid, f.is_valid-Shows r.chain [] s) refl
  prefix-rest_of (suc fuel) r (e ∷ es) h s so o =
      let v = prefix-is_valid r e es s in
      elim (Bool-cases (is_prefix r.prefix e.bytes)) [
        | inr u ↦
            let stop = after-prefix r.prefix e es o.0 u so.0 in
            let ends : with_prefix r.prefix (e ∷ es) ≡ [] = ground (arith, stop) in
            let v' : is_valid csr r ≡ ok false = v ∙ ap ok u in rw (rest_of, v', ends) refl
        | inl u ↦
            let v' : is_valid csr r ≡ ok true = v ∙ ap ok u in
            let keeps : with_prefix r.prefix (e ∷ es) ≡ e ∷ with_prefix r.prefix es =
              ground arith in
            let step =
              rest_of-step csr all f (prefix_cursor csr) fuel r r.chain e es
                (with_prefix r.prefix es) s v' (rw (key, v') refl) (rw (value, v') refl)
                (rw (next, v')
                  (Succeeds->>= (λ c. f.Shows c es) _ (csr.next r.chain) _
                    (f.next-Shows r.chain e es s)
                    (λ c s'.
                      prefix-rest_of fuel (record r { chain = c }) es (omega arith) s' so.1
                        o.1))) in
            rw keeps step
      ]

  first_lem :
      (r : PrefixCursor C) (es : List Entry)
      → f.Shows r.chain es
      → Succeeds
          (first csr r)
          (λ r'. f.Shows r'.chain (from_key r.prefix all) × (r' ≡ record r { chain = r'.chain }))
  unfolding first
  first_lem r es s =
      Succeeds->>=
        (λ q.
          f.Shows q.0 (from_key r.prefix all) × (q.1 ≡ result_at r.prefix (from_key r.prefix all)))
        _ (csr.seek r.chain (KeyRef.slice r.prefix) greater_or_equal) _
        (f.seek-Shows r.chain es (KeyRef.slice r.prefix) s) (λ q t. (t.0, refl))

  -- Over a chain of ordered entries, a loop over a `PrefixCursor` gets exactly the entries whose
  -- keys start with the prefix, in order, and no call fails.
  pub prefix_run :
      (fuel : ℕ) (r : PrefixCursor C) (es : List Entry)
      → length all < fuel
      → IsSorted all
      → f.Shows r.chain es
      → run (prefix_cursor csr) fuel r ≡ ok (with_prefix r.prefix all)
  unfolding prefix_cursor
  prefix_run fuel r es h so s =
      Succeeds-eq
        (λ r'. f.Shows r'.chain (from_key r.prefix all) × (r' ≡ record r { chain = r'.chain }))
        (first csr r) (rest_of (prefix_cursor csr) fuel) (with_prefix r.prefix all)
        (first_lem r es s)
        (λ r' t.
          ap (rest_of (prefix_cursor csr) fuel) t.1
          ∙ prefix-rest_of fuel (record r { chain = r'.chain }) (from_key r.prefix all)
              (omega (arith, h, length-from_key r.prefix all)) t.0
              (from_key-IsSorted r.prefix all so) (from_key-NotBelow r.prefix all so)
          ∙ ap ok (with_prefix-from_key r.prefix all))
