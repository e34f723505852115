-- ===== src/Lsm/MultiCursor/Merged/Step.antt =====
-- The merged entries, one after the other.
use elmo.Common.{ℕ, ◌≡◌, inl, inr, refl, sym, ap, ◌∙◌, Ordering, arith, All}
use elmo.Common.{true, Bool-cases, if◌then◌else◌, List, [], ◌∷◌, ◌++◌, map}
use elmo.Lsm.Bcmp.{compare_bytes}
use elmo.Lsm.Cursor.Forward.{Entry, IsSorted}
use mathlib.Core.Path.{subst}
use elmo.Lsm.Bcmp.Order.{compare_bytes-eq}
use elmo.Lsm.MultiCursor.Merged.{
  insert_entry, insert_all, merged, is_equal, past_key, first_at, IsFrom, IsAbove, insert_all-All,
  insert_entry-first, insert_all-behind, past_key-IsAbove, first_at-cases,
}

merged-IsAbove :
    (k : List ℕ) (ess : List (List Entry))
    → All IsSorted ess
    → All (IsFrom k) ess
    → IsAbove k (merged (map (past_key k) ess))
merged-IsAbove k [] s f = tt
merged-IsAbove k (es ∷ ess) s f =
    insert_all-All _ (past_key k es) (merged (map (past_key k) ess)) (past_key-IsAbove k es s.0 f.0)
      (merged-IsAbove k ess s.1 f.1)

-- Entries above `k` are inserted behind those with the key `k`.
insert_all-first_at :
    (k : List ℕ) (xs : List Entry) (ess : List (List Entry)) (ys : List Entry)
    → IsAbove k xs
    → insert_all xs (first_at k ess ++ ys) ≡ first_at k ess ++ insert_all xs ys
insert_all-first_at k xs ess ys a = elim (first_at-cases k ess) [
  | inl e ↦ rw e refl
  | inr (y, e, q) ↦
      rw e (
        insert_all-behind y xs ys
          (subst (λ j. IsAbove j xs) (sym (compare_bytes-eq y.bytes k q)) a))
]

insert_entry-first_at :
    (k : List ℕ) (x : Entry) (ess : List (List Entry)) (ys : List Entry)
    → compare_bytes x.bytes k ≡ Ordering.eq
    → IsAbove k ys
    → insert_entry x (first_at k ess ++ ys) ≡ x ∷ ys
insert_entry-first_at k x ess ys h a = elim (first_at-cases k ess) [
  | inl e ↦
      rw e
        (insert_entry-first x ys (subst (λ j. IsAbove j ys) (sym (compare_bytes-eq x.bytes k h)) a))
  | inr (y, e, q) ↦
      let c : compare_bytes x.bytes y.bytes ≡ Ordering.eq =
        subst (λ j. compare_bytes x.bytes j ≡ Ordering.eq) (sym (compare_bytes-eq y.bytes k q)) h in
      rw e (rw (insert_entry, c) refl)
]

eq_of : (o : Ordering) → is_equal o ≡ true → o ≡ Ordering.eq
eq_of o h = ground (arith, h)

-- If no list has a key below `k`, the merged entries are the first one with the key `k`, if there
-- is one, and then those of the lists past `k`.
pub merged-first_at :
    (k : List ℕ) (ess : List (List Entry))
    → All IsSorted ess
    → All (IsFrom k) ess
    → merged ess ≡ first_at k ess ++ merged (map (past_key k) ess)
merged-first_at k [] s f = refl
merged-first_at k ([] ∷ ess) s f = merged-first_at k ess s.1 f.1
merged-first_at k ((e ∷ es) ∷ ess) s f =
    let rest = merged (map (past_key k) ess) in
    let above = past_key-IsAbove k (e ∷ es) s.0 f.0 in
    let i = merged-first_at k ess s.1 f.1 in
    elim (Bool-cases (is_equal (compare_bytes e.bytes k))) [
      | inl q ↦
          let c : compare_bytes e.bytes k ≡ Ordering.eq = eq_of (compare_bytes e.bytes k) q in
          let a : IsAbove k es = subst (λ b. IsAbove k (if b then es else e ∷ es)) q above in
          let j = insert_all-first_at k es ess rest a in
          let l =
            insert_entry-first_at k e ess (insert_all es rest) c
              (insert_all-All _ es rest a (merged-IsAbove k ess s.1 f.1)) in
          rw q (ap (λ ys. insert_entry e (insert_all es ys)) i ∙ ap (insert_entry e) j ∙ l)
      | inr q ↦
          let a : IsAbove k (e ∷ es) = subst (λ b. IsAbove k (if b then es else e ∷ es)) q above in
          rw q (ap (insert_all (e ∷ es)) i ∙ insert_all-first_at k (e ∷ es) ess rest a)
    ]
