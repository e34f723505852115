-- ===== src/Lsm/MultiCursor/Sought.antt =====
-- Loops that seek for a key in every cursor.
use mathlib.Core.Path.{subst}
use elmo.Common.{ℕ, suc, ◌+◌, ◌≡◌, inl, inr, refl, ap, ◌∙◌, Ordering, arith}
use elmo.Common.{true, false, Bool-cases, if◌then◌else◌, Option, none, some, List, [], ◌∷◌, map}
use elmo.Common.Outcome.{Outcome, ok, Succeeds, Succeeds->>=, Succeeds-imp}
use elmo.Lsm.Bcmp.{compare_bytes}
use elmo.Lsm.KeyRef.{KeyRef, into_boxed_slice}
use elmo.Lsm.Cursor.{Cursor, greater_or_equal, SeekResult, sr_equal, sr_is_valid_and_equal}
use elmo.Lsm.Cursor.Forward.{Entry, IsSorted, from_key, result_at}
use elmo.Lsm.MultiCursor.Merged.{is_equal, past_key, first_at}
use elmo.Lsm.MultiCursor.Merged.Seek.{from_key-IsSorted}
use elmo.Lsm.MultiCursor.Shown.{Source, nth, key_of, is_key, past_key_same, ShowsAll, all_entries}
use elmo.Lsm.MultiCursor.{for_all, seek_past, seek_loop}

-- The entries of a list past a key, wherever it begins.
abbrev pub beyond : List ℕ → List Entry → List Entry
beyond k es = past_key k (from_key k es)

result_at-is_key :
    (k : List ℕ) (es : List Entry) → sr_is_valid_and_equal (result_at k es) ≡ is_key k (key_of es)
result_at-is_key k [] = refl
result_at-is_key k (e ∷ es) = ground arith

eq_of : (o : Ordering) → is_equal o ≡ true → o ≡ Ordering.eq
eq_of o h = ground (arith, h)

first_at_skip :
    (k : List ℕ) (es : List Entry) (ess : List (List Entry))
    → is_key k (key_of es) ≡ false
    → first_at k (es ∷ ess) ≡ first_at k ess
first_at_skip k [] ess h = refl
first_at_skip k (e ∷ es) ess h = rw h refl

module _ {C : Type 0} (csr : Cursor C) where
  abbrev pub Seeks : Source csr → (C → Outcome C) → (List Entry → List Entry) → Type 0
  Seeks f g to =
      (c : C) (es : List Entry)
      → f.forward.Shows c es
      → Succeeds (g c) (λ c'. f.forward.Shows c' (to f.entries) × IsSorted (to f.entries))

  -- The same call of every cursor.
  pub for_all_lem :
      (g : C → Outcome C) (to : List Entry → List Entry) (fs : List (Source csr)) (cs : List C)
      (ess : List (List Entry))
      → ((f : Source csr) → Seeks f g to)
      → ShowsAll csr fs cs ess
      → Succeeds (for_all csr g cs) (λ cs'. ShowsAll csr fs cs' (map to (all_entries csr fs)))
  for_all_lem g to [] [] [] h s = tt
  for_all_lem g to (f ∷ fs) (c ∷ cs) (es ∷ ess) h s =
      Succeeds->>= _ _ (g c) _ (h f c es s.0) (λ c' q.
        Succeeds->>= _ _ (for_all csr g cs) _ (for_all_lem g to fs cs ess h s.2)
          (λ cs' r. (q.0, q.1, r)))
  for_all_lem g to [] [] (es ∷ ess) h s = absurd s
  for_all_lem g to [] (c ∷ cs) ess h s = absurd s
  for_all_lem g to (f ∷ fs) [] ess h s = absurd s
  for_all_lem g to (f ∷ fs) (c ∷ cs) [] h s = absurd s

  pub first-Seeks : (f : Source csr) → Seeks f csr.first (λ es. es)
  first-Seeks f c es s =
      Succeeds-imp _ _ (csr.first c) (f.forward.first-Shows c es s) (λ c' q. (q, f.sorted))

  pub seek_past-Seeks :
      (k : KeyRef) (f : Source csr) → Seeks f (seek_past csr k) (beyond (into_boxed_slice k))
  seek_past-Seeks k f c es s =
      let b = into_boxed_slice k in
      Succeeds->>= _ _ (csr.seek c k greater_or_equal) _ (f.forward.seek-Shows c es k s) (λ r q.
        go (from_key b f.entries) r q.0
          (ap sr_is_valid_and_equal q.1 ∙ result_at-is_key b (from_key b f.entries))
          (from_key-IsSorted b f.entries f.sorted))
    where
      go :
          (es : List Entry) (r : C × SeekResult)
          → f.forward.Shows r.0 es
          → sr_is_valid_and_equal r.1 ≡ is_key (into_boxed_slice k) (key_of es)
          → IsSorted es
          → Succeeds (if sr_is_valid_and_equal r.1 then csr.next r.0 else ok r.0) (λ c'.
            f.forward.Shows c' (past_key (into_boxed_slice k) es)
            × IsSorted (past_key (into_boxed_slice k) es))
      go [] r s e o = rw e (s, tt)
      go (x ∷ xs) r s e o = elim (Bool-cases (is_key (into_boxed_slice k) (some x.bytes))) [
        | inl y ↦
            rw (e, y)
              (Succeeds-imp _ _ (csr.next r.0) (f.forward.next-Shows r.0 x xs s) (λ c' q. (q, o.1)))
        | inr y ↦ rw (e, y) (s, o)
      ]

  -- Where the loop of `seek` ends.
  abbrev pub SeekEnds : List (Source csr) → List ℕ → ℕ → List C × Option (ℕ × SeekResult) → Type 0
  SeekEnds fs b j (cs', none) = ShowsAll csr fs cs' (map (from_key b) (all_entries csr fs))
  SeekEnds fs b j (cs', some (i, sr)) =
      (n : ℕ) × (e : Entry) × (t : List Entry) × (ess : List (List Entry)) × ShowsAll csr fs cs' ess
      × (i ≡ j + n)
      × (sr ≡ sr_equal)
      × (nth ess n ≡ e ∷ t)
      × (t ≡ nth (map (beyond b) (all_entries csr fs)) n)
      × (compare_bytes e.bytes b ≡ Ordering.eq)
      × (first_at b (map (from_key b) (all_entries csr fs)) ≡ e ∷ [])

  here_lem :
      (f : Source csr) (fs : List (Source csr)) (r : C × SeekResult) (cs : List C)
      (ess : List (List Entry)) (j : ℕ) (b : List ℕ)
      → f.forward.Shows r.0 (from_key b f.entries) × (r.1 ≡ result_at b (from_key b f.entries))
      → is_key b (key_of (from_key b f.entries)) ≡ true
      → ShowsAll csr fs cs ess
      → SeekEnds (f ∷ fs) b j (r.0 ∷ cs, some (j, r.1))
  here_lem f fs r cs ess j b q y s =
      let p = past_key_same b (from_key b f.entries) y in
      let c : compare_bytes p.0.bytes b ≡ Ordering.eq =
        eq_of (compare_bytes p.0.bytes b) (subst (λ l. is_key b (key_of l) ≡ true) p.1 y) in
      (
        0,
        p.0,
        beyond b f.entries,
        from_key b f.entries ∷ ess,
        (q.0, from_key-IsSorted b f.entries f.sorted, s),
        omega arith,
        q.1 ∙ ap (result_at b) p.1 ∙ rw c refl,
        p.1,
        refl,
        c,
        ap (λ l. first_at b (l ∷ map (from_key b) (all_entries csr fs))) p.1 ∙ rw c refl,
      )

  there_lem :
      (f : Source csr) (fs : List (Source csr)) (c : C) (j : ℕ) (b : List ℕ)
      → f.forward.Shows c (from_key b f.entries)
      → is_key b (key_of (from_key b f.entries)) ≡ false
      → (s : List C × Option (ℕ × SeekResult)) → SeekEnds fs b (j + 1) s
      → SeekEnds (f ∷ fs) b j (c ∷ s.0, s.1)
  there_lem f fs c j b q y (cs, none) h = (q, from_key-IsSorted b f.entries f.sorted, h)
  there_lem f fs c j b q y (cs, some (i, sr)) h = (
    suc h.0,
    h.1,
    h.2,
    from_key b f.entries ∷ h.3,
    (q, from_key-IsSorted b f.entries f.sorted, h.4),
    omega (arith, h.5),
    h.6,
    h.7,
    h.8,
    h.9,
    first_at_skip b (from_key b f.entries) (map (from_key b) (all_entries csr fs)) y ∙ h.10,
  )

  pub seek_loop_lem :
      (fs : List (Source csr)) (cs : List C) (ess : List (List Entry)) (j : ℕ) (k : KeyRef)
      → ShowsAll csr fs cs ess
      → Succeeds (seek_loop csr cs j k greater_or_equal) (SeekEnds fs (into_boxed_slice k) j)
  unfolding seek_loop
  seek_loop_lem [] [] [] j k s = tt
  seek_loop_lem (f ∷ fs) (c ∷ cs) (es ∷ ess) j k s =
      let b = into_boxed_slice k in
      Succeeds->>= _ _ (csr.seek c k greater_or_equal) _ (f.forward.seek-Shows c es k s.0) (λ r q.
        elim (Bool-cases (is_key b (key_of (from_key b f.entries)))) [
          | inl y ↦
              let e : sr_is_valid_and_equal r.1 ≡ true =
                ap sr_is_valid_and_equal q.1 ∙ result_at-is_key b (from_key b f.entries) ∙ y in
              rw e (here_lem f fs r cs ess j b q y s.2)
          | inr y ↦
              let e : sr_is_valid_and_equal r.1 ≡ false =
                ap sr_is_valid_and_equal q.1 ∙ result_at-is_key b (from_key b f.entries) ∙ y in
              rw e (
                Succeeds->>= (SeekEnds fs b (j + 1)) _ (seek_loop csr cs (j + 1) k greater_or_equal)
                  _ (seek_loop_lem fs cs ess (j + 1) k s.2)
                  (λ s' h. there_lem f fs r.0 j b q.0 y s' h))
        ])
  seek_loop_lem [] [] (es ∷ ess) j k s = absurd s
  seek_loop_lem [] (c ∷ cs) ess j k s = absurd s
  seek_loop_lem (f ∷ fs) [] ess j k s = absurd s
  seek_loop_lem (f ∷ fs) (c ∷ cs) [] j k s = absurd s
