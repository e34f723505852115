-- ===== src/Lsm/MultiCursor/Others.antt =====
-- `next` where the other cursors stand anywhere: all of them seek.
use mathlib.Core.Path.{subst}
use elmo.Common.{ℕ, zero, suc, ◌+◌, ◌≡◌, arith, set, take, drop}
use elmo.Common.{List, [], ◌∷◌, ◌++◌, map}
use elmo.Common.Outcome.{ok, ◌>>=◌, Succeeds, Succeeds->>=}
use elmo.Lsm.KeyRef.{into_boxed_slice}
use elmo.Lsm.Cursor.{Cursor}
use elmo.Lsm.Cursor.Forward.{Entry, IsSorted}
use elmo.Lsm.MultiCursor.Sort.{get}
use elmo.Lsm.MultiCursor.Shown.{Source, nth, ShowsAll, all_entries}
use elmo.Lsm.MultiCursor.Sought.{beyond, for_all_lem, seek_past-Seeks}
use elmo.Lsm.MultiCursor.{half, wandering}

suc_lem : (n : ℕ) → n + 1 ≡ suc n
suc_lem n = omega arith

module _ {C : Type 0} (csr : Cursor C) where
  -- Cursor `c` is the one with number `n`, and has `es` to give.
  abbrev pub ShowsAt : List (Source csr) → ℕ → C → List Entry → Type 0
  ShowsAt [] n c es = ⊥
  ShowsAt (f ∷ fs) zero c es = f.forward.Shows c es × IsSorted es
  ShowsAt (f ∷ fs) (suc n) c es = ShowsAt fs n c es

  pub get-ShowsAt :
      (fs : List (Source csr)) (cs : List C) (ess : List (List Entry)) (n : ℕ) (e : Entry)
      (t : List Entry)
      → ShowsAll csr fs cs ess
      → nth ess n ≡ e ∷ t
      → Succeeds (get cs n) (λ c. ShowsAt fs n c (e ∷ t))
  get-ShowsAt [] [] [] n e t s q = cc
  get-ShowsAt (f ∷ fs) (c ∷ cs) (es ∷ ess) zero e t s q =
      (subst (f.forward.Shows c) q s.0, subst IsSorted q s.1)
  get-ShowsAt (f ∷ fs) (c ∷ cs) (es ∷ ess) (suc n) e t s q = get-ShowsAt fs cs ess n e t s.2 q
  get-ShowsAt [] [] (es ∷ ess) n e t s q = absurd s
  get-ShowsAt [] (c ∷ cs) ess n e t s q = absurd s
  get-ShowsAt (f ∷ fs) [] ess n e t s q = absurd s
  get-ShowsAt (f ∷ fs) (c ∷ cs) [] n e t s q = absurd s

  key-ShowsAt :
      (fs : List (Source csr)) (n : ℕ) (c : C) (e : Entry) (t : List Entry)
      → ShowsAt fs n c (e ∷ t)
      → Succeeds (csr.key c) (λ k. into_boxed_slice k ≡ e.bytes)
  key-ShowsAt [] n c e t s = absurd s
  key-ShowsAt (f ∷ fs) zero c e t s = f.forward.key-Shows c e t s.0
  key-ShowsAt (f ∷ fs) (suc n) c e t s = key-ShowsAt fs n c e t s

  ShowsAll-take :
      (n : ℕ) (fs : List (Source csr)) (cs : List C) (ess : List (List Entry))
      → ShowsAll csr fs cs ess
      → ShowsAll csr (take n fs) (take n cs) (take n ess)
  ShowsAll-take zero fs cs ess s = tt
  ShowsAll-take (suc n) [] [] [] s = tt
  ShowsAll-take (suc n) (f ∷ fs) (c ∷ cs) (es ∷ ess) s = (s.0, s.1, ShowsAll-take n fs cs ess s.2)
  ShowsAll-take (suc n) [] [] (es ∷ ess) s = absurd s
  ShowsAll-take (suc n) [] (c ∷ cs) ess s = absurd s
  ShowsAll-take (suc n) (f ∷ fs) [] ess s = absurd s
  ShowsAll-take (suc n) (f ∷ fs) (c ∷ cs) [] s = absurd s

  ShowsAll-drop :
      (n : ℕ) (fs : List (Source csr)) (cs : List C) (ess : List (List Entry))
      → ShowsAll csr fs cs ess
      → ShowsAll csr (drop n fs) (drop n cs) (drop n ess)
  ShowsAll-drop zero fs cs ess s = s
  ShowsAll-drop (suc n) [] [] [] s = tt
  ShowsAll-drop (suc n) (f ∷ fs) (c ∷ cs) (es ∷ ess) s = ShowsAll-drop n fs cs ess s.2
  ShowsAll-drop (suc n) [] [] (es ∷ ess) s = absurd s
  ShowsAll-drop (suc n) [] (c ∷ cs) ess s = absurd s
  ShowsAll-drop (suc n) (f ∷ fs) [] ess s = absurd s
  ShowsAll-drop (suc n) (f ∷ fs) (c ∷ cs) [] s = absurd s

  -- The three parts of `split3` together.
  join_lem :
      (to : List Entry → List Entry) (n : ℕ) (fs : List (Source csr)) (before : List C) (c : C)
      (after : List C) (es : List Entry)
      → ShowsAll csr (take n fs) before (map to (all_entries csr (take n fs)))
      → ShowsAt fs n c es
      → ShowsAll csr (drop (suc n) fs) after (map to (all_entries csr (drop (suc n) fs)))
      → ShowsAll csr fs (before ++ (c ∷ after)) (set (map to (all_entries csr fs)) n es)
  join_lem to zero [] before c after es b i a = absurd i
  join_lem to zero (f ∷ fs) [] c after es b i a = (i.0, i.1, a)
  join_lem to zero (f ∷ fs) (x ∷ before) c after es b i a = absurd b
  join_lem to (suc n) [] before c after es b i a = absurd i
  join_lem to (suc n) (f ∷ fs) [] c after es b i a = absurd b
  join_lem to (suc n) (f ∷ fs) (x ∷ before) c after es b i a =
      (b.0, b.1, join_lem to n fs before c after es b.2 i a)

  -- All cursors but number `n` are past its key.
  pub others_lem :
      (fs : List (Source csr)) (cs : List C) (ess : List (List Entry)) (n : ℕ) (e : Entry)
      (t : List Entry)
      → ShowsAll csr fs cs ess
      → nth ess n ≡ e ∷ t
      → Succeeds
          (get cs n >>= λ icsr. csr.key icsr >>= λ ki.
            half csr wandering ki (take n cs) >>= λ before.
            half csr wandering ki (drop (n + 1) cs) >>= λ after. ok (before ++ (icsr ∷ after)))
          (λ cs'. ShowsAll csr fs cs' (set (map (beyond e.bytes) (all_entries csr fs)) n (e ∷ t)))
  unfolding half
  others_lem fs cs ess n e t s q =
      Succeeds->>= _ _ (get cs n) _ (get-ShowsAt fs cs ess n e t s q) (λ c i.
        Succeeds->>= _ _ (csr.key c) _ (key-ShowsAt fs n c e t i) (λ k r.
          Succeeds->>= _ _ (half csr wandering k (take n cs)) _
            (for_all_lem csr _ (beyond (into_boxed_slice k)) (take n fs) (take n cs) (take n ess)
              (seek_past-Seeks csr k) (ShowsAll-take n fs cs ess s))
            (λ before b.
              Succeeds->>= _ _ (half csr wandering k (drop (n + 1) cs)) _
                (for_all_lem csr _ (beyond (into_boxed_slice k)) (drop (n + 1) fs) (drop (n + 1) cs)
                  (drop (n + 1) ess) (seek_past-Seeks csr k) (ShowsAll-drop (n + 1) fs cs ess s))
                (λ after a.
                  subst
                    (λ b.
                      ShowsAll csr fs (before ++ (c ∷ after))
                        (set (map (beyond b) (all_entries csr fs)) n (e ∷ t)))
                    r
                    (join_lem (beyond (into_boxed_slice k)) n fs before c after (e ∷ t) b i (
                      subst
                        (λ m.
                          ShowsAll csr (drop m fs) after
                            (map (beyond (into_boxed_slice k)) (all_entries csr (drop m fs))))
                        (suc_lem n) a))))))
