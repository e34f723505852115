-- ===== src/Lsm/MultiCursor/Refine/Seeks.antt =====
-- `seek` of a `MultiCursor`.
use mathlib.Core.Path.{subst}
use elmo.Common.{ℕ, ◌+◌, ◌≡◌, refl, sym, ap, ◌∙◌, arith}
use elmo.Common.{All, Option, none, some, List, [], ◌∷◌, ◌++◌, map}
use elmo.Common.Outcome.{ok, ◌>>=◌, Succeeds, Succeeds->>=, Succeeds-imp}
use elmo.Lsm.Bcmp.Order.{compare_bytes-eq}
use elmo.Lsm.KeyRef.{KeyRef, into_boxed_slice}
use elmo.Lsm.Cursor.{Cursor, greater_or_equal, SeekResult, sr_invalid, from_cursor}
use elmo.Lsm.Cursor.Forward.{Entry, IsSorted, from_key, result_at, found}
use elmo.Lsm.MultiCursor.Merged.{merged, past_key, IsFrom}
use elmo.Lsm.MultiCursor.Merged.Step.{merged-first_at}
use elmo.Lsm.MultiCursor.Merged.Seek.{from_key-merged, from_key-IsFrom, from_key-IsSorted}
use elmo.Lsm.MultiCursor.Shown.{Source, nth, all_entries, all_entries-IsSorted, call_lem}
use elmo.Lsm.MultiCursor.FindMin.{HasSlots, Found, to_min_lem}
use elmo.Lsm.MultiCursor.Sought.{beyond, SeekEnds, seek_loop_lem}
use elmo.Lsm.LivingCursor.Walk.{from_cursor_lem}
use elmo.Lsm.MultiCursor.{result_of, result_for, MultiCursor, wandering, seek, to_min, seek_loop}
use elmo.Lsm.MultiCursor.Refine.Places.{MultiShows, at_key, shown-Cur, from_Found, same_length}

zero_add : (n : ℕ) → 0 + n ≡ n
zero_add n = omega arith

map-map :
    (k : List ℕ) (ess : List (List Entry))
    → map (past_key k) (map (from_key k) ess) ≡ map (beyond k) ess
map-map k [] = refl
map-map k (es ∷ ess) = ap (λ l. beyond k es ∷ l) (map-map k ess)

starts-IsSorted :
    (k : List ℕ) (ess : List (List Entry)) → All IsSorted ess → All IsSorted (map (from_key k) ess)
starts-IsSorted k [] s = tt
starts-IsSorted k (es ∷ ess) s = (from_key-IsSorted k es s.0, starts-IsSorted k ess s.1)

starts-IsFrom : (k : List ℕ) (ess : List (List Entry)) → All (IsFrom k) (map (from_key k) ess)
starts-IsFrom k [] = tt
starts-IsFrom k (es ∷ ess) = (from_key-IsFrom k es, starts-IsFrom k ess)

module _ {C : Type 0} (csr : Cursor C) (fs : List (Source csr)) where
  -- What `from_cursor` says of the current cursor.
  result_lem :
      (m : MultiCursor C) (es : List Entry) (k : KeyRef)
      → MultiShows csr fs m es
      → Succeeds
          (result_of csr m k)
          (λ r. MultiShows csr fs r.0 es × (r.1 ≡ result_at (into_boxed_slice k) es))
  result_lem m [] k s =
      subst
        (λ o. Succeeds (result_for csr m k o) (λ r. MultiShows csr fs r.0 [] × (r.1 ≡ sr_invalid)))
        (sym (shown-Cur csr fs m [] s)) (s, refl)
  result_lem m (e ∷ es) k s =
      let c = shown-Cur csr fs m (e ∷ es) s in
      let P = λ (r : MultiCursor C × SeekResult).
        MultiShows csr fs r.0 (e ∷ es) × (r.1 ≡ result_at (into_boxed_slice k) (e ∷ es)) in
      subst (λ o. Succeeds (result_for csr m k o) P) (sym c.2)
        (call_lem csr (λ x. from_cursor csr x k >>= λ sr. ok (m, sr)) P fs m.subcursors s.0 c.0 e
          c.1 s.1 c.3
          (λ f x w.
            (let z = from_cursor_lem csr f.entries f.forward x (e ∷ c.1) k w in rw z (s, refl))))

  abbrev pub Sought : KeyRef → MultiCursor C × SeekResult → Type 0
  Sought k r =
      MultiShows csr fs r.0 (from_key (into_boxed_slice k) (merged (all_entries csr fs)))
      × (r.1
          ≡ result_at (into_boxed_slice k)
              (from_key (into_boxed_slice k) (merged (all_entries csr fs))))

  pub seek_lem :
      (m : MultiCursor C) (es : List Entry) (k : KeyRef)
      → MultiShows csr fs m es
      → Succeeds (seek csr m k greater_or_equal) (Sought k)
  unfolding seek
  seek_lem m es k s =
      Succeeds->>= (SeekEnds csr fs (into_boxed_slice k) 0) (Sought k)
        (seek_loop csr m.subcursors 0 k greater_or_equal) _
        (seek_loop_lem csr fs m.subcursors s.0 0 k s.1) (λ r w. ends r.0 r.1 w)
    where
      b : List ℕ
      b = into_boxed_slice k

      all : List (List Entry)
      all = all_entries csr fs

      commutes : from_key b (merged all) ≡ merged (map (from_key b) all)
      commutes = from_key-merged b all (all_entries-IsSorted csr fs)

      ends :
          (cs' : List C) (o : Option (ℕ × SeekResult))
          → SeekEnds csr fs b 0 (cs', o)
          → Succeeds
              (elim o [
                | some r ↦ ok (record m { subcursors = cs'; cur = some r.0; dir = wandering }, r.1)
                | none ↦
                    to_min csr (record m { subcursors = cs'; cur = none; dir = wandering })
                    >>= λ m'. result_of csr m' k
              ])
              (Sought k)
      ends cs' none w =
          let m1 = record m { subcursors = cs'; cur = none; dir = wandering } in
          let F = map (from_key b) all in
          Succeeds->>= (λ m'. MultiShows csr fs m' (from_key b (merged all))) (Sought k)
            (to_min csr m1) (λ m'. result_of csr m' k)
            (Succeeds-imp (Found csr fs F) _ (to_min csr m1)
              (to_min_lem csr fs F m1 w
                (subst (HasSlots m.sorted) (same_length csr fs m.subcursors cs' s.0 F s.1 w) s.2))
              (λ m' x. subst (MultiShows csr fs m') (sym commutes) (from_Found csr fs F m' x)))
            (λ m' x. result_lem m' (from_key b (merged all)) k x)
      ends cs' (some (i, sr)) (n, e, t, ess', w, j, r, q, rest, eq, f) =
          let eb = compare_bytes-eq e.bytes b eq in
          let z : from_key b (merged all) ≡ e ∷ merged (map (beyond b) all) =
            commutes
            ∙ merged-first_at b (map (from_key b) all)
                (starts-IsSorted b all (all_entries-IsSorted csr fs)) (starts-IsFrom b all)
            ∙ ap (λ l. l ++ merged (map (past_key b) (map (from_key b) all))) f
            ∙ ap (λ l. e ∷ merged l) (map-map b all) in
          (
            (
              ess',
              w,
              subst (HasSlots m.sorted) (same_length csr fs m.subcursors cs' s.0 ess' s.1 w) s.2,
              at_key n e t refl (ap some (j ∙ zero_add n)) q
                  (subst (λ x. t ≡ nth (map (beyond x) all) n) (sym eb) rest)
                  (subst (λ x. from_key b (merged all) ≡ e ∷ merged (map (beyond x) all)) (sym eb)
                    z),
            ),
            r ∙ sym (ap (result_at b) z ∙ ap found eq),
          )
