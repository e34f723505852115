-- ===== src/Lsm/MultiCursor/Refine/Places.antt =====
-- Where a `MultiCursor` stands, and what it has still to give.
use mathlib.Core.Path.{subst}
use elmo.Common.{ℕ, ◌≡◌, inl, inr, refl, sym, ap, ◌∙◌, length}
use elmo.Common.{All, none, some, List, [], ◌∷◌, map}
use elmo.Common.Outcome.{Outcome, ◌>>=◌, Succeeds, Succeeds->>=, Succeeds-imp}
use elmo.Lsm.Cursor.{Cursor}
use elmo.Lsm.Cursor.Forward.{Entry, IsSorted}
use elmo.Lsm.MultiCursor.Sort.{get}
use elmo.Lsm.MultiCursor.Merged.{merged}
use elmo.Lsm.MultiCursor.Shown.{
  Source, nth, ShowsAll, ShowsAll-IsSorted, ShowsAll-length, all_entries, call_lem,
}
use elmo.Lsm.MultiCursor.FindMin.{HasSlots, AtMin, Found, to_min_lem}
use elmo.Lsm.MultiCursor.Least.{AtMin-cases}
use elmo.Lsm.MultiCursor.Sought.{beyond, for_all_lem, first-Seeks}
use elmo.Lsm.MultiCursor.{MultiCursor, forward, wandering, with_cur, first, to_min, for_all}

map_id : (ess : List (List Entry)) → map (λ es. es) ess ≡ ess
map_id [] = refl
map_id (es ∷ ess) = ap (λ l. es ∷ l) (map_id ess)

module _ {C : Type 0} (csr : Cursor C) (fs : List (Source csr)) where
  -- Where a `MultiCursor` stands that has the entries `es` to give: nowhere, where `find_min` has
  -- put it, or on cursor `n`, which a seek has found at the key, the others standing anywhere.
  pub data Stands (m : MultiCursor C) (ess : List (List Entry)) (es : List Entry) : Type 0 where
    nowhere : m.cur ≡ none → es ≡ [] → Stands m ess es
    at_min : m.dir ≡ forward → AtMin ess m.sorted m.cur → es ≡ merged ess → Stands m ess es
    at_key :
        (n : ℕ) (e : Entry) (t : List Entry)
        → m.dir ≡ wandering
        → m.cur ≡ some n
        → nth ess n ≡ e ∷ t
        → t ≡ nth (map (beyond e.bytes) (all_entries csr fs)) n
        → es ≡ e ∷ merged (map (beyond e.bytes) (all_entries csr fs))
        → Stands m ess es

  abbrev pub MultiShows : MultiCursor C → List Entry → Type 0
  MultiShows m es =
      (ess : List (List Entry)) × ShowsAll csr fs m.subcursors ess
      × HasSlots m.sorted (length ess)
      × Stands m ess es

  -- The current cursor, if there is one, stands at the first entry.
  abbrev pub Cur : MultiCursor C → List Entry → List (List Entry) → Type 0
  Cur m [] ess = m.cur ≡ none
  Cur m (e ∷ es) ess = (n : ℕ) × (t : List Entry) × (m.cur ≡ some n) × (nth ess n ≡ e ∷ t)

  pub Stands-Cur :
      (m : MultiCursor C) (ess : List (List Entry)) (es : List Entry)
      → HasSlots m.sorted (length ess)
      → All IsSorted ess
      → Stands m ess es
      → Cur m es ess
  Stands-Cur m ess es h s (nowhere c q) = subst (λ l. Cur m l ess) (sym q) c
  Stands-Cur m ess es h s (at_min d a q) = elim (AtMin-cases ess m.sorted m.cur h s a) [
    | inl z ↦ subst (λ l. Cur m l ess) (sym (q ∙ z.1)) z.0
    | inr (n, e, t, c, i, r) ↦ subst (λ l. Cur m l ess) (sym (q ∙ r)) (n, t, c, i)
  ]
  Stands-Cur m ess es h s (at_key n e t d c i r q) = subst (λ l. Cur m l ess) (sym q) (n, t, c, i)

  pub shown-Cur : (m : MultiCursor C) (es : List Entry) (s : MultiShows m es) → Cur m es s.0
  shown-Cur m es s = Stands-Cur m s.0 es s.2 (ShowsAll-IsSorted csr fs m.subcursors s.0 s.1) s.3

  -- A call of the current cursor.
  pub cur_call :
      {R : Type 0} (g : C → Outcome R) (P : R → Type 0) (m : MultiCursor C) (e : Entry)
      (es : List Entry)
      → MultiShows m (e ∷ es)
      → ((f : Source csr) (c : C) (t : List Entry) → f.forward.Shows c (e ∷ t) → Succeeds (g c) P)
      → Succeeds (with_cur m.cur (λ icur. get m.subcursors icur >>= g)) P
  cur_call g P m e es s h =
      let c = shown-Cur m (e ∷ es) s in
      rw c.2 (call_lem csr g P fs m.subcursors s.0 c.0 e c.1 s.1 c.3 (λ f x w. h f x c.1 w))

  pub from_Found :
      (ess : List (List Entry)) (m : MultiCursor C) → Found csr fs ess m → MultiShows m (merged ess)
  from_Found ess m w = (ess, w.shown, w.slots, at_min w.ahead w.at_min refl)

  pub first_lem :
      (m : MultiCursor C) (es : List Entry)
      → MultiShows m es
      → Succeeds (first csr m) (λ m'. MultiShows m' (merged (all_entries csr fs)))
  unfolding first
  first_lem m es s =
      let n = ShowsAll-length csr fs m.subcursors s.0 s.1 in
      Succeeds->>= _ _ (for_all csr csr.first m.subcursors) _
        (for_all_lem csr csr.first (λ es. es) fs m.subcursors s.0 (first-Seeks csr) s.1)
        (λ subs r.
          Succeeds-imp (Found csr fs (all_entries csr fs)) _
            (to_min csr (record m { subcursors = subs }))
            (to_min_lem csr fs (all_entries csr fs) (record m { subcursors = subs })
              (subst (ShowsAll csr fs subs) (map_id (all_entries csr fs)) r)
              (subst (HasSlots m.sorted) (sym n.1) s.2))
            (λ m' w. from_Found (all_entries csr fs) m' w))

  pub same_length :
      (cs cs' : List C) (ess ess' : List (List Entry))
      → ShowsAll csr fs cs ess
      → ShowsAll csr fs cs' ess'
      → length ess ≡ length ess'
  same_length cs cs' ess ess' s s' =
      sym (ShowsAll-length csr fs cs ess s).1 ∙ (ShowsAll-length csr fs cs' ess' s').1
