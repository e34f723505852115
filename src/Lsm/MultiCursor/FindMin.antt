-- ===== src/Lsm/MultiCursor/FindMin.antt =====
-- Where `find_min` puts a `MultiCursor`.
use mathlib.Core.Path.{subst}
use elmo.Common.{ℕ, zero, suc, ◌≤◌, ◌≡◌, refl, sym, ◌∙◌, ◌==◌, ltb, leb, arith, length}
use elmo.Common.{Bool, true, false, ◌||◌, if◌then◌else◌, Option, none, some, List, [], ◌∷◌}
use elmo.Common.Map.{is_none}
use elmo.Common.Outcome.{Outcome, ok, ◌>>=◌, Succeeds, Succeeds->>=}
use elmo.Lsm.KeyRef.{KeyRef}
use elmo.Lsm.Cursor.{Cursor}
use elmo.Lsm.Cursor.Forward.{Entry}
use elmo.Lsm.MultiCursor.Sort.{Slot, sort_slots, is_some_tag}
use elmo.Lsm.MultiCursor.Sort.Order.{key_at}
use elmo.Lsm.MultiCursor.Sort.Sift.{any_slot}
use elmo.Lsm.MultiCursor.Sort.Sorted.{
  IsDistinct, IsAscending, IsAscending-IsDistinct, sort_slots_lem,
}
use elmo.Lsm.MultiCursor.Shown.{Source, nth, key_of, ShowsAll, keys_of_lem}
use elmo.Lsm.MultiCursor.{MultiCursor, forward, keys_of, sort, sorted_first, find_min, to_min}

abbrev pub any_below : (ℕ → Bool) → ℕ → Bool
any_below P zero = false
any_below P (suc n) = any_below P n || P n

-- Every cursor has one slot.
abbrev pub HasSlots : List Slot → ℕ → Type 0
HasSlots sorted n = ((P : ℕ → Bool) → any_slot P sorted ≡ any_below P n) × IsDistinct sorted

any_below-== : (m n : ℕ) → any_below (λ q. m == q) n ≡ ltb m n
any_below-== m zero = ground arith
any_below-== m (suc n) = ground (arith, any_below-== m n)

any_below-leb : (n k : ℕ) → k ≤ n → any_below (λ q. leb n q) k ≡ false
any_below-leb n zero h = refl
any_below-leb n (suc k) h = ground (arith, any_below-leb n k)

pub HasSlots-at :
    (sorted : List Slot) (n m : ℕ) → HasSlots sorted n → any_slot (λ q. m == q) sorted ≡ ltb m n
HasSlots-at sorted n m h = h.0 (λ q. m == q) ∙ any_below-== m n

abbrev pub first_cur : List Slot → Option ℕ
first_cur [] = none
first_cur (s ∷ ss) = if is_some_tag s.1 then some s.0 else none

-- `find_min` has sorted the cursors as they stand now.
abbrev pub AtMin : List (List Entry) → List Slot → Option ℕ → Type 0
AtMin ess sorted cur =
    (ka : List (Option KeyRef)) × ((n : ℕ) → key_at ka n ≡ key_of (nth ess n))
    × IsAscending ka sorted
    × (cur ≡ first_cur sorted)

Succeeds-if {ℓ} :
    {A : Type ℓ} (P : A → Type 0) (b : Bool) (x y : Outcome A)
    → (b ≡ true → Succeeds x P)
    → (b ≡ false → Succeeds y P)
    → Succeeds (if b then x else y) P
Succeeds-if P true x y h k = h refl
Succeeds-if P false x y h k = k refl

module _ {C : Type 0} (csr : Cursor C) where
  -- What `self.cur = try!(self.find_min())` leaves.
  pub record Found (fs : List (Source csr)) (ess : List (List Entry)) (m : MultiCursor C)
      : Type 0 where
    pub shown : ShowsAll csr fs m.subcursors ess
    pub slots : HasSlots m.sorted (length ess)
    pub ahead : m.dir ≡ forward
    pub at_min : AtMin ess m.sorted m.cur

  -- What `sort` leaves.
  Sorted : List (List Entry) → MultiCursor C → MultiCursor C → Type 0
  Sorted ess m m' =
      (m'.subcursors ≡ m.subcursors)
      × (m'.dir ≡ m.dir)
      × HasSlots m'.sorted (length ess)
      × AtMin ess m'.sorted (first_cur m'.sorted)

  sort_lem :
      (fs : List (Source csr)) (ess : List (List Entry)) (m : MultiCursor C)
      → is_none m.subcursors ≡ false
      → ShowsAll csr fs m.subcursors ess
      → HasSlots m.sorted (length ess)
      → Succeeds (sort csr m false) (Sorted ess m)
  unfolding sort Sorted
  sort_lem fs ess m e s h = rw e (
      Succeeds->>= _ (Sorted ess m) (keys_of csr m.subcursors) _
        (keys_of_lem csr fs m.subcursors ess s)
        (λ ka k.
          let bound : any_slot (λ q. leb (length ka) q) m.sorted ≡ false =
            h.0 (λ q. leb (length ka) q)
            ∙ any_below-leb (length ka) (length ess) (omega (arith, k.0)) in
          Succeeds->>= _ (Sorted ess m) (sort_slots false ka m.sorted) _
            (sort_slots_lem ka m.sorted bound h.1)
            (λ r t. (
              refl,
              refl,
              ((λ P. t.1 P ∙ h.0 P), IsAscending-IsDistinct ka r t.0),
              (ka, k.1, t.0, refl),
            ))))

  no_slots : (sorted : List Slot) → HasSlots sorted 0 → sorted ≡ []
  no_slots [] h = refl
  no_slots (s ∷ ss) h = absurd (not_slot (h.0 (λ q. true)))
    where
      not_slot : ¬ (true ≡ false)
      not_slot q = cc

  AtCur : List (Source csr) → List (List Entry) → MultiCursor C × Option ℕ → Type 0
  AtCur fs ess r = Found fs ess (record r.0 { cur = r.1 })

  first_found :
      (fs : List (Source csr)) (ess : List (List Entry)) (m : MultiCursor C) (sorted : List Slot)
      → is_none ess ≡ false
      → m.dir ≡ forward
      → m.sorted ≡ sorted
      → ShowsAll csr fs m.subcursors ess
      → HasSlots sorted (length ess)
      → AtMin ess sorted (first_cur sorted)
      → Succeeds (sorted_first csr sorted >>= λ first. ok (m, first)) (AtCur fs ess)
  unfolding AtCur
  first_found fs [] m [] n d q s h a = cc
  first_found fs (es ∷ ess) m [] n d q s h a = absurd (no_slot (h.0 (λ q. true)))
    where
      no_slot : ¬ (false ≡ any_below (λ q. true) (suc (length ess)))
      no_slot z = ground (arith, z)
  first_found fs ess m (x ∷ xs) n d q s h a = record {
    shown = s;
    slots = subst (λ l. HasSlots l (length ess)) (sym q) h;
    ahead = d;
    at_min = subst (λ l. AtMin ess l (first_cur (x ∷ xs))) (sym q) a;
  }

  none_found :
      (fs : List (Source csr)) (m : MultiCursor C) (cs : List C) (sorted : List Slot)
      (ess : List (List Entry))
      → is_none cs ≡ true
      → m.dir ≡ forward
      → m.sorted ≡ sorted
      → m.subcursors ≡ cs
      → ShowsAll csr fs cs ess
      → HasSlots sorted (length ess)
      → AtCur fs ess (m, none)
  unfolding AtCur
  none_found [] m [] sorted [] e d q r s h = record {
    shown = subst (λ l. ShowsAll csr [] l []) (sym r) tt;
    slots = subst (λ l. HasSlots l 0) (sym q) h;
    ahead = d;
    at_min = subst (λ l. AtMin [] l none) (sym (q ∙ no_slots sorted h)) ([], (λ n. refl), tt, refl);
  }
  none_found [] m [] sorted (es ∷ ess) e d q r s h = absurd s
  none_found (f ∷ fs) m [] sorted ess e d q r s h = absurd s
  none_found fs m (c ∷ cs) sorted ess e d q r s h = cc

  not_none :
      (fs : List (Source csr)) (cs : List C) (ess : List (List Entry))
      → is_none cs ≡ false
      → ShowsAll csr fs cs ess
      → is_none ess ≡ false
  not_none fs [] ess e s = cc
  not_none [] (c ∷ cs) [] e s = absurd s
  not_none (f ∷ fs) (c ∷ cs) [] e s = absurd s
  not_none fs (c ∷ cs) (es ∷ ess) e s = refl

  find_min_lem :
      (fs : List (Source csr)) (ess : List (List Entry)) (m : MultiCursor C)
      → ShowsAll csr fs m.subcursors ess
      → HasSlots m.sorted (length ess)
      → Succeeds (find_min csr m) (AtCur fs ess)
  unfolding find_min Sorted
  find_min_lem fs ess m s h =
      let m1 = record m { dir = forward } in
      Succeeds-if (AtCur fs ess) (is_none m.subcursors) (ok (m1, none))
        (sort csr m1 false >>= λ m'. sorted_first csr m'.sorted >>= λ first. ok (m', first))
        (λ e. none_found fs m1 m.subcursors m.sorted ess e refl refl refl s h)
        (λ e.
          Succeeds->>= (Sorted ess m1) (AtCur fs ess) (sort csr m1 false)
            (λ m'. sorted_first csr m'.sorted >>= λ first. ok (m', first))
            (sort_lem fs ess m1 e s h) (λ m' t. found m1 m' e t))
    where
      found :
          (m1 m' : MultiCursor C)
          → is_none m.subcursors ≡ false
          → Sorted ess (record m { dir = forward }) m'
          → Succeeds (sorted_first csr m'.sorted >>= λ first. ok (m', first)) (AtCur fs ess)
      found m1 m' e t =
          first_found fs ess m' m'.sorted (not_none fs m.subcursors ess e s) t.1 refl
            (subst (λ l. ShowsAll csr fs l ess) (sym t.0) s) t.2 t.3

  pub to_min_lem :
      (fs : List (Source csr)) (ess : List (List Entry)) (m : MultiCursor C)
      → ShowsAll csr fs m.subcursors ess
      → HasSlots m.sorted (length ess)
      → Succeeds (to_min csr m) (Found fs ess)
  unfolding AtCur
  to_min_lem fs ess m s h =
      Succeeds->>= (AtCur fs ess) (Found fs ess) (find_min csr m)
        (λ r. ok (record r.0 { cur = r.1 })) (find_min_lem fs ess m s h) (λ r t. t)
