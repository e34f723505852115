-- ===== src/Lsm/LivingCursor/Walk.antt =====
-- A `LivingCursor` over a cursor with the entries `all` is a cursor with those of them that are
-- alive.
use mathlib.Core.Path.{subst}
use elmo.Common.{
  ℕ, drop, zero, suc, ◌+◌, ◌≤◌, ◌<◌, ◌≡◌, refl, sym, ap, ◌∙◌, arith, All, length, Ordering,
  Bool-cases, inl, inr,
}
use elmo.Common.{true, false, List, [], ◌∷◌, if◌then◌else◌}
use elmo.Common.Outcome.{Outcome, ok, err, panic, ◌>>=◌, Succeeds, Succeeds->>=}
use elmo.Lsm.Bcmp.{compare_bytes}
use elmo.Lsm.Bcmp.Order.{compare_bytes_trans}
use elmo.Lsm.KeyRef.{KeyRef, into_boxed_slice, cmp}
use elmo.Lsm.KeyRef.Compare.{cmp_lem}
use elmo.Lsm.Cursor.{
  Cursor, ValueRef, tombstone, greater_or_equal, SeekResult, sr_equal, sr_unequal, sr_is_valid,
  from_cursor,
}
use elmo.Lsm.Cursor.Forward.{
  Entry, IsSorted, is_tombstone, is_less, from_key, found, result_at, is_some_entry, Forward,
  length-from_key,
}
use elmo.Lsm.LivingCursor.{
  LivingCursor, skip_tombstones, skip_tombstones_forward, living, first, next, is_valid, value,
  seek, after_seek, live_value, stands_on_tombstone,
}

-- The entries that are no tombstones.
abbrev pub alive : List Entry → List Entry
alive [] = []
alive (e ∷ es) = let rest = alive es in if is_tombstone e.stored then rest else e ∷ rest

-- The cursor does not stand on a tombstone.
abbrev pub Settled : List Entry → Type 0
Settled [] = Unit
Settled (e ∷ es) = is_tombstone e.stored ≡ false

module _ {C : Type 0} (csr : Cursor C) (all : List Entry) (f : Forward csr all) where
  -- What a `LivingCursor` shows.
  abbrev pub LivingShows : LivingCursor C → List Entry → Type 0
  LivingShows l es =
      (rest : List Entry) × f.Shows l.chain rest
      × Settled rest
      × (es ≡ alive rest)
      × (length rest ≤ length all)

  skip_lem :
      (fuel : ℕ) (l : LivingCursor C) (es : List Entry)
      → length es < fuel
      → length es ≤ length all
      → f.Shows l.chain es
      → Succeeds (skip_tombstones csr csr.next fuel l) (λ l'. LivingShows l' (alive es))
  unfolding skip_tombstones
  skip_lem zero l es h m s = absurd (omega arith)
  skip_lem (suc fuel) l [] h m s =
      rw (skip_tombstones, f.is_valid-Shows l.chain [] s) ([], s, tt, refl, m)
  skip_lem (suc fuel) l (e ∷ es) h m s =
      let v = f.is_valid-Shows l.chain (e ∷ es) s in
      let t = f.value_is_tombstone-Shows l.chain e es s in
      elim (Bool-cases (is_tombstone e.stored)) [
        | inr k ↦ rw (skip_tombstones, v, t, k) (e ∷ es, s, k, rw k refl, m)
        | inl k ↦
            rw (skip_tombstones, v, t, k)
              (Succeeds->>= (λ c. f.Shows c es) (λ l'. LivingShows l' (alive es)) (csr.next l.chain)
                _ (f.next-Shows l.chain e es s)
                (λ c s'.
                  skip_lem fuel (record l { chain = c; skipped = l.skipped + 1 }) es (omega arith)
                    (omega arith) s'))
      ]

-- From an entry on whose key is not below `k`, no key is.
NotLess : List ℕ → Entry → Type 0
NotLess k e = is_less (compare_bytes e.bytes k) ≡ false

NotLess-after :
    (k : List ℕ) (e : Entry) (es : List Entry)
    → NotLess k e
    → All (λ g. compare_bytes e.bytes g.bytes ≡ Ordering.lt) es
    → All (NotLess k) es
unfolding NotLess
NotLess-after k e [] h a = tt
NotLess-after k e (g ∷ es) h a =
    (ground (arith, compare_bytes_trans e.bytes g.bytes k), NotLess-after k e es h a.1)

from_key-stop :
    (k : List ℕ) (es : List Entry) → All (NotLess k) es → from_key k (alive es) ≡ alive es
unfolding NotLess
from_key-stop k [] h = refl
from_key-stop k (e ∷ es) h = ground (arith, from_key-stop k es h.1, h.0)

alive-from_key :
    (k : List ℕ) (es : List Entry) → IsSorted es → alive (from_key k es) ≡ from_key k (alive es)
unfolding NotLess
alive-from_key k [] s = refl
alive-from_key k (e ∷ es) s =
    let r = alive-from_key k es s.1 in
    elim (Bool-cases (is_less (compare_bytes e.bytes k))) [
      | inl h ↦ ground (arith, r)
      | inr h ↦ let p = from_key-stop k (e ∷ es) (h, NotLess-after k e es h s.0) in rw h (sym p)
    ]

module _ {C : Type 0} (csr : Cursor C) (all : List Entry) (f : Forward csr all) where
  pub from_cursor_lem :
      (c : C) (es : List Entry) (k : KeyRef)
      → f.Shows c es
      → from_cursor csr c k ≡ ok (result_at (into_boxed_slice k) es)
  unfolding from_cursor
  from_cursor_lem c [] k s = rw (from_cursor, f.is_valid-Shows c [] s) refl
  from_cursor_lem c (e ∷ es) k s =
      rw (from_cursor, f.is_valid-Shows c (e ∷ es) s) (go (csr.key c) (f.key-Shows c e es s))
    where
      go :
          (o : Outcome KeyRef)
          → Succeeds o (λ q. into_boxed_slice q ≡ e.bytes)
          → (o >>= λ kc. cmp kc k >>= λ d. elim d [ Ordering.eq ↦ ok sr_equal | _ ↦ ok sr_unequal ])
            ≡ ok (found (compare_bytes e.bytes (into_boxed_slice k)))
      go (ok q) h = rw (cmp_lem q k, h) (ground arith)
      go (err x) h = absurd h
      go panic h = absurd h

  living-is_valid :
      (l : LivingCursor C) (es rest : List Entry)
      → f.Shows l.chain rest
      → Settled rest
      → es ≡ alive rest
      → is_valid csr l ≡ is_some_entry es
  unfolding is_valid
  living-is_valid l es [] s st e = rw (f.is_valid-Shows l.chain [] s, e) refl
  living-is_valid l es (g ∷ rest) s st e =
      rw (f.is_valid-Shows l.chain (g ∷ rest) s, f.value_is_tombstone-Shows l.chain g rest s, e, st)
        refl

  -- Where a `LivingCursor` stands that shows the entry `e`.
  record Head (l : LivingCursor C) (e : Entry) (es : List Entry) : Type 0 where
    rest : List Entry
    shows : f.Shows l.chain (e ∷ rest)
    live : is_tombstone e.stored ≡ false
    others : es ≡ alive rest
    small : suc (length rest) ≤ length all

  Head-of :
      (l : LivingCursor C) (e : Entry) (es : List Entry)
      → LivingShows csr all f l (e ∷ es)
      → Head l e es
  Head-of l e es ([], s, st, q, m) = absurd (cc)
  Head-of l e es (g ∷ rest, s, st, q, m) =
      let q' : e ∷ es ≡ g ∷ alive rest = q ∙ rw st refl in
      let same : g ≡ e = cc in
      record {
        rest = rest;
        shows = subst (λ x. f.Shows l.chain (x ∷ rest)) same s;
        live = subst (λ x. is_tombstone x.stored ≡ false) same st;
        others = ap (drop 1) q';
        small = m;
      }

  live_value_lem : (v : ValueRef) → is_tombstone v ≡ false → live_value v ≡ ok v
  live_value_lem tombstone h = cc
  live_value_lem (ValueRef.slice a) h = refl
  live_value_lem (ValueRef.overflowed page) h = refl

  result_at-Settled :
      (b : List ℕ) (rest : List Entry) → Settled rest → result_at b (alive rest) ≡ result_at b rest
  result_at-Settled b [] st = refl
  result_at-Settled b (e ∷ rest) st = rw st refl

  found-valid : (o : Ordering) → sr_is_valid (found o) ≡ true
  found-valid Ordering.lt = refl
  found-valid Ordering.eq = refl
  found-valid Ordering.gt = refl

  stands_lem :
      (c : C) (g : Entry) (es : List Entry) (sr : SeekResult) (b : List ℕ)
      → f.Shows c (g ∷ es)
      → sr ≡ result_at b (g ∷ es)
      → stands_on_tombstone csr c sr ≡ ok (is_tombstone g.stored)
  stands_lem c g es sr b s e =
      let v : sr_is_valid sr ≡ true = ap sr_is_valid e ∙ found-valid (compare_bytes g.bytes b) in
      rw (stands_on_tombstone, v, f.value_is_tombstone-Shows c g es s) refl

  after_seek_lem :
      (fuel : ℕ) (l : LivingCursor C) (es : List Entry) (sr : SeekResult) (k : KeyRef)
      → length all < fuel
      → length es ≤ length all
      → f.Shows l.chain es
      → sr ≡ result_at (into_boxed_slice k) es
      → Succeeds (after_seek csr (skip_tombstones_forward csr fuel) l sr k) λ r.
        LivingShows csr all f r.0 (alive es) × (r.1 ≡ result_at (into_boxed_slice k) (alive es))
  after_seek_lem fuel l [] sr k h m s e = rw e (([], s, tt, refl, m), e)
  after_seek_lem fuel l (g ∷ es) sr k h m s e =
      let t = stands_lem l.chain g es sr (into_boxed_slice k) s e in
      elim (Bool-cases (is_tombstone g.stored)) [
        | inr d ↦ rw (t, d) ((g ∷ es, s, d, rw d refl, m), e)
        | inl d ↦
            let skipped = skip_lem csr all f fuel l (g ∷ es) (omega (arith, h, m)) m s in
            rw (t, d)
              (Succeeds->>= (λ l'. LivingShows csr all f l' (alive (g ∷ es))) _
                (skip_tombstones_forward csr fuel l) _ skipped
                (λ l' w. rw (from_cursor_lem l'.chain w.0 k w.1) (
                  rw d at w,
                  sym (result_at-Settled (into_boxed_slice k) w.0 w.2)
                      ∙ ap (result_at (into_boxed_slice k)) (sym w.3 ∙ rw d refl),
                )))
      ]

  living-seek :
      (fuel : ℕ) (l : LivingCursor C) (rest : List Entry) (k : KeyRef)
      → length all < fuel
      → IsSorted all
      → f.Shows l.chain rest
      → Succeeds (seek csr fuel l k greater_or_equal) λ r.
        LivingShows csr all f r.0 (from_key (into_boxed_slice k) (alive all))
        × (r.1 ≡ result_at (into_boxed_slice k) (from_key (into_boxed_slice k) (alive all)))
  unfolding seek
  living-seek fuel l rest k h sorted s =
      let b = into_boxed_slice k in
      let commutes = alive-from_key b all sorted in
      Succeeds->>= (λ r. f.Shows r.0 (from_key b all) × (r.1 ≡ result_at b (from_key b all))) _
        (csr.seek l.chain k greater_or_equal) _ (f.seek-Shows l.chain rest k s)
        (λ r t. rw⁻¹ commutes (
          after_seek_lem fuel (record l { chain = r.0 }) (from_key b all) r.1 k h
            (length-from_key b all) t.0 t.1))

  pub living_forward :
      (fuel : ℕ) → length all < fuel → IsSorted all → Forward (living csr fuel) (alive all)
  unfolding living first next value
  living_forward fuel h sorted = record {
    Shows = LivingShows csr all f;
    is_valid-Shows = λ l es s. living-is_valid l es s.0 s.1 s.2 s.3;
    key-Shows = λ l e es s. f.key-Shows l.chain e (Head-of l e es s).rest (Head-of l e es s).shows;
    value-Shows = λ l e es s.
        let d = Head-of l e es s in
        rw (f.value-Shows l.chain e d.rest d.shows) (live_value_lem e.stored d.live);
    value_is_tombstone-Shows =
        λ l e es s. let d = Head-of l e es s in f.value_is_tombstone-Shows l.chain e d.rest d.shows;
    next-Shows = λ l e es s.
        let d = Head-of l e es s in
        rw d.others (
          Succeeds->>= (λ c. f.Shows c d.rest) (λ l'. LivingShows csr all f l' (alive d.rest))
            (csr.next l.chain) _ (f.next-Shows l.chain e d.rest d.shows)
            (λ c s'.
              skip_lem csr all f fuel (record l { chain = c }) d.rest (omega (arith, h, d.small))
                (omega (arith, d.small)) s'));
    first-Shows = λ l es s.
        Succeeds->>= (λ c. f.Shows c all) (λ l'. LivingShows csr all f l' (alive all))
          (csr.first l.chain) _ (f.first-Shows l.chain s.0 s.1)
          (λ c s'.
            skip_lem csr all f fuel (record l { chain = c }) all (omega (arith, h)) (omega arith)
              s');
    seek-Shows = λ l es k s. living-seek fuel l s.0 k h sorted s.1;
  }

  pub living_start :
      (fuel : ℕ) (h : length all < fuel) (sorted : IsSorted all) (l : LivingCursor C)
      → f.Shows l.chain []
      → (living_forward fuel h sorted).Shows l []
  unfolding living_forward
  living_start fuel h sorted l s = ([], s, tt, refl, omega arith)
