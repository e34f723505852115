-- ===== src/Lsm/MultiCursor/Refine/Steps.antt =====
-- `next` of a `MultiCursor`.
use mathlib.Core.Path.{subst}
use elmo.Common.{
  ℕ, ◌<◌, ◌≡◌, inl, inr, refl, sym, ap, ◌∙◌, ◌==◌, ==_iff, Ordering, arith, length, set,
}
use elmo.Common.{
  Bool, true, false, Bool-cases, if◌then◌else◌, Option, none, some, List, [], ◌∷◌, map,
}
use elmo.Common.Outcome.{panic, ◌>>=◌, ◌>>◌, guard, Succeeds, Succeeds->>=, Succeeds-imp}
use elmo.Lsm.Bcmp.Order.{compare_bytes_refl}
use elmo.Lsm.Cursor.{Cursor}
use elmo.Lsm.Cursor.Forward.{Entry}
use elmo.Lsm.MultiCursor.Sort.{Slot, get, modify_at, is_some_tag}
use elmo.Lsm.MultiCursor.Sort.Sift.{any_slot}
use elmo.Lsm.MultiCursor.Merged.{merged, past_key}
use elmo.Lsm.MultiCursor.Shown.{
  Source, nth, key_of, nth-length, nth-beyond, nth-set, length-set, nth-set_same, set-set, nth_lem,
  nth-map, length-map, ShowsAll, ShowsAll-IsSorted, all_entries, modify_at_lem,
}
use elmo.Lsm.MultiCursor.FindMin.{HasSlots, HasSlots-at, AtMin, Found, to_min_lem}
use elmo.Lsm.MultiCursor.Least.{AtMin-cases}
use elmo.Lsm.MultiCursor.Next.{next_equals_lem, Past}
use elmo.Lsm.MultiCursor.Sought.{beyond}
use elmo.Lsm.MultiCursor.Others.{others_lem}
use elmo.Lsm.MultiCursor.{
  MultiCursor, forward, wandering, with_cur, next, to_min, step_others, next_equals,
}
use elmo.Lsm.MultiCursor.Refine.Places.{
  MultiShows, nowhere, at_min, at_key, from_Found, same_length,
}

module _ {C : Type 0} (csr : Cursor C) (fs : List (Source csr)) where
  -- The cursors but number `n` are past its key.
  abbrev OthersPast : List (List Entry) → ℕ → Entry → List Entry → List C → Type 0
  OthersPast ess n e t cs' =
      (ess' : List (List Entry)) × ShowsAll csr fs cs' ess'
      × (nth ess' n ≡ e ∷ t)
      × (set ess' n t ≡ map (past_key e.bytes) ess)

  past_set :
      (ess ess' : List (List Entry)) (n : ℕ) (e : Entry) (t : List Entry) (tag : Option Ordering)
      (ss : List Slot)
      → HasSlots ((n, tag) ∷ ss) (length ess)
      → nth ess n ≡ e ∷ t
      → length ess' ≡ length ess
      → ((m : ℕ)
          → nth ess' m
            ≡ (if any_slot (λ q. m == q) ss then past_key e.bytes (nth ess m) else nth ess m))
      → (nth ess' n ≡ e ∷ t) × (set ess' n t ≡ map (past_key e.bytes) ess)
  past_set ess ess' n e t tag ss h q l r = (
    r n ∙ (let z = h.1.0 in rw z q),
    nth_lem (set ess' n t) (map (past_key e.bytes) ess)
        (length-set ess' n t ∙ l ∙ sym (length-map (past_key e.bytes) ess)) each,
  )
    where
      len : n < length ess'
      len = omega (arith, nth-length ess n e t q, l)

      self : past_key e.bytes (e ∷ t) ≡ t
      self = let c = compare_bytes_refl e.bytes in rw c refl

      each : (m : ℕ) → nth (set ess' n t) m ≡ nth (map (past_key e.bytes) ess) m
      each m =
          let f = nth-set ess' n m t len in
          let g = nth-map (past_key e.bytes) ess m refl in
          let slot = HasSlots-at ((n, tag) ∷ ss) (length ess) m h in
          elim (Bool-cases (m == n)) [
            | inl d ↦
                let d' : (n == m) ≡ true = ground (arith, d) in
                f
                ∙ rw d' (
                    sym (
                      g
                      ∙ ap (λ x. past_key e.bytes (nth ess x)) ((==_iff m n).0 d)
                      ∙ ap (past_key e.bytes) q
                      ∙ self))
            | inr d ↦
                let d' : (n == m) ≡ false = ground (arith, d) in
                let k : nth (set ess' n t) m ≡ nth ess' m = f ∙ rw d' refl in
                elim (Bool-cases (any_slot (λ q. m == q) ss)) [
                  | inl i ↦ k ∙ r m ∙ rw i (sym g)
                  | inr i ↦
                      let out = nth-beyond ess m (ground (arith, slot, d, i)) in
                      k ∙ r m ∙ rw i (sym (g ∙ ap (past_key e.bytes) out ∙ sym out))
                ]
          ]

  min_others :
      (cs : List C) (ess : List (List Entry)) (n : ℕ) (e : Entry) (t : List Entry)
      (sorted : List Slot)
      → HasSlots sorted (length ess)
      → AtMin ess sorted (some n)
      → nth ess n ≡ e ∷ t
      → ShowsAll csr fs cs ess
      → Succeeds
          (elim sorted [ [] ↦ panic | s ∷ ss ↦ guard (n == s.0) >> next_equals csr cs ss ])
          (OthersPast ess n e t)
  min_others cs ess n e t [] h a q s = absurd (some-none a.3)
    where
      some-none : ¬ (some n ≡ none)
      some-none z = cc
  min_others cs ess n e t ((n', tag) ∷ ss) h a q s =
      let k = a.1 n' ∙ ap (λ x. key_of (nth ess x)) (sym same) ∙ ap key_of q in
      let c = compare_bytes_refl e.bytes in
      let g : (n == n') ≡ true = ground (arith, same) in
      rw g (
        Succeeds-imp (Past csr fs e.bytes ss ess) (OthersPast ess n e t) (next_equals csr cs ss)
          (next_equals_lem csr fs a.0 e.bytes ((n', none) ∷ []) ss cs ess a.2.1 h.1.1
            (rw k (rw c refl)) refl (λ m i. a.1 m) s)
          (λ cs' r.
            let p =
              past_set ess r.0 n e t tag ss
                (subst (λ x. HasSlots ((x, tag) ∷ ss) (length ess)) (sym same) h) q r.2 r.3 in
            (r.0, r.1, p.0, p.1)))
    where
      same_of : (b : Bool) → some n ≡ (if b then some n' else none) → n ≡ n'
      same_of true z = cc
      same_of false z = cc

      same : n ≡ n'
      same = same_of (is_some_tag tag) a.3

  -- `next`, once the other cursors are past the key.
  then_next :
      (m : MultiCursor C) (n : ℕ) (e : Entry) (t : List Entry) (es : List Entry)
      → m.cur ≡ some n
      → Succeeds (step_others csr m n) (λ cs'.
        (ess' : List (List Entry)) × ShowsAll csr fs cs' ess'
        × HasSlots m.sorted (length ess')
        × (nth ess' n ≡ e ∷ t)
        × (merged (set ess' n t) ≡ es))
      → Succeeds (next csr m) (λ m'. MultiShows csr fs m' es)
  unfolding next
  then_next m n e t es c h =
      subst
        (λ o.
          Succeeds
            (with_cur o (λ icur. step_others csr m icur >>= λ others.
              modify_at csr.next others icur >>= λ subs.
              to_min csr (record m { subcursors = subs })))
            (λ m'. MultiShows csr fs m' es))
        (sym c)
        (Succeeds->>= _ _ (step_others csr m n) _ h (λ cs' r.
          Succeeds->>= _ _ (modify_at csr.next cs' n) _ (modify_at_lem csr fs cs' r.0 n e t r.1 r.3)
            (λ subs s.
              Succeeds-imp (Found csr fs (set r.0 n t)) _
                (to_min csr (record m { subcursors = subs }))
                (to_min_lem csr fs (set r.0 n t) (record m { subcursors = subs }) s
                  (subst (HasSlots m.sorted) (sym (length-set r.0 n t)) r.2))
                (λ m' w. subst (MultiShows csr fs m') r.4 (from_Found csr fs (set r.0 n t) m' w)))))

  tail_eq : {e e' : Entry} {t t' : List Entry} → e ∷ t ≡ e' ∷ t' → t ≡ t'
  tail_eq q = cc

  min_next :
      (m : MultiCursor C) (ess : List (List Entry)) (n : ℕ) (e : Entry) (t : List Entry)
      → ShowsAll csr fs m.subcursors ess
      → HasSlots m.sorted (length ess)
      → m.dir ≡ forward
      → AtMin ess m.sorted m.cur
      → m.cur ≡ some n
      → nth ess n ≡ e ∷ t
      → Succeeds (next csr m) (λ m'. MultiShows csr fs m' (merged (map (past_key e.bytes) ess)))
  min_next m ess n e t s h d a c q = then_next m n e t (merged (map (past_key e.bytes) ess)) c (
      rw d (
        Succeeds-imp (OthersPast ess n e t) _
          (elim m.sorted [
            | [] ↦ panic
            | s ∷ ss ↦ guard (n == s.0) >> next_equals csr m.subcursors ss
          ])
          (min_others m.subcursors ess n e t m.sorted h (subst (AtMin ess m.sorted) c a) q s)
          (λ cs' r. (
            r.0,
            r.1,
            subst (HasSlots m.sorted) (same_length csr fs m.subcursors cs' ess r.0 s r.1) h,
            r.2,
            ap merged r.3,
          ))))

  key_next :
      (m : MultiCursor C) (ess : List (List Entry)) (n : ℕ) (e : Entry) (t : List Entry)
      → ShowsAll csr fs m.subcursors ess
      → HasSlots m.sorted (length ess)
      → m.dir ≡ wandering
      → m.cur ≡ some n
      → nth ess n ≡ e ∷ t
      → t ≡ nth (map (beyond e.bytes) (all_entries csr fs)) n
      → Succeeds
          (next csr m)
          (λ m'. MultiShows csr fs m' (merged (map (beyond e.bytes) (all_entries csr fs))))
  key_next m ess n e t s h d c q r =
      let all = map (beyond e.bytes) (all_entries csr fs) in
      then_next m n e t (merged all) c (
        rw d (
          Succeeds-imp _ _ (get m.subcursors n >>= _) (others_lem csr fs m.subcursors ess n e t s q)
            (λ cs' w. (
              set all n (e ∷ t),
              w,
              subst (HasSlots m.sorted)
                  (same_length csr fs m.subcursors cs' ess (set all n (e ∷ t)) s w) h,
              nth-set_same all n (e ∷ t) (
                  subst (λ x. n < x)
                    (same_length csr fs m.subcursors cs' ess (set all n (e ∷ t)) s w
                      ∙ length-set all n (e ∷ t))
                    (nth-length ess n e t q)),
              ap merged (set-set all n (e ∷ t) t r),
            ))))

  pub next_lem :
      (m : MultiCursor C) (e : Entry) (es : List Entry)
      → MultiShows csr fs m (e ∷ es)
      → Succeeds (next csr m) (λ m'. MultiShows csr fs m' es)
  next_lem m e es (ess, s, h, nowhere c q) = cc
  next_lem m e es (ess, s, h, at_min d a q) =
      elim (AtMin-cases ess m.sorted m.cur h (ShowsAll-IsSorted csr fs m.subcursors ess s) a) [
        | inl z ↦ absurd (cons-nil (q ∙ z.1))
        | inr (n, e', t, c, i, r) ↦
            subst (λ l. Succeeds (next csr m) (λ m'. MultiShows csr fs m' l))
              (sym (tail_eq (q ∙ r))) (min_next m ess n e' t s h d a c i)
      ]
    where
      cons-nil : ¬ (e ∷ es ≡ [])
      cons-nil z = cc
  next_lem m e es (ess, s, h, at_key n e' t d c i r q) =
      subst (λ l. Succeeds (next csr m) (λ m'. MultiShows csr fs m' l)) (sym (tail_eq q))
        (key_next m ess n e' t s h d c i r)
