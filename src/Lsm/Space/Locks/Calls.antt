-- ===== src/Lsm/Space/Locks/Calls.antt =====
-- What `add_rlock`, `release_rlock` and `add_dependencies` keep.
use mathlib.Core.Path.{subst}
use elmo.Common.{ℕ, ◌+◌, ◌<◌, ◌≡◌, refl, sym, ap, ◌∙◌, ◌==◌, ==_iff, arith, length}
use elmo.Common.{true, false, ◌&&◌, ◌||◌, some, List, [], ◌∷◌}
use elmo.Common.{Bool-cases, Option-cases, inl, inr, Returns, Returns-imp, Returns->>=}
use elmo.Common.Map.{Map, contains, is_none, contains_key, take_key}
use elmo.Lsm.Space.{Space}
use elmo.Lsm.Space.Locks.{
  any_contains, has_rlock, is_held, for_each, release_segment, release_rlock, add_rlock,
  filter_held, add_dependencies,
}
use elmo.Lsm.Space.Locks.Maps.{
  page_of, EmptyIn, take_key-none, count_linked-le, some-injective, none-some,
}
use elmo.Lsm.Space.Locks.Inv.{IsSound, IsHeld, is_live}
use elmo.Lsm.Space.Locks.Release.{Released, Released-trans, maybe_release_segment-Released}

-- The number of every rlock is below that of the next one.
abbrev pub IsFresh : Space → Type 0
IsFresh s = (k : ℕ) → contains_key s.rlocks k ≡ true → k < s.next_rlock

-- The invariant between two calls.
pub record IsLocked (s : Space) : Type 0 where
  pub sound : IsSound s
  pub held : IsHeld [] [] s
  pub fresh : IsFresh s

segments_lem :
    (segs : List ℕ) (s : Space) (p : ℕ)
    → IsSound s
    → IsHeld segs [] s
    → Returns (for_each release_segment s segs) (Released [] [] p s)
unfolding for_each
segments_lem [] s p h k = record {
  sound = h;
  held = k;
  live = refl;
  smaller = omega arith;
  same_rlocks = refl;
  same_next = refl;
  kept = λ g r. refl;
}
segments_lem (g ∷ gs) s p h k =
    Returns->>= (Released gs [] p s) (Released [] [] p s) (release_segment s g) _
      (maybe_release_segment-Released (length s.dependencies + 1) s g p gs []
        (omega (arith, count_linked-le s.dependencies)) h k)
      (λ s' r.
        Returns-imp (Released [] [] p s') (Released [] [] p s) _
          (segments_lem gs s' p r.sound r.held) (λ s'' q. Released-trans r q))

take_key-any_contains :
    (m : Map (List ℕ)) (k g : ℕ) (r : List ℕ × Map (List ℕ))
    → take_key m k ≡ some r
    → any_contains m g ≡ (any_contains r.1 g || contains r.0 g)
unfolding take_key
take_key-any_contains [] k g r e = cc
take_key-any_contains (x ∷ m) k g r e = elim (Bool-cases (x.0 == k)) [
  | inl q ↦ let f : r ≡ (x.1, m) = sym (some-injective (rw q at e)) in rw f (ground arith)
  | inr q ↦ elim (Option-cases (take_key m k)) [
    | inl n ↦ absurd (none-some (rw (q, n) at e))
    | inr (s, n) ↦
        let f : r ≡ (s.0, x ∷ s.1) = sym (some-injective (rw (q, n) at e)) in
        let i = take_key-any_contains m k g s n in rw f (ground (arith, i))
  ]
]

contains_key_none {ℓ} :
    {V : Type ℓ} (m : Map V) (g : ℕ) → is_none m ≡ true → contains_key m g ≡ false
contains_key_none [] g h = refl
contains_key_none (x ∷ m) g h = cc

any_contains_none : (m : Map (List ℕ)) (g : ℕ) → is_none m ≡ true → any_contains m g ≡ false
any_contains_none [] g h = refl
any_contains_none (x ∷ m) g h = cc

EmptyIn-none : (m : Map (List ℕ)) → is_none m ≡ true → EmptyIn [] m
EmptyIn-none [] h = tt
EmptyIn-none (x ∷ m) h = cc

take_key-contains_key :
    {V : Type 0} (m : Map V) (k g : ℕ) (r : V × Map V)
    → take_key m k ≡ some r
    → contains_key r.1 g ≡ true
    → contains_key m g ≡ true
unfolding take_key
take_key-contains_key [] k g r e h = cc
take_key-contains_key (x ∷ m) k g r e h = elim (Bool-cases (x.0 == k)) [
  | inl q ↦
      let f : r ≡ (x.1, m) = sym (some-injective (rw q at e)) in
      let h' : contains_key m g ≡ true = subst (λ t. contains_key t.1 g ≡ true) f h in
      ground (arith, h')
  | inr q ↦ elim (Option-cases (take_key m k)) [
    | inl n ↦ absurd (none-some (rw (q, n) at e))
    | inr (s, n) ↦
        let f : r ≡ (s.0, x ∷ s.1) = sym (some-injective (rw (q, n) at e)) in
        let h' : contains_key (x ∷ s.1) g ≡ true = subst (λ t. contains_key t.1 g ≡ true) f h in
        let i = take_key-contains_key m k g s n in ground (arith, i, h')
  ]
]

-- Nothing waits, and nothing is a zombie.
idle-IsHeld : (s : Space) → (is_none s.zombies && is_none s.dependencies) ≡ true → IsHeld [] [] s
idle-IsHeld s h = record {
  zombies_held = λ g z. ground (arith, z, h, contains_key_none s.zombies g);
  needed_held = λ g z. ground (arith, z, h, any_contains_none s.dependencies g);
  linked = EmptyIn-none s.dependencies (ground (arith, h));
}

-- Where the invariant holds, releasing an rlock that there is ends and fails no assertion. The
-- invariant holds afterwards, so no segment is a zombie that is not held. The pages in use that are
-- no zombies' stay the same, and so do the zombies of a segment that another rlock holds.
pub release_rlock_lem :
    (s : Space) (rlock p g : ℕ)
    → IsLocked s
    → contains_key s.rlocks rlock ≡ true
    → Returns (release_rlock s rlock) λ s'.
      IsLocked s'
      × (is_live s' p ≡ is_live s p)
      × ((has_rlock s' g && page_of s'.zombies g p) ≡ (has_rlock s' g && page_of s.zombies g p))
unfolding release_rlock
release_rlock_lem s rlock p g h has = elim (Option-cases (take_key s.rlocks rlock)) [
  | inl n ↦ let z = take_key-none s.rlocks rlock n in cc
  | inr (r, n) ↦
      let s1 = record s { rlocks = r.1 } in
      let sound : IsSound s1 = record {
        valid = record {
          free = h.sound.valid.free;
          positive = h.sound.valid.positive;
          grows = h.sound.valid.grows;
        };
        blocks = h.sound.blocks;
        used = h.sound.used;
      } in
      let fresh : IsFresh s1 = λ k c. h.fresh k (take_key-contains_key s.rlocks rlock k r n c) in
      let taken = λ (x : ℕ). take_key-any_contains s.rlocks rlock x r n in
      let waiting : IsHeld r.0 [] s1 = record {
        zombies_held = λ x z. ground (arith, h.held.zombies_held x z, taken x);
        needed_held = λ x z. ground (arith, h.held.needed_held x z, taken x);
        linked = h.held.linked;
      } in
      elim (Bool-cases (is_none s.zombies && is_none s.dependencies)) [
        | inl i ↦
            rw (n, i) (record { sound = sound; held = idle-IsHeld s1 i; fresh = fresh }, refl, refl)
        | inr i ↦
            rw (n, i)
              (Returns-imp (Released [] [] p s1) _ (for_each release_segment s1 r.0)
                (segments_lem r.0 s1 p sound waiting)
                (λ s' q. (
                  record {
                    sound = q.sound;
                    held = q.held;
                    fresh = λ k c.
                        subst (λ v. k < v) (sym q.same_next)
                          (fresh k (ap (λ m. contains_key m k) (sym q.same_rlocks) ∙ c));
                  },
                  q.live,
                  kept s1 s' (ap (λ m. any_contains m g) q.same_rlocks) (q.kept g),
                )))
      ]
]
  where
    kept :
        (t t' : Space)
        → has_rlock t' g ≡ has_rlock t g
        → (has_rlock t g ≡ true → page_of t'.zombies g p ≡ page_of t.zombies g p)
        → (has_rlock t' g && page_of t'.zombies g p) ≡ (has_rlock t' g && page_of t.zombies g p)
    kept t t' e k = ground (arith, e, k)

-- Taking an rlock fails no assertion, and then its segments are held.
pub add_rlock_lem :
    (s : Space) (segments : List ℕ) (p g : ℕ)
    → IsLocked s
    → Returns (add_rlock s segments) λ r.
      IsLocked r.1
      × (is_live r.1 p ≡ is_live s p)
      × (r.1.zombies ≡ s.zombies)
      × (contains_key r.1.rlocks r.0 ≡ true)
      × (has_rlock r.1 g ≡ (contains segments g || has_rlock s g))
unfolding add_rlock
add_rlock_lem s segments p g h = elim (Bool-cases (contains_key s.rlocks s.next_rlock)) [
  | inl c ↦ let z = h.fresh s.next_rlock c in absurd (omega arith)
  | inr c ↦ rw c (
    record {
      sound = record {
        valid = record {
          free = h.sound.valid.free;
          positive = h.sound.valid.positive;
          grows = h.sound.valid.grows;
        };
        blocks = h.sound.blocks;
        used = h.sound.used;
      };
      held = record {
        zombies_held = λ x z. ground (arith, h.held.zombies_held x z);
        needed_held = λ x z. ground (arith, h.held.needed_held x z);
        linked = h.held.linked;
      };
      fresh = λ k z. ground (arith, h.fresh k);
    },
    refl,
    refl,
    ground arith,
    refl,
  )
]

-- The segments that are not held are left out.
filter_held-contains :
    (s : Space) (segs : List ℕ) (g : ℕ)
    → contains (filter_held s segs) g ≡ (contains segs g && is_held s g)
filter_held-contains s [] g = refl
filter_held-contains s (x ∷ segs) g = elim (Bool-cases (x == g)) [
  | inl q ↦
      let e = ap (λ k. is_held s k) ((==_iff x g).0 q) in
      ground (arith, q, e, filter_held-contains s segs g)
  | inr q ↦ ground (arith, q, filter_held-contains s segs g)
]

-- A segment that depends on others gets its dependencies, once.
pub add_dependencies_lem :
    (s : Space) (seg p : ℕ) (depends_on : List ℕ)
    → IsLocked s
    → contains_key s.dependencies seg ≡ false
    → Returns
        (add_dependencies s seg depends_on)
        λ s'. IsLocked s' × (is_live s' p ≡ is_live s p) × (s'.zombies ≡ s.zombies)
unfolding add_dependencies
add_dependencies_lem s seg p depends_on h n =
    elim (Bool-cases (is_none (filter_held s depends_on))) [
      | inl c ↦ rw c (h, refl, refl)
      | inr c ↦
          rw (c, n)
            (
              record {
                sound = record {
                  valid = record {
                    free = h.sound.valid.free;
                    positive = h.sound.valid.positive;
                    grows = h.sound.valid.grows;
                  };
                  blocks = h.sound.blocks;
                  used = h.sound.used;
                };
                held = record {
                  zombies_held = λ x z. ground (arith, h.held.zombies_held x z);
                  needed_held = λ x z.
                      ground (arith, z, h.held.needed_held x, filter_held-contains s depends_on x);
                  linked = (ground (arith, c), h.held.linked);
                };
                fresh = h.fresh;
              },
              refl,
              refl,
            )
    ]
