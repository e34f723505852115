-- ===== src/Lsm/Space/Locks/Release.antt =====
-- Releasing a segment that is no longer held.
use mathlib.Core.Path.{subst}
use elmo.Common.{ℕ, zero, suc, ◌+◌, ◌≤◌, ◌<◌, ◌≡◌, refl, sym, ap, ◌∙◌, ◌==◌, ==_iff, arith, length}
use elmo.Common.{true, false, not, ◌&&◌, ◌||◌, List, [], ◌∷◌, ◌++◌}
use elmo.Common.{Bool-cases, Option-cases, inl, inr, Returns, Returns-imp, Returns->>=}
use elmo.Common.Map.{contains, contains_key, take_key, remove_key}
use elmo.Lsm.Space.{Space, add_free_blocks}
use elmo.Lsm.Space.Locks.{
  any_contains, has_rlock, is_held, unlink, free_zombies, for_each, maybe_release_segment,
}
use elmo.Lsm.Space.Locks.Maps.{page_of, EmptyIn, take_key-Taken, take_key-none, count_linked}
use elmo.Lsm.Space.Locks.Maps.{
  count_linked-unlink, count_linked-remove_key, any_contains-unlink, contains_key-unlink,
  unlink-EmptyIn,
}
use elmo.Lsm.Space.Locks.Maps.{contains_key-remove_key, any_contains-remove_key, EmptyIn-remove_key}
use elmo.Lsm.Space.Locks.Inv.{IsSound, IsHeld, is_live, add_free_blocks-IsSound}

-- What `free_zombies` leaves.
record Freed (s : Space) (seg p : ℕ) (s' : Space) : Type 0 where
  sound : IsSound s'
  live : is_live s' p ≡ is_live s p
  same_deps : s'.dependencies ≡ s.dependencies
  same_rlocks : s'.rlocks ≡ s.rlocks
  same_next : s'.next_rlock ≡ s.next_rlock
  keys : (g : ℕ) → contains_key s'.zombies g ≡ (contains_key s.zombies g && not (seg == g))
  others : (g : ℕ) → (seg == g) ≡ false → page_of s'.zombies g p ≡ page_of s.zombies g p

free_zombies_lem :
    (s : Space) (seg p : ℕ) → IsSound s → Returns (free_zombies s seg) (Freed s seg p)
unfolding free_zombies
free_zombies_lem s seg p h = elim (Option-cases (take_key s.zombies seg)) [
  | inl n ↦
      let no_key = take_key-none s.zombies seg n in
      rw (free_zombies, n)
        (record {
          sound = h;
          live = refl;
          same_deps = refl;
          same_rlocks = refl;
          same_next = refl;
          keys = λ g. elim (Bool-cases (seg == g)) [
            | inl q ↦
                let z = subst (λ k. contains_key s.zombies k ≡ false) ((==_iff seg g).0 q) no_key in
                ground (arith, z, q)
            | inr q ↦ ground (arith, q)
          ];
          others = λ g q. refl;
        })
  | inr (r, n) ↦
      let t = take_key-Taken s.zombies seg r h.blocks n in
      let s0 = record s { zombies = r.1 } in
      let sound : IsSound s0 = record {
        valid = record { free = h.valid.free; positive = h.valid.positive; grows = h.valid.grows };
        blocks = t.blocks;
        used = λ q z. h.used q (ground (arith, t.pages q));
      } in
      rw (free_zombies, n)
        (Returns-imp _ (Freed s seg p) (add_free_blocks s0 r.0)
          (add_free_blocks-IsSound s0 r.0 p sound t.valid t.apart
            (λ q c. h.used q (ground (arith, t.pages q))) t.alone)
          (λ s' f. record {
            sound = f.0;
            live = f.1 ∙ ground (arith, t.pages p);
            same_deps = f.2.2;
            same_rlocks = f.2.0;
            same_next = f.2.3;
            keys = λ g. ap (λ m. contains_key m g) f.2.1 ∙ t.keys g;
            others = λ g q. ap (λ m. page_of m g p) f.2.1 ∙ t.others g p q;
          }))
]

-- What releasing segments leaves.
pub record Released (waiting emptied : List ℕ) (p : ℕ) (s s' : Space) : Type 0 where
  pub sound : IsSound s'
  pub held : IsHeld waiting emptied s'
  pub live : is_live s' p ≡ is_live s p
  pub smaller : count_linked s'.dependencies ≤ count_linked s.dependencies
  pub same_rlocks : s'.rlocks ≡ s.rlocks
  pub same_next : s'.next_rlock ≡ s.next_rlock
  pub kept : (g : ℕ) → has_rlock s g ≡ true → page_of s'.zombies g p ≡ page_of s.zombies g p

pub Released-trans :
    {w e w' e' : List ℕ} {p : ℕ} {s t u : Space}
    → Released w e p s t
    → Released w' e' p t u
    → Released w' e' p s u
Released-trans r q = record {
  sound = q.sound;
  held = q.held;
  live = q.live ∙ r.live;
  smaller = omega (arith, q.smaller, r.smaller);
  same_rlocks = q.same_rlocks ∙ r.same_rlocks;
  same_next = q.same_next ∙ r.same_next;
  kept = λ g h. q.kept g (ap (λ m. any_contains m g) r.same_rlocks ∙ h) ∙ r.kept g h;
}

-- A dependency that has lost its last segment is dropped, and its segment waits to be released.
without_dependency : Space → ℕ → Space
without_dependency s g = record s { dependencies = remove_key s.dependencies g }

without-IsSound : (s : Space) (g : ℕ) → IsSound s → IsSound (without_dependency s g)
unfolding without_dependency
without-IsSound s g h = record {
  valid = record { free = h.valid.free; positive = h.valid.positive; grows = h.valid.grows };
  blocks = h.blocks;
  used = h.used;
}

without-IsHeld :
    (s : Space) (g : ℕ) (w e : List ℕ)
    → IsHeld w (g ∷ e) s
    → IsHeld (g ∷ w) e (without_dependency s g)
unfolding without_dependency
without-IsHeld s g w e h = record {
  zombies_held =
      λ x z. ground (arith, h.zombies_held x z, contains_key-remove_key s.dependencies g x);
  needed_held = λ x z. ground (
    arith,
    h.needed_held x (any_contains-remove_key s.dependencies g x z),
    contains_key-remove_key s.dependencies g x,
  );
  linked = EmptyIn-remove_key s.dependencies g e h.linked;
}

module _ (p : ℕ) (w e : List ℕ) (fuel : ℕ)
    (nested : (s : Space) (g : ℕ) (e' : List ℕ)
      → count_linked s.dependencies < fuel
      → IsSound s
      → IsHeld (g ∷ w) e' s
      → Returns (maybe_release_segment fuel s g) (Released w e' p s)) where
  recurse_lem :
      (recurse : List ℕ) (s : Space)
      → count_linked s.dependencies + length recurse ≤ fuel
      → IsSound s
      → IsHeld w (recurse ++ e) s
      → Returns
          (for_each
            (λ t other.
              maybe_release_segment fuel
                (record t { dependencies = remove_key t.dependencies other })
                other)
            s
            recurse)
          (Released w e p s)
  unfolding for_each without_dependency
  recurse_lem [] s c h k = record {
    sound = h;
    held = k;
    live = refl;
    smaller = omega arith;
    same_rlocks = refl;
    same_next = refl;
    kept = λ g r. refl;
  }
  recurse_lem (g ∷ gs) s c h k =
      let s0 = without_dependency s g in
      let le = count_linked-remove_key s.dependencies g in
      Returns->>= (Released w (gs ++ e) p s0) (Released w e p s) (maybe_release_segment fuel s0 g) _
        (nested s0 g (gs ++ e) (omega (arith, c, le)) (without-IsSound s g h)
          (without-IsHeld s g w (gs ++ e) k))
        (λ s' r.
          let r' : Released w (gs ++ e) p s s' = record {
            sound = r.sound;
            held = r.held;
            live = r.live;
            smaller = omega (arith, r.smaller, le);
            same_rlocks = r.same_rlocks;
            same_next = r.same_next;
            kept = r.kept;
          } in
          Returns-imp (Released w e p s') (Released w e p s) _
            (recurse_lem gs s' (omega (arith, c, r'.smaller)) r.sound r.held)
            (λ s'' q. Released-trans r' q))

-- A segment that is held keeps what waits for it.
waits-IsHeld :
    (s : Space) (seg : ℕ) (w e : List ℕ)
    → is_held s seg ≡ true
    → IsHeld (seg ∷ w) e s
    → IsHeld w e s
waits-IsHeld s seg w e h k = record {
  zombies_held = λ g z. drop_head g (k.zombies_held g z);
  needed_held = λ g z. drop_head g (k.needed_held g z);
  linked = k.linked;
}
  where
    drop_head :
        (g : ℕ)
        → (is_held s g || contains (seg ∷ w) g) ≡ true
        → (is_held s g || contains w g) ≡ true
    drop_head g i = elim (Bool-cases (seg == g)) [
      | inl q ↦ let j = subst (λ x. is_held s x ≡ true) ((==_iff seg g).0 q) h in rw j refl
      | inr q ↦ ground (arith, i, q)
    ]

-- Of a state in which `seg` is no zombie, after unlinking it.
unlinked-IsHeld :
    (s s' : Space) (seg p : ℕ) (w e : List ℕ)
    → Freed s seg p s'
    → IsHeld (seg ∷ w) e s
    → IsHeld w
        ((unlink s'.dependencies seg).1 ++ e)
        (record s' { dependencies = (unlink s'.dependencies seg).0 })
unlinked-IsHeld s s' seg p w e f k = record {
  zombies_held =
      λ g z. same g (ground (arith, f.keys g, z)) (k.zombies_held g (ground (arith, f.keys g, z)));
  needed_held = λ g z.
      let u = any_contains-unlink s'.dependencies seg g in
      let d = ap (λ m. any_contains m g) f.same_deps in
      same g (ground (arith, u, z)) (k.needed_held g (ground (arith, u, z, d)));
  linked = unlink-EmptyIn s'.dependencies seg e (subst (EmptyIn e) (sym f.same_deps) k.linked);
}
  where
    same :
        (g : ℕ)
        → (seg == g) ≡ false
        → (is_held s g || contains (seg ∷ w) g) ≡ true
        → (contains_key (unlink s'.dependencies seg).0 g
            || any_contains s'.rlocks g
            || contains w g)
          ≡ true
    same g n i =
        let u = contains_key-unlink s'.dependencies seg g in
        let d = ap (λ m. contains_key m g) f.same_deps in
        let r = ap (λ m. any_contains m g) f.same_rlocks in ground (arith, n, i, u, d, r)

-- With enough fuel, releasing a segment fails no assertion, and then that segment does not wait.
pub maybe_release_segment-Released :
    (fuel : ℕ) (s : Space) (seg p : ℕ) (w e : List ℕ)
    → count_linked s.dependencies < fuel
    → IsSound s
    → IsHeld (seg ∷ w) e s
    → Returns (maybe_release_segment fuel s seg) (Released w e p s)
unfolding maybe_release_segment
maybe_release_segment-Released zero s seg p w e c h k = absurd (omega arith)
maybe_release_segment-Released (suc fuel) s seg p w e c h k = elim (Bool-cases (is_held s seg)) [
  | inl held ↦ rw held (record {
    sound = h;
    held = waits-IsHeld s seg w e held k;
    live = refl;
    smaller = omega arith;
    same_rlocks = refl;
    same_next = refl;
    kept = λ g r. refl;
  })
  | inr free ↦ rw free (
      Returns->>= (Freed s seg p) (Released w e p s) (free_zombies s seg) _
        (free_zombies_lem s seg p h)
        (λ s' f.
          let u = count_linked-unlink s'.dependencies seg in
          let d = ap count_linked f.same_deps in
          let s1 = record s' { dependencies = (unlink s'.dependencies seg).0 } in
          let sound : IsSound s1 = record {
            valid = record {
              free = f.sound.valid.free;
              positive = f.sound.valid.positive;
              grows = f.sound.valid.grows;
            };
            blocks = f.sound.blocks;
            used = f.sound.used;
          } in
          Returns-imp (Released w e p s1) (Released w e p s) _
            (recurse_lem p w e fuel (λ t g e'. maybe_release_segment-Released fuel t g p w e')
              (unlink s'.dependencies seg).1 s1 (omega (arith, u, d, c)) sound
              (unlinked-IsHeld s s' seg p w e f k))
            (λ s'' q. record {
              sound = q.sound;
              held = q.held;
              live = q.live ∙ f.live;
              smaller = omega (arith, q.smaller, u, d);
              same_rlocks = q.same_rlocks ∙ f.same_rlocks;
              same_next = q.same_next ∙ f.same_next;
              kept = λ g r.
                  q.kept g (ap (λ m. any_contains m g) f.same_rlocks ∙ r)
                  ∙ f.others g (not_same g free r);
            })))
]
  where
    not_same : (g : ℕ) → is_held s seg ≡ false → has_rlock s g ≡ true → (seg == g) ≡ false
    not_same g free r = elim (Bool-cases (seg == g)) [
      | inl q ↦
          let i = subst (λ x. has_rlock s x ≡ true) (sym ((==_iff seg g).0 q)) r in
          ground (arith, i, free)
      | inr q ↦ q
    ]
