-- ===== src/Lsm/Space/Locks/Inactive.antt =====
-- lsm/src/lib.rs, `add_inactive`: what it keeps.
use mathlib.Core.Path.{subst}
use elmo.Common.{==_iff, ℕ, ◌≤◌, ◌<◌, ◌≡◌, refl, sym, ap, ◌∙◌, ◌==◌, arith}
use elmo.Common.{Bool, true, false, not, ◌&&◌, ◌||◌, [], ◌∷◌}
use elmo.Common.{Bool-cases, inl, inr, Returns, Returns-imp, Returns->>=}
use elmo.Common.Map.{Map, contains_key}
use elmo.Lsm.BlockList.{BlockList, contains_page}
use elmo.Lsm.Space.{Space, add_free_blocks}
use elmo.Lsm.Space.Used.{is_used}
use elmo.Lsm.Space.Locks.{any_contains, is_held, add_zombies, free_others, add_inactive}
use elmo.Lsm.Space.Locks.Maps.{page_of, any_page, IsBlocks, EmptyIn}
use elmo.Lsm.Space.Locks.Inv.{
  IsSound, IsHeld, is_live, SameLocks, Returns-all, add_free_blocks-IsSound,
}
use elmo.Lsm.Space.Locks.Calls.{IsLocked, IsFresh}

-- The pages of the segments that are held, and those of the others.
abbrev any_held : (ℕ → Bool) → Map BlockList → ℕ → Bool
any_held held [] p = false
any_held held (e ∷ m) p = (held e.0 && contains_page e.1 p) || any_held held m p

abbrev any_free : (ℕ → Bool) → Map BlockList → ℕ → Bool
any_free held [] p = false
any_free held (e ∷ m) p = (not (held e.0) && contains_page e.1 p) || any_free held m p

any_page-split :
    (held : ℕ → Bool) (m : Map BlockList) (p : ℕ)
    → any_page m p ≡ (any_held held m p || any_free held m p)
any_page-split held [] p = refl
any_page-split held (e ∷ m) p = ground (arith, any_page-split held m p)

any_free-same :
    (f f' : ℕ → Bool) (m : Map BlockList) (p : ℕ)
    → ((g : ℕ) → f' g ≡ f g)
    → any_free f' m p ≡ any_free f m p
any_free-same f f' [] p h = refl
any_free-same f f' (e ∷ m) p h = ground (arith, h e.0, any_free-same f f' m p h)

any_held-apart :
    (held : ℕ → Bool) (m : Map BlockList) (p : ℕ)
    → IsBlocks m
    → any_free held m p ≡ true
    → any_held held m p ≡ false
any_held-apart held [] p h f = refl
any_held-apart held (e ∷ m) p h f =
    ground (arith, h.2 p, any_page-split held m p, any_held-apart held m p h.4, f)

-- What making the held segments zombies leaves.
record Zombied (s : Space) (blocks : Map BlockList) (s' : Space) : Type 0 where
  locked : IsLocked s'
  used : (q : ℕ) → is_used s' q ≡ is_used s q
  same_held : (g : ℕ) → is_held s' g ≡ is_held s g
  pages : (q : ℕ) → any_page s'.zombies q ≡ (any_held (is_held s) blocks q || any_page s.zombies q)
  kept : (g q : ℕ) → page_of s.zombies g q ≡ true → page_of s'.zombies g q ≡ true

-- The blocks are pages in use of segments that are no zombies, and no zombie has such a page.
pub record CanRetire (s : Space) (retired : Map BlockList) : Type 0 where
  pub blocks : IsBlocks retired
  pub used : (q : ℕ) → any_page retired q ≡ true → (1 ≤ q) × (is_used s q ≡ true)
  pub alone : (q : ℕ) → any_page retired q ≡ true → any_page s.zombies q ≡ false
  pub keys : (g : ℕ) → contains_key retired g ≡ true → contains_key s.zombies g ≡ false

with_zombie : Space → ℕ → BlockList → Space
with_zombie s pg b = record s { zombies = (pg, b) ∷ s.zombies }

with-IsLocked :
    (s : Space) (pg : ℕ) (b : BlockList) (m : Map BlockList)
    → is_held s pg ≡ true
    → IsLocked s
    → CanRetire s ((pg, b) ∷ m)
    → IsLocked (with_zombie s pg b)
unfolding with_zombie
with-IsLocked s pg b m y h c = record {
  sound = record {
    valid = record {
      free = h.sound.valid.free;
      positive = h.sound.valid.positive;
      grows = h.sound.valid.grows;
    };
    blocks = (
      c.blocks.0,
      c.blocks.1,
      (λ q z. c.alone q (ground (arith, z))),
      c.keys pg (ground arith),
      h.sound.blocks,
    );
    used = λ q z. ground (arith, z, c.used q, h.sound.used q);
  };
  held = record {
    zombies_held = λ g z. elim (Bool-cases (pg == g)) [
      | inl q ↦ let y' = subst (λ x. is_held s x ≡ true) ((==_iff pg g).0 q) y in ground (arith, y')
      | inr q ↦ ground (arith, q, z, h.held.zombies_held g)
    ];
    needed_held = h.held.needed_held;
    linked = h.held.linked;
  };
  fresh = h.fresh;
}

add_zombies_lem :
    (s : Space) (m : Map BlockList)
    → IsLocked s
    → CanRetire s m
    → Returns (add_zombies s m) (Zombied s m)
unfolding add_zombies with_zombie
add_zombies_lem s [] h c = record {
  locked = h;
  used = λ q. refl;
  same_held = λ g. refl;
  pages = λ q. refl;
  kept = λ g q z. z;
}
add_zombies_lem s ((pg, b) ∷ m) h c = elim (Bool-cases (is_held s pg)) [
  | inl y ↦
      let s1 = with_zombie s pg b in
      let k = c.keys pg (ground arith) in
      rw (y, k)
        (Returns-imp (Zombied s1 m) (Zombied s ((pg, b) ∷ m)) (add_zombies s1 m)
          (add_zombies_lem s1 m (with-IsLocked s pg b m y h c) (record {
            blocks = c.blocks.4;
            used = λ q z. c.used q (ground (arith, z));
            alone = λ q z. ground (arith, z, c.alone q, c.blocks.2 q);
            keys = λ g z. later g z (c.keys g);
          }))
          (λ s' r. record {
            locked = r.locked;
            used = r.used;
            same_held = r.same_held;
            pages = λ q. let p = r.pages q in ground (arith, p, y);
            kept = λ g q z. r.kept g q (ground (arith, z));
          }))
  | inr n ↦ rw n (
      Returns-imp (Zombied s m) (Zombied s ((pg, b) ∷ m)) (add_zombies s m)
        (add_zombies_lem s m h (record {
          blocks = c.blocks.4;
          used = λ q z. c.used q (ground (arith, z));
          alone = λ q z. c.alone q (ground (arith, z));
          keys = λ g z. c.keys g (ground (arith, z));
        }))
        (λ s' r. record {
          locked = r.locked;
          used = r.used;
          same_held = r.same_held;
          pages = λ q. let p = r.pages q in ground (arith, p, n);
          kept = r.kept;
        }))
]
  where
    later :
        (g : ℕ)
        → contains_key m g ≡ true
        → (((pg == g) || contains_key m g) ≡ true → contains_key s.zombies g ≡ false)
        → ((pg == g) || contains_key s.zombies g) ≡ false
    later g z k = elim (Bool-cases (pg == g)) [
      | inl q ↦
          let z' = subst (λ x. contains_key m x ≡ true) (sym ((==_iff pg g).0 q)) z in
          ground (arith, z', c.blocks.3)
      | inr q ↦ ground (arith, q, z, k)
    ]

is_held-SameLocks : (s s' : Space) (g : ℕ) → SameLocks s s' → is_held s' g ≡ is_held s g
is_held-SameLocks s s' g e =
    let r = ap (λ m. any_contains m g) e.0 in
    let d = ap (λ m. contains_key m g) e.2 in ground (arith, r, d)

IsHeld-SameLocks : (s s' : Space) → SameLocks s s' → IsHeld [] [] s → IsHeld [] [] s'
IsHeld-SameLocks s s' e h = record {
  zombies_held = λ g z.
      let y = is_held-SameLocks s s' g e in
      ground (arith, y, h.zombies_held g (subst (λ m. contains_key m g ≡ true) e.1 z));
  needed_held = λ g z.
      let y = is_held-SameLocks s s' g e in
      ground (arith, y, h.needed_held g (subst (λ m. any_contains m g ≡ true) e.2 z));
  linked = subst (EmptyIn []) (sym e.2) h.linked;
}

IsFresh-SameLocks : (s s' : Space) → SameLocks s s' → IsFresh s → IsFresh s'
IsFresh-SameLocks s s' e h k z =
    subst (λ v. k < v) (sym e.3) (h k (subst (λ m. contains_key m k ≡ true) e.0 z))

pub IsLocked-SameLocks : (s s' : Space) → SameLocks s s' → IsSound s' → IsLocked s → IsLocked s'
IsLocked-SameLocks s s' e sound h = record {
  sound = sound;
  held = IsHeld-SameLocks s s' e h.held;
  fresh = IsFresh-SameLocks s s' e h.fresh;
}

-- What freeing the blocks of the other segments leaves.
record Retired (s : Space) (m : Map BlockList) (s' : Space) : Type 0 where
  locked : IsLocked s'
  live : (q : ℕ) → is_live s' q ≡ (is_live s q && not (any_free (is_held s) m q))
  kept : (g q : ℕ) → page_of s.zombies g q ≡ true → page_of s'.zombies g q ≡ true

free_others_lem :
    (s : Space) (m : Map BlockList)
    → IsLocked s
    → IsBlocks m
    → ((q : ℕ) → any_free (is_held s) m q ≡ true → (1 ≤ q) × (is_live s q ≡ true))
    → Returns (free_others s m) (Retired s m)
unfolding free_others
free_others_lem s [] h c u = record { locked = h; live = λ q. ground arith; kept = λ g q z. z }
free_others_lem s ((pg, b) ∷ m) h c u = elim (Bool-cases (is_held s pg)) [
  | inl y ↦ rw y (
      Returns-imp (Retired s m) (Retired s ((pg, b) ∷ m)) (free_others s m)
        (free_others_lem s m h c.4 (λ q z. u q (ground (arith, z))))
        (λ s' r. record {
          locked = r.locked;
          live = λ q. let p = r.live q in ground (arith, p, y);
          kept = r.kept;
        }))
  | inr n ↦
      let P = λ (q : ℕ) (s' : Space).
        IsSound s' × (is_live s' q ≡ (is_live s q && not (contains_page b q))) × SameLocks s s' in
      let freed = λ (q : ℕ).
        add_free_blocks-IsSound s b q h.sound c.0 c.1 (λ x z. ground (arith, z, n, u x))
          (λ x z. ground (arith, z, n, u x)) in
      rw n (
        Returns->>= (λ s'. (q : ℕ) → P q s') (Retired s ((pg, b) ∷ m)) (add_free_blocks s b) _
          (Returns-all P (add_free_blocks s b) freed)
          (λ s1 r.
            let same = r 0 in
            let locked : IsLocked s1 = IsLocked-SameLocks s s1 same.2 same.0 h in
            let e = λ (q : ℕ).
              any_free-same (is_held s) (is_held s1) m q (λ g. is_held-SameLocks s s1 g same.2) in
            Returns-imp (Retired s1 m) (Retired s ((pg, b) ∷ m)) (free_others s1 m)
              (free_others_lem s1 m locked c.4 (λ q z.
                let l = r q in
                let z' = sym (e q) ∙ z in
                ground (arith, z', l.1, c.2 q, u q, n, any_page-split (is_held s) m q)))
              (λ s' t. record {
                locked = t.locked;
                live = λ q. let p = t.live q in let l = r q in ground (arith, p, l.1, e q, n);
                kept = λ g q z. t.kept g q (subst (λ x. page_of x g q ≡ true) (sym same.2.1) z);
              })))
]

pub add_inactive_lem :
    (s : Space) (retired : Map BlockList) (p g : ℕ)
    → IsLocked s
    → CanRetire s retired
    → Returns (add_inactive s retired) λ s'.
      IsLocked s'
      × (is_live s' p ≡ (is_live s p && not (any_page retired p)))
      × ((not (page_of s.zombies g p) || page_of s'.zombies g p) ≡ true)
unfolding add_inactive
add_inactive_lem s m p g h c =
    Returns->>= (Zombied s m) _ (add_zombies s m) (λ s'. free_others s' m) (add_zombies_lem s m h c)
      (λ s1 r.
        let e = λ (q : ℕ). any_free-same (is_held s) (is_held s1) m q r.same_held in
        let split = λ (q : ℕ). any_page-split (is_held s) m q in
        Returns-imp (Retired s1 m) _ (free_others s1 m)
          (free_others_lem s1 m r.locked c.blocks (λ q z.
            let z' = sym (e q) ∙ z in
            ground (
              arith,
              z',
              r.used q,
              r.pages q,
              split q,
              c.used q,
              c.alone q,
              any_held-apart (is_held s) m q c.blocks,
            )))
          (λ s' t. (
            t.locked,
            (let l = t.live p in ground (arith, l, e p, r.used p, r.pages p, split p)),
            (let k = t.kept g p in ground (arith, k, r.kept g p)),
          )))
