-- ===== src/Lsm/Space/Locks/Inv.antt =====
-- The invariant of `Space` with its locks.
use mathlib.Core.Path.{subst}
use elmo.Common.{ℕ, ◌≤◌, ◌≡◌, refl, ap, arith, length, leb}
use elmo.Common.{
  Bool, true, false, not, ◌&&◌, ◌||◌, Option, none, some, ◌>>=◌, ◌>>◌, if◌then◌else◌, List, [], ◌∷◌,
  ◌++◌,
}
use elmo.Common.{Returns, Returns-imp}
use elmo.Common.Map.{contains, contains_key}
use elmo.Lsm.BlockList.{BlockList, contains_page}
use elmo.Lsm.BlockList
use elmo.Lsm.BlockList.Pages.{AllValid, AllApart}
use elmo.Lsm.Space.{
  Space, add_free_blocks, organize_free_blocks, step1_sort_and_consolidate, step2_sort_for_usage,
  drop_free_at_end, add_recent,
}
use elmo.Lsm.Space.Used.{is_used, IsValid}
use elmo.Lsm.Space.Free.{add_free_blocks_lem}
use elmo.Lsm.Space.Locks.{any_contains, is_held}
use elmo.Lsm.Space.Locks.Maps.{any_page, IsBlocks, EmptyIn}

-- The free list is valid, and the zombies are pages in use.
pub record IsSound (s : Space) : Type 0 where
  pub valid : IsValid s
  pub blocks : IsBlocks s.zombies
  pub used : (q : ℕ) → any_page s.zombies q ≡ true → (1 ≤ q) × (is_used s q ≡ true)

-- Every zombie segment is held, and so is every segment that another waits for, but for those of
-- `waiting`; no dependency is empty, but for those of `emptied`.
pub record IsHeld (waiting emptied : List ℕ) (s : Space) : Type 0 where
  pub zombies_held :
      (g : ℕ) → contains_key s.zombies g ≡ true → (is_held s g || contains waiting g) ≡ true
  pub needed_held :
      (g : ℕ) → any_contains s.dependencies g ≡ true → (is_held s g || contains waiting g) ≡ true
  pub linked : EmptyIn emptied s.dependencies

-- The pages that are in use and are no zombies.
abbrev pub is_live : Space → ℕ → Bool
is_live s p = is_used s p && not (any_page s.zombies p)

-- The locks of both states are the same.
abbrev pub SameLocks : Space → Space → Type 0
SameLocks s s' =
    (s'.rlocks ≡ s.rlocks)
    × (s'.zombies ≡ s.zombies)
    × (s'.dependencies ≡ s.dependencies)
    × (s'.next_rlock ≡ s.next_rlock)

-- What a call keeps if it returns.
abbrev pub IfReturns {ℓ} : {A : Type ℓ} → Option A → (A → Type 0) → Type 0
IfReturns none P = Unit
IfReturns (some a) P = P a

pub Returns-with {ℓ} :
    {A : Type ℓ} (P Q : A → Type 0) (o : Option A)
    → Returns o P
    → IfReturns o Q
    → Returns o (λ a. P a × Q a)
Returns-with P Q none h k = h
Returns-with P Q (some a) h k = (h, k)

pub Returns-all {ℓ} :
    {A : Type ℓ} (P : ℕ → A → Type 0) (o : Option A)
    → ((n : ℕ) → Returns o (P n))
    → Returns o (λ a. (n : ℕ) → P n a)
Returns-all P none h = h 0
Returns-all P (some a) h = h

pub IfReturns-if {ℓ} :
    {A : Type ℓ} (P : A → Type 0) (b : Bool) (x y : Option A)
    → IfReturns x P
    → IfReturns y P
    → IfReturns (if b then x else y) P
IfReturns-if P true x y h k = h
IfReturns-if P false x y h k = k

pub IfReturns->>= {ℓ κ} :
    {A : Type ℓ} {B : Type κ} (P : A → Type 0) (Q : B → Type 0) (o : Option A) (f : A → Option B)
    → IfReturns o P
    → ((a : A) → P a → IfReturns (f a) Q)
    → IfReturns (o >>= f) Q
IfReturns->>= P Q none f h k = tt
IfReturns->>= P Q (some a) f h k = k a h

pub IfReturns->> {ℓ} :
    {A : Type ℓ} (Q : A → Type 0) (o : Option (Unit {0})) (x : Option A)
    → IfReturns x Q
    → IfReturns (o >> x) Q
IfReturns->> Q none x h = tt
IfReturns->> Q (some a) x h = h

pub IfReturns_any {ℓ} : {A : Type ℓ} (o : Option A) → IfReturns o (λ a. Unit)
IfReturns_any none = tt
IfReturns_any (some a) = tt

pub IfReturns-imp {ℓ} :
    {A : Type ℓ} (P Q : A → Type 0) (o : Option A)
    → IfReturns o P
    → ((a : A) → P a → Q a)
    → IfReturns o Q
IfReturns-imp P Q none h k = tt
IfReturns-imp P Q (some a) h k = k a h

-- What holds of the result that a call returned.
pub Returns-some {ℓ} :
    {A : Type ℓ} (P : A → Type 0) (o : Option A) (a : A) → o ≡ some a → Returns o P → P a
Returns-some P o a e h = subst (λ x. Returns x P) e h

pub IfReturns-some {ℓ} :
    {A : Type ℓ} (P : A → Type 0) (o : Option A) (a : A) → o ≡ some a → IfReturns o P → P a
IfReturns-some P o a e h = subst (λ x. IfReturns x P) e h

drop_free_at_end-SameLocks : (s : Space) → IfReturns (drop_free_at_end s) (SameLocks s)
drop_free_at_end-SameLocks s =
    IfReturns-if (SameLocks s) _ _ (some s)
      (IfReturns->>= (λ a. Unit) (SameLocks s) (BlockList.last_page s.free_blocks) _
        (IfReturns_any _)
        (λ a h.
          IfReturns-if (SameLocks s) _ _ (some s)
            (IfReturns->>= (λ a. Unit) (SameLocks s) (BlockList.remove_block s.free_blocks _) _
              (IfReturns_any _) (λ b k. (refl, refl, refl, refl)))
            (refl, refl, refl, refl)))
      (refl, refl, refl, refl)

step1-SameLocks : (s : Space) → IfReturns (step1_sort_and_consolidate s) (SameLocks s)
unfolding step1_sort_and_consolidate
step1-SameLocks s = drop_free_at_end-SameLocks (record s {
  recent_free = [];
  free_blocks = BlockList.sort_and_consolidate (add_recent s.free_blocks s.recent_free);
})

pub organize_free_blocks-SameLocks : (s : Space) → IfReturns (organize_free_blocks s) (SameLocks s)
unfolding organize_free_blocks step2_sort_for_usage
organize_free_blocks-SameLocks s =
    IfReturns->>= (SameLocks s) (SameLocks s) (step1_sort_and_consolidate s)
      (λ s'. some (step2_sort_for_usage s')) (step1-SameLocks s) (λ s' h. h)

pub add_free_blocks-SameLocks :
    (s : Space) (b : BlockList) → IfReturns (add_free_blocks s b) (SameLocks s)
unfolding add_free_blocks
add_free_blocks-SameLocks s b =
    let s' = record s { recent_free = s.recent_free ++ (b ∷ []) } in
    IfReturns-if (SameLocks s) (leb 8 (length s'.recent_free)) (organize_free_blocks s') (some s')
      (organize_free_blocks-SameLocks s') (refl, refl, refl, refl)

-- Freeing a segment's blocks, once they are no zombies.
pub add_free_blocks-IsSound :
    (s : Space) (b : BlockList) (p : ℕ)
    → IsSound s
    → AllValid b
    → AllApart b
    → ((q : ℕ) → contains_page b q ≡ true → (1 ≤ q) × (is_used s q ≡ true))
    → ((q : ℕ) → contains_page b q ≡ true → any_page s.zombies q ≡ false)
    → Returns (add_free_blocks s b) λ s'.
      IsSound s' × (is_live s' p ≡ (is_live s p && not (contains_page b p))) × SameLocks s s'
add_free_blocks-IsSound s b p h v a used alone =
    let each = λ (q : ℕ). add_free_blocks_lem s b q h.valid v a used in
    let P = λ (q : ℕ) (s' : Space).
      IsValid s' × (is_used s' q ≡ (is_used s q && not (contains_page b q))) in
    Returns-imp (λ s'. ((q : ℕ) → P q s') × SameLocks s s') _ (add_free_blocks s b)
      (Returns-with (λ s'. (q : ℕ) → P q s') (SameLocks s) (add_free_blocks s b)
        (Returns-all P (add_free_blocks s b) each) (add_free_blocks-SameLocks s b))
      (λ s' r. (
        record {
          valid = (r.0 0).0;
          blocks = rw r.1.1 h.blocks;
          used = λ q z.
              let z' : any_page s.zombies q ≡ true = subst (λ m. any_page m q ≡ true) r.1.1 z in
              ground (arith, h.used q z', r.0 q, alone q);
        },
        (let z : any_page s'.zombies p ≡ any_page s.zombies p = ap (λ m. any_page m p) r.1.1 in
            ground (arith, z, r.0 p)),
        r.1,
      ))
