-- ===== src/Lsm/BlockList/Same.antt =====
-- Lists of the same blocks in another order, and a list with one block taken out.
use elmo.Common.{ℕ, zero, suc, ◌≡◌, refl, arith, All, inl, inr, some}
use elmo.Common.{◌||◌, [], ◌∷◌, ◌++◌, Ordering, Option-cases}
use mathlib.Core.Path.{subst}
use mathlib.Core.Option.{some-injective}
use elmo.Common.Sort.{insert_by, sort_by}
use elmo.Lsm.PageBlock.{PageBlock}
use elmo.Lsm.PageBlock
use elmo.Lsm.BlockList.{BlockList, contains_page, remove_block}
use elmo.Lsm.BlockList.Pages.{Apart, AllApart}

-- The second list is the first without the block `b`.
pub data Extract (b : PageBlock) : BlockList → BlockList → Type 0 where
  here : {xs : BlockList} → Extract b (b ∷ xs) xs
  there : {x : PageBlock} {xs ys : BlockList} → Extract b xs ys → Extract b (x ∷ xs) (x ∷ ys)

pub data SameBlocks : BlockList → BlockList → Type 0 where
  nil : SameBlocks [] []
  more :
      {x : PageBlock} {xs ys zs : BlockList}
      → Extract x ys zs
      → SameBlocks xs zs
      → SameBlocks (x ∷ xs) ys

pub Extract-contains :
    {b : PageBlock} {xs ys : BlockList} (p : ℕ)
    → Extract b xs ys
    → contains_page xs p ≡ (PageBlock.contains_page b p || contains_page ys p)
Extract-contains p here = refl
Extract-contains {b} p (there {x = x} {xs = xs} {ys = ys} e) = ground (arith, Extract-contains p e)

pub Extract-All {ℓ} :
    {b : PageBlock} {xs ys : BlockList} (P : PageBlock → Type ℓ)
    → Extract b xs ys
    → All P xs
    → P b × All P ys
Extract-All P here h = h
Extract-All P (there e) h = let t = Extract-All P e h.1 in (t.0, (h.0, t.1))

pub Extract-All_back {ℓ} :
    {b : PageBlock} {xs ys : BlockList} (P : PageBlock → Type ℓ)
    → Extract b xs ys
    → P b
    → All P ys
    → All P xs
Extract-All_back P here h hs = (h, hs)
Extract-All_back P (there e) h hs = (hs.0, Extract-All_back P e h hs.1)

pub Apart-sym : (a b : PageBlock) → Apart a b → Apart b a
Apart-sym a b (inl h) = inr h
Apart-sym a b (inr h) = inl h

pub Extract-AllApart :
    {b : PageBlock} {xs ys : BlockList}
    → Extract b xs ys
    → AllApart xs
    → All (Apart b) ys × AllApart ys
Extract-AllApart here h = h
Extract-AllApart {b} (there {x = x} e) h =
    let t = Extract-AllApart e h.1 in
    let u = Extract-All (Apart x) e h.0 in ((Apart-sym x b u.0, t.0), (u.1, t.1))

pub Extract-AllApart_back :
    {b : PageBlock} {xs ys : BlockList}
    → Extract b xs ys
    → All (Apart b) ys
    → AllApart ys
    → AllApart xs
Extract-AllApart_back here h hs = (h, hs)
Extract-AllApart_back {b} (there {x = x} e) h hs =
    (Extract-All_back (Apart x) e (Apart-sym b x h.0) hs.0, Extract-AllApart_back e h.1 hs.1)

pub Extract-append :
    {b : PageBlock} {xs ys : BlockList} (zs : BlockList)
    → Extract b xs ys
    → Extract b (xs ++ zs) (ys ++ zs)
Extract-append zs here = here
Extract-append zs (there e) = there (Extract-append zs e)

pub remove_block-Extract :
    (bs : BlockList) (i : ℕ) (r : PageBlock × BlockList)
    → remove_block bs i ≡ some r
    → Extract r.0 bs r.1
unfolding remove_block
remove_block-Extract [] i r e = cc
remove_block-Extract (x ∷ xs) zero r e =
    subst (λ r. Extract r.0 (x ∷ xs) r.1) (some-injective _ _ e) here
remove_block-Extract (x ∷ xs) (suc i) r e = elim (Option-cases (remove_block xs i)) [
  | inl e' ↦ cc
  | inr (t, e') ↦
      subst (λ r. Extract r.0 (x ∷ xs) r.1) (some-injective _ _ (rw e' at e))
        (there (remove_block-Extract xs i t e'))
]

pub SameBlocks-contains :
    {xs ys : BlockList} (p : ℕ) → SameBlocks xs ys → contains_page ys p ≡ contains_page xs p
SameBlocks-contains p nil = refl
SameBlocks-contains p (more e s) = ground (arith, Extract-contains p e, SameBlocks-contains p s)

pub SameBlocks-All {ℓ} :
    {xs ys : BlockList} (P : PageBlock → Type ℓ) → SameBlocks xs ys → All P xs → All P ys
SameBlocks-All P nil h = h
SameBlocks-All P (more e s) h = Extract-All_back P e h.0 (SameBlocks-All P s h.1)

pub SameBlocks-AllApart : {xs ys : BlockList} → SameBlocks xs ys → AllApart xs → AllApart ys
SameBlocks-AllApart nil h = h
SameBlocks-AllApart (more {x = x} e s) h =
    Extract-AllApart_back e (SameBlocks-All (Apart x) s h.0) (SameBlocks-AllApart s h.1)

module _ (cmp : PageBlock → PageBlock → Ordering) where
  insert-Extract : (x : PageBlock) (bs : BlockList) → Extract x (insert_by cmp x bs) bs
  unfolding insert_by
  insert-Extract x [] = here
  insert-Extract x (b ∷ bs) =
      elim (cmp x b)
        as (λ c.
          Extract x (elim c [ Ordering.gt ↦ b ∷ insert_by cmp x bs | _ ↦ x ∷ b ∷ bs ]) (b ∷ bs)) [
            | Ordering.gt ↦ there (insert-Extract x bs)
            | Ordering.lt ↦ here
            | Ordering.eq ↦ here
          ]

  pub sort-SameBlocks : (bs : BlockList) → SameBlocks bs (sort_by cmp bs)
  unfolding sort_by
  sort-SameBlocks [] = nil
  sort-SameBlocks (b ∷ bs) = more (insert-Extract b (sort_by cmp bs)) (sort-SameBlocks bs)

pub SameBlocks-refl : (xs : BlockList) → SameBlocks xs xs
SameBlocks-refl [] = nil
SameBlocks-refl (x ∷ xs) = more here (SameBlocks-refl xs)

pub SameBlocks-append :
    {xs ys : BlockList} (zs : BlockList) → SameBlocks xs ys → SameBlocks (xs ++ zs) (ys ++ zs)
SameBlocks-append zs nil = SameBlocks-refl zs
SameBlocks-append zs (more e s) = more (Extract-append zs e) (SameBlocks-append zs s)
