-- ===== src/Lsm/Space/Used.antt =====
-- The abstract view of a `Space`: the set of pages that are in use.
use elmo.Common.{ℕ, ◌≤◌, ◌<◌, ◌≡◌, ltb, arith, All}
use elmo.Common.{Bool, true, ◌&&◌, not, [], ◌∷◌}
use elmo.Lsm.PageBlock.{PageBlock}
use elmo.Lsm.BlockList.{BlockList, contains_page}
use elmo.Lsm.BlockList.Pages.{AllValid, AllApart}
use elmo.Lsm.BlockList.Same.{SameBlocks, SameBlocks-All, SameBlocks-AllApart}
use elmo.Lsm.Space.{Space, add_recent}

-- Every free block: the organised ones, and those freed lately.
abbrev pub free_list : Space → BlockList
free_list s = add_recent s.free_blocks s.recent_free

-- A page is in use if it stands before `next_page` and is not free.
abbrev pub is_used : Space → ℕ → Bool
is_used s p = ltb p s.next_page && not (contains_page (free_list s) p)

-- A block of pages before page `n`.
abbrev pub InFile : ℕ → PageBlock → Type 0
InFile n b = (1 ≤ b.first_page) × (b.first_page ≤ b.last_page) × (b.last_page < n)

-- A free list of a file that ends before page `n`: no page is free twice.
pub record IsFree (n : ℕ) (bs : BlockList) : Type 0 where
  pub in_file : All (InFile n) bs
  pub apart : AllApart bs

pub record IsValid (s : Space) : Type 0 where
  pub free : IsFree s.next_page (free_list s)
  pub positive : 1 ≤ s.next_page
  pub grows : 1 ≤ s.pages_per_block

pub IsFree-SameBlocks : {n : ℕ} {xs ys : BlockList} → SameBlocks xs ys → IsFree n xs → IsFree n ys
IsFree-SameBlocks {n} s f = record {
  in_file = SameBlocks-All (InFile n) s f.in_file;
  apart = SameBlocks-AllApart s f.apart;
}

pub InFile-AllValid : (n : ℕ) (bs : BlockList) → All (InFile n) bs → AllValid bs
InFile-AllValid n [] h = tt
InFile-AllValid n (b ∷ bs) h = (h.0.1, InFile-AllValid n bs h.1)

pub InFile-contains :
    (n : ℕ) (bs : BlockList) (p : ℕ)
    → All (InFile n) bs
    → contains_page bs p ≡ true
    → (1 ≤ p) × (p < n)
InFile-contains n [] p h e = cc
InFile-contains n (b ∷ bs) p h e = ground (arith, InFile-contains n bs p h.1)

pub InFile-le : (n m : ℕ) (bs : BlockList) → n ≤ m → All (InFile n) bs → All (InFile m) bs
InFile-le n m [] h a = tt
InFile-le n m (b ∷ bs) h a = ground (arith, InFile-le n m bs)
