-- ===== src/Lsm/Space/Alloc.antt =====
-- `get_block` hands out pages that nobody uses, and `add_free_blocks` takes them back.
use elmo.Common.{ℕ, ◌+◌, ◌-◌, ◌≤◌, ◌<◌, ◌≡◌, refl, leb, ltb, ◌==◌, arith, All}
use elmo.Common.{true, false, ◌&&◌, ◌||◌, List, [], ◌∷◌, ◌++◌, some, Returns}
use elmo.Common.{Bool-cases, Option-cases, inl, inr, ◌>>=◌, Returns-both}
use mathlib.Core.Path.{subst}
use elmo.Lsm.BlockList
use elmo.Lsm.PageBlock.{PageBlock}
use elmo.Lsm.PageBlock
use elmo.Lsm.PageBlock.Intersect.{IsValid as IsBlock}
use elmo.Lsm.BlockList.{BlockList, contains_page, remove_block}
use elmo.Lsm.BlockList.Pages.{Apart}
use elmo.Lsm.BlockList.Same.{
  Extract, Extract-append, Extract-All, Extract-AllApart, Extract-contains,
}
use elmo.Lsm.BlockList.Same.{
  remove_block-Extract, Extract-All_back, Extract-AllApart_back, here, there,
}
use elmo.Lsm.Space.{
  Space, add_recent, FromWhere, end, first_free, specific_free, specific_free_exact,
}
use elmo.Lsm.Space.{take_from}
use elmo.Lsm.Space.Used.{free_list, is_used, InFile, IsValid, InFile-contains, InFile-le}

-- What a caller of `get_block` gets, seen at page `p`: a block whose pages were not in use, and a
-- state in which exactly they have become so.
pub record Allocates (s : Space) (p : ℕ) (r : PageBlock × Space) : Type 0 where
  pub valid : IsValid r.1
  pub block : IsBlock r.0
  pub fresh : (PageBlock.contains_page r.0 p && is_used s p) ≡ false
  pub marked : is_used r.1 p ≡ (is_used s p || PageBlock.contains_page r.0 p)

add_recent-Extract :
    {b : PageBlock} {xs ys : BlockList} (ls : List BlockList)
    → Extract b xs ys
    → Extract b (add_recent xs ls) (add_recent ys ls)
add_recent-Extract [] e = e
add_recent-Extract (l ∷ ls) e = add_recent-Extract ls (Extract-append l e)

-- A page of a free block is in no other.
Apart-contains :
    (b : PageBlock) (bs : BlockList) (p : ℕ)
    → All (Apart b) bs
    → PageBlock.contains_page b p ≡ true
    → contains_page bs p ≡ false
Apart-contains b [] p h e = refl
Apart-contains b (c ∷ bs) p h e = ground (arith, Apart-contains b bs p h.1)

pub add_recent-append :
    (xs : BlockList) (ls : List BlockList) (l : BlockList)
    → add_recent xs (ls ++ (l ∷ [])) ≡ add_recent xs ls ++ l
add_recent-append xs [] l = refl
add_recent-append xs (m ∷ ls) l = add_recent-append (xs ++ m) ls l

Extract-last : (b : PageBlock) (bs : BlockList) → Extract b (bs ++ (b ∷ [])) bs
Extract-last b [] = here
Extract-last b (c ∷ bs) = there (Extract-last b bs)

-- A part of a block.
Apart-within :
    (b c : PageBlock) (bs : BlockList)
    → b.first_page ≤ c.first_page
    → c.last_page ≤ b.last_page
    → All (Apart b) bs
    → All (Apart c) bs
Apart-within b c [] h k a = tt
Apart-within b c (d ∷ bs) h k a = (omega arith, Apart-within b c bs h k a.1)

module _ (s : Space) (p : ℕ) (v : IsValid s) where
  -- Taking a block off the list.
  taken :
      (i : ℕ) (r : PageBlock × BlockList)
      → remove_block s.free_blocks i ≡ some r
      → Allocates s p (r.0, record s { free_blocks = r.1 })
  taken i r e =
      let x = add_recent-Extract s.recent_free (remove_block-Extract s.free_blocks i r e) in
      let f = Extract-All (InFile s.next_page) x v.free.in_file in
      let d = Extract-AllApart x v.free.apart in
      let c = Extract-contains p x in
      record {
        valid = record {
          free = record { in_file = f.1; apart = d.1 };
          positive = v.positive;
          grows = v.grows;
        };
        block = f.0.1;
        fresh = rw c (ground arith);
        marked = rw c (ground (arith, Apart-contains r.0 (add_recent r.1 s.recent_free) p d.0));
      }

  -- Taking pages off the end of the file.
  taken_end : (size : ℕ) → 1 ≤ size → Returns (take_from s (end size)) (Allocates s p)
  unfolding take_from PageBlock.new
  taken_end size h =
      let room : leb s.next_page (s.next_page + size - 1) ≡ true = ground arith in
      rw room record {
        valid = record {
          free = record {
            in_file =
                InFile-le s.next_page (s.next_page + size) (free_list s) (omega arith)
                  v.free.in_file;
            apart = v.free.apart;
          };
          positive = omega arith;
          grows = v.grows;
        };
        block = omega arith;
        fresh = ground arith;
        marked = ground (arith, InFile-contains s.next_page (free_list s) p v.free.in_file);
      }

  -- Taking the first pages of a block, and freeing the others again.
  module _ (size i : ℕ) (r : PageBlock × BlockList) (e : remove_block s.free_blocks i ≡ some r)
      (h : 1 ≤ size) (less : size < PageBlock.count_pages r.0) where
    abbrev front : PageBlock
    front = record r.0 { last_page = r.0.first_page + size - 1 }

    abbrev back : PageBlock
    back = record { first_page = r.0.first_page + size; last_page = r.0.last_page }

    abbrev split_state : Space
    split_state = record s { free_blocks = r.1; recent_free = s.recent_free ++ ((back ∷ []) ∷ []) }

    split_block : Allocates s p (front, split_state)
    split_block =
        let x = add_recent-Extract s.recent_free (remove_block-Extract s.free_blocks i r e) in
        let f = Extract-All (InFile s.next_page) x v.free.in_file in
        let d = Extract-AllApart x v.free.apart in
        let c = Extract-contains p x in
        let rest = add_recent r.1 s.recent_free in
        let y = Extract-last back rest in
        let at_end = add_recent-append r.1 s.recent_free (back ∷ []) in
        record {
          valid = record {
            free = rw at_end record {
              in_file = Extract-All_back (InFile s.next_page) y (omega arith) f.1;
              apart =
                  Extract-AllApart_back y
                    (Apart-within r.0 back rest (omega arith) (omega arith) d.0) d.1;
            };
            positive = v.positive;
            grows = v.grows;
          };
          block = omega arith;
          fresh = rw c (ground arith);
          marked =
              rw (at_end, Extract-contains p y, c) (ground (arith, Apart-contains r.0 rest p d.0));
        }

-- The block that a decision leads to can be taken, and `Q` holds of it and the new state, whatever
-- is freed of a block that is split.
abbrev pub Gives : (PageBlock × Space → Type 0) → Space → FromWhere → Type 0
Gives Q s (end n) =
    (1 ≤ n)
    × Q (
      record { first_page = s.next_page; last_page = s.next_page + n - 1 },
      record s { next_page = s.next_page + n },
    )
Gives Q s first_free =
    Returns (remove_block s.free_blocks 0) (λ r. Q (r.0, record s { free_blocks = r.1 }))
Gives Q s (specific_free i) =
    Returns (remove_block s.free_blocks i) (λ r. Q (r.0, record s { free_blocks = r.1 }))
Gives Q s (specific_free_exact i n) =
    (1 ≤ n)
    × Returns (remove_block s.free_blocks i) (λ r.
      (n ≤ PageBlock.count_pages r.0)
      × ((freed : List BlockList)
          → Q (
            record r.0 { last_page = r.0.first_page + n - 1 },
            record s { free_blocks = r.1; recent_free = freed },
          )))

abbrev pub Gets : (PageBlock × Space → Type 0) → Space → ℕ → PageBlock × Space → Type 0
Gets Q s p r = Allocates s p r × Q r

ltb-lt : {a b : ℕ} → ltb a b ≡ true → a < b
ltb-lt h = ground arith

module _ (Q : PageBlock × Space → Type 0) (s : Space) (p : ℕ) (v : IsValid s) where
  take_free :
      (i : ℕ)
      → Returns (remove_block s.free_blocks i) (λ r. Q (r.0, record s { free_blocks = r.1 }))
      → Returns
          (remove_block s.free_blocks i >>= λ r. some (r.0, record s { free_blocks = r.1 }))
          (Gets Q s p)
  take_free i h = elim (Option-cases (remove_block s.free_blocks i)) [
    | inl e ↦ absurd (rw e at h)
    | inr (r, e) ↦ rw e (taken s p v i r e, rw e at h)
  ]

  take_exact :
      (i n : ℕ)
      → Gives Q s (specific_free_exact i n)
      → Returns (take_from s (specific_free_exact i n)) (Gets Q s p)
  unfolding take_from PageBlock.new BlockList.add_block_no_reorder
  take_exact i n h = elim (Option-cases (remove_block s.free_blocks i)) [
    | inl e ↦ absurd (rw e at h.1)
    | inr (r, e) ↦
        let k = rw e at h.1 in
        elim (Bool-cases (ltb n (PageBlock.count_pages r.0))) [
          | inl lt ↦
              let room : leb (r.0.first_page + n) r.0.last_page ≡ true = ground arith in
              let exact : (PageBlock.count_pages (front s p v n i r e h.0 (ltb-lt lt)) == n)
                  ≡ true =
                ground arith in
              rw (e, lt, room, exact)
                (
                  split_block s p v n i r e h.0 (ltb-lt lt),
                  k.1 (s.recent_free ++ ((back s p v n i r e h.0 (ltb-lt lt) ∷ []) ∷ [])),
                )
          | inr ge ↦
              let t = taken s p v i r e in
              let whole : record r.0 { last_page = r.0.first_page + n - 1 } ≡ r.0 =
                ground (arith, t.block) in
              let exact : (PageBlock.count_pages r.0 == n) ≡ true = ground arith in
              rw (e, ge, exact)
                (t, subst (λ b. Q (b, record s { free_blocks = r.1 })) whole (k.1 s.recent_free))
        ]
  ]

  pub take_from_lem : (f : FromWhere) → Gives Q s f → Returns (take_from s f) (Gets Q s p)
  unfolding take_from
  take_from_lem (end n) h =
      let room : leb s.next_page (s.next_page + n - 1) ≡ true = ground arith in
      Returns-both (Allocates s p) Q (take_from s (end n)) (taken_end s p v n h.0)
        (unfold PageBlock.new in rw room h.1)
  take_from_lem first_free h = take_free 0 h
  take_from_lem (specific_free i) h = take_free i h
  take_from_lem (specific_free_exact i n) h = take_exact i n h
