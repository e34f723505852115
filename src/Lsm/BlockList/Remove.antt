-- ===== src/Lsm/BlockList/Remove.antt =====
-- `remove_anything_in` is the difference of the page sets, and what it returns the intersection.
use elmo.Common.{
  ℕ, zero, suc, ◌+◌, ◌-◌, ◌≤◌, ◌<◌, ◌≡◌, refl, sym, ◌∙◌, ltb, arith, All, inl, inr, min, max,
  Returns->>=,
}
use mathlib.Core.List.{append-nil, append_assoc}
use elmo.Common.{ap, Option-cases, ◌>>=◌}
use elmo.Common.{Bool, false, ◌&&◌, ◌||◌, not, [], ◌∷◌, ◌++◌, length, Option, some, none, Returns}
use elmo.Lsm.PageBlock.{PageBlock, intersect}
use elmo.Lsm.PageBlock
use elmo.Lsm.PageBlock.Intersect.{IsValid, part_contains, left_part, right_part}
use elmo.Lsm.PageBlock.Intersect.{common_part, intersect-eq, left_part_lem, right_part_lem}
use elmo.Lsm.PageBlock.Intersect.{common_part_lem}
use elmo.Lsm.BlockList.{
  BlockList, contains_page, push_part, put_back, remove_loop, remove_anything_in,
}
use elmo.Lsm.BlockList.{sort_and_consolidate}
use elmo.Lsm.BlockList.Pages.{AllValid, Apart, AllApart, contains_page-append}
use elmo.Lsm.BlockList.Normal.{IsAscending, IsNormal, IsAscending-le, IsAscending-below}
use elmo.Lsm.BlockList.Normal.{IsNormal-IsAscending, sort_and_consolidate_lem}

contains-push_part :
    (bs : BlockList) (o : Option PageBlock) (p : ℕ)
    → contains_page (push_part bs o) p ≡ (contains_page bs p || part_contains o p)
contains-push_part bs none p = ground arith
contains-push_part bs (some b) p = contains_page-append bs (b ∷ []) p ∙ ground arith

contains-put_back :
    (o : Option PageBlock) (bs : BlockList) (p : ℕ)
    → contains_page (put_back o bs) p ≡ (part_contains o p || contains_page bs p)
contains-put_back none bs p = refl
contains-put_back (some b) bs p = refl

-- The loop's results behind what it had before.
abbrev Result : Type 0
Result = BlockList × BlockList

-- What a run of the loop on `xs` and `ys` returns, seen at the page `p`.
record Split (lo : ℕ) (xs ys : BlockList) (p : ℕ) (r : Result) : Type 0 where
  kept : contains_page r.0 p ≡ (contains_page xs p && not (contains_page ys p))
  cut : contains_page r.1 p ≡ (contains_page xs p && contains_page ys p)
  kept_order : IsAscending lo r.0
  cut_order : IsAscending lo r.1

-- The page `p` in a round that looks at `x` and `y`: `in_xs` and `in_ys` are for the blocks behind.
module _ (x y : PageBlock) (p : ℕ) (in_xs in_ys : Bool) (vx : IsValid x) (vy : IsValid y)
    (xs_after : p < x.last_page + 1 → in_xs ≡ false)
    (ys_after : p < y.last_page + 1 → in_ys ≡ false) where
  abbrev in_xs' : Bool
  in_xs' = PageBlock.contains_page x p && ltb y.last_page p || in_xs

  abbrev in_ys' : Bool
  in_ys' = PageBlock.contains_page y p && ltb x.last_page p || in_ys

  kept_bool :
      (PageBlock.contains_page x p && ltb p y.first_page || in_xs' && not in_ys')
      ≡ ((PageBlock.contains_page x p || in_xs) && not (PageBlock.contains_page y p || in_ys))
  kept_bool = ground arith

  cut_bool :
      (PageBlock.contains_page x p && PageBlock.contains_page y p || in_xs' && in_ys')
      ≡ ((PageBlock.contains_page x p || in_xs) && (PageBlock.contains_page y p || in_ys))
  cut_bool = ground arith

module _ (x y : PageBlock) (xs ys : BlockList) (lo : ℕ) where
  abbrev m : ℕ
  m = max lo (min x.last_page y.last_page + 1)

  abbrev xs' : BlockList
  xs' = put_back (right_part x y) xs

  abbrev ys' : BlockList
  ys' = put_back (right_part y x) ys

  abbrev Round : Type 0
  Round = IsAscending lo (x ∷ xs) × IsAscending y.first_page (y ∷ ys)

  shorter : length xs' + length ys' < length (x ∷ xs) + length (y ∷ ys)
  shorter = ground arith

  rest-IsAscending : Round → IsAscending m xs'
  rest-IsAscending h = ground (arith, IsAscending-le xs (x.last_page + 1) m)

  other-IsAscending : Round → IsAscending 0 ys'
  other-IsAscending h = ground (arith, IsAscending-le ys (y.last_page + 1) 0)

  module _ (p : ℕ) (r : Result) (h : Round) (s : Split m xs' ys' p r) where
    xs_after : p < x.last_page + 1 → contains_page xs p ≡ false
    xs_after lt = IsAscending-below xs (x.last_page + 1) p h.0.2 lt

    ys_after : p < y.last_page + 1 → contains_page ys p ≡ false
    ys_after lt = IsAscending-below ys (y.last_page + 1) p h.1.2 lt

    kept_step :
        contains_page (push_part [] (left_part x y) ++ r.0) p
        ≡ (contains_page (x ∷ xs) p && not (contains_page (y ∷ ys) p))
    kept_step =
        rw
          (
            contains_page-append (push_part [] (left_part x y)) r.0 p,
            contains-push_part [] (left_part x y) p,
            (left_part_lem x y h.0.1 h.1.1 p).0,
            s.kept,
            contains-put_back (right_part x y) xs p,
            contains-put_back (right_part y x) ys p,
            (right_part_lem x y h.0.1 h.1.1 p).0,
            (right_part_lem y x h.1.1 h.0.1 p).0,
          )
          (kept_bool x y p (contains_page xs p) (contains_page ys p) h.0.1 h.1.1 xs_after ys_after)

    cut_step :
        contains_page (push_part [] (common_part x y) ++ r.1) p
        ≡ (contains_page (x ∷ xs) p && contains_page (y ∷ ys) p)
    cut_step =
        rw
          (
            contains_page-append (push_part [] (common_part x y)) r.1 p,
            contains-push_part [] (common_part x y) p,
            (common_part_lem x y h.0.1 h.1.1 p).0,
            s.cut,
            contains-put_back (right_part x y) xs p,
            contains-put_back (right_part y x) ys p,
            (right_part_lem x y h.0.1 h.1.1 p).0,
            (right_part_lem y x h.1.1 h.0.1 p).0,
          )
          (cut_bool x y p (contains_page xs p) (contains_page ys p) h.0.1 h.1.1 xs_after ys_after)

    kept_order_step : IsAscending lo (push_part [] (left_part x y) ++ r.0)
    kept_order_step = ground (
      arith,
      s.kept_order,
      IsAscending-le r.0 m (min x.last_page (y.first_page - 1) + 1),
      IsAscending-le r.0 m lo,
    )

    cut_order_step : IsAscending lo (push_part [] (common_part x y) ++ r.1)
    cut_order_step = ground (
      arith,
      s.cut_order,
      IsAscending-le r.1 m (min x.last_page y.last_page + 1),
      IsAscending-le r.1 m lo,
    )

    -- One round of the loop.
    Split-step :
        Split lo
          (x ∷ xs)
          (y ∷ ys)
          p
          (push_part [] (left_part x y) ++ r.0, push_part [] (common_part x y) ++ r.1)
    Split-step = record {
      kept = kept_step;
      cut = cut_step;
      kept_order = kept_order_step;
      cut_order = cut_order_step;
    }

push_part-append : (v : BlockList) (o : Option PageBlock) → push_part v o ≡ v ++ push_part [] o
push_part-append v none = sym (append-nil v)
push_part-append v (some b) = refl

-- The loop only appends to what it was given.
abbrev behind : BlockList → BlockList → Option Result → Option Result
behind kept cut o = o >>= λ r. some (kept ++ r.0, cut ++ r.1)

behind-behind :
    (k c k' c' : BlockList) (o : Option Result)
    → behind (k ++ k') (c ++ c') o ≡ behind k c (behind k' c' o)
behind-behind k c k' c' none = refl
behind-behind k c k' c' (some r) = simp append_assoc

remove_loop-behind :
    (fuel : ℕ) (xs ys k c : BlockList)
    → remove_loop fuel xs ys k c ≡ behind k c (remove_loop fuel xs ys [] [])
unfolding remove_loop
remove_loop-behind zero [] ys k c = simp append-nil
remove_loop-behind zero (x ∷ xs) [] k c = simp append-nil
remove_loop-behind zero (x ∷ xs) (y ∷ ys) k c = refl
remove_loop-behind (suc fuel) [] ys k c = simp append-nil
remove_loop-behind (suc fuel) (x ∷ xs) [] k c = simp append-nil
remove_loop-behind (suc fuel) (x ∷ xs) (y ∷ ys) k c = elim (Option-cases (intersect x y)) [
  | inl e ↦ rw e
  | inr (d, e) ↦
      let xs' = put_back d.a_right xs in
      let ys' = put_back d.b_right ys in
      rw e (
        remove_loop-behind fuel xs' ys' (push_part k d.a_left) (push_part c d.overlap)
        ∙ rw (push_part-append k d.a_left, push_part-append c d.overlap)
            (behind-behind k c _ _ (remove_loop fuel xs' ys' [] [])
              ∙ ap (behind k c) (
                  sym (
                    remove_loop-behind fuel xs' ys' (push_part [] d.a_left)
                      (push_part [] d.overlap)))))
]

-- With a round for each block of the two lists the loop ends, and fails no assertion.
remove_loop-Split :
    (fuel : ℕ) (xs ys : BlockList) (lo lo' p : ℕ)
    → length xs + length ys ≤ fuel
    → IsAscending lo xs
    → IsAscending lo' ys
    → Returns (remove_loop fuel xs ys [] []) (Split lo xs ys p)
unfolding remove_loop
remove_loop-Split fuel [] ys lo lo' p h ax ay = record {
  kept = refl;
  cut = refl;
  kept_order = tt;
  cut_order = tt;
}
remove_loop-Split fuel (x ∷ xs) [] lo lo' p h ax ay = record {
  kept = ground arith;
  cut = ground arith;
  kept_order = ax;
  cut_order = tt;
}
remove_loop-Split zero (x ∷ xs) (y ∷ ys) lo lo' p h ax ay = absurd (omega arith)
remove_loop-Split (suc fuel) (x ∷ xs) (y ∷ ys) lo lo' p h ax ay =
    let h' : Round x y xs ys lo = (ax, (omega arith, ay.1, ay.2)) in
    let left = push_part [] (left_part x y) in
    let common = push_part [] (common_part x y) in
    let after = remove_loop fuel (xs' x y xs ys lo) (ys' x y xs ys lo) in
    rw (intersect-eq x y ax.1 ay.1, remove_loop-behind fuel _ _ left common)
      (Returns->>= (Split (m x y xs ys lo) (xs' x y xs ys lo) (ys' x y xs ys lo) p)
        (Split lo (x ∷ xs) (y ∷ ys) p) (after [] []) _
        (remove_loop-Split fuel (xs' x y xs ys lo) (ys' x y xs ys lo) (m x y xs ys lo) 0 p
          (omega (arith, shorter x y xs ys lo)) (rest-IsAscending x y xs ys lo h')
          (other-IsAscending x y xs ys lo h'))
        (λ r s. Split-step x y xs ys lo p r h' s))

IsAscending-AllValid : (bs : BlockList) (lo : ℕ) → IsAscending lo bs → AllValid bs
IsAscending-AllValid [] lo a = tt
IsAscending-AllValid (b ∷ bs) lo a = (a.1, IsAscending-AllValid bs (b.last_page + 1) a.2)

IsAscending-Apart :
    (b : PageBlock) (bs : BlockList) (lo : ℕ)
    → b.last_page < lo
    → IsAscending lo bs
    → All (Apart b) bs
IsAscending-Apart b [] lo h a = tt
IsAscending-Apart b (c ∷ bs) lo h a =
    (inl (omega arith), IsAscending-Apart b bs (c.last_page + 1) (omega arith) a.2)

pub IsAscending-AllApart : (bs : BlockList) (lo : ℕ) → IsAscending lo bs → AllApart bs
IsAscending-AllApart [] lo a = tt
IsAscending-AllApart (b ∷ bs) lo a = (
  IsAscending-Apart b bs (b.last_page + 1) (omega arith) a.2,
  IsAscending-AllApart bs (b.last_page + 1) a.2,
)

-- `sort_and_consolidate` of a list in order.
again :
    (bs : BlockList) (lo p : ℕ)
    → IsAscending lo bs
    → (contains_page (sort_and_consolidate bs) p ≡ contains_page bs p)
      × IsNormal 0 (sort_and_consolidate bs)
again bs lo p a =
    let t =
      sort_and_consolidate_lem bs p (IsAscending-AllValid bs lo a) (IsAscending-AllApart bs lo a) in
    (t.0, t.2)

-- What `remove_anything_in` promises of the page `p`.
abbrev pub Removed : BlockList → BlockList → ℕ → Result → Type 0
Removed bs other p r =
    (contains_page r.0 p ≡ (contains_page bs p && not (contains_page other p)))
    × (contains_page r.1 p ≡ (contains_page bs p && contains_page other p))

-- On lists of valid blocks that do not overlap within a list, `remove_anything_in` ends without a
-- failed assertion. It leaves the pages of `self` that are not in `other`, and returns those that are.
pub remove_anything_in_lem :
    (bs other : BlockList) (p : ℕ)
    → AllValid bs × AllApart bs
    → AllValid other × AllApart other
    → Returns (remove_anything_in bs other) λ r.
      (contains_page r.0 p ≡ (contains_page bs p && not (contains_page other p)))
      × (contains_page r.1 p ≡ (contains_page bs p && contains_page other p))
unfolding remove_anything_in
remove_anything_in_lem [] other p hb ho = (refl, refl)
remove_anything_in_lem (b ∷ bs) [] p hb ho = (ground arith, ground arith)
remove_anything_in_lem (b ∷ bs) (c ∷ cs) p hb ho =
    let xs = sort_and_consolidate (b ∷ bs) in
    let ys = sort_and_consolidate (c ∷ cs) in
    let nx = sort_and_consolidate_lem (b ∷ bs) p hb.0 hb.1 in
    let ny = sort_and_consolidate_lem (c ∷ cs) p ho.0 ho.1 in
    Returns->>= (Split 0 xs ys p) (Removed (b ∷ bs) (c ∷ cs) p)
      (remove_loop (length xs + length ys) xs ys [] []) _
      (remove_loop-Split (length xs + length ys) xs ys 0 0 p (omega arith)
        (IsNormal-IsAscending xs 0 nx.2) (IsNormal-IsAscending ys 0 ny.2))
      (λ r s. (
        (again r.0 0 p s.kept_order).0 ∙ s.kept ∙ rw (nx.0, ny.0),
        (again r.1 0 p s.cut_order).0 ∙ s.cut ∙ rw (nx.0, ny.0),
      ))
