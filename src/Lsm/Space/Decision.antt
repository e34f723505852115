-- ===== src/Lsm/Space/Decision.antt =====
-- The decision of `get_block` where the pages come from.
use elmo.Common.{ℕ, ◌≡◌, refl, ◌∙◌, ap, arith, false}
use elmo.Common.{true, false, [], ◌∷◌, some, none, Returns, Returns->>=}
use elmo.Common.{Bool-cases, inl, inr}
use elmo.Lsm.PageBlock.{PageBlock}
use elmo.Lsm.BlockList
use elmo.Lsm.BlockList.{BlockList, remove_block}
use elmo.Lsm.Space.{Space, from_where, from_free, end_at_least, end}
use elmo.Lsm.Space.{first_free}
use elmo.Lsm.Space.Request.{
  BlockRequest, any, exact_size, minimum_size, early_exact_size, start_or_any,
  start_or_after_minimum_size, any_is, start_is,
}
use elmo.Lsm.Space.Find.{
  find_block_starting_at, find_block_minimum_size, find_earliest_block_minimum_size,
  find_block_after_minimum_size,
}
use elmo.Lsm.Space.Find.Picks.{
  Picks, BigEnough, After, any_is-after, find_block_starting_at-Picks, find_block_starting_at-none,
  starts_in, starts_in-remove_block,
}
use elmo.Lsm.Space.Find.Picks.{
  find_block_minimum_size-IsSmaller, IsSmaller, find_earliest-Picks,
  find_block_after_minimum_size-Picks,
}
use elmo.Lsm.Space.Used.{IsValid}
use elmo.Lsm.Space.Alloc.{Gives}
use elmo.Lsm.Space.Answers.{
  IsAllowed, Answers, specific_or-Gives, exact_or-Gives, end-Gives, end_at_least-Gives,
}

-- The decision where there are free blocks.
module _ (s : Space) (b : PageBlock) (bs : BlockList) (v : IsValid s)
    (e : s.free_blocks ≡ b ∷ bs) where
  some_free : BlockList.is_empty s.free_blocks ≡ false
  some_free = rw e refl

  first_free-Gives :
      (Q : PageBlock × Space → Type 0)
      → ((i : ℕ) (r : PageBlock × BlockList)
          → remove_block s.free_blocks i ≡ some r
          → Q (r.0, record s { free_blocks = r.1 }))
      → Gives Q s first_free
  unfolding remove_block
  first_free-Gives Q k =
      let first : remove_block s.free_blocks 0 ≡ some (b, bs) = rw e refl in
      rw first (k 0 (b, bs) first)

  from_free-Gives :
      (req : BlockRequest)
      → IsAllowed s req
      → Returns (from_free s req) (Gives (Answers s.pages_per_block req) s)
  from_free-Gives any a = first_free-Gives (λ r. Unit) (λ i r e. tt)
  from_free-Gives (exact_size n) a =
      let Q = Answers s.pages_per_block (exact_size n) in
      Returns->>=
        (λ o. Picks (BigEnough n) s.free_blocks o × (o ≡ none → IsSmaller n s.free_blocks))
        (Gives Q s) (find_block_minimum_size s.free_blocks n) _
        (rw e (find_block_minimum_size-IsSmaller b bs n))
        (λ o h.
          exact_or-Gives Q s o n (end_at_least s n) a h.0 (λ r k. inl k)
            (λ z. end_at_least-Gives s n Q v some_free (λ r f l k. inr (rw l (h.1 z), k))))
  from_free-Gives (minimum_size n) a =
      let Q = Answers s.pages_per_block (minimum_size n) in
      Returns->>=
        (λ o. Picks (BigEnough n) s.free_blocks o × (o ≡ none → IsSmaller n s.free_blocks))
        (Gives Q s) (find_block_minimum_size s.free_blocks n) _
        (rw e (find_block_minimum_size-IsSmaller b bs n))
        (λ o h.
          specific_or-Gives Q (BigEnough n) s o (end_at_least s n) h.0 (λ i r q k. inl k)
            (λ z. end_at_least-Gives s n Q v some_free (λ r f l k. inr (rw l (h.1 z), k))))
  from_free-Gives (early_exact_size n) a =
      exact_or-Gives (Answers s.pages_per_block (early_exact_size n)) s
        (find_earliest_block_minimum_size s.free_blocks n) n (end n) a
        (rw e (find_earliest-Picks b bs n)) (λ r h. h) (λ z. (a, omega arith))
  from_free-Gives (start_or_any st) a =
      let Q = Answers s.pages_per_block (start_or_any st) in
      specific_or-Gives Q (λ c. any_is st c.first_page ≡ true) s
        (find_block_starting_at s.free_blocks st) first_free
        (find_block_starting_at-Picks s.free_blocks st) (λ i r q h. inl h)
        (λ z. first_free-Gives Q (λ i r q. inr (
          starts_in-remove_block st s.free_blocks i r q
            (find_block_starting_at-none s.free_blocks st z))))
  from_free-Gives (start_or_after_minimum_size st after n) a =
      let Q = Answers s.pages_per_block (start_or_after_minimum_size st after n) in
      rw a.1 (
        specific_or-Gives Q (λ c. any_is st c.first_page ≡ true) s
          (find_block_starting_at s.free_blocks st) _
          (find_block_starting_at-Picks s.free_blocks st)
          (λ i r q h. (any_is-after st after r.0.first_page h a.1, inl h))
          (λ z.
            let absent = find_block_starting_at-none s.free_blocks st z in
            specific_or-Gives Q (After after n) s
              (find_block_after_minimum_size s.free_blocks after n) _
              (find_block_after_minimum_size-Picks s.free_blocks after n)
              (λ i r q h.
                (h.1, inr (starts_in-remove_block st s.free_blocks i r q absent, inl h.0)))
              (λ y. end_at_least-Gives s n Q v some_free (λ r f l k. (
                ground (arith, a.0, f),
                inr (
                  ap (starts_in st) l ∙ absent,
                  inr (ap (λ bs. find_block_after_minimum_size bs after n) l ∙ y, k),
                ),
              )))))

start-Gives :
    (s : Space) (req : BlockRequest)
    → IsValid s
    → IsAllowed s req
    → start_is req s.next_page ≡ true
    → Gives (Answers s.pages_per_block req) s (end s.pages_per_block)
start-Gives s any v a e = cc
start-Gives s (exact_size n) v a e = cc
start-Gives s (minimum_size n) v a e = cc
start-Gives s (early_exact_size n) v a e = cc
start-Gives s (start_or_any st) v a e = (v.grows, inl e)
start-Gives s (start_or_after_minimum_size st after n) v a e =
    (v.grows, (ground (arith, a.0), inl e))

pub from_where_lem :
    (s : Space) (req : BlockRequest)
    → IsValid s
    → IsAllowed s req
    → Returns (from_where s req) (Gives (Answers s.pages_per_block req) s)
unfolding from_where
from_where_lem s req v a = elim (Bool-cases (BlockList.is_empty s.free_blocks)) [
  | inl e ↦ let g = end-Gives s req v a (no_block s.free_blocks e) in rw e g
  | inr e ↦ elim (Bool-cases (start_is req s.next_page)) [
    | inl st ↦ let g = start-Gives s req v a st in rw (e, st) g
    | inr st ↦
        let c = some_block s.free_blocks e in
        let g = from_free-Gives s c.0 c.1 v c.2 req a in rw (e, st) g
  ]
]
  where
    no_block : (xs : BlockList) → BlockList.is_empty xs ≡ true → xs ≡ []
    no_block [] e = refl
    no_block (x ∷ xs) e = cc

    some_block :
        (xs : BlockList)
        → BlockList.is_empty xs ≡ false
        → (c : PageBlock) × (cs : BlockList) × (xs ≡ c ∷ cs)
    some_block [] e = cc
    some_block (x ∷ xs) e = (x, xs, refl)
