-- ===== src/Lsm/BlockList/Codec.antt =====
-- lsm/src/lib.rs, the encoding of a `BlockList` on a page: `encode_as_u64_list`,
-- `encode_into_vec` and `read`. `u64` arithmetic wraps.
pub mod RoundTrip
use elmo.Common.{ℕ, zero, suc, ◌+◌, ◌-◌, ◌%◌, ◌^◌, ltb, length}
use elmo.Common.{Option, none, some, ◌>>=◌, ◌>>◌, guard, List, [], ◌∷◌, ◌++◌}
use elmo.Varint.{push_varint}
use elmo.Varint
use elmo.Lsm.PageBlock.{PageBlock}
use elmo.Lsm.PageBlock
use elmo.Lsm.BlockList.{BlockList}

abbrev pub add_u64 : ℕ → ℕ → ℕ
add_u64 a b = (a + b) % 2 ^ 64

abbrev pub sub_u64 : ℕ → ℕ → ℕ
sub_u64 a b = (a + 2 ^ 64 - b) % 2 ^ 64

-- The loop over the blocks behind the first, whose `first_page` is `first`: it asserts that each
-- starts after it.
unfoldable pub encode_others : ℕ → BlockList → Option (List ℕ)
encode_others first [] = some []
encode_others first (b ∷ bs) = do
  guard (ltb first b.first_page)
  rest ← encode_others first bs
  some (sub_u64 b.first_page first ∷ sub_u64 b.last_page b.first_page ∷ rest)

unfoldable pub encode_as_u64_list : BlockList → List ℕ → Option (List ℕ)
unfolding encode_others
encode_as_u64_list [] a = some (a ++ (0 ∷ []))
encode_as_u64_list (b ∷ bs) a = do
  rest ← encode_others b.first_page bs
  some (a ++ (length (b ∷ bs) ∷ b.first_page ∷ sub_u64 b.last_page b.first_page ∷ rest))

-- `for n in a { push_varint(v, n); }`
unfoldable pub push_varints : List ℕ → List ℕ → Option (List ℕ)
push_varints v [] = some v
push_varints v (n ∷ ns) = push_varint v n >>= λ v'. push_varints v' ns

unfoldable pub encode_into_vec : BlockList → List ℕ → Option (List ℕ)
unfolding encode_as_u64_list push_varints
encode_into_vec bs v = encode_as_u64_list bs [] >>= λ a. push_varints v a

-- `if i > 0 { list.blocks[0].first_page } else { 0 }`
abbrev base_of : BlockList → ℕ
base_of [] = 0
base_of (b ∷ bs) = b.first_page

-- The rounds of `read` that are left, with the blocks so far and `*cur`.
unfoldable pub read_blocks : ℕ → List ℕ → ℕ → BlockList → Option (BlockList × ℕ)
read_blocks zero pr cur list = some (list, cur)
read_blocks (suc rounds) pr cur list = do
  (n, cur1) ← Varint.read pr cur
  (offset, cur2) ← Varint.read pr cur1
  let first = add_u64 n (base_of list)
  b ← PageBlock.new first (add_u64 first offset)
  read_blocks rounds pr cur2 (list ++ (b ∷ []))

unfoldable pub read : List ℕ → ℕ → Option (BlockList × ℕ)
unfolding read_blocks
read pr cur = do (count_blocks, cur1) ← Varint.read pr cur; read_blocks count_blocks pr cur1 []
