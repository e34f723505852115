-- ===== src/Lsm/BlockList/Codec/RoundTrip.antt =====
-- `read` undoes `encode_into_vec`.
use mathlib.Core.List.{append-nil, append_assoc}
use elmo.Common.{ℕ, suc, ◌^◌, ◌≤◌, ◌<◌, ◌≡◌, refl, sym, ap, ◌∙◌, arith, All, ltb, true}
use elmo.Common.{some, List, [], ◌∷◌, ◌++◌, length, length-append}
use elmo.Varint.{IsU64, bytes_of, push_varint}
use elmo.Varint
use elmo.Varint.RoundTrip.{read-bytes_of}
use elmo.Varint.Buffer.{push_varint_lem}
use elmo.Lsm.PageBlock.{PageBlock}
use elmo.Lsm.PageBlock
use elmo.Lsm.PageBlock.Intersect.{IsValid}
use elmo.Lsm.BlockList.{BlockList}
use elmo.Lsm.BlockList.Codec.{encode_others, encode_into_vec, push_varints}
use elmo.Lsm.BlockList.Codec.{add_u64, sub_u64, base_of, read_blocks, read}

-- A block of pages that a `u64` numbers.
abbrev pub IsU64Block : PageBlock → Type 0
IsU64Block b = IsValid b × (b.last_page < 2 ^ 64)

-- What `encode_as_u64_list` needs: the first block is the lowest.
abbrev pub IsEncodable : BlockList → Type 0
IsEncodable [] = Unit
IsEncodable (b ∷ bs) =
    (length (b ∷ bs) < 2 ^ 64)
    × IsU64Block b
    × All (λ c. IsU64Block c × (b.first_page < c.first_page)) bs

abbrev bytes_of_all : List ℕ → List ℕ
bytes_of_all [] = []
bytes_of_all (n ∷ ns) = bytes_of n ++ bytes_of_all ns

push_varints_lem : (v ns : List ℕ) → All IsU64 ns → push_varints v ns ≡ some (v ++ bytes_of_all ns)
unfolding push_varints
push_varints_lem v [] h = ap some (sym (append-nil v))
push_varints_lem v (n ∷ ns) h = rw (push_varint_lem v n h.0) (
    push_varints_lem (v ++ bytes_of n) ns h.1
    ∙ ap some (append_assoc v (bytes_of n) (bytes_of_all ns)))

-- The numbers for the blocks behind the first.
abbrev others : ℕ → BlockList → List ℕ
others first [] = []
others first (b ∷ bs) =
    sub_u64 b.first_page first ∷ sub_u64 b.last_page b.first_page ∷ others first bs

abbrev AreOthers : ℕ → BlockList → Type 0
AreOthers first bs = All (λ c. IsU64Block c × (first < c.first_page)) bs

others-IsU64 : (first : ℕ) (bs : BlockList) → All IsU64 (others first bs)
others-IsU64 first [] = tt
others-IsU64 first (b ∷ bs) = (omega arith, (omega arith, others-IsU64 first bs))

encode_others_lem :
    (first : ℕ) (bs : BlockList)
    → AreOthers first bs
    → encode_others first bs ≡ some (others first bs)
unfolding encode_others
encode_others_lem first [] h = refl
encode_others_lem first (b ∷ bs) h =
    let after : ltb first b.first_page ≡ true = ground arith in
    rw (after, encode_others_lem first bs h.1)

-- `buf` is read from behind `pre` on.
reads :
    (buf pre rest : List ℕ) (v : ℕ)
    → IsU64 v
    → buf ≡ pre ++ (bytes_of v ++ rest)
    → Varint.read buf (length pre) ≡ some (v, length (pre ++ bytes_of v))
reads buf pre rest v h e = rw (e, length-append pre (bytes_of v)) (read-bytes_of pre rest v h)

module _ (first : ℕ) (done : BlockList) (e : base_of done ≡ first) (b : PageBlock)
    (h : IsU64Block b) (after : first ≤ b.first_page) where
  first_back : add_u64 (sub_u64 b.first_page first) (base_of done) ≡ b.first_page
  first_back = omega arith

  last_back : add_u64 b.first_page (sub_u64 b.last_page b.first_page) ≡ b.last_page
  last_back = omega arith

  new_back : PageBlock.new b.first_page b.last_page ≡ some b
  unfolding PageBlock.new
  new_back = ground arith

  -- A round of `read_blocks`.
  read_round :
      (rounds : ℕ) (buf pre rest : List ℕ)
      → buf
        ≡ pre
          ++ (bytes_of (sub_u64 b.first_page first)
              ++ (bytes_of (sub_u64 b.last_page b.first_page) ++ rest))
      → read_blocks (suc rounds) buf (length pre) done
        ≡ read_blocks rounds buf
            (length (
              (pre ++ bytes_of (sub_u64 b.first_page first))
              ++ bytes_of (sub_u64 b.last_page b.first_page)))
            (done ++ (b ∷ []))
  unfolding read_blocks
  read_round rounds buf pre rest eq =
      let n = sub_u64 b.first_page first in
      let o = sub_u64 b.last_page b.first_page in
      rw (
        reads buf pre (bytes_of o ++ rest) n (omega arith) eq,
        reads buf (pre ++ bytes_of n) rest o (omega arith)
            (eq ∙ sym (append_assoc pre (bytes_of n) (bytes_of o ++ rest))),
        first_back,
        last_back,
        new_back,
      )

read_blocks_lem :
    (bs : BlockList) (d : PageBlock) (ds : BlockList) (buf pre rest : List ℕ)
    → AreOthers d.first_page bs
    → buf ≡ pre ++ (bytes_of_all (others d.first_page bs) ++ rest)
    → read_blocks (length bs) buf (length pre) (d ∷ ds)
      ≡ some ((d ∷ ds) ++ bs, length (pre ++ bytes_of_all (others d.first_page bs)))
read_blocks_lem [] d ds buf pre rest h eq = unfold read_blocks in simp append-nil
read_blocks_lem (b ∷ bs) d ds buf pre rest h eq =
    let n = bytes_of (sub_u64 b.first_page d.first_page) in
    let o = bytes_of (sub_u64 b.last_page b.first_page) in
    let tail = bytes_of_all (others d.first_page bs) in
    let eq1 : buf ≡ pre ++ (n ++ (o ++ (tail ++ rest))) = eq ∙ simp append_assoc in
    read_round d.first_page (d ∷ ds) refl b h.0.0 (omega arith) (length bs) buf pre (tail ++ rest)
      eq1
    ∙ read_blocks_lem bs d (ds ++ (b ∷ [])) buf ((pre ++ n) ++ o) rest h.1 (eq1 ∙ simp append_assoc)
    ∙ simp append_assoc

-- What `encode_as_u64_list` pushes for a list that is not empty.
abbrev numbers : PageBlock → BlockList → List ℕ
numbers b bs =
    length (b ∷ bs) ∷ b.first_page ∷ sub_u64 b.last_page b.first_page ∷ others b.first_page bs

-- The bytes that `encode_into_vec` writes.
abbrev pub encoding : BlockList → List ℕ
encoding [] = bytes_of 0
encoding (b ∷ bs) = bytes_of_all (numbers b bs)

read_list :
    (b : PageBlock) (bs : BlockList) (v rest : List ℕ)
    → IsEncodable (b ∷ bs)
    → read (v ++ (encoding (b ∷ bs) ++ rest)) (length v)
      ≡ some (b ∷ bs, length (v ++ encoding (b ∷ bs)))
unfolding read
read_list b bs v rest h =
    let buf = v ++ (encoding (b ∷ bs) ++ rest) in
    let count = bytes_of (length (b ∷ bs)) in
    let n = bytes_of (sub_u64 b.first_page 0) in
    let o = bytes_of (sub_u64 b.last_page b.first_page) in
    let tail = bytes_of_all (others b.first_page bs) in
    let same : sub_u64 b.first_page 0 ≡ b.first_page = omega arith in
    let eq : buf ≡ v ++ (count ++ (n ++ (o ++ (tail ++ rest)))) = rw same (simp append_assoc) in
    let eq1 : buf ≡ (v ++ count) ++ (n ++ (o ++ (tail ++ rest))) = eq ∙ simp append_assoc in
    rw (reads buf v _ (length (b ∷ bs)) h.0 eq) (
      read_round 0 [] refl b h.1 (omega arith) (length bs) buf (v ++ count) (tail ++ rest) eq1
      ∙ read_blocks_lem bs b [] buf (((v ++ count) ++ n) ++ o) rest h.2 (eq1 ∙ simp append_assoc)
      ∙ rw same (simp append_assoc))

-- A list of `u64` blocks of which the first is the lowest is encoded without a failed assertion,
-- behind what the vector holds, and `read` at that place returns it and moves past the encoding.
pub read-encode_into_vec :
    (bs : BlockList) (v rest : List ℕ)
    → IsEncodable bs
    → (encode_into_vec bs v ≡ some (v ++ encoding bs))
      × (read (v ++ (encoding bs ++ rest)) (length v) ≡ some (bs, length (v ++ encoding bs)))
unfolding encode_into_vec read
read-encode_into_vec [] v rest h = (
  push_varints_lem v (0 ∷ []) (omega arith, tt) ∙ rw append-nil,
  rw (reads _ v rest 0 (omega arith) refl),
)
read-encode_into_vec (b ∷ bs) v rest h = (
  rw (encode_others_lem b.first_page bs h.2) (
      push_varints_lem v (numbers b bs)
        (h.0, (omega arith, (omega arith, others-IsU64 b.first_page bs)))),
  read_list b bs v rest h,
)
