-- ===== src/Varint/Tests.antt =====
-- Runs of the varint functions, and the theorems at concrete inputs.
use elmo.Common.{◌≡◌, refl, [], ◌∷◌, ◌+◌, some, none, take, drop, arith}
use elmo.Varint.{write, read, push_varint, space_needed_for}
use elmo.Varint.Buffer.{written, read-write, write_overrun}

write_300 : write (0 ∷ 0 ∷ 0 ∷ 7 ∷ []) 1 300 ≡ some (0 ∷ 241 ∷ 60 ∷ 7 ∷ [], 3)
unfolding write
write_300 = refl

read_300 : read (0 ∷ 241 ∷ 60 ∷ 7 ∷ []) 1 ≡ some (300, 3)
unfolding read
read_300 = refl

push_big :
    push_varint (9 ∷ []) 0x123456789a ≡ some (9 ∷ 252 ∷ 0x12 ∷ 0x34 ∷ 0x56 ∷ 0x78 ∷ 0x9a ∷ [])
unfolding push_varint write
push_big = refl

read-write_example :
    (write (0 ∷ 0 ∷ 0 ∷ 7 ∷ []) 1 300
      ≡ some (written (0 ∷ 0 ∷ 0 ∷ 7 ∷ []) 1 300, 1 + space_needed_for 300))
    × (read (written (0 ∷ 0 ∷ 0 ∷ 7 ∷ []) 1 300) 1 ≡ some (300, 1 + space_needed_for 300))
    × (take 1 (written (0 ∷ 0 ∷ 0 ∷ 7 ∷ []) 1 300) ≡ take 1 (0 ∷ 0 ∷ 0 ∷ 7 ∷ []))
    × (drop (1 + space_needed_for 300) (written (0 ∷ 0 ∷ 0 ∷ 7 ∷ []) 1 300)
        ≡ drop (1 + space_needed_for 300) (0 ∷ 0 ∷ 0 ∷ 7 ∷ []))
unfolding space_needed_for
read-write_example = read-write (0 ∷ 0 ∷ 0 ∷ 7 ∷ []) 1 300 (omega arith) (omega arith)

write_overrun_example : write (0 ∷ []) 0 300 ≡ none
unfolding space_needed_for
write_overrun_example = write_overrun (0 ∷ []) 0 300 (omega arith) (omega arith)
