-- ===== src/Bson/Decode/Loops.antt =====
-- The loop of `slurp_document_pairs` in bson/src/lib.rs, on pairs that begin at the cursor.
use mathlib.Core.Path.{subst}
use mathlib.Core.List.{append_assoc}
use elmo.Common.{ℕ, zero, suc, ◌+◌, ◌^◌, ◌%◌, ◌≡◌, ◌∙◌, refl, ap, arith, ◌==◌, length}
use elmo.Common.{if◌then◌else◌, List, [], ◌∷◌, ◌++◌}
use elmo.Bson.{Value, Document, pair, no_pairs}
use elmo.Bson.Decode.{Slurped, slurped, panicked, ◌>>=◌, index, slurp_cstring, slurp_bson_value}
use elmo.Bson.Decode.{slurp_u32_le, slurp_document_pairs, slurp_pair, slurp_pairs}
use elmo.Bson.Decode.Reads.{At, Reads, Reads->>=, index-Reads, number-Reads, name-Reads}
use elmo.Bson.Format.{frame, name, length_bytes}
use elmo.Bson.Valid.{IsName}

-- The frame of an array or a document, around pairs that the loop reads.
pub frame-Reads :
    (pairs_from : List ℕ → ℕ → Slurped Document) (ba : List ℕ) (i : ℕ) (body ys : List ℕ)
    (pairs : Document)
    → ((j : ℕ) → At ba j (body ++ (0 ∷ ys)) → Reads (pairs_from ba j) pairs ba (0 ∷ ys))
    → At ba i (frame body ++ ys)
    → Reads (slurp_document_pairs pairs_from ba i) pairs ba ys
unfolding slurp_document_pairs
frame-Reads pairs_from ba i body ys pairs h at =
    let len = (length body + 5) % 2 ^ 32 in
    let parts : frame body ++ ys ≡ length_bytes (length body + 5) ++ (body ++ (0 ∷ ys)) =
      append_assoc (length_bytes (length body + 5)) (body ++ (0 ∷ [])) ys
      ∙ ap (λ l. length_bytes (length body + 5) ++ l) (append_assoc body (0 ∷ []) ys) in
    Reads->>= (slurp_u32_le ba i)
      (λ len i. pairs_from ba i >>= λ pairs i.
        index ba i >>= λ x i. if x == 0 then slurped pairs i else panicked)
      len pairs ba (body ++ (0 ∷ ys)) ys
      (number-Reads ba i 4 len (body ++ (0 ∷ ys)) (omega arith) (subst (At ba i) parts at))
      (λ j at.
        Reads->>= (pairs_from ba j)
          (λ pairs i. index ba i >>= λ x i. if x == 0 then slurped pairs i else panicked) pairs
          pairs ba (0 ∷ ys) ys (h j at)
          (λ k at.
            Reads->>= (index ba k) (λ x i. if x == 0 then slurped pairs i else panicked) 0 pairs ba
              ys ys (index-Reads ba k 0 ys at) (λ l at. (refl, at))))

module _ (fuel : ℕ) (ba : List ℕ) where
  -- What a round of the loop does, from the type number on, from the key on and from the value on.
  abbrev round : ℕ → ℕ → ℕ → Slurped Document
  round i valtype j = elim valtype [
    | zero ↦ slurped no_pairs i
    | suc n ↦ slurp_pair (slurp_pairs fuel) ba j (suc n)
  ]

  abbrev after_value : List ℕ → Value → ℕ → Slurped Document
  after_value k v i = slurp_pairs fuel ba i >>= λ pairs i. slurped (pair k v pairs) i

  abbrev after_name : ℕ → List ℕ → ℕ → Slurped Document
  after_name valtype k i =
      slurp_bson_value (slurp_pairs fuel) ba i valtype >>= λ v i. after_value k v i

-- No pairs are left.
pub end-Reads :
    (fuel : ℕ) (ba : List ℕ) (i : ℕ) (ys : List ℕ)
    → At ba i (0 ∷ ys)
    → Reads (slurp_pairs (suc fuel) ba i) no_pairs ba (0 ∷ ys)
unfolding slurp_pairs
end-Reads fuel ba i ys at =
    Reads->>= (index ba i) (round fuel ba i) 0 no_pairs ba ys (0 ∷ ys) (index-Reads ba i 0 ys at)
      (λ j at'. (refl, at))

-- A pair, and those after it.
pub pair-Reads :
    (fuel : ℕ) (ba : List ℕ) (i n : ℕ) (k : List ℕ) (v : Value) (pairs : Document)
    (enc es ys : List ℕ)
    → IsName k
    → ((j : ℕ)
        → At ba j (enc ++ (es ++ ys))
        → Reads (slurp_bson_value (slurp_pairs fuel) ba j (suc n)) v ba (es ++ ys))
    → ((j : ℕ) → At ba j (es ++ ys) → Reads (slurp_pairs fuel ba j) pairs ba ys)
    → At ba i ((suc n ∷ (name k ++ (enc ++ es))) ++ ys)
    → Reads (slurp_pairs (suc fuel) ba i) (pair k v pairs) ba ys
unfolding slurp_pairs slurp_pair
pair-Reads fuel ba i n k v pairs enc es ys hk hv hp at =
    let parts : (name k ++ (enc ++ es)) ++ ys ≡ name k ++ (enc ++ (es ++ ys)) =
      append_assoc (name k) (enc ++ es) ys ∙ ap (λ l. name k ++ l) (append_assoc enc es ys) in
    Reads->>= (index ba i) (round fuel ba i) (suc n) (pair k v pairs) ba
      ((name k ++ (enc ++ es)) ++ ys) ys
      (index-Reads ba i (suc n) ((name k ++ (enc ++ es)) ++ ys) at)
      (λ j at.
        Reads->>= (slurp_cstring ba j) (after_name fuel ba (suc n)) k (pair k v pairs) ba
          (enc ++ (es ++ ys)) ys
          (name-Reads ba j k (enc ++ (es ++ ys)) hk (subst (At ba j) parts at))
          (λ j at.
            Reads->>= (slurp_bson_value (slurp_pairs fuel) ba j (suc n)) (after_value fuel ba k) v
              (pair k v pairs) ba (es ++ ys) ys (hv j at)
              (λ j at.
                Reads->>= (slurp_pairs fuel ba j) (λ pairs i. slurped (pair k v pairs) i) pairs
                  (pair k v pairs) ba ys ys (hp j at) (λ j at. (refl, at)))))
