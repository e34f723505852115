-- ===== src/Bson/Decode/Values.antt =====
-- The readers of single values in bson/src/lib.rs, on the encodings of these values.
use mathlib.Core.Path.{subst}
use mathlib.Core.List.{append_assoc}
use elmo.Common.{ℕ, ◌^◌, ◌≡◌, ◌<◌, refl, sym, length, not, ◌==◌}
use elmo.Common.{if◌then◌else◌, List, [], ◌∷◌, ◌++◌, Bool, true, false}
use elmo.Bson.{b_object_id, b_regex, b_binary, b_boolean}
use elmo.Bson.Decode.{Slurped, slurped, ◌>>=◌, index, slice}
use elmo.Bson.Decode.{slurp_cstring}
use elmo.Bson.Decode.{slurp_regex, slurp_binary, slurp_objectid, slurp_boolean, slurp_u32_le}
use elmo.Bson.Decode.Reads.{At, Reads, Reads->>=, index-Reads, slice-Reads}
use elmo.Bson.Decode.Reads.{name-Reads, length-Reads}
use elmo.Bson.Format.{name, length_bytes}
use elmo.Bson.Valid.{IsName}

-- A reader, and what is made of its value.
pub then-Reads :
    {A B : Type 0} (o : Slurped A) (a : A) (f : A → B) (ba ys : List ℕ)
    → Reads o a ba ys
    → Reads (o >>= λ a i. slurped (f a) i) (f a) ba ys
then-Reads o a f ba ys h =
    Reads->>= o (λ a i. slurped (f a) i) a (f a) ba ys ys h (λ j at. (refl, at))

pub regex-Reads :
    (ba : List ℕ) (i : ℕ) (expr opt ys : List ℕ)
    → IsName expr
    → IsName opt
    → At ba i ((name expr ++ name opt) ++ ys)
    → Reads (slurp_regex ba i) (b_regex expr opt) ba ys
unfolding slurp_regex
regex-Reads ba i expr opt ys he ho at =
    Reads->>= (slurp_cstring ba i)
      (λ expr i. slurp_cstring ba i >>= λ options i. slurped (b_regex expr options) i) expr
      (b_regex expr opt) ba (name opt ++ ys) ys
      (name-Reads ba i expr (name opt ++ ys) he
        (subst (At ba i) (append_assoc (name expr) (name opt) ys) at))
      (λ j at.
        then-Reads (slurp_cstring ba j) opt (b_regex expr) ba ys (name-Reads ba j opt ys ho at))

pub binary-Reads :
    (ba : List ℕ) (i subtype : ℕ) (bs ys : List ℕ)
    → length bs < 2 ^ 32
    → At ba i ((length_bytes (length bs) ++ (subtype ∷ bs)) ++ ys)
    → Reads (slurp_binary ba i) (b_binary subtype bs) ba ys
unfolding slurp_binary
binary-Reads ba i subtype bs ys h at =
    Reads->>= (slurp_u32_le ba i)
      (λ len i.
        index ba i >>= λ subtype i. slice ba i len >>= λ b i. slurped (b_binary subtype b) i)
      (length bs) (b_binary subtype bs) ba ((subtype ∷ bs) ++ ys) ys
      (length-Reads ba i (length bs) ((subtype ∷ bs) ++ ys) h
        (subst (At ba i) (append_assoc (length_bytes (length bs)) (subtype ∷ bs) ys) at))
      (λ j at.
        Reads->>= (index ba j)
          (λ subtype i. slice ba i (length bs) >>= λ b i. slurped (b_binary subtype b) i) subtype
          (b_binary subtype bs) ba (bs ++ ys) ys (index-Reads ba j subtype (bs ++ ys) at)
          (λ k at.
            then-Reads (slice ba k (length bs)) bs (b_binary subtype) ba ys
              (slice-Reads ba k (length bs) bs ys refl at)))

pub boolean-Reads :
    (ba : List ℕ) (i : ℕ) (b : Bool) (ys : List ℕ)
    → At ba i ((if b then 1 ∷ [] else 0 ∷ []) ++ ys)
    → Reads (slurp_boolean ba i) (b_boolean b) ba ys
unfolding slurp_boolean
boolean-Reads ba i true ys at =
    then-Reads (index ba i) 1 (λ x. b_boolean (not (x == 0))) ba ys (index-Reads ba i 1 ys at)
boolean-Reads ba i false ys at =
    then-Reads (index ba i) 0 (λ x. b_boolean (not (x == 0))) ba ys (index-Reads ba i 0 ys at)

pub object_id-Reads :
    (ba : List ℕ) (i : ℕ) (a ys : List ℕ)
    → length a ≡ 12
    → At ba i (a ++ ys)
    → Reads (slurp_objectid ba i) (b_object_id a) ba ys
unfolding slurp_objectid
object_id-Reads ba i a ys h at =
    then-Reads (slice ba i 12) a b_object_id ba ys (slice-Reads ba i 12 a ys (sym h) at)
