-- ===== src/Bson/Decode/Reads.antt =====
-- The readers of bson/src/lib.rs on bytes that begin at the cursor.
use mathlib.Core.Path.{subst}
use mathlib.Core.List.{append_assoc}
use elmo.Common.{ℕ, zero, suc, ◌+◌, ◌%◌, ◌^◌, ◌<◌, ◌≡◌, refl, sym, ap, ◌∙◌, arith, leb}
use elmo.Common.{true, some}
use elmo.Common.{List, [], ◌∷◌, ◌++◌, length, get_elem?, take, drop, length-append, drop-append}
use elmo.Common.{take-append}
use elmo.Endian.{bytes_le, number_le}
use elmo.Endian.RoundTrip.{length-bytes_le, number_le-bytes_le, limit}
use elmo.Bson.Decode.{Slurped, slurped, utf8_error, panicked, out_of_fuel, ◌>>=◌, index, slice}
use elmo.Bson.Decode.{cstring_len, slurp_cstring, slurp_bson_string, from_utf8, slurp_u32_le}
use elmo.Bson.Format.{text, name, length_bytes}
use elmo.Bson.Text.{is_utf8}
use elmo.Bson.Valid.{has_no_zero, IsText, IsName}

-- From the cursor on the buffer holds these bytes.
abbrev pub At : List ℕ → ℕ → List ℕ → Type 0
At ba i xs = (i + length xs ≡ length ba) × (drop i ba ≡ xs)

-- The reader returns the value, and leaves the cursor before the rest.
abbrev pub Reads : {A : Type 0} → Slurped A → A → List ℕ → List ℕ → Type 0
Reads (slurped a j) v ba rest = (a ≡ v) × At ba j rest
Reads utf8_error v ba rest = ⊥
Reads panicked v ba rest = ⊥
Reads out_of_fuel v ba rest = ⊥

pub Reads->>= :
    {A B : Type 0} (o : Slurped A) (f : A → ℕ → Slurped B) (a : A) (b : B) (ba xs ys : List ℕ)
    → Reads o a ba xs
    → ((j : ℕ) → At ba j xs → Reads (f a j) b ba ys)
    → Reads (o >>= f) b ba ys
Reads->>= (slurped c j) f a b ba xs ys (e, at) k =
    subst (λ z. Reads (f z j) b ba ys) (sym e) (k j at)
Reads->>= utf8_error f a b ba xs ys h k = h
Reads->>= panicked f a b ba xs ys h k = h
Reads->>= out_of_fuel f a b ba xs ys h k = h

drop_none : (n : ℕ) → drop {A = ℕ} n [] ≡ []
drop_none zero = refl
drop_none (suc n) = refl

drop_more : (ba : List ℕ) (i n : ℕ) → drop (i + n) ba ≡ drop n (drop i ba)
drop_more ba zero n = ap (λ k. drop k ba) (omega arith)
drop_more [] (suc i) n = drop_none (suc i + n) ∙ sym (drop_none n)
drop_more (x ∷ ba) (suc i) n =
    let next : suc i + n ≡ suc (i + n) = omega arith in
    ap (λ k. drop k (x ∷ ba)) next ∙ drop_more ba i n

pub At-append :
    (ba : List ℕ) (i : ℕ) (xs ys : List ℕ) → At ba i (xs ++ ys) → At ba (i + length xs) ys
At-append ba i xs ys (len, at) = (
  omega (arith, length-append xs ys, len),
  drop_more ba i (length xs) ∙ ap (drop (length xs)) at ∙ drop-append xs ys (length xs) refl,
)

first_of : (ba : List ℕ) (i x : ℕ) (xs : List ℕ) → drop i ba ≡ x ∷ xs → get_elem? ba i ≡ some x
first_of [] zero x xs e = cc
first_of [] (suc i) x xs e = cc
first_of (y ∷ ba) zero x xs e = cc
first_of (y ∷ ba) (suc i) x xs e = first_of ba i x xs e

pub index-Reads :
    (ba : List ℕ) (i x : ℕ) (xs : List ℕ) → At ba i (x ∷ xs) → Reads (index ba i) x ba xs
unfolding index
index-Reads ba i x xs (len, at) =
    rw (first_of ba i x xs at, Reads) (refl, At-append ba i (x ∷ []) xs (len, at))

pub slice-Reads :
    (ba : List ℕ) (i n : ℕ) (xs ys : List ℕ)
    → n ≡ length xs
    → At ba i (xs ++ ys)
    → Reads (slice ba i n) xs ba ys
unfolding slice
slice-Reads ba i n xs ys e (len, at) =
    let room : leb (i + n) (length ba) ≡ true = ground (arith, length-append xs ys) in
    let taken : take n (drop i ba) ≡ xs = ap (take n) at ∙ take-append xs ys n e in
    rw (room, Reads) (taken, subst (λ k. At ba (i + k) ys) (sym e) (At-append ba i xs ys (len, at)))

-- A number of `w` bytes.
pub number-Reads :
    (ba : List ℕ) (i w v : ℕ) (ys : List ℕ)
    → v < limit w
    → At ba i (bytes_le w v ++ ys)
    → Reads (slice ba i w >>= λ a i. slurped (number_le a) i) v ba ys
number-Reads ba i w v ys h at =
    Reads->>= (slice ba i w) (λ a i. slurped (number_le a) i) (bytes_le w v) v ba ys ys
      (slice-Reads ba i w (bytes_le w v) ys (sym (length-bytes_le w v)) at)
      (λ j at. (number_le-bytes_le w v h, at))

cstring_len-append :
    (s ys : List ℕ) → has_no_zero s ≡ true → cstring_len (s ++ (0 ∷ ys)) ≡ some (length s)
unfolding cstring_len has_no_zero
cstring_len-append [] ys h = refl
cstring_len-append (zero ∷ s) ys h = absurd (ground arith)
cstring_len-append (suc x ∷ s) ys h = rw (cstring_len-append s ys (ground arith)) refl

assoc : (s ys : List ℕ) → name s ++ ys ≡ s ++ (0 ∷ ys)
assoc s ys = append_assoc s (0 ∷ []) ys

-- `from_utf8` on text.
text_is_kept :
    (ba : List ℕ) (i : ℕ) (s ys : List ℕ)
    → is_utf8 s ≡ true
    → At ba i ys
    → Reads (from_utf8 s i) s ba ys
text_is_kept ba i s ys valid at = rw (valid, Reads) (refl, at)

pub name-Reads :
    (ba : List ℕ) (i : ℕ) (s ys : List ℕ)
    → IsName s
    → At ba i (name s ++ ys)
    → Reads (slurp_cstring ba i) s ba ys
unfolding slurp_cstring
name-Reads ba i s ys (valid, no_zero) at =
    let len : cstring_len (drop i ba) ≡ some (length s) =
      ap cstring_len (at.1 ∙ assoc s ys) ∙ cstring_len-append s ys no_zero in
    let behind : i + length (name s) ≡ i + length s + 1 = omega (arith, length-append s (0 ∷ [])) in
    rw (len, Reads)
      (Reads->>= (slice ba i (length s)) (λ s' j. from_utf8 s' (i + length s + 1)) s s ba (0 ∷ ys)
        ys (slice-Reads ba i (length s) s (0 ∷ ys) refl (subst (At ba i) (assoc s ys) at))
        (λ j at'.
          text_is_kept ba (i + length s + 1) s ys valid
            (subst (λ k. At ba k ys) behind (At-append ba i (name s) ys at))))

pub length-Reads :
    (ba : List ℕ) (i n : ℕ) (ys : List ℕ)
    → n < 2 ^ 32
    → At ba i (length_bytes n ++ ys)
    → Reads (slurp_u32_le ba i) n ba ys
length-Reads ba i n ys h at =
    let fits : n % 2 ^ 32 ≡ n = omega arith in
    number-Reads ba i 4 n ys (omega arith) (subst (λ k. At ba i (bytes_le 4 k ++ ys)) fits at)

-- What `slurp_bson_string` does with the length.
abbrev text_of : List ℕ → ℕ → ℕ → Slurped (List ℕ)
text_of ba len i = elim len [
  | zero ↦ panicked
  | suc n ↦ slice ba i n >>= λ s j. from_utf8 s (i + suc n)
]

pub text-Reads :
    (ba : List ℕ) (i : ℕ) (s ys : List ℕ)
    → IsText s
    → At ba i (text s ++ ys)
    → Reads (slurp_bson_string ba i) s ba ys
unfolding slurp_bson_string
text-Reads ba i s ys (valid, short) at =
    let parts : text s ++ ys ≡ length_bytes (suc (length s)) ++ (name s ++ ys) =
      ap (λ n. (length_bytes n ++ name s) ++ ys) (omega arith)
      ∙ append_assoc (length_bytes (suc (length s))) (name s) ys in
    Reads->>= (slurp_u32_le ba i) (text_of ba) (suc (length s)) s ba (name s ++ ys) ys
      (length-Reads ba i (suc (length s)) (name s ++ ys) (omega arith) (subst (At ba i) parts at))
      (λ j at.
        Reads->>= (slice ba j (length s)) (λ s' k. from_utf8 s' (j + suc (length s))) s s ba
          (0 ∷ ys) ys
          (slice-Reads ba j (length s) s (0 ∷ ys) refl (subst (At ba j) (assoc s ys) at))
          (λ k at'. text_is_kept ba (j + suc (length s)) s ys valid (
            subst (λ k. At ba k ys) (omega (arith, length-append s (0 ∷ [])))
              (At-append ba j (name s) ys at))))
