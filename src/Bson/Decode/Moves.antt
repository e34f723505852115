-- ===== src/Bson/Decode/Moves.antt =====
-- The readers of bson/src/lib.rs one by one on any bytes: where they leave the cursor.
use elmo.Common.{ℕ, zero, suc, ◌+◌, ◌≤◌, ◌==◌, arith, if◌then◌else◌, Bool, true, false, not}
use elmo.Common.{List, get_elem?, drop, inl, inr, Option-cases}
use elmo.Endian.{extract, number_le}
use elmo.Bson.{
  Value, b_double, b_string, b_int64, b_int32, b_object_id, b_regex, b_js_code,
  b_js_code_with_scope, b_binary, b_date_time, b_time_stamp, b_boolean, b_array, b_document,
  Document,
}
use elmo.Bson.Text.{is_utf8}
use elmo.Bson.Decode.{Slurped, slurped, utf8_error, panicked, out_of_fuel, ◌>>=◌, index, slice}
use elmo.Bson.Decode.{cstring_len, slurp_cstring, slurp_bson_string, slurp_bson_value}
use elmo.Bson.Decode.{slurp_u32_le, slurp_regex, slurp_objectid, slurp_boolean, slurp_binary}
use elmo.Bson.Decode.{slurp_document_pairs, slurp_array, slurp_js_with_scope, from_utf8}
use elmo.Bson.Decode.{values, slurp_document}

-- The reader does not run out of fuel, and does not move back.
abbrev pub Moves : {A : Type 0} → Slurped A → ℕ → Type 0
Moves (slurped a j) i = i ≤ j
Moves utf8_error i = Unit
Moves panicked i = Unit
Moves out_of_fuel i = ⊥

Moves-on :
    {A B : Type 0} (o : Slurped A) (f : A → ℕ → Slurped B) (i : ℕ)
    → Moves o i
    → ((a : A) (j : ℕ) → i ≤ j → Moves (f a j) i)
    → Moves (o >>= f) i
Moves-on (slurped a j) f i h k = k a j h
Moves-on utf8_error f i h k = tt
Moves-on panicked f i h k = tt
Moves-on out_of_fuel f i h k = h

pub Moves-from : {A : Type 0} (o : Slurped A) (i j : ℕ) → i ≤ j → Moves o j → Moves o i
Moves-from (slurped a k) i j le h = omega arith
Moves-from utf8_error i j le h = tt
Moves-from panicked i j le h = tt
Moves-from out_of_fuel i j le h = h

pub Moves->>= :
    {A B : Type 0} (o : Slurped A) (f : A → ℕ → Slurped B) (i : ℕ)
    → Moves o i
    → ((a : A) (j : ℕ) → i ≤ j → Moves (f a j) j)
    → Moves (o >>= f) i
Moves->>= o f i h k = Moves-on o f i h (λ a j le. Moves-from (f a j) i j le (k a j le))

Moves-if :
    {A : Type 0} (b : Bool) (x y : Slurped A) (i : ℕ)
    → Moves x i
    → Moves y i
    → Moves (if b then x else y) i
Moves-if true x y i hx hy = hx
Moves-if false x y i hx hy = hy

-- A value made of what a reader returns.
pub Moves-then :
    {A B : Type 0} (o : Slurped A) (f : A → B) (i : ℕ)
    → Moves o i
    → Moves (o >>= λ a i. slurped (f a) i) i
Moves-then o f i h = Moves->>= o (λ a i. slurped (f a) i) i h (λ a j le. omega arith)

module _ (ba : List ℕ) where
  index-Moves : (i : ℕ) → Moves (index ba i) i
  unfolding index
  index-Moves i = elim (Option-cases (get_elem? ba i)) [
    | inl e ↦ rw (e, Moves) tt
    | inr (x, e) ↦ rw (e, Moves) (omega arith)
  ]

  slice-Moves : (i n : ℕ) → Moves (slice ba i n) i
  unfolding slice
  slice-Moves i n = elim (Option-cases (extract n ba i)) [
    | inl e ↦ rw (e, Moves) tt
    | inr (x, e) ↦ rw (e, Moves) (omega arith)
  ]

  Moves-number :
      (f : ℕ → Value) (w i : ℕ)
      → Moves (slice ba i w >>= (λ a i. slurped (number_le a) i) >>= λ n i. slurped (f n) i) i
  Moves-number f w i =
      Moves-then (slice ba i w >>= λ a i. slurped (number_le a) i) f i
        (Moves-then (slice ba i w) number_le i (slice-Moves i w))

  text-Moves : (s : List ℕ) (i j : ℕ) → i ≤ j → Moves (from_utf8 s j) i
  text-Moves s i j le = Moves-if (is_utf8 s) (slurped s j) utf8_error i le tt

  u32-Moves : (i : ℕ) → Moves (slurp_u32_le ba i) i
  u32-Moves i = Moves-then (slice ba i 4) number_le i (slice-Moves i 4)

  pub cstring-Moves : (i : ℕ) → Moves (slurp_cstring ba i) i
  unfolding slurp_cstring
  cstring-Moves i = elim (Option-cases (cstring_len (drop i ba))) [
    | inl e ↦ rw (e, Moves) tt
    | inr (len, e) ↦
        rw (e, Moves)
          (Moves-on (slice ba i len) (λ s j. from_utf8 s (i + len + 1)) i (slice-Moves i len)
            (λ s j le. text-Moves s i (i + len + 1) (omega arith)))
  ]

  abbrev text_of : ℕ → ℕ → Slurped (List ℕ)
  text_of len i = elim len [
    | zero ↦ panicked
    | suc n ↦ slice ba i n >>= λ s j. from_utf8 s (i + suc n)
  ]

  string-Moves : (i : ℕ) → Moves (slurp_bson_string ba i) i
  unfolding slurp_bson_string
  string-Moves i = Moves->>= (slurp_u32_le ba i) text_of i (u32-Moves i) (λ len j le.
      elim len as (λ len. Moves (text_of len j) j) [
        | zero ↦ tt
        | suc n ↦
            Moves-on (slice ba j n) (λ s k. from_utf8 s (j + suc n)) j (slice-Moves j n)
              (λ s k le. text-Moves s j (j + suc n) (omega arith))
      ])

  object_id-Moves : (i : ℕ) → Moves (slurp_objectid ba i) i
  unfolding slurp_objectid
  object_id-Moves i = Moves-then (slice ba i 12) b_object_id i (slice-Moves i 12)

  regex-Moves : (i : ℕ) → Moves (slurp_regex ba i) i
  unfolding slurp_regex
  regex-Moves i =
      Moves->>= (slurp_cstring ba i)
        (λ expr i. slurp_cstring ba i >>= λ options i. slurped (b_regex expr options) i) i
        (cstring-Moves i)
        (λ expr j le. Moves-then (slurp_cstring ba j) (b_regex expr) j (cstring-Moves j))

  binary-Moves : (i : ℕ) → Moves (slurp_binary ba i) i
  unfolding slurp_binary
  binary-Moves i =
      Moves->>= (slurp_u32_le ba i)
        (λ len i.
          index ba i >>= λ subtype i. slice ba i len >>= λ b i. slurped (b_binary subtype b) i)
        i (u32-Moves i)
        (λ len j le.
          Moves->>= (index ba j)
            (λ subtype i. slice ba i len >>= λ b i. slurped (b_binary subtype b) i) j
            (index-Moves j)
            (λ subtype k le. Moves-then (slice ba k len) (b_binary subtype) k (slice-Moves k len)))

  boolean-Moves : (i : ℕ) → Moves (slurp_boolean ba i) i
  unfolding slurp_boolean
  boolean-Moves i = Moves-then (index ba i) (λ x. b_boolean (not (x == 0))) i (index-Moves i)

  -- The readers of values, where the loop does not run out of fuel from the cursor on.
  module _ (pairs_from : List ℕ → ℕ → Slurped Document) where
    pub pairs-Moves :
        (i : ℕ)
        → ((j : ℕ) → i ≤ j → Moves (pairs_from ba j) j)
        → Moves (slurp_document_pairs pairs_from ba i) i
    unfolding slurp_document_pairs
    pairs-Moves i h =
        Moves->>= (slurp_u32_le ba i)
          (λ len i. pairs_from ba i >>= λ pairs i.
            index ba i >>= λ x i. if x == 0 then slurped pairs i else panicked)
          i (u32-Moves i)
          (λ len j le.
            Moves->>= (pairs_from ba j)
              (λ pairs i. index ba i >>= λ x i. if x == 0 then slurped pairs i else panicked) j
              (h j le)
              (λ pairs k le.
                Moves->>= (index ba k) (λ x i. if x == 0 then slurped pairs i else panicked) k
                  (index-Moves k)
                  (λ x l le. Moves-if (x == 0) (slurped pairs l) panicked l (omega arith) tt)))

    array-Moves :
        (i : ℕ)
        → ((j : ℕ) → i ≤ j → Moves (pairs_from ba j) j)
        → Moves (slurp_array pairs_from ba i) i
    unfolding slurp_array
    array-Moves i h = Moves-then (slurp_document_pairs pairs_from ba i) values i (pairs-Moves i h)

    js-Moves :
        (i : ℕ)
        → ((j : ℕ) → i ≤ j → Moves (pairs_from ba j) j)
        → Moves (slurp_js_with_scope pairs_from ba i) i
    unfolding slurp_js_with_scope
    js-Moves i h =
        Moves->>= (slurp_u32_le ba i)
          (λ len i. slurp_bson_string ba i >>= λ a i.
            slurp_document pairs_from ba i >>= λ scope i. slurped (b_js_code_with_scope a scope) i)
          i (u32-Moves i)
          (λ len j le.
            Moves->>= (slurp_bson_string ba j)
              (λ a i. slurp_document pairs_from ba i >>= λ scope i.
                slurped (b_js_code_with_scope a scope) i)
              j (string-Moves j)
              (λ a k le2.
                Moves-then (slurp_document pairs_from ba k) (b_js_code_with_scope a) k
                  (pairs-Moves k (λ l le3. h l (omega arith)))))

    pub value-Moves :
        (i valtype : ℕ)
        → ((j : ℕ) → i ≤ j → Moves (pairs_from ba j) j)
        → Moves (slurp_bson_value pairs_from ba i valtype) i
    unfolding slurp_bson_value
    value-Moves i valtype h =
        let here : i ≤ i = omega arith in
        ground (
          arith,
          Moves-number b_double 8 i,
          Moves-then (slurp_bson_string ba i) b_string i (string-Moves i),
          Moves-then (slurp_document_pairs pairs_from ba i) b_document i (pairs-Moves i h),
          Moves-then (slurp_array pairs_from ba i) b_array i (array-Moves i h),
          binary-Moves i,
          object_id-Moves i,
          boolean-Moves i,
          Moves-number b_date_time 8 i,
          regex-Moves i,
          Moves->>= (slurp_bson_string ba i) (λ a i. slurp_objectid ba i) i (string-Moves i)
              (λ a j le. object_id-Moves j),
          Moves-then (slurp_bson_string ba i) b_js_code i (string-Moves i),
          js-Moves i h,
          Moves-number b_int32 4 i,
          Moves-number b_time_stamp 8 i,
          Moves-number b_int64 8 i,
        )
