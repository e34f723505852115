-- ===== src/Bson/Equality.antt =====
-- bson/src/lib.rs, `PartialEq for Value`.
use mathlib.Core.Path.{subst}
use elmo.Common.{ℕ, ◌≢◌, ◌≡◌, ◌↔◌, ◌∙◌, refl, sym, ap, arith, Bool, true, false, ◌||◌}
use elmo.Common.{if◌then◌else◌, List, [], ◌∷◌, length, length-append}
use elmo.Common.Outcome.{ok, panic, ◌>>=◌}
use elmo.Bson.{Value, get_type_number, no_items, no_pairs}
use elmo.Bson.Encode.{to_bson_array, eq, bytes_equal}
use elmo.Bson.Encode.Written.{to_bson_lem}
use elmo.Bson.Decode.{
  Slurped, slurped, utf8_error, panicked, out_of_fuel, slurp_bson_value, slurp_pairs,
}
use elmo.Bson.Decode.Reads.{Reads}
use elmo.Bson.Decode.RoundTrip.{value-Reads}
use elmo.Bson.Codec.{no_scope, append_nil}
use elmo.Bson.Format.{encoding, has_scope}
use elmo.Bson.Valid.{IsValid}

pub bytes_equal_refl : (xs : List ℕ) → bytes_equal xs xs ≡ true
unfolding bytes_equal
bytes_equal_refl [] = refl
bytes_equal_refl (x ∷ xs) = rw (bytes_equal_refl xs) (ground arith)

pub bytes_equal_sound : (xs ys : List ℕ) → bytes_equal xs ys ≡ true → xs ≡ ys
unfolding bytes_equal
bytes_equal_sound [] [] h = refl
bytes_equal_sound [] (y ∷ ys) h = cc
bytes_equal_sound (x ∷ xs) [] h = cc
bytes_equal_sound (x ∷ xs) (y ∷ ys) h =
    let tails : xs ≡ ys = bytes_equal_sound xs ys (ground arith) in
    let heads : x ≡ y = ground arith in rw (tails, heads) refl

by_scope :
    (p q : Bool) (xs ys : List ℕ)
    → ((if p then panic else ok xs) >>= λ a.
        (if q then panic else ok ys) >>= λ b. ok (bytes_equal a b))
      ≡ (if p || q then panic else ok (bytes_equal xs ys))
by_scope true q xs ys = refl
by_scope false true xs ys = refl
by_scope false false xs ys = refl

eq-encoding :
    (a b : Value)
    → eq a b
      ≡ (if has_scope a || has_scope b then panic else ok (bytes_equal (encoding a) (encoding b)))
unfolding eq to_bson_array
eq-encoding a b =
    let (left, array, document) = to_bson_lem a no_items no_pairs [] in
    let (right, array2, document2) = to_bson_lem b no_items no_pairs [] in
    rw (left, right) (by_scope (has_scope a) (has_scope b) (encoding a) (encoding b))

Reads-same :
    {A : Type 0} (o : Slurped A) (a b : A) (ba rest : List ℕ)
    → Reads o a ba rest
    → Reads o b ba rest
    → a ≡ b
Reads-same (slurped c j) a b ba rest (e, _) (f, _) = sym e ∙ f
Reads-same utf8_error a b ba rest h k = absurd h
Reads-same panicked a b ba rest h k = absurd h
Reads-same out_of_fuel a b ba rest h k = absurd h

-- Reading the encoding of a valid value for its type number.
whole :
    (v : Value)
    → IsValid v
    → Reads
        (slurp_bson_value (slurp_pairs (length (encoding v))) (encoding v) 0 (get_type_number v))
        v
        (encoding v)
        []
whole v h =
    value-Reads v (length (encoding v)) (encoding v) 0 [] h (omega arith)
      (omega (arith, length-append (encoding v) []), append_nil (encoding v))

encoding_injective :
    (a b : Value)
    → IsValid a
    → IsValid b
    → get_type_number a ≡ get_type_number b
    → encoding a ≡ encoding b
    → a ≡ b
encoding_injective a b ha hb t e =
    Reads-same
      (slurp_bson_value (slurp_pairs (length (encoding b))) (encoding b) 0 (get_type_number b)) a b
      (encoding b) []
      (subst
        (λ xs. Reads (slurp_bson_value (slurp_pairs (length xs)) xs 0 (get_type_number b)) a xs [])
        e
        (subst
          (λ n.
            Reads (slurp_bson_value (slurp_pairs (length (encoding a))) (encoding a) 0 n) a
              (encoding a) [])
          t (whole a ha)))
      (whole b hb)

ok_injective : {p q : Bool} → ok p ≡ ok q → p ≡ q
ok_injective e = cc

-- On valid values of one type number `eq` neither panics nor returns an error, and says whether they
-- are equal.
pub eq_iff :
    (a b : Value)
    → IsValid a
    → IsValid b
    → get_type_number a ≡ get_type_number b
    → (eq a b ≡ ok (bytes_equal (encoding a) (encoding b))) × ((eq a b ≡ ok true) ↔ (a ≡ b))
eq_iff a b ha hb t =
    let same = bytes_equal (encoding a) (encoding b) in
    let returns : eq a b ≡ ok same = eq-encoding a b ∙ rw (no_scope a ha, no_scope b hb) refl in
    (
      returns,
      (
        (λ e.
            encoding_injective a b ha hb t
              (bytes_equal_sound (encoding a) (encoding b) (ok_injective (sym returns ∙ e)))),
        (λ e.
            returns
            ∙ ap (λ v. ok (bytes_equal (encoding a) (encoding v))) (sym e)
            ∙ ap ok (bytes_equal_refl (encoding a))),
      ),
    )

bytes_equal_iff : (xs ys : List ℕ) → (bytes_equal xs ys ≡ true) ↔ (xs ≡ ys)
bytes_equal_iff xs ys =
    (bytes_equal_sound xs ys, λ e. subst (λ zs. bytes_equal xs zs ≡ true) e (bytes_equal_refl xs))

cases :
    {P : Type 0} (scope same : Bool)
    → (same ≡ true) ↔ P
    → let o = if scope then panic else ok same in
      ((o ≡ panic) ↔ (scope ≡ true))
      × ((o ≡ ok true) ↔ ((scope ≡ false) × P))
      × ((o ≡ ok false) ↔ ((scope ≡ false) × ¬ P))
cases true same h =
    ((λ e. refl, λ e. refl), (λ e. absurd cc, λ e. absurd cc), (λ e. absurd cc, λ e. absurd cc))
cases false true h = (
  (λ e. absurd cc, λ e. absurd cc),
  (λ e. (refl, h.0 refl), λ e. refl),
  (λ e. absurd cc, λ e. absurd (e.1 (h.0 refl))),
)
cases false false h = (
  (λ e. absurd cc, λ e. absurd cc),
  (λ e. absurd cc, λ e. absurd (let k = h.1 e.1 in cc)),
  (λ e. (refl, λ p. let k = h.1 p in cc), λ e. refl),
)

-- Comparing two values of any types panics exactly if there is code with a scope in one of them.
-- Else it finds them equal if their encodings, which the type numbers of the two are no part of, are
-- the same bytes, and different if they are not.
pub eq_lem :
    (a b : Value)
    → ((eq a b ≡ panic) ↔ (has_scope a || has_scope b ≡ true))
      × ((eq a b ≡ ok true) ↔ ((has_scope a || has_scope b ≡ false) × (encoding a ≡ encoding b)))
      × ((eq a b ≡ ok false) ↔ ((has_scope a || has_scope b ≡ false) × (encoding a ≢ encoding b)))
eq_lem a b = rw (eq-encoding a b) (
    cases (has_scope a || has_scope b) (bytes_equal (encoding a) (encoding b))
      (bytes_equal_iff (encoding a) (encoding b)))
