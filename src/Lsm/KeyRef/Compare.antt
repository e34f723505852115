-- ===== src/Lsm/KeyRef/Compare.antt =====
-- A key is compared as the bytes that it stands for, whatever its form.
use elmo.Common.{
  ℕ, zero, suc, ◌+◌, ◌-◌, ◌≡◌, refl, ap, ◌∙◌, ltb, min, compare, Ordering, length, get_elem?, arith,
}
use elmo.Common.{List, [], ◌∷◌, ◌++◌, if◌then◌else◌, length-append}
use elmo.Common.Outcome.{Outcome, ok}
use elmo.Lsm.Bcmp.{compare_bytes}
use elmo.Lsm.KeyRef.{
  KeyRef, overflowed, prefixed, slice, into_boxed_slice, index, index2, compare_loop,
}
use elmo.Lsm.KeyRef.{compare_px_py, compare_px_y, compare_x_py, compare_with, cmp}

get_elem?-append :
    (px x : List ℕ) (i : ℕ)
    → get_elem? (px ++ x) i
      ≡ (if ltb i (length px) then get_elem? px i else get_elem? x (i - length px))
get_elem?-append [] x i = ground arith
get_elem?-append (p ∷ px) x zero = ground arith
get_elem?-append (p ∷ px) x (suc i) = ground (arith, get_elem?-append px x i)

pub index2-eq : (px x : List ℕ) (i : ℕ) → index2 px x i ≡ index (px ++ x) i
index2-eq px x i = let e = get_elem?-append px x i in ground arith

-- The loop, where `xval` and `yval` index the rest of both keys.
compare_loop_lem :
    (xs ys : List ℕ) (i : ℕ) (xval yval : ℕ → Outcome ℕ) (c : Ordering)
    → c ≡ compare (length xs) (length ys)
    → ((j : ℕ) → xval (i + j) ≡ index xs j)
    → ((j : ℕ) → yval (i + j) ≡ index ys j)
    → compare_loop xval yval (min (length xs) (length ys)) i c ≡ ok (compare_bytes xs ys)
unfolding compare_loop compare_bytes
compare_loop_lem [] [] i xval yval c e hx hy = ap ok e
compare_loop_lem [] (y ∷ ys) i xval yval c e hx hy =
    let m : min (length {A = ℕ} []) (length (y ∷ ys)) ≡ 0 = omega arith in rw (m, e) (ground arith)
compare_loop_lem (x ∷ xs) [] i xval yval c e hx hy =
    let m : min (length (x ∷ xs)) (length {A = ℕ} []) ≡ 0 = omega arith in rw (m, e) (ground arith)
compare_loop_lem (x ∷ xs) (y ∷ ys) i xval yval c e hx hy =
    let m : min (length (x ∷ xs)) (length (y ∷ ys)) ≡ suc (min (length xs) (length ys)) =
      omega arith in
    let rest =
      compare_loop_lem xs ys (suc i) xval yval c (ground (arith, e))
        (λ j. ap xval (omega arith) ∙ hx (suc j)) (λ j. ap yval (omega arith) ∙ hy (suc j)) in
    let x0 : xval i ≡ ok x = ap xval (omega arith) ∙ hx 0 in
    let y0 : yval i ≡ ok y = ap yval (omega arith) ∙ hy 0 in rw (m, x0, y0) (ground (arith, rest))

pub compare_px_py-eq :
    (px x py y : List ℕ) → compare_px_py px x py y ≡ ok (compare_bytes (px ++ x) (py ++ y))
unfolding compare_px_py compare_bytes
compare_px_py-eq px x py y =
    rw⁻¹ (length-append px x, length-append py y)
      (compare_loop_lem (px ++ x) (py ++ y) 0 (index2 px x) (index2 py y) _ refl
        (λ j. ap (index2 px x) (omega arith) ∙ index2-eq px x j)
        (λ j. ap (index2 py y) (omega arith) ∙ index2-eq py y j))

pub compare_px_y-eq : (px x y : List ℕ) → compare_px_y px x y ≡ ok (compare_bytes (px ++ x) y)
unfolding compare_px_y compare_bytes
compare_px_y-eq px x y = rw⁻¹ (length-append px x) (
    compare_loop_lem (px ++ x) y 0 (index2 px x) (index y) _ refl
      (λ j. ap (index2 px x) (omega arith) ∙ index2-eq px x j) (λ j. ap (index y) (omega arith)))

pub compare_x_py-eq : (x py y : List ℕ) → compare_x_py x py y ≡ ok (compare_bytes x (py ++ y))
unfolding compare_x_py compare_bytes
compare_x_py-eq x py y = rw⁻¹ (length-append py y) (
    compare_loop_lem x (py ++ y) 0 (index x) (index2 py y) _ refl (λ j. ap (index x) (omega arith))
      (λ j. ap (index2 py y) (omega arith) ∙ index2-eq py y j))

pub compare_with_lem :
    (x : KeyRef) (k : List ℕ) → compare_with x k ≡ ok (compare_bytes (into_boxed_slice x) k)
unfolding compare_with
compare_with_lem (overflowed a page) k = refl
compare_with_lem (slice a) k = refl
compare_with_lem (prefixed front back) k = compare_px_y-eq front back k

-- `cmp` never indexes out of bounds, and orders two keys as the byte strings that they stand for,
-- in each of the nine combinations of their forms.
pub cmp_lem :
    (x y : KeyRef) → cmp x y ≡ ok (compare_bytes (into_boxed_slice x) (into_boxed_slice y))
unfolding cmp
cmp_lem (overflowed x page) (overflowed y page') = refl
cmp_lem (overflowed x page) (prefixed y_p y) = compare_x_py-eq x y_p y
cmp_lem (overflowed x page) (slice y) = refl
cmp_lem (prefixed x_p x) (overflowed y page) = compare_px_y-eq x_p x y
cmp_lem (slice x) (overflowed y page) = refl
cmp_lem (prefixed x_p x) (prefixed y_p y) = compare_px_py-eq x_p x y_p y
cmp_lem (prefixed x_p x) (slice y) = compare_px_y-eq x_p x y
cmp_lem (slice x) (prefixed y_p y) = compare_x_py-eq x y_p y
cmp_lem (slice x) (slice y) = refl
