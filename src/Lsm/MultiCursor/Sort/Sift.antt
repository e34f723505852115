-- ===== src/Lsm/MultiCursor/Sort/Sift.antt =====
-- What `sift` and the loop around it keep.
use mathlib.Core.Path.{subst}
use elmo.Common.{ℕ, zero, suc, ◌<◌, ◌≡◌, refl, ◌==◌, leb, Ordering, arith, length}
use elmo.Common.{Bool, true, false, not, ◌&&◌, ◌||◌, Option, none, some, List, [], ◌∷◌}
use elmo.Common.Map.{is_none}
use elmo.Common.Outcome.{ok, ◌>>=◌, Succeeds, Succeeds->>=}
use elmo.Lsm.KeyRef.{KeyRef}
use elmo.Lsm.MultiCursor.Sort.{Slot, get, Move, stay, pass, move_of, set_tag, sift}
use elmo.Lsm.MultiCursor.Sort.Order.{
  bytes_of_key, key_at, comes_before, comes_before_trans, is_no_key, tag_fits, Fits, move_of-Fits,
}

abbrev pub any_slot : (ℕ → Bool) → List Slot → Bool
any_slot P [] = false
any_slot P (s ∷ ss) = P s.0 || any_slot P ss

pub get-key_at :
    (ka : List (Option KeyRef)) (n : ℕ)
    → n < length ka
    → Succeeds (get ka n) (λ k. bytes_of_key k ≡ key_at ka n)
get-key_at [] n h = absurd (omega arith)
get-key_at (k ∷ ka) zero h = refl
get-key_at (k ∷ ka) (suc n) h = get-key_at ka n (omega (arith, h))

module _ (ka : List (Option KeyRef)) where
  -- The tag of a slot is true of one of the slots before it. A slot has none where it is the first
  -- or its cursor is not valid.
  abbrev pub tag_ok : List Slot → Slot → Bool
  tag_ok left (n, none) = is_none left || is_no_key (key_at ka n)
  tag_ok left (n, some t) = any_slot (λ q. tag_fits (some t) (key_at ka q) (key_at ka n)) left

  -- Some slot of `left` does not come before cursor `n`.
  abbrev pub any_late : ℕ → List Slot → Bool
  any_late n left = any_slot (λ q. not (comes_before (key_at ka q) q (key_at ka n) n)) left

  -- The slots descend, since the nearest is the first, and their tags are true.
  abbrev pub IsSifted : List Slot → Type 0
  IsSifted [] = Unit
  IsSifted (s ∷ left) = (any_late s.0 left ≡ false) × (tag_ok left s ≡ true) × IsSifted left

  any_late_trans :
      (n m : ℕ) (left : List Slot)
      → comes_before (key_at ka m) m (key_at ka n) n ≡ true
      → any_late m left ≡ false
      → any_late n left ≡ false
  any_late_trans n m [] h k = refl
  any_late_trans n m (s ∷ left) h k =
      let t = comes_before_trans (key_at ka s.0) (key_at ka m) (key_at ka n) s.0 m n in
      ground (arith, t, any_late_trans n m left, h, k)

  -- More slots before it keep a tag true, where it has one or its cursor is not valid.
  tag_ok-any :
      (left right : List Slot) (s : Slot)
      → ((P : ℕ → Bool) → any_slot P left ≡ true → any_slot P right ≡ true)
      → tag_ok left s ≡ true
      → (is_none left && not (is_no_key (key_at ka s.0))) ≡ false
      → tag_ok right s ≡ true
  tag_ok-any left right (n, none) h t e = ground (arith, t, e)
  tag_ok-any left right (n, some t) h k e = h _ k

  -- What sifting cursor `n` into `before` leaves.
  abbrev Sifts : ℕ → List Slot → List Slot → Type 0
  Sifts n before r = IsSifted r × ((P : ℕ → Bool) → any_slot P r ≡ (P n || any_slot P before))

  pub sift_lem :
      (n : ℕ) (before : List Slot)
      → n < length ka
      → any_slot (λ q. n == q || leb (length ka) q) before ≡ false
      → IsSifted before
      → Succeeds (sift false ka (n, none) before) (Sifts n before)
  unfolding sift
  sift_lem n [] l h d = ((refl, refl, tt), λ P. refl)
  sift_lem n (p ∷ before) l h d =
      (Succeeds->>= _ (Sifts n (p ∷ before)) (get ka n) _ (get-key_at ka n l) (λ kj ej.
        Succeeds->>= _ (Sifts n (p ∷ before)) (get ka p.0) _ (get-key_at ka p.0 (ground (arith, h)))
          (λ kp ep.
            Succeeds->>= (λ m. Fits m (key_at ka n) n (key_at ka p.0) p.0) (Sifts n (p ∷ before))
              (move_of false kj kp n p.0) _
              (subst
                (λ k. Succeeds (move_of false kj kp n p.0) (λ m. Fits m k n (key_at ka p.0) p.0)) ej
                (subst
                  (λ k.
                    Succeeds (move_of false kj kp n p.0) (λ m. Fits m (bytes_of_key kj) n k p.0))
                  ep (move_of-Fits kj kp n p.0 (ground (arith, h)))))
              (λ m f. moved (sift_lem n before l (ground (arith, h)) d.2) m f))))
    where
      moved :
          Succeeds (sift false ka (n, none) before) (Sifts n before)
          → (m : Move) → Fits m (key_at ka n) n (key_at ka p.0) p.0
          → Succeeds
              (elim m [
                | stay tag ↦ ok (set_tag tag (n, none) ∷ p ∷ before)
                | pass tag ↦ sift false ka (n, none) before >>= λ r. ok (set_tag tag p ∷ r)
              ])
              (Sifts n (p ∷ before))
      moved ih (stay none) f = (
        (ground (arith, f.0, any_late_trans n p.0 before f.0 d.0), ground (arith, f.1), d),
        λ P. refl,
      )
      moved ih (stay (some t)) f = (
        (ground (arith, f.0, any_late_trans n p.0 before f.0 d.0), ground (arith, f.1), d),
        λ P. refl,
      )
      moved ih (pass tag) f =
          Succeeds->>= (Sifts n before) (Sifts n (p ∷ before)) (sift false ka (n, none) before) _ ih
            (λ r k. passed tag r k f)
        where
          passed :
              (tag : Option Ordering) (r : List Slot)
              → Sifts n before r
              → Fits (pass tag) (key_at ka n) n (key_at ka p.0) p.0
              → Sifts n (p ∷ before) (set_tag tag p ∷ r)
          passed none r k f = (
            (
              (let e = k.1 (λ q. not (comes_before (key_at ka q) q (key_at ka p.0) p.0)) in
                  ground (arith, e, f.0, d.0)),
              tag_ok-any before r p (λ P h. (let e = k.1 P in ground (arith, e, h))) d.1
                  (ground (arith, f.1)),
              k.0,
            ),
            λ P. (let e = k.1 P in ground (arith, e)),
          )
          passed (some t) r k f = (
            (
              (let e = k.1 (λ q. not (comes_before (key_at ka q) q (key_at ka p.0) p.0)) in
                  ground (arith, e, f.0, d.0)),
              (let e = k.1 (λ q. tag_fits (some t) (key_at ka q) (key_at ka p.0)) in
                  ground (arith, e, f.1)),
              k.0,
            ),
            λ P. (let e = k.1 P in ground (arith, e)),
          )
