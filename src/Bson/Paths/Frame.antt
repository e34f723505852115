-- ===== src/Bson/Paths/Frame.antt =====
-- `set_path` of bson/src/lib.rs, and the keys that the path does not begin with.
use mathlib.Core.Path.{subst}
use elmo.Common.{ℕ, zero, suc, ◌≡◌, ◌∙◌, refl, sym, ap, false}
use elmo.Common.{Bool-cases, Option-cases, inl, inr, List}
use elmo.Common.Outcome.{Outcome, ok, err, panic, ◌>>=◌, Succeeds}
use elmo.Bson.{Value, b_document, Document, no_pairs, pair}
use elmo.Bson.Encode.{bytes_equal}
use elmo.Bson.Keys.{get, position, set, pair_at}
use elmo.Bson.Keys.Lookup.{get-set, Located, position-Located}
use elmo.Bson.Paths.Parts.{insert-remove_pair, ok_injective}
use elmo.Bson.Paths.Follow.{entry_pair}
use elmo.Bson.Paths.Stored.{IsStored}
use elmo.Bson.Paths.SetRead.{set_path_lem}
use elmo.Bson.Paths.{
  DottedPath, last, dive, Place, place, entry_at, is_container, Changed, set_entry, set_path_by,
  set_path, parse_path, write_pair, push_pair, names, insert, replace, fresh, parse_usize,
}

unfoldable pub first_name : DottedPath → List ℕ
first_name (last name) = name
first_name (dive name subpath) = name

-- A document in which the key has what it has in the other one.
abbrev pub HasStill : Document → List ℕ → Value → Type 0
HasStill bd other (b_document after) = get after other ≡ get bd other
HasStill bd other _ = ⊥

-- Wherever the call does not panic.
abbrev Keeps : {A : Type 0} → Changed A → (Value → Type 0) → Type 0
Keeps (ok (part, result)) P = P part
Keeps (err e) P = Unit
Keeps panic P = Unit

get-write_pair :
    (bd : Document) (i : ℕ) (x : Value) (t : List ℕ × Value) (other : List ℕ)
    → pair_at bd i ≡ ok t
    → bytes_equal (t.0) other ≡ false
    → get (write_pair bd i x) other ≡ get bd other
unfolding get write_pair pair_at
get-write_pair no_pairs i x t other p q = refl
get-write_pair (pair ksub vsub pairs) zero x t other p q =
    let key : ksub ≡ t.0 = ap (λ (t : List ℕ × Value). t.0) (ok_injective p) in
    let apart : bytes_equal ksub other ≡ false = ap (λ k. bytes_equal k other) key ∙ q in
    rw apart refl
get-write_pair (pair ksub vsub pairs) (suc i) x t other p q =
    rw (get-write_pair pairs i x t other p q) refl

get-push_pair :
    (bd : Document) (name : List ℕ) (x : Value) (other : List ℕ)
    → bytes_equal name other ≡ false
    → get (push_pair bd name x) other ≡ get bd other
unfolding get push_pair
get-push_pair no_pairs name x other q = rw q refl
get-push_pair (pair ksub vsub pairs) name x other q = rw (get-push_pair pairs name x other q) refl

any_Keeps : (c : Changed (Unit {0})) → Keeps c (λ part. Unit {0})
any_Keeps (ok (part, result)) = tt
any_Keeps (err e) = tt
any_Keeps panic = tt

then_Keeps :
    (c : Changed (Unit {0})) (f : Value → Value) (Q P : Value → Type 0)
    → Keeps c Q
    → ((part : Value) → Q part → P (f part))
    → Keeps (c >>= λ (part, result). ok (f part, result)) P
then_Keeps (ok (part, result)) f Q P h k = k part h
then_Keeps (err e) f Q P h k = tt
then_Keeps panic f Q P h k = tt

-- `set_path` after the call of `entry`.
module _ (set_sub : DottedPath → Value → Value → Changed (Unit {0})) (v : Value) where
  abbrev after : Value → Outcome Place → Changed (Unit {0})
  after self (ok p) = set_entry set_sub p.entry v >>= λ (part, result). ok (p.put_back part, result)
  after self (err e) = ok (self, err e)
  after self panic = panic

  module _ (bd : Document) (other : List ℕ) where
    below_Keeps :
        (o : Outcome Place) (i : ℕ) (t : List ℕ × Value)
        → pair_at bd i ≡ ok t
        → bytes_equal (t.0) other ≡ false
        → Keeps
            (after (b_document bd) (
              o >>= λ p.
              ok (place p.entry (λ part. b_document (write_pair bd i (p.put_back part))))))
            (HasStill bd other)
    below_Keeps (ok p) i t a q =
        then_Keeps (set_entry set_sub p.entry v)
          (λ part. b_document (write_pair bd i (p.put_back part))) (λ part. Unit {0})
          (HasStill bd other) (any_Keeps (set_entry set_sub p.entry v))
          (λ part _. get-write_pair bd i (p.put_back part) t other a q)
    below_Keeps (err e) i t a q = refl
    below_Keeps panic i t a q = tt

    entry_Keeps :
        (path : DottedPath)
        → bytes_equal (first_name path) other ≡ false
        → Keeps (after (b_document bd) (entry_at path (b_document bd))) (HasStill bd other)
    unfolding first_name entry_at set_entry insert replace
    entry_Keeps (last name) q =
        let at = position-Located bd name in
        elim (Option-cases (position bd name)) [
          | inl e ↦ rw (e, Keeps) (get-push_pair bd name v other q)
          | inr (i, e) ↦
              let (w, (_, (a, _))) = subst (Located bd name) e at in
              let (rest, (r, put)) = insert-remove_pair bd i v (name, w) a in
              rw (e, Keeps, r, put) (get-write_pair bd i v (name, w) other a q)
        ]
    entry_Keeps (dive name subpath) q =
        let at = position-Located bd name in
        elim (Option-cases (position bd name)) [
          | inl e ↦
              rw (e, Keeps)
                (then_Keeps
                  (set_sub subpath v (fresh (parse_usize name)) >>= λ (sub, result).
                    ok (b_document (set bd name sub), result))
                  (λ part. part) (HasStill bd other) (HasStill bd other)
                  (then_Keeps (set_sub subpath v (fresh (parse_usize name)))
                    (λ sub. b_document (set bd name sub)) (λ part. Unit {0}) (HasStill bd other)
                    (any_Keeps (set_sub subpath v (fresh (parse_usize name))))
                    (λ sub _. get-set bd name sub other ∙ rw q refl))
                  (λ part h. h))
          | inr (i, e) ↦
              let (w, (_, (a, _))) = subst (Located bd name) e at in
              elim (Bool-cases (is_container w)) [
                | inl c ↦
                    subst (λ o. Keeps (after (b_document bd) o) (HasStill bd other))
                      (sym (entry_pair bd i name subpath (name, w) e a c))
                      (below_Keeps (entry_at subpath w) i (name, w) a q)
                | inr c ↦ rw (e, Keeps, a, c) refl
              ]
        ]

set_path_by-Keeps :
    (fuel : ℕ) (path : DottedPath) (v : Value) (bd : Document) (other : List ℕ)
    → bytes_equal (first_name path) other ≡ false
    → Keeps (set_path_by fuel path v (b_document bd)) (HasStill bd other)
unfolding set_path_by
set_path_by-Keeps zero path v bd other q = tt
set_path_by-Keeps (suc fuel) path v bd other q = entry_Keeps (set_path_by fuel) v bd other path q

kept :
    (c : Changed (Unit {0})) (P Q : Value × Outcome (Unit {0}) → Type 0) (R : Value → Type 0)
    → Succeeds c P
    → Keeps c R
    → ((made : Value × Outcome (Unit {0})) → R (made.0) → Q made)
    → Succeeds c Q
kept (ok (part, result)) P Q R h k f = f (part, result) k
kept (err e) P Q R h k f = absurd h
kept panic P Q R h k f = absurd h

-- On a document `set_path` never panics and leaves a document. In it every key but the first name of
-- the path has what it had, with or without an error.
pub set_path-get :
    (path : List ℕ) (v : Value) (bd : Document) (other : List ℕ)
    → bytes_equal (first_name (parse_path path)) other ≡ false
    → Succeeds (set_path path v (b_document bd)) (λ (self, _). HasStill bd other self)
unfolding set_path
set_path-get path v bd other q =
    kept (set_path path v (b_document bd)) (IsStored (parse_path path) v)
      (λ (self, _). HasStill bd other self) (HasStill bd other)
      (set_path_lem path v (b_document bd) refl)
      (set_path_by-Keeps (names (parse_path path)) (parse_path path) v bd other q) (λ made h. h)
