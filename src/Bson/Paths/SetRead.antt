-- ===== src/Bson/Paths/SetRead.antt =====
-- `set_path` of bson/src/lib.rs, and what is at the path then.
use elmo.Bson.Paths.Stored.{IsStored, fresh_is_container, stored}
use elmo.Common.{ℕ, zero, suc, ◌<◌, ◌≤◌, ◌≡◌, ◌∙◌, ap, arith, true}
use elmo.Common.{List}
use elmo.Common.Outcome.{Outcome, ok, err, panic, ◌>>=◌, Succeeds, Succeeds->>=}
use elmo.Bson.{Value}
use elmo.Bson.Paths.{
  DottedPath, last, dive, Place, entry_at, is_container, names, parse_usize, Changed, fresh,
  set_entry, set_path_by, set_path, parse_path,
}
use elmo.Bson.Paths.Follow.{read, Follows, Leads, entry_at-Follows}

-- The part is set, and put back.
put_back-IsStored :
    (path rest : DottedPath) (v : Value) (back : Value → Value)
    → ((part : Value)
        → is_container part ≡ true
        → (is_container (back part) ≡ true) × (read path (back part) ≡ read rest part))
    → (made : Value × Outcome (Unit {0})) → IsStored rest v made
    → IsStored path v (back (made.0), made.1)
put_back-IsStored path rest v back h (part, ok _) (c, r) = let (c2, e) = h part c in (c2, e ∙ r)
put_back-IsStored path rest v back h (part, err e) c = (h part c).0
put_back-IsStored path rest v back h (part, panic) k = k

-- After the entry has been found, with a call for the paths behind it that sets them.
after_entry :
    (set_sub : DottedPath → Value → Value → Changed (Unit {0})) (path : DottedPath) (v : Value)
    (o : Outcome Place) (self : Value)
    → is_container self ≡ true
    → Leads o (Follows path)
    → ((subpath : DottedPath) (sub : Value)
        → suc (names subpath) ≤ names path
        → is_container sub ≡ true
        → Succeeds (set_sub subpath v sub) (IsStored subpath v))
    → Succeeds
        (elim o [
          | ok p ↦ set_entry set_sub p.entry v >>= λ (part, result). ok (p.put_back part, result)
          | err e ↦ ok (self, err e)
          | panic ↦ panic
        ])
        (IsStored path v)
unfolding names
after_entry set_sub path v (ok p) self c (rest, (base, (shorter, back))) sub =
    Succeeds->>= (IsStored rest v) (IsStored path v) (set_entry set_sub p.entry v)
      (λ (part, result). ok (p.put_back part, result))
      (stored set_sub v p.entry rest base (λ name subpath e.
        let longer : names rest ≡ suc (names subpath) = ap names e in
        sub subpath (fresh (parse_usize name)) (omega arith)
          (fresh_is_container set_sub v (parse_usize name))))
      (λ made k. put_back-IsStored path rest v p.put_back back made k)
after_entry set_sub path v (err e) self c h sub = c
after_entry set_sub path v panic self c h sub = h

names_positive : (path : DottedPath) → 0 < names path
unfolding names
names_positive (last name) = omega arith
names_positive (dive name subpath) = omega arith

set_path_by-IsStored :
    (fuel : ℕ) (path : DottedPath) (v self : Value)
    → names path ≤ fuel
    → is_container self ≡ true
    → Succeeds (set_path_by fuel path v self) (IsStored path v)
unfolding set_path_by
set_path_by-IsStored zero path v self h c = absurd (omega (arith, names_positive path))
set_path_by-IsStored (suc fuel) path v self h c =
    after_entry (set_path_by fuel) path v (entry_at path self) self c (entry_at-Follows path self c)
      (λ subpath sub le k. set_path_by-IsStored fuel subpath v sub (omega arith) k)

-- On a document or an array `set_path` never panics, and leaves a document or an array. Where it
-- returns no error, `entry` finds the new value at the path afterwards.
pub set_path_lem :
    (path : List ℕ) (v self : Value)
    → is_container self ≡ true
    → Succeeds (set_path path v self) (IsStored (parse_path path) v)
unfolding set_path
set_path_lem path v self c =
    set_path_by-IsStored (names (parse_path path)) (parse_path path) v self (omega arith) c
