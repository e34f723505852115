-- ===== src/Bson/Paths/Stored.antt =====
-- What `set_path` of bson/src/lib.rs does to the part that the entry refers to.
use mathlib.Core.Path.{subst}
use elmo.Common.{ℕ, ◌-◌, ◌<◌, ◌≤◌, ◌≡◌, ◌∙◌, refl, sym, ap, arith, true, ltb}
use elmo.Common.{Bool-cases, inl, inr, Option, some, none, List}
use elmo.Common.Outcome.{Outcome, ok, err, panic, ◌>>=◌, Succeeds, Succeeds->>=}
use elmo.Bson.{Value, b_array, b_document, Array, Document}
use elmo.Bson.Keys.{position, set, pair_at}
use elmo.Bson.Keys.Lookup.{Located, position-Located}
use elmo.Bson.Paths.{
  DottedPath, last, dive, Entry, here, entry_at, entry_get, is_container, parse_usize, items_len,
  item_at, found_document_parent, found_array_parent, absent_document_parent, absent_array_parent,
  absent_document_ancestor, absent_array_ancestor, write_pair, write_item, Changed, fresh, replace,
  insert, set_entry, push_pair, push, push_nulls,
}
use elmo.Bson.Paths.Parts.{
  position-write_pair, pair_at-write_pair, item_at-write_item, items_len-write_item,
  insert-remove_pair, insert-remove_item, push_pair_lem, set_lem, pushed_lem,
}
use elmo.Bson.Paths.Follow.{read, Base, entry_pair, read_below}

-- What a call that returns without an error has done: the value is at the path. No call panics.
abbrev pub IsStored : DottedPath → Value → Value × Outcome (Unit {0}) → Type 0
IsStored path v (self, ok _) = (is_container self ≡ true) × (read path self ≡ ok (some v))
IsStored path v (self, err e) = is_container self ≡ true
IsStored path v (self, panic) = ⊥

entry_key :
    (bd : Document) (i : ℕ) (name : List ℕ)
    → position bd name ≡ some i
    → entry_at (last name) (b_document bd) ≡ here (found_document_parent bd i)
unfolding entry_at
entry_key bd i name p = rw (p, entry_at) refl

pub read_key :
    (bd : Document) (i : ℕ) (name : List ℕ) (t : List ℕ × Value)
    → position bd name ≡ some i
    → pair_at bd i ≡ ok t
    → read (last name) (b_document bd) ≡ ok (some (t.1))
unfolding read entry_get
read_key bd i name t p a =
    ap (λ o. o >>= λ p. entry_get p.entry) (entry_key bd i name p)
    ∙ ap (λ o. o >>= λ (_, v). ok (some v)) a

entry_index :
    (ba : Array) (i : ℕ) (name : List ℕ)
    → parse_usize name ≡ some i
    → ltb i (items_len ba) ≡ true
    → entry_at (last name) (b_array ba) ≡ here (found_array_parent ba i)
unfolding entry_at
entry_index ba i name p h = rw (p, entry_at, h) refl

read_index :
    (ba : Array) (i : ℕ) (name : List ℕ) (v : Value)
    → parse_usize name ≡ some i
    → i < items_len ba
    → item_at ba i ≡ ok v
    → read (last name) (b_array ba) ≡ ok (some v)
unfolding read entry_get
read_index ba i name v p h a =
    ap (λ o. o >>= λ p. entry_get p.entry) (entry_index ba i name p (ground arith))
    ∙ ap (λ o. o >>= λ v. ok (some v)) a

module _ (set_sub : DottedPath → Value → Value → Changed (Unit {0})) (v : Value) where
  stored_pair :
      (bd : Document) (i : ℕ) (name : List ℕ)
      → position bd name ≡ some i
      → Succeeds (set_entry set_sub (found_document_parent bd i) v) (IsStored (last name) v)
  unfolding set_entry replace
  stored_pair bd i name p =
      let (w, (_, (at, _))) = subst (Located bd name) p (position-Located bd name) in
      let (rest, (r, e)) = insert-remove_pair bd i v (name, w) at in
      rw (r, Succeeds, e)
        (
          refl,
          read_key (write_pair bd i v) i name (name, v) (position-write_pair bd i v name ∙ p)
              (pair_at-write_pair bd i v (name, w) at),
        )

  stored_item :
      (ba : Array) (i : ℕ) (name : List ℕ)
      → parse_usize name ≡ some i
      → i < items_len ba
      → Succeeds (set_entry set_sub (found_array_parent ba i) v) (IsStored (last name) v)
  unfolding set_entry replace
  stored_item ba i name p h =
      let (old, (rest, (r, e))) = insert-remove_item ba i v h in
      rw (r, Succeeds, e)
        (
          refl,
          read_index (write_item ba i v) i name v p (omega (arith, items_len-write_item ba i v))
              (item_at-write_item ba i v h),
        )

  pushed_pair :
      (bd : Document) (name : List ℕ)
      → position bd name ≡ none
      → Succeeds (set_entry set_sub (absent_document_parent bd name) v) (IsStored (last name) v)
  unfolding set_entry insert
  pushed_pair bd name p =
      let (i, (q, a)) = push_pair_lem bd name v p in
      (refl, read_key (push_pair bd name v) i name (name, v) q a)

  pushed_item :
      (ba : Array) (i : ℕ) (name : List ℕ)
      → parse_usize name ≡ some i
      → items_len ba ≤ i
      → Succeeds (set_entry set_sub (absent_array_parent ba i) v) (IsStored (last name) v)
  unfolding set_entry insert
  pushed_item ba i name p h =
      let (inside, at) = pushed_lem ba i v h in
      elim (Bool-cases (ltb 1500000 i)) [
        | inl q ↦ rw (q, Succeeds) refl
        | inr q ↦
            rw (q, Succeeds)
              (refl, read_index (push (push_nulls (i - items_len ba) ba) v) i name v p inside at)
      ]

  pub fresh_is_container : (o : Option ℕ) → is_container (fresh o) ≡ true
  fresh_is_container none = refl
  fresh_is_container (some i) = refl

  put_below :
      (bd : Document) (name : List ℕ) (subpath : DottedPath) (made : Value × Outcome (Unit {0}))
      → IsStored subpath v made
      → IsStored (dive name subpath) v (b_document (set bd name (made.0)), made.1)
  unfolding read
  put_below bd name subpath (sub, ok _) (c, r) =
      let (i, (p, a)) = set_lem bd name sub in
      (
        refl,
        ap (λ o. o >>= λ p. entry_get p.entry)
              (entry_pair (set bd name sub) i name subpath (name, sub) p a c)
            ∙ read_below (entry_at subpath sub) (λ x. b_document (write_pair (set bd name sub) i x))
            ∙ r,
      )
  put_below bd name subpath (sub, err e) c = refl
  put_below bd name subpath (sub, panic) h = h

  stored_below :
      (bd : Document) (name : List ℕ) (subpath : DottedPath)
      → Succeeds (set_sub subpath v (fresh (parse_usize name))) (IsStored subpath v)
      → Succeeds
          (set_entry set_sub (absent_document_ancestor bd (dive name subpath)) v)
          (IsStored (dive name subpath) v)
  unfolding set_entry insert
  stored_below bd name subpath h =
      Succeeds->>= (IsStored subpath v) (IsStored (dive name subpath) v)
        (set_sub subpath v (fresh (parse_usize name)))
        (λ (sub, result). ok (b_document (set bd name sub), result)) h
        (λ made k. put_below bd name subpath made k)

  -- Setting an entry that is its own part.
  pub stored :
      (e : Entry) (rest : DottedPath)
      → Base e rest
      → ((name : List ℕ) (subpath : DottedPath)
          → rest ≡ dive name subpath
          → Succeeds (set_sub subpath v (fresh (parse_usize name))) (IsStored subpath v))
      → Succeeds (set_entry set_sub e v) (IsStored rest v)
  unfolding set_entry insert
  stored (found_document_parent bd i) rest (name, (e, p)) sub =
      subst (λ q. Succeeds (set_entry set_sub (found_document_parent bd i) v) (IsStored q v))
        (sym e) (stored_pair bd i name p)
  stored (found_array_parent ba i) rest (name, (e, (p, h))) sub =
      subst (λ q. Succeeds (set_entry set_sub (found_array_parent ba i) v) (IsStored q v)) (sym e)
        (stored_item ba i name p h)
  stored (absent_document_parent bd k) rest (e, p) sub =
      subst (λ q. Succeeds (set_entry set_sub (absent_document_parent bd k) v) (IsStored q v))
        (sym e) (pushed_pair bd k p)
  stored (absent_array_parent ba i) rest (name, (e, (p, h))) sub =
      subst (λ q. Succeeds (set_entry set_sub (absent_array_parent ba i) v) (IsStored q v)) (sym e)
        (pushed_item ba i name p h)
  stored (absent_document_ancestor bd path) rest (name, (subpath, (e, f))) sub =
      subst (λ d. Succeeds (set_entry set_sub (absent_document_ancestor bd d) v) (IsStored rest v))
        (sym f)
        (subst
          (λ q.
            Succeeds (set_entry set_sub (absent_document_ancestor bd (dive name subpath)) v)
              (IsStored q v))
          (sym e) (stored_below bd name subpath (sub name subpath e)))
  stored (absent_array_ancestor ba path) rest h sub = refl
