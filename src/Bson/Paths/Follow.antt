-- ===== src/Bson/Paths/Follow.antt =====
-- Where `entry` of bson/src/lib.rs leads, and what it finds after the part has changed.
use mathlib.Core.Path.{subst}
use elmo.Common.{ℕ, ◌<◌, ◌≤◌, ◌≡◌, ◌∙◌, refl, ap, arith, true, ltb}
use elmo.Common.{Bool-cases, Option-cases, inl, inr, Option, some, none, List}
use elmo.Common.Outcome.{Outcome, ok, err, panic, ◌>>=◌}
use elmo.Bson.{Value, b_array, b_document, Array, Document}
use elmo.Bson.Keys.{position, pair_at}
use elmo.Bson.Keys.Lookup.{Located, position-Located}
use elmo.Bson.Paths.{
  DottedPath, last, dive, Entry, Place, place, here, entry_at, entry_get, is_container, names,
  parse_usize, items_len, item_at, found_document_parent, found_array_parent,
  absent_document_parent, absent_array_parent, absent_document_ancestor, absent_array_ancestor,
  write_pair, write_item,
}
use elmo.Bson.Paths.Parts.{
  position-write_pair, pair_at-write_pair, item_at-write_item, items_len-write_item, item_at_lem,
}

-- The value at the path, if `entry` finds one.
unfoldable pub read : DottedPath → Value → Outcome (Option Value)
read path self = entry_at path self >>= λ p. entry_get p.entry

-- The entry is that of the path in its own part.
abbrev pub Base : Entry → DottedPath → Type 0
Base (found_document_parent bd i) path =
    (name : List ℕ) × ((path ≡ last name) × (position bd name ≡ some i))
Base (found_array_parent ba i) path =
    (name : List ℕ) × ((path ≡ last name) × ((parse_usize name ≡ some i) × (i < items_len ba)))
Base (absent_document_parent bd k) path = (path ≡ last k) × (position bd k ≡ none)
Base (absent_array_parent ba i) path =
    (name : List ℕ) × ((path ≡ last name) × ((parse_usize name ≡ some i) × (items_len ba ≤ i)))
Base (absent_document_ancestor bd rest) path =
    (name : List ℕ) × ((subpath : DottedPath) × ((path ≡ dive name subpath)
        × (rest ≡ dive name subpath)))
Base (absent_array_ancestor ba rest) path = Unit

-- What is found at the end of the path is found behind the part that the entry refers to, for any
-- new part.
abbrev pub Follows : DottedPath → Place → Type 0
Follows path p =
    (rest : DottedPath) × (Base p.entry rest
      × ((names rest ≤ names path)
          × ((part : Value)
              → is_container part ≡ true
              → (is_container (p.put_back part) ≡ true)
                × (read path (p.put_back part) ≡ read rest part))))

-- The call does not panic, and a place that it returns satisfies `P`.
abbrev pub Leads : Outcome Place → (Place → Type 0) → Type 0
Leads (ok p) P = P p
Leads (err e) P = Unit
Leads panic P = ⊥

here-Follows : (path : DottedPath) (e : Entry) → Base e path → Leads (here e) (Follows path)
here-Follows path e base = (path, (base, (omega arith, λ part h. (h, refl))))

-- Reading below a pair or an item.
pub read_below :
    (o : Outcome Place) (f : Value → Value)
    → ((o >>= λ p. ok (place p.entry (λ part. f (p.put_back part)))) >>= λ p. entry_get p.entry)
      ≡ (o >>= λ p. entry_get p.entry)
read_below (ok p) f = refl
read_below (err e) f = refl
read_below panic f = refl

pub entry_pair :
    (bd : Document) (i : ℕ) (name : List ℕ) (subpath : DottedPath) (t : List ℕ × Value)
    → position bd name ≡ some i
    → pair_at bd i ≡ ok t
    → is_container (t.1) ≡ true
    → entry_at (dive name subpath) (b_document bd) ≡ (
        entry_at subpath (t.1) >>= λ p.
        ok (place p.entry (λ part. b_document (write_pair bd i (p.put_back part)))))
unfolding entry_at
entry_pair bd i name subpath t p a c = rw (p, entry_at, a, c) refl

entry_item :
    (ba : Array) (i : ℕ) (name : List ℕ) (subpath : DottedPath) (v : Value)
    → parse_usize name ≡ some i
    → ltb i (items_len ba) ≡ true
    → item_at ba i ≡ ok v
    → is_container v ≡ true
    → entry_at (dive name subpath) (b_array ba) ≡ (
        entry_at subpath v >>= λ p.
        ok (place p.entry (λ part. b_array (write_item ba i (p.put_back part)))))
unfolding entry_at
entry_item ba i name subpath v p l a c = rw (p, entry_at, l, a, c) refl

read_pair :
    (bd : Document) (i : ℕ) (x : Value) (name : List ℕ) (subpath : DottedPath) (t : List ℕ × Value)
    → position bd name ≡ some i
    → pair_at bd i ≡ ok t
    → is_container x ≡ true
    → read (dive name subpath) (b_document (write_pair bd i x)) ≡ read subpath x
unfolding read
read_pair bd i x name subpath t p a c =
    ap (λ o. o >>= λ p. entry_get p.entry)
      (entry_pair (write_pair bd i x) i name subpath (t.0, x) (position-write_pair bd i x name ∙ p)
        (pair_at-write_pair bd i x t a) c)
    ∙ read_below (entry_at subpath x) (λ v. b_document (write_pair (write_pair bd i x) i v))

read_item :
    (ba : Array) (i : ℕ) (x : Value) (name : List ℕ) (subpath : DottedPath)
    → parse_usize name ≡ some i
    → i < items_len ba
    → is_container x ≡ true
    → read (dive name subpath) (b_array (write_item ba i x)) ≡ read subpath x
unfolding read
read_item ba i x name subpath p h c =
    let inside : ltb i (items_len (write_item ba i x)) ≡ true =
      ground (arith, items_len-write_item ba i x) in
    ap (λ o. o >>= λ p. entry_get p.entry)
      (entry_item (write_item ba i x) i name subpath x p inside (item_at-write_item ba i x h) c)
    ∙ read_below (entry_at subpath x) (λ v. b_array (write_item (write_item ba i x) i v))

-- A step into a part.
Follows-below :
    (path subpath : DottedPath) (o : Outcome Place) (f : Value → Value)
    → names subpath ≤ names path
    → ((x : Value)
        → is_container x ≡ true
        → (is_container (f x) ≡ true) × (read path (f x) ≡ read subpath x))
    → Leads o (Follows subpath)
    → Leads (o >>= λ p. ok (place p.entry (λ part. f (p.put_back part)))) (Follows path)
Follows-below path subpath (ok p) f le h (rest, (base, (shorter, back))) = (
  rest,
  (
    base,
    (
      omega arith,
      λ part c.
          let (c1, e1) = back part c in let (c2, e2) = h (p.put_back part) c1 in (c2, e2 ∙ e1),
    ),
  ),
)
Follows-below path subpath (err e) f le h k = tt
Follows-below path subpath panic f le h k = k

pub entry_at-Follows :
    (path : DottedPath) (self : Value)
    → is_container self ≡ true
    → Leads (entry_at path self) (Follows path)
unfolding entry_at names
entry_at-Follows (last name) (b_document bd) c = elim (Option-cases (position bd name)) [
  | inl e ↦ rw (e, Leads) (here-Follows (last name) (absent_document_parent bd name) (refl, e))
  | inr (i, e) ↦
      rw (e, Leads) (here-Follows (last name) (found_document_parent bd i) (name, (refl, e)))
]
entry_at-Follows (dive name subpath) (b_document bd) c = elim (Option-cases (position bd name)) [
  | inl e ↦
      rw (e, Leads)
        (here-Follows (dive name subpath) (absent_document_ancestor bd (dive name subpath))
          (name, (subpath, (refl, refl))))
  | inr (i, e) ↦
      let (v, (_, (at, _))) = subst (Located bd name) e (position-Located bd name) in
      elim (Bool-cases (is_container v)) [
        | inl q ↦
            rw (e, Leads, at, q)
              (Follows-below (dive name subpath) subpath (entry_at subpath v)
                (λ x. b_document (write_pair bd i x)) (omega arith)
                (λ x cx. (refl, read_pair bd i x name subpath (name, v) e at cx))
                (entry_at-Follows subpath v q))
        | inr q ↦ rw (e, Leads, at, q) tt
      ]
]
entry_at-Follows (last name) (b_array ba) c = elim (Option-cases (parse_usize name)) [
  | inl e ↦ rw (e, Leads) tt
  | inr (i, e) ↦ elim (Bool-cases (ltb i (items_len ba))) [
    | inl q ↦
        rw (e, Leads, q)
          (here-Follows (last name) (found_array_parent ba i) (name, (refl, (e, ground arith))))
    | inr q ↦
        rw (e, Leads, q)
          (here-Follows (last name) (absent_array_parent ba i) (name, (refl, (e, ground arith))))
  ]
]
entry_at-Follows (dive name subpath) (b_array ba) c = elim (Option-cases (parse_usize name)) [
  | inl e ↦ rw (e, Leads) tt
  | inr (i, e) ↦ elim (Bool-cases (ltb i (items_len ba))) [
    | inl q ↦
        let inside : i < items_len ba = ground arith in
        let (v, at) = item_at_lem ba i inside in
        elim (Bool-cases (is_container v)) [
          | inl cv ↦
              rw (e, Leads, q, at, cv)
                (Follows-below (dive name subpath) subpath (entry_at subpath v)
                  (λ x. b_array (write_item ba i x)) (omega arith)
                  (λ x cx. (refl, read_item ba i x name subpath e inside cx))
                  (entry_at-Follows subpath v cv))
          | inr cv ↦ rw (e, Leads, q, at, cv) tt
        ]
    | inr q ↦
        rw (e, Leads, q)
          (here-Follows (dive name subpath) (absent_array_ancestor ba (dive name subpath)) tt)
  ]
]
entry_at-Follows _ _ c = absurd cc
