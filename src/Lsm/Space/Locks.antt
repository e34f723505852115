-- ===== src/Lsm/Space/Locks.antt =====
-- lsm/src/lib.rs, `Space`: which segments are still being read. An rlock holds segments, a
-- dependency makes a segment that merged others hold them, and the blocks of a segment that is no
-- longer in the header but is held are its zombies.
pub mod Maps
pub mod Inv
pub mod Release
pub mod Calls
pub mod Inactive
pub mod Steps
mod Tests
use elmo.Common.{ℕ, zero, suc, ◌+◌, if◌then◌else◌, length}
use elmo.Common.{Bool, true, false, not, ◌&&◌, ◌||◌, Option, none, some, ◌>>=◌, ◌>>◌, guard}
use elmo.Common.{List, [], ◌∷◌}
use elmo.Common.Map.{Map, contains, remove_elem, is_none, contains_key, take_key, remove_key}
use elmo.Lsm.BlockList.{BlockList}
use elmo.Lsm.Space.{Space, add_free_blocks}

unfoldable pub add_rlock : Space → List ℕ → Option (ℕ × Space)
add_rlock s segments = do
  let rlock = s.next_rlock
  guard (not (contains_key s.rlocks rlock))
  some (rlock, record s { next_rlock = s.next_rlock + 1; rlocks = (rlock, segments) ∷ s.rlocks })

-- `for h in self.rlocks.values() { if h.contains(&pgnum) { return true } }`
abbrev pub any_contains : Map (List ℕ) → ℕ → Bool
any_contains [] pgnum = false
any_contains (e ∷ m) pgnum = contains e.1 pgnum || any_contains m pgnum

abbrev pub has_rlock : Space → ℕ → Bool
has_rlock s pgnum = any_contains s.rlocks pgnum

-- `self.dependencies.contains_key(&seg) || self.has_rlock(seg)`
abbrev pub is_held : Space → ℕ → Bool
is_held s seg = contains_key s.dependencies seg || has_rlock s seg

-- `match self.zombies.remove(&seg)`
unfoldable pub free_zombies : Space → ℕ → Option Space
free_zombies s seg = elim (take_key s.zombies seg) [
  | none ↦ some s
  | some (blocks, rest) ↦ add_free_blocks (record s { zombies = rest }) blocks
]

-- The loop over `self.dependencies.iter_mut()`: the new dependencies, and the keys to `recurse` on.
unfoldable pub unlink : Map (List ℕ) → ℕ → Map (List ℕ) × List ℕ
unlink [] seg = ([], [])
unlink (e ∷ m) seg =
    let (m', recurse) = unlink m seg in
    let deps = remove_elem e.1 seg in
    ((e.0, deps) ∷ m', if contains e.1 seg && is_none deps then e.0 ∷ recurse else recurse)

-- `for seg in segs { f(seg) }`
unfoldable pub for_each : (Space → ℕ → Option Space) → Space → List ℕ → Option Space
for_each f s [] = some s
for_each f s (seg ∷ segs) = f s seg >>= λ s'. for_each f s' segs

-- A nested call is made only if a dependency has lost its last segment: one more than the number
-- of dependencies is enough fuel.
unfoldable pub maybe_release_segment : ℕ → Space → ℕ → Option Space
unfolding free_zombies unlink for_each
maybe_release_segment zero s seg = none
maybe_release_segment (suc fuel) s seg =
    let nested = λ (t : Space) (other : ℕ).
      maybe_release_segment fuel (record t { dependencies = remove_key t.dependencies other })
        other in
    if is_held s seg then some s else (do
      s' ← free_zombies s seg
      let (deps, recurse) = unlink s'.dependencies seg
      for_each nested (record s' { dependencies = deps }) recurse)

abbrev pub release_segment : Space → ℕ → Option Space
release_segment s seg = maybe_release_segment (length s.dependencies + 1) s seg

unfoldable pub release_rlock : Space → ℕ → Option Space
unfolding maybe_release_segment for_each
release_rlock s rlock = do
  (segments, rest) ← take_key s.rlocks rlock
  let s' = record s { rlocks = rest }
  if is_none s'.zombies && is_none s'.dependencies
      then some s'
      else for_each release_segment s' segments

-- The blocks of the segments that are held become zombies; a segment that is a zombie already
-- fails the assertion.
unfoldable pub add_zombies : Space → Map BlockList → Option Space
add_zombies s [] = some s
add_zombies s ((pg, b) ∷ blocks) =
    let next = add_zombies (record s { zombies = (pg, b) ∷ s.zombies }) blocks in
    if is_held s pg then (guard (not (contains_key s.zombies pg)) >> next) else add_zombies s blocks

-- Those of the other segments are freed.
unfoldable pub free_others : Space → Map BlockList → Option Space
free_others s [] = some s
free_others s ((pg, b) ∷ blocks) =
    if is_held s pg
    then free_others s blocks
    else (add_free_blocks s b >>= λ s'. free_others s' blocks)

unfoldable pub add_inactive : Space → Map BlockList → Option Space
unfolding add_zombies free_others
add_inactive s blocks = add_zombies s blocks >>= λ s'. free_others s' blocks

-- `depends_on.into_iter().filter(...)`
abbrev pub filter_held : Space → List ℕ → List ℕ
filter_held s [] = []
filter_held s (seg ∷ segs) =
    let rest = filter_held s segs in if is_held s seg then seg ∷ rest else rest

unfoldable pub add_dependencies : Space → ℕ → List ℕ → Option Space
add_dependencies s seg depends_on =
    let depends_on' = filter_held s depends_on in
    if is_none depends_on' then some s else (do
      guard (not (contains_key s.dependencies seg))
      some (record s { dependencies = (seg, depends_on') ∷ s.dependencies }))
