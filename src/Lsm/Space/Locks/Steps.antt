-- ===== src/Lsm/Space/Locks/Steps.antt =====
-- The calls on `Space` in any order, as `LsmFile` makes them.
use mathlib.Core.Path.{subst}
use elmo.Common.{ℕ, ◌+◌, ◌-◌, ◌≤◌, ◌≡◌, refl, sym, ◌∙◌, arith}
use elmo.Common.{ltb, true, false, ◌&&◌, some, guard, List, [], ◌∷◌}
use elmo.Common.{Bool-cases, inl, inr}
use elmo.Common.Map.{Map, contains_key}
use elmo.Lsm.PageBlock.{PageBlock}
use elmo.Lsm.PageBlock
use elmo.Lsm.BlockList.{BlockList, contains_page}
use elmo.Lsm.BlockList
use elmo.Lsm.BlockList.Pages.{AllValid, AllApart}
use elmo.Lsm.Space.{
  Space, FromWhere, add_free_blocks, organize_free_blocks, get_block, refill, from_where, take_from,
  check_after,
}
use elmo.Lsm.Space.Request.{BlockRequest, get_after}
use elmo.Lsm.Space.Used.{is_used}
use elmo.Lsm.Space.Alloc.{Allocates}
use elmo.Lsm.Space.Answers.{IsAllowed, Answers}
use elmo.Lsm.Space.Block.{get_block_lem}
use elmo.Lsm.Space.Locks.{has_rlock, add_rlock, release_rlock, add_inactive, add_dependencies}
use elmo.Lsm.Space.Locks.Maps.{page_of, any_page, IsBlocks}
use elmo.Lsm.Space.Locks.Inv.{
  is_live, SameLocks, IfReturns, IfReturns-if, IfReturns->>=, IfReturns->>, IfReturns-imp,
  Returns-some, IfReturns-some, add_free_blocks-IsSound, IfReturns_any,
  organize_free_blocks-SameLocks,
}
use elmo.Lsm.Space.Locks.Calls.{IsLocked, release_rlock_lem, add_rlock_lem, add_dependencies_lem}
use elmo.Lsm.Space.Locks.Inactive.{CanRetire, IsLocked-SameLocks, add_inactive_lem}

refill-SameLocks : (s : Space) → IfReturns (refill s) (SameLocks s)
unfolding refill
refill-SameLocks s =
    IfReturns-if (SameLocks s) _ (organize_free_blocks s) (some s)
      (organize_free_blocks-SameLocks s) (refl, refl, refl, refl)

abbrev LocksOf : Space → PageBlock × Space → Type 0
LocksOf s r = SameLocks s r.1

take_from-SameLocks : (s : Space) (f : FromWhere) → IfReturns (take_from s f) (LocksOf s)
unfolding take_from
take_from-SameLocks s FromWhere.first_free =
    IfReturns->>= (λ a. Unit) (LocksOf s) (BlockList.remove_block s.free_blocks 0) _
      (IfReturns_any _) (λ a h. (refl, refl, refl, refl))
take_from-SameLocks s (FromWhere.specific_free i) =
    IfReturns->>= (λ a. Unit) (LocksOf s) (BlockList.remove_block s.free_blocks i) _
      (IfReturns_any _) (λ a h. (refl, refl, refl, refl))
take_from-SameLocks s (FromWhere.specific_free_exact i size) =
    IfReturns->>= (λ a. Unit) (LocksOf s) (BlockList.remove_block s.free_blocks i) _
      (IfReturns_any _)
      (λ a h. elim (Bool-cases (ltb size (PageBlock.count_pages a.0))) [
        | inl q ↦ rw q (
            IfReturns->>= (λ b. Unit) (LocksOf s) (PageBlock.new _ _) _ (IfReturns_any _)
              (λ b k. IfReturns->> (LocksOf s) (guard _) (some _) (refl, refl, refl, refl)))
        | inr q ↦ rw q (IfReturns->> (LocksOf s) (guard _) (some _) (refl, refl, refl, refl))
      ])
take_from-SameLocks s (FromWhere.end size) =
    IfReturns->>= (λ a. Unit) (LocksOf s) (PageBlock.new s.next_page (s.next_page + size - 1)) _
      (IfReturns_any _) (λ a h. (refl, refl, refl, refl))

SameLocks-trans : (s t u : Space) → SameLocks s t → SameLocks t u → SameLocks s u
SameLocks-trans s t u h k = (k.0 ∙ h.0, k.1 ∙ h.1, k.2 ∙ h.2, k.3 ∙ h.3)

get_block-SameLocks :
    (s : Space) (req : BlockRequest) → IfReturns (get_block s req) (λ r. SameLocks s r.1)
unfolding get_block
get_block-SameLocks s req =
    IfReturns->>= (λ a. Unit) (λ r. SameLocks s r.1) (check_after (get_after req) s.next_page) _
      (IfReturns_any _)
      (λ a h.
        IfReturns->>= (SameLocks s) (λ r. SameLocks s r.1) (refill s) _ (refill-SameLocks s)
          (λ t k.
            IfReturns->>= (λ a. Unit) (λ r. SameLocks s r.1) (from_where t req) _ (IfReturns_any _)
              (λ f l.
                IfReturns-imp (λ r. SameLocks t r.1) (λ r. SameLocks s r.1) (take_from t f)
                  (take_from-SameLocks t f) (λ r m. SameLocks-trans s t r.1 k m))))

-- What a call of `get_block` that returns keeps and allocates.
get_block-IsLocked :
    (s : Space) (req : BlockRequest) (r : PageBlock × Space)
    → IsLocked s
    → IsAllowed s req
    → get_block s req ≡ some r
    → SameLocks s r.1 × IsLocked r.1 × ((p : ℕ) → Allocates s p r)
get_block-IsLocked s req r h a e =
    let same =
      IfReturns-some (λ r. SameLocks s r.1) (get_block s req) r e (get_block-SameLocks s req) in
    let page = λ (p : ℕ).
      (Returns-some (λ r. Allocates s p r × Answers s.pages_per_block req r) (get_block s req) r e
        (get_block_lem s req p h.sound.valid a)).0 in
    (
      same,
      IsLocked-SameLocks s r.1 same
          (record {
            valid = (page 0).valid;
            blocks = subst IsBlocks (sym same.1) h.sound.blocks;
            used = λ q z.
                let m = (page q).marked in
                ground (arith, h.sound.used q (subst (λ x. any_page x q ≡ true) same.1 z), m);
          })
          h,
      page,
    )

-- One call that returns, with what its callers see to.
pub data Step : Space → Space → Type 0 where
  get :
      {s : Space} (req : BlockRequest) (r : PageBlock × Space)
      → IsAllowed s req
      → get_block s req ≡ some r
      → Step s r.1
  free :
      {s s' : Space} (b : BlockList)
      → AllValid b
      → AllApart b
      → ((q : ℕ) → contains_page b q ≡ true → (1 ≤ q) × (is_live s q ≡ true))
      → add_free_blocks s b ≡ some s'
      → Step s s'
  lock :
      {s : Space} (segments : List ℕ) (r : ℕ × Space) → add_rlock s segments ≡ some r → Step s r.1
  unlock :
      {s s' : Space} (rlock : ℕ)
      → contains_key s.rlocks rlock ≡ true
      → release_rlock s rlock ≡ some s'
      → Step s s'
  retire :
      {s s' : Space} (retired : Map BlockList)
      → CanRetire s retired
      → add_inactive s retired ≡ some s'
      → Step s s'
  depend :
      {s s' : Space} (seg : ℕ) (depends_on : List ℕ)
      → contains_key s.dependencies seg ≡ false
      → add_dependencies s seg depends_on ≡ some s'
      → Step s s'

-- What a call keeps, seen at page `p` of segment `g`.
record Keeps (g p : ℕ) (s s' : Space) : Type 0 where
  locked : IsLocked s'
  kept : (has_rlock s' g && page_of s.zombies g p) ≡ true → page_of s'.zombies g p ≡ true

Step-Keeps : {s s' : Space} (g p : ℕ) → Step s s' → IsLocked s → Keeps g p s s'
Step-Keeps {s} g p (get req r a e) h =
    let k = get_block-IsLocked s req r h a e in
    record {
      locked = k.1;
      kept = λ z. subst (λ m. page_of m g p ≡ true) (sym k.0.1) (ground (arith, z));
    }
Step-Keeps {s} {s'} g p (free b v a u e) h =
    let k = Returns-some _ (add_free_blocks s b) s' e (
      add_free_blocks-IsSound s b p h.sound v a (λ q c. ground (arith, u q c))
        (λ q c. ground (arith, u q c))) in
    record {
      locked = IsLocked-SameLocks s s' k.2 k.0 h;
      kept = λ z. subst (λ m. page_of m g p ≡ true) (sym k.2.1) (ground (arith, z));
    }
Step-Keeps {s} g p (lock segments r e) h =
    let k = Returns-some _ (add_rlock s segments) r e (add_rlock_lem s segments p g h) in
    record {
      locked = k.0;
      kept = λ z. subst (λ m. page_of m g p ≡ true) (sym k.2) (ground (arith, z));
    }
Step-Keeps {s} {s'} g p (unlock rlock c e) h =
    let k = Returns-some _ (release_rlock s rlock) s' e (release_rlock_lem s rlock p g h c) in
    record { locked = k.0; kept = λ z. ground (arith, k.2, z) }
Step-Keeps {s} {s'} g p (retire m c e) h =
    let k = Returns-some _ (add_inactive s m) s' e (add_inactive_lem s m p g h c) in
    record { locked = k.0; kept = λ z. ground (arith, k.2, z) }
Step-Keeps {s} {s'} g p (depend seg deps n e) h =
    let k =
      Returns-some _ (add_dependencies s seg deps) s' e (add_dependencies_lem s seg p deps h n) in
    record {
      locked = k.0;
      kept = λ z. subst (λ m. page_of m g p ≡ true) (sym k.2) (ground (arith, z));
    }

page_of-any_page : (m : Map BlockList) (g p : ℕ) → page_of m g p ≡ true → any_page m p ≡ true
page_of-any_page [] g p h = h
page_of-any_page (e ∷ m) g p h = ground (arith, h, page_of-any_page m g p)

-- Any number of calls, and those between which segment `g` has an rlock.
pub data Reaches (s : Space) : Space → Type 0 where
  here : Reaches s s
  next : {t u : Space} → Reaches s t → Step t u → Reaches s u

pub data ReachesHeld (g : ℕ) (s : Space) : Space → Type 0 where
  here : ReachesHeld g s s
  next : {t u : Space} → ReachesHeld g s t → Step t u → has_rlock u g ≡ true → ReachesHeld g s u

-- Where the invariant holds, and calls are made on the conditions of `Step` and return, in whatever
-- order: the invariant holds after them. So the free list is valid, the zombies' pages are in use,
-- every zombie segment is held by an rlock or by a dependency, and so is every segment that a
-- dependency names.
pub Reaches-IsLocked : {s s' : Space} → Reaches s s' → IsLocked s → IsLocked s'
Reaches-IsLocked here h = h
Reaches-IsLocked (next r t) h = (Step-Keeps 0 0 t (Reaches-IsLocked r h)).locked

ReachesHeld-Keeps :
    {g : ℕ} {s s' : Space} (p : ℕ)
    → ReachesHeld g s s'
    → IsLocked s
    → page_of s.zombies g p ≡ true
    → IsLocked s' × (page_of s'.zombies g p ≡ true)
ReachesHeld-Keeps p here h z = (h, z)
ReachesHeld-Keeps {g} p (next r t held) h z =
    let i = ReachesHeld-Keeps p r h z in
    let k = Step-Keeps g p t i.0 in (k.locked, k.kept (ground (arith, held, i.1)))

-- Where the invariant holds, and segment `g`, which is no longer in the header, has an rlock after
-- each of the calls that are made on the conditions of `Step` and return: a page of its blocks remains
-- one, it remains in use, and an allowed `get_block` that returns does not give it out.
pub ReachesHeld-zombies :
    {s s' : Space} (g p : ℕ) (req : BlockRequest) (r : PageBlock × Space)
    → ReachesHeld g s s'
    → IsLocked s
    → page_of s.zombies g p ≡ true
    → IsAllowed s' req
    → get_block s' req ≡ some r
    → (page_of s'.zombies g p ≡ true)
      × (is_used s' p ≡ true)
      × (PageBlock.contains_page r.0 p ≡ false)
ReachesHeld-zombies {s} {s'} g p req r reach h z a e =
    let i = ReachesHeld-Keeps p reach h z in
    let u = i.0.sound.used p (page_of-any_page s'.zombies g p i.1) in
    let f = ((get_block-IsLocked s' req r i.0 a e).2 p).fresh in (i.1, u.1, ground (arith, u.1, f))
