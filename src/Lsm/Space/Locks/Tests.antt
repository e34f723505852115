-- ===== src/Lsm/Space/Locks/Tests.antt =====
-- Runs of the locks of a file, and the theorems at concrete inputs.
use elmo.Common.{
  ℕ, ◌+◌, ◌≡◌, refl, ◌&&◌, true, false, List, [], ◌∷◌, some, none, Returns, arith, ==_iff,
}
use elmo.Lsm.PageBlock.{PageBlock}
use elmo.Lsm.PageBlock
use elmo.Lsm.Space.{Space, get_block}
use elmo.Lsm.Space.Request
use elmo.Lsm.Space.Used.{is_used}
use elmo.Lsm.Space.Locks.{has_rlock, add_rlock, release_rlock}
use elmo.Lsm.Space.Locks.Maps.{page_of}
use elmo.Lsm.Space.Locks.Inv.{is_live}
use elmo.Lsm.Space.Locks.Calls.{IsLocked, release_rlock_lem}
use elmo.Lsm.Space.Locks.Steps.{Reaches, ReachesHeld, Step, Reaches-IsLocked, ReachesHeld-zombies}

abbrev blk : ℕ → ℕ → PageBlock
blk first last = record { first_page = first; last_page = last }

-- Segment 16 has an rlock, and segment 27 waits for it. Both are zombies. Segment 35 is live.
abbrev locked : Space
locked = record {
  page_size = 4096;
  pages_per_block = 10;
  next_page = 40;
  recent_free = [];
  free_blocks = blk 5 8 ∷ [];
  next_rlock = 3;
  rlocks = (2, 16 ∷ []) ∷ [];
  zombies = (16, blk 15 16 ∷ []) ∷ (27, blk 20 20 ∷ blk 26 27 ∷ []) ∷ [];
  dependencies = (27, 16 ∷ []) ∷ [];
}

locked-IsLocked : IsLocked locked
locked-IsLocked = record {
  sound = record {
    valid = record {
      free = record { in_file = ground arith; apart = ground arith };
      positive = omega arith;
      grows = omega arith;
    };
    blocks = ground arith;
    used = λ q z. ground (arith, z);
  };
  held = record {
    zombies_held = λ g z. ground (arith, z);
    needed_held = λ g z. ground (arith, z);
    linked = ground arith;
  };
  fresh = λ k z. ground (arith, z);
}

-- Releasing the rlock frees segment 16, and then segment 27, which waited for it.
abbrev released : Space
released = record locked {
  recent_free = (blk 15 16 ∷ []) ∷ (blk 20 20 ∷ blk 26 27 ∷ []) ∷ [];
  rlocks = [];
  zombies = [];
  dependencies = [];
}

release_locked : release_rlock locked 2 ≡ some released
unfolding release_rlock elmo.Common.Map.take_key elmo.Lsm.Space.add_free_blocks
release_locked = refl

-- A second rlock, on segments 16 and 35.
abbrev locked_twice : Space
locked_twice = record locked { next_rlock = 4; rlocks = (3, 16 ∷ 35 ∷ []) ∷ (2, 16 ∷ []) ∷ [] }

lock_again : add_rlock locked (16 ∷ 35 ∷ []) ≡ some (3, locked_twice)
unfolding add_rlock
lock_again = refl

-- Then the first one is released.
abbrev locked_still : Space
locked_still = record locked_twice { rlocks = (3, 16 ∷ 35 ∷ []) ∷ [] }

release_first : release_rlock locked_twice 2 ≡ some locked_still
unfolding release_rlock elmo.Common.Map.take_key
release_first = refl

two_steps : ReachesHeld 16 locked locked_still
two_steps =
    ReachesHeld.next
      (ReachesHeld.next ReachesHeld.here (Step.lock (16 ∷ 35 ∷ []) (3, locked_twice) lock_again)
        refl)
      (Step.unlock 2 refl release_first) refl

two_calls : Reaches locked locked_still
two_calls =
    Reaches.next (Reaches.next Reaches.here (Step.lock (16 ∷ 35 ∷ []) (3, locked_twice) lock_again))
      (Step.unlock 2 refl release_first)

Reaches-IsLocked_example : IsLocked locked_still
Reaches-IsLocked_example = Reaches-IsLocked two_calls locked-IsLocked

ReachesHeld-zombies_example :
    (page_of locked_still.zombies 16 15 ≡ true)
    × (is_used locked_still 15 ≡ true)
    × (PageBlock.contains_page (blk 40 49) 15 ≡ false)
unfolding get_block elmo.Lsm.Space.Find.find_block_minimum_size PageBlock.new
ReachesHeld-zombies_example =
    ReachesHeld-zombies 16 15 (Request.minimum_size 7)
      (blk 40 49, record locked_still { next_page = 50 }) two_steps locked-IsLocked refl
      (omega arith) refl

release_rlock_example : Returns (release_rlock locked 2) λ s'.
    IsLocked s'
    × (is_live s' 26 ≡ is_live locked 26)
    × ((has_rlock s' 27 && page_of s'.zombies 27 26)
        ≡ (has_rlock s' 27 && page_of locked.zombies 27 26))
release_rlock_example = release_rlock_lem locked 2 26 27 locked-IsLocked refl
