-- ===== src/Lsm/Space/Request.antt =====
-- lsm/src/lib.rs, `BlockRequest`: what a writer of pages asks for.
use elmo.Common.{ℕ, ltb, ◌==◌, Bool, true, false, ◌&&◌, ◌||◌, Option, none, some, List, [], ◌∷◌}

pub data BlockRequest : Type 0 where
  any : BlockRequest
  exact_size : ℕ → BlockRequest
  minimum_size : ℕ → BlockRequest
  early_exact_size : ℕ → BlockRequest
  start_or_after_minimum_size : List ℕ → ℕ → ℕ → BlockRequest
  start_or_any : List ℕ → BlockRequest

-- `v.iter().any(|n| *n == pg)`
abbrev pub any_is : List ℕ → ℕ → Bool
any_is [] pg = false
any_is (n ∷ ns) pg = n == pg || any_is ns pg

abbrev pub start_is : BlockRequest → ℕ → Bool
start_is any pg = false
start_is (exact_size n) pg = false
start_is (minimum_size n) pg = false
start_is (early_exact_size n) pg = false
start_is (start_or_any v) pg = any_is v pg
start_is (start_or_after_minimum_size v after size) pg = any_is v pg

abbrev pub get_after : BlockRequest → Option ℕ
get_after any = none
get_after (exact_size n) = none
get_after (minimum_size n) = none
get_after (early_exact_size n) = none
get_after (start_or_any v) = none
get_after (start_or_after_minimum_size v after size) = some after

-- `start.iter().all(|start| *start > after)`
abbrev pub all_after : List ℕ → ℕ → Bool
all_after [] after = true
all_after (n ∷ ns) after = ltb after n && all_after ns after
