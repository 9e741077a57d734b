-- ===== src/Runtime/BlockhashQueue/Tests.antt =====
-- The queue on concrete hashes.
use tao.Common.{◌≡◌, refl, true, none, some, [], ◌∷◌}
use tao.Runtime.BlockhashQueue.{BlockhashQueue, new, register, contains, latest, age_of}
use tao.Runtime.BlockhashQueue.Expiry.{register_all, age_of-register_all}

abbrev queue : BlockhashQueue
queue = record { recent = (2 ∷ []) ∷ (1 ∷ []) ∷ []; max_age = 2 }

new_zero : new 0 ≡ none
unfolding new
new_zero = refl

latest_registered : latest (register queue (3 ∷ [])) ≡ some (3 ∷ [])
unfolding latest register tao.Runtime.BlockhashQueue.shrink tao.Runtime.BlockhashQueue.pop_back
latest_registered = refl

age_of-register_all_example :
    (age_of (register_all (register queue (3 ∷ [])) ((4 ∷ []) ∷ [])) (3 ∷ []) ≡ some 1)
    × (contains (register_all (register queue (3 ∷ [])) ((4 ∷ []) ∷ [])) (3 ∷ []) ≡ true)
age_of-register_all_example = age_of-register_all queue (3 ∷ []) ((4 ∷ []) ∷ []) refl
