-- ===== src/Engine/Locks/Steps.antt =====
-- The steps of a commit with the locks: it asks for a lock only while all locks that it has come before it
-- in the order of all locks.
use nestory.Common.{Ordering, ◌≡◌, not, List, [], ◌∷◌, ◌++◌, map, select, All, In}
use nestory.Common.Bytes.{Bytes}
use nestory.SecondaryIndex.Search.{is_equal}
use nestory.Engine.Locks.{Lock, LockRequest, LockStep, locks, unlocks}
use nestory.Engine.Locks.Keys.{compare_lock}
use nestory.Engine.Locks.Ordered.{compare_request}

-- what is held without the lock
unfoldable pub give_back : Lock → List LockRequest → List LockRequest
unfolding compare_lock
give_back l held = select (λ h. not (is_equal (compare_lock h.lock l))) held

-- every lock that is asked for comes behind all that are held then, and only a lock that is held is given
-- back
unfoldable pub IsClimbing : List LockRequest → List LockStep → Type 0
unfolding give_back
IsClimbing held [] = Unit
IsClimbing held (locks r ∷ steps) =
    All (λ h. compare_request h r ≡ Ordering.lt) held × IsClimbing (held ++ r ∷ []) steps
IsClimbing held (unlocks l ∷ steps) =
    In l (map (λ h. h.lock) held) × IsClimbing (give_back l held) steps
