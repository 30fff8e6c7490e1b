-- ===== src/Engine/Locks/Finish.antt =====
-- Commits that take the locks of `commit_locks` side by side.
use nestory.Common.{Bool, Option, List, [], ◌++◌, map}
use nestory.Common.Bytes.{Bytes}
use nestory.Relations.Node.{NodeKey}
use nestory.Relations.Cycles.{Owners}
use nestory.Engine.Resources.{TransactionResourceKey, TouchedResource, resource_key}
use nestory.Engine.Locks.{commit_locks}
use nestory.Engine.Locks.Sorted.{AreDistinct}
use nestory.Engine.Locks.Progress.{Committing}

-- what a transaction that deletes nothing commits, with the rows that are copied and the resources that
-- are added for back references, and the committed owners that it sees
pub record CommitInput (A : Type 0) : Type 0 where
  pub resources : List (TouchedResource A)
  pub snapshots : List TransactionResourceKey
  pub added : List (TouchedResource A)
  pub creates : List NodeKey
  pub relation_changed : Bool
  pub owners : Option Owners

module _ {A : Type 0} (has_secondary_indexes participant registered : Bytes → Bool) where
  -- a commit that has no lock yet
  abbrev pub begin_commit : CommitInput A → Committing
  begin_commit c = record {
    held = [];
    wanted =
        commit_locks has_secondary_indexes participant registered c.owners c.resources c.snapshots
          c.added c.creates [] c.relation_changed;
  }

  -- the resources of a commit are all different
  abbrev pub HasDistinct : CommitInput A → Type 0
  HasDistinct c = AreDistinct (map resource_key (c.resources ++ c.added))
