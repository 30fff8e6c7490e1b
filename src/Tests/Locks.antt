-- ===== src/Tests/Locks.antt =====
-- The locks of two commits that touch the same rows.
use nestory.Common.{ℕ, Bool, true, false, none, List, [], ◌∷◌}
use nestory.Common.Bytes.{Bytes}
use nestory.Common.Int.{pos}
use nestory.Relations.Node.{NodeKey}
use nestory.Engine.Resources.{TransactionResourceKey, TouchedResource, resource_key}
use nestory.Engine.Locks.Finish.{CommitInput}

abbrev row : ℕ → TouchedResource Bytes
row n = record { db_name = 65 ∷ []; id = pos n; ver = 0; work = []; original = [] }

abbrev all_tables : Bytes → Bool
all_tables name = true

abbrev deleted_rows : List NodeKey
deleted_rows = record { typ = 65 ∷ []; id = pos 1 } ∷ []

-- a row that is copied, once more than needed, before the rows are locked
abbrev copied : List TransactionResourceKey
copied = resource_key (row 9) ∷ resource_key (row 2) ∷ []

abbrev commits : List (CommitInput Bytes)
commits =
    record {
      resources = row 3 ∷ row 2 ∷ [];
      snapshots = [];
      added = [];
      creates = [];
      relation_changed = false;
      owners = none;
    }
    ∷ record {
      resources = row 3 ∷ [];
      snapshots = copied;
      added = row 2 ∷ [];
      creates = [];
      relation_changed = true;
      owners = none;
    }
    ∷ []
