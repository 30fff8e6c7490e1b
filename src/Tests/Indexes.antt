-- ===== src/Tests/Indexes.antt =====
-- secondary_index.go: an index over a number and a string of three entities.
use nestory.Common.{false, List, ℕ, zero, suc, ◌≡◌, refl, true, none, some, [], ◌∷◌, arith, All, ok}
use nestory.Common.Int.{to_uint64, ℤ, pos, negsuc}
use nestory.Common.Bytes.{put_be, Bytes}
use nestory.Engine.Writes.{PendingWrite}
use nestory.SecondaryIndex.Search.{above}
use nestory.SecondaryIndex.Sorted.{IsSorted}
use nestory.SecondaryIndex.Validate.{validate_index}
use nestory.SecondaryIndex.Validate.Laws.{Agree, Free, validate_index_unique}
use nestory.SecondaryIndex.Value.{signed_kind, string_kind, FieldType, Carrier, Entity}
use nestory.SecondaryIndex.Sorted.{IsSorted}
use nestory.SecondaryIndex.Index.{
  SecondaryIndexSpec, SecondaryIndex, compare_entities, key_of, unique_id, set_unique,
  delete_unique,
}
use nestory.SecondaryIndex.Ranges.{Raw, value_of, range_prefix, range_after}
use nestory.SecondaryIndex.Ranges.Laws.{IsOrdered, scan_prefix, range_prefix-scan}
use nestory.SecondaryIndex.Ranges.After.{scan_after, range_after-scan}
use nestory.SecondaryIndex.Entries.{add_entry, remove_entry, merge_secondary_index_entries}
use nestory.SecondaryIndex.Entries.Merge.{IsMergeOf, merge-IsMergeOf}
use nestory.SecondaryIndex.Entries.Keeps.{Before, add_entry-IsOrdered, remove_entry-add_entry}
use nestory.SecondaryIndex.Keys.{key_of_injective, unique_id-set_unique}

abbrev number_type : FieldType
number_type = record { kind = signed_kind; identity = 2 }

abbrev text_type : FieldType
text_type = record { kind = string_kind; identity = 24 }

abbrev layout : ℕ → FieldType
layout zero = number_type
layout (suc n) = text_type

abbrev row_fields : ℤ → Bytes → (index : ℕ) → Carrier (layout index).kind
row_fields n s zero = n
row_fields n s (suc i) = s

abbrev row : ℤ → ℤ → Bytes → Entity layout
row id n s = record { id = id; field = row_fields n s }

abbrev spec : SecondaryIndexSpec
spec = record {
  name = 98 ∷ [];
  fields =
      record { name = 97 ∷ []; index = 0; order = 1 }
      ∷ record { name = 99 ∷ []; index = 1; order = 2 }
      ∷ [];
  unique = true;
  lookup_field = [];
}

abbrev none_yet : SecondaryIndex layout
none_yet = record {
  spec = spec;
  entries = [];
  composite_keys = λ key. none;
  string_keys = λ key. none;
  signed_keys = λ key. none;
  unsigned_keys = λ key. none;
  bool_keys = (pos 0, pos 0);
}

abbrev with_one : SecondaryIndex layout
with_one = add_entry (row (pos 1) (pos 5) (100 ∷ [])) none_yet

abbrev with_two : SecondaryIndex layout
with_two = add_entry (row (pos 2) (negsuc 5) (100 ∷ [])) with_one

with_one-IsOrdered : IsOrdered with_one
with_one-IsOrdered = add_entry-IsOrdered (row (pos 1) (pos 5) (100 ∷ [])) none_yet tt

with_two-IsOrdered : IsOrdered with_two
with_two-IsOrdered =
    add_entry-IsOrdered (row (pos 2) (negsuc 5) (100 ∷ [])) with_one with_one-IsOrdered

abbrev five : Raw
five = value_of number_type (pos 5)

found_five : range_prefix with_two (five ∷ []) ≡ ok (row (pos 1) (pos 5) (100 ∷ []) ∷ [])
unfolding range_prefix add_entry
found_five = refl

range_prefix-scan_example : range_prefix with_two (five ∷ []) ≡ scan_prefix with_two (five ∷ [])
range_prefix-scan_example = range_prefix-scan with_two (five ∷ []) with_two-IsOrdered

range_after-scan_example : range_after with_two [] five ≡ scan_after with_two [] five
range_after-scan_example = range_after-scan with_two [] five with_two-IsOrdered

add_entry-IsOrdered_example : IsOrdered (add_entry (row (pos 2) (negsuc 5) (100 ∷ [])) with_one)
add_entry-IsOrdered_example =
    add_entry-IsOrdered (row (pos 2) (negsuc 5) (100 ∷ [])) with_one with_one-IsOrdered

remove_entry-add_entry_example :
    (remove_entry
      (row (pos 2) (negsuc 5) (100 ∷ []))
      (add_entry (row (pos 2) (negsuc 5) (100 ∷ [])) with_one)).entries
    ≡ with_one.entries
remove_entry-add_entry_example =
    remove_entry-add_entry (row (pos 2) (negsuc 5) (100 ∷ [])) with_one with_one-IsOrdered

-- an entity that comes first, and one that comes behind both
abbrev two_more : List (Entity layout)
two_more = row (pos 3) (negsuc 9) [] ∷ row (pos 4) (pos 8) [] ∷ []

two_more-IsSorted : IsSorted (Before with_two) two_more
unfolding above compare_entities add_entry
two_more-IsSorted = ((refl, tt), (tt, tt))

merge-IsMergeOf_example :
    IsMergeOf with_two with_two.entries two_more
      (merge_secondary_index_entries with_two with_two.entries two_more)
merge-IsMergeOf_example =
    merge-IsMergeOf with_two with_two.entries two_more with_two-IsOrdered two_more-IsSorted

key_of_injective_example :
    All
      (λ f. (row (pos 1) (pos 5) []).field f.index ≡ (row (pos 2) (pos 5) []).field f.index)
      spec.fields
unfolding key_of
key_of_injective_example =
    key_of_injective spec.fields (row (pos 1) (pos 5) []) (row (pos 2) (pos 5) [])
      (omega arith, (omega arith, tt)) (omega arith, (omega arith, tt)) refl

unique_id-set_unique_example :
    (unique_id (set_unique (row (pos 1) (pos 5) []) (pos 1) none_yet) (row (pos 1) (pos 5) [])
      ≡ some (pos 1))
    × (unique_id (delete_unique (row (pos 1) (pos 5) []) none_yet) (row (pos 1) (pos 5) []) ≡ none)
unique_id-set_unique_example = unique_id-set_unique (row (pos 1) (pos 5) []) (pos 1) none_yet tt

abbrev two_writes : List (PendingWrite (Entity layout))
two_writes =
    record { id = pos 1; work = row (pos 1) (pos 5) (100 ∷ []); deleted = false }
    ∷ record { id = pos 2; work = row (pos 2) (pos 6) (100 ∷ []); deleted = false }
    ∷ []

abbrev with_key : SecondaryIndex layout
with_key = set_unique (row (pos 1) (pos 6) (100 ∷ [])) (pos 1) none_yet

let_through : validate_index with_key (pos 1 ∷ pos 2 ∷ []) (λ key. none) two_writes ≡ true
unfolding validate_index set_unique key_of put_be to_uint64
let_through = refl

validate_index_unique_example :
    IsSorted (Agree with_key (pos 1 ∷ pos 2 ∷ [])) two_writes
    × All (Free with_key (pos 1 ∷ pos 2 ∷ [])) two_writes
validate_index_unique_example =
    validate_index_unique with_key (pos 1 ∷ pos 2 ∷ []) (λ key. none) two_writes let_through
