-- ===== src/Relations/KeySet.antt =====
-- relation_index.go, `nodeKeySet`: a set of nodes in the order they were added. The first eight are
-- in an array, the others in a slice, and from the ninth on a map answers for all of them.
use nestory.Common.{
  get_elem?-append_right, get_elem?-append_left, get_elem?_past, ℕ, ◌+◌, ◌-◌, ◌≤◌, ◌≡◌, refl, sym,
  inl, inr, Bool, true, false, ◌||◌, not, Option, none, some, List, [], ◌∷◌, ◌++◌, append-nil,
  append_assoc, arith, ltb, if◌then◌else◌, ltb→lt, ltb→ge, Bool-cases, length, get_elem?,
  length-append,
}
use nestory.Relations.Node.{NodeKey, same_node, has_node, has_node-append}

-- `inline` holds the slots of the array that are filled.
pub record NodeKeySet : Type 0 where
  pub inline : List NodeKey
  pub overflow : List NodeKey
  pub index : Option (List NodeKey)
  pub count : ℕ

abbrev pub inline_size : ℕ
inline_size = 8

abbrev pub empty_keys : NodeKeySet
empty_keys = record { inline = []; overflow = []; index = none; count = 0 }

unfoldable pub add : NodeKey → NodeKeySet → NodeKeySet × Bool
unfolding has_node
add key keys = elim keys.index [
  | some index ↦ if has_node key index then (keys, false) else (
    record keys {
      index = some (key ∷ index);
      overflow = keys.overflow ++ key ∷ [];
      count = keys.count + 1;
    },
    true,
  )
  | none ↦
      if has_node key keys.inline
      then (keys, false)
      else if ltb keys.count inline_size
      then (record keys { inline = keys.inline ++ key ∷ []; count = keys.count + 1 }, true)
      else (
        record keys {
          index = some (key ∷ keys.inline);
          overflow = keys.overflow ++ key ∷ [];
          count = keys.count + 1;
        },
        true,
      )
]

unfoldable pub at : ℕ → NodeKeySet → Option NodeKey
at i keys =
    if ltb i inline_size then get_elem? keys.inline i else get_elem? keys.overflow (i - inline_size)

-- the keys in the order they were added
abbrev pub contents : NodeKeySet → List NodeKey
contents keys = keys.inline ++ keys.overflow

-- what the array, the slice, the map and the counter have to do with each other
abbrev IsShaped : List NodeKey → List NodeKey → Option (List NodeKey) → Type 0
IsShaped inline overflow none = (overflow ≡ []) × (length inline ≤ inline_size)
IsShaped inline overflow (some index) =
    (length inline ≡ inline_size)
    × ((key : NodeKey) → has_node key index ≡ has_node key (inline ++ overflow))

abbrev pub IsKeySet : NodeKeySet → Type 0
IsKeySet keys =
    IsShaped keys.inline keys.overflow keys.index × (keys.count ≡ length (contents keys))

-- a list as a set that keeps the order
unfoldable pub add_unique : NodeKey → List NodeKey → List NodeKey
unfolding has_node
add_unique key xs = if has_node key xs then xs else xs ++ key ∷ []

abbrev keys_of : List NodeKey → List NodeKey → Option (List NodeKey) → ℕ → NodeKeySet
keys_of a o i n = record { inline = a; overflow = o; index = i; count = n }

abbrev AddSpec : NodeKey → NodeKeySet → Type 0
AddSpec key keys =
    IsKeySet (add key keys).0
    × (contents (add key keys).0 ≡ add_unique key (contents keys))
    × ((add key keys).1 ≡ not (has_node key (contents keys)))

has_node_last :
    (x key : NodeKey) (xs : List NodeKey)
    → (same_node x key || has_node x xs) ≡ has_node x (xs ++ key ∷ [])
unfolding has_node
has_node_last x key xs = rw (has_node-append x xs (key ∷ [])) (ground arith)

add_small :
    (key : NodeKey) (a : List NodeKey) (n : ℕ)
    → length a ≤ inline_size
    → n ≡ length a
    → AddSpec key (keys_of a [] none n)
unfolding add add_unique
add_small key a n le c = elim (Bool-cases (has_node key a)) [
  | inl old ↦ rw (old, append-nil a, old) (((refl, le), c), refl, refl)
  | inr new ↦ elim (Bool-cases (ltb n inline_size)) [
    | inl room ↦
        rw (new, room, append-nil a, new)
          (
            (
              (refl, ground (arith, length-append a (key ∷ []))),
              rw (append-nil (a ++ key ∷ [])) (omega (arith, length-append a (key ∷ []))),
            ),
            append-nil (a ++ key ∷ []),
            refl,
          )
    | inr full ↦
        rw (new, full, append-nil a, new)
          (
            ((ground arith, λ x. has_node_last x key a), omega (arith, length-append a (key ∷ []))),
            refl,
            refl,
          )
  ]
]

add_large :
    (key : NodeKey) (a o m : List NodeKey) (n : ℕ)
    → length a ≡ inline_size
    → ((x : NodeKey) → has_node x m ≡ has_node x (a ++ o))
    → n ≡ length (a ++ o)
    → AddSpec key (keys_of a o (some m) n)
unfolding add add_unique
add_large key a o m n e same c = elim (Bool-cases (has_node key m)) [
  | inl old ↦ rw (old, ← same key, old) (((e, same), c), refl, refl)
  | inr new ↦
      rw (new, ← same key, new)
        (
          (
            (e, λ x. rw (same x, ← append_assoc a o (key ∷ [])) (has_node_last x key (a ++ o))),
            rw (← append_assoc a o (key ∷ [])) (omega (arith, length-append (a ++ o) (key ∷ []))),
          ),
          sym (append_assoc a o (key ∷ [])),
          refl,
        )
]

add_parts :
    (key : NodeKey) (a o : List NodeKey) (i : Option (List NodeKey)) (n : ℕ)
    → IsShaped a o i
    → n ≡ length (a ++ o)
    → AddSpec key (keys_of a o i n)
add_parts key a o none n (e, le) c = rw (e) (add_small key a n le (rw (c, e, append-nil a) refl))
add_parts key a o (some m) n (e, same) c = add_large key a o m n e same c

-- A set that is well formed stays so, the answer is whether the key is new, and the contents are
-- those of a list to which a key is appended when it is not there, in the array, at the switch to the
-- map and after it.
pub add-IsKeySet :
    (key : NodeKey) (keys : NodeKeySet)
    → IsKeySet keys
    → IsKeySet (add key keys).0
      × (contents (add key keys).0 ≡ add_unique key (contents keys))
      × ((add key keys).1 ≡ not (has_node key (contents keys)))
add-IsKeySet key keys (shaped, c) =
    add_parts key keys.inline keys.overflow keys.index keys.count shaped c

at_parts :
    (a o : List NodeKey) (m : Option (List NodeKey))
    → IsShaped a o m
    → (i : ℕ)
    → (if ltb i inline_size then get_elem? a i else get_elem? o (i - inline_size))
      ≡ get_elem? (a ++ o) i
at_parts a o none (e, le) i =
    rw (e, append-nil a)
      (elim (Bool-cases (ltb i inline_size)) [
        | inl low ↦ rw low refl
        | inr high ↦ rw high (sym (get_elem?_past a i (omega (arith, ltb→ge i inline_size high))))
      ])
at_parts a o (some m) (e, same) i = elim (Bool-cases (ltb i inline_size)) [
  | inl low ↦ rw low (sym (get_elem?-append_left a o i (rw e (ltb→lt i inline_size low))))
  | inr high ↦
      rw high (
        rw (← e) (sym (get_elem?-append_right a o i (omega (arith, e, ltb→ge i inline_size high)))))
]

-- In a well-formed set the element at a position is that of the contents.
pub at-contents :
    (keys : NodeKeySet) → IsKeySet keys → (i : ℕ) → at i keys ≡ get_elem? (contents keys) i
unfolding at
at-contents keys (shaped, c) i = at_parts keys.inline keys.overflow keys.index shaped i
