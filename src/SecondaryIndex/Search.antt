-- ===== src/SecondaryIndex/Search.antt =====
-- secondary_index.go: `sort.Search` of the standard library, the binary search that the index
-- operations call, and the positions that it finds in a list that a test splits in two.
use nestory.Common.{
  ◌⊎◌, Ordering, ℕ, zero, suc, ◌+◌, ◌-◌, ◌/◌, ◌≤◌, ◌≡◌, refl, sym, ◌∙◌, inl, inr, Bool, true, false,
  List, [], ◌∷◌, ◌++◌, arith, ltb, leb, if◌then◌else◌, ltb→lt, ltb→ge, leb→le, le→leb, lt→leb,
  Bool-cases, length, length-append, All,
}

-- the loop of `sort.Search` between `i` and `j`
unfoldable pub search_loop : (ℕ → Bool) → ℕ → ℕ → ℕ → ℕ
search_loop p zero i j = i
search_loop p (suc fuel) i j =
    let h = (i + j) / 2 in
    let above = search_loop p fuel (h + 1) j in
    let below = search_loop p fuel i h in if ltb i j then (if p h then below else above) else i

-- `sort.Search(n, p)`: the interval gets shorter in each round, so that `n` rounds are enough
unfoldable pub search : ℕ → (ℕ → Bool) → ℕ
unfolding search_loop
search n p = search_loop p n 0 n

search_loop_lem :
    (p : ℕ → Bool) (r fuel i j : ℕ)
    → j - i ≤ fuel
    → i ≤ r
    → r ≤ j
    → ((k : ℕ) → p k ≡ leb r k)
    → search_loop p fuel i j ≡ r
unfolding search_loop
search_loop_lem p r zero i j f l u s = omega arith
search_loop_lem p r (suc fuel) i j f l u s = elim (Bool-cases (ltb i j)) [
  | inr stop ↦ rw stop (omega (arith, ltb→ge i j stop))
  | inl go ↦ elim (Bool-cases (leb r ((i + j) / 2))) [
    | inl low ↦
        rw (go, s ((i + j) / 2), low)
          (search_loop_lem p r fuel i ((i + j) / 2) (omega (arith, ltb→lt i j go)) l
            (leb→le r ((i + j) / 2) low) s)
    | inr high ↦
        rw (go, s ((i + j) / 2), high)
          (search_loop_lem p r fuel ((i + j) / 2 + 1) j (omega (arith, ltb→lt i j go))
            (ground (arith, high)) u s)
  ]
]

pub search_lem : (p : ℕ → Bool) (r n : ℕ) → r ≤ n → ((k : ℕ) → p k ≡ leb r k) → search n p ≡ r
unfolding search
search_lem p r n h s = search_loop_lem p r n 0 n (omega arith) (omega arith) h s

-- the result of a loop over fields: that of the first one unless it is 0
abbrev pub first : Ordering → Ordering → Ordering
first Ordering.lt rest = Ordering.lt
first Ordering.eq rest = rest
first Ordering.gt rest = Ordering.gt

abbrev pub is_equal : Ordering → Bool
is_equal Ordering.eq = true
is_equal _ = false

-- the tests `order >= 0` and `order > 0`
unfoldable pub at_least : Ordering → Bool
at_least Ordering.lt = false
at_least _ = true

unfoldable pub above : Ordering → Bool
above Ordering.gt = true
above _ = false

pub Ordering-cases : (o : Ordering) → (o ≡ Ordering.lt) ⊎ ((o ≡ Ordering.eq) ⊎ (o ≡ Ordering.gt))
Ordering-cases Ordering.lt = inl refl
Ordering-cases Ordering.eq = inr (inl refl)
Ordering-cases Ordering.gt = inr (inr refl)

pub first_eq : (o : Ordering) → first o Ordering.eq ≡ o
first_eq Ordering.lt = refl
first_eq Ordering.eq = refl
first_eq Ordering.gt = refl

pub is_equal-eq : (o : Ordering) → is_equal o ≡ true → o ≡ Ordering.eq
is_equal-eq Ordering.lt h = ground arith
is_equal-eq Ordering.eq h = refl
is_equal-eq Ordering.gt h = ground arith

module _ {A : Type 0} where
  -- the test `q` of the element at a position; the search asks for no position out of range
  unfoldable pub test_at : (A → Bool) → List A → ℕ → Bool
  test_at q [] k = true
  test_at q (x ∷ xs) zero = q x
  test_at q (x ∷ xs) (suc k) = test_at q xs k

  unfoldable pub search_entries : (A → Bool) → List A → ℕ
  unfolding search test_at
  search_entries q entries = search (length entries) (test_at q entries)

  test_at-true :
      (q : A → Bool) (ys : List A) → All (λ y. q y ≡ true) ys → (k : ℕ) → test_at q ys k ≡ true
  unfolding test_at
  test_at-true q [] h k = refl
  test_at-true q (y ∷ ys) h zero = h.0
  test_at-true q (y ∷ ys) h (suc k) = test_at-true q ys h.1 k

  test_at_split :
      (q : A → Bool) (xs ys : List A)
      → All (λ x. q x ≡ false) xs
      → All (λ y. q y ≡ true) ys
      → (k : ℕ) → test_at q (xs ++ ys) k ≡ leb (length xs) k
  unfolding test_at
  test_at_split q [] ys h t k = test_at-true q ys t k ∙ sym (le→leb 0 k (omega arith))
  test_at_split q (x ∷ xs) ys h t zero = h.0 ∙ sym (lt→leb (suc (length xs)) 0 (omega arith))
  test_at_split q (x ∷ xs) ys h t (suc k) = test_at_split q xs ys h.1 t k ∙ ground arith

  pub search_entries_lem :
      (q : A → Bool) (xs ys : List A)
      → All (λ x. q x ≡ false) xs
      → All (λ y. q y ≡ true) ys
      → search_entries q (xs ++ ys) ≡ length xs
  unfolding search_entries
  search_entries_lem q xs ys h t =
      search_lem (test_at q (xs ++ ys)) (length xs) (length (xs ++ ys))
        (omega (arith, length-append {0} xs ys)) (test_at_split q xs ys h t)
