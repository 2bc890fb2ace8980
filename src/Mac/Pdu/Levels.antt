-- ===== src/Mac/Pdu/Levels.antt =====
-- The control elements' values: the levels of buffer status reports, and what comes back of the
-- values that are set.
use srs_ue.Prelude.{
  ℕ, zero, suc, ◌+◌, ◌≤◌, ◌<◌, ◌≡◌, refl, ◌⊎◌, inl, inr, false, List, [], ◌∷◌, ltb, ◌==◌, length,
  drop, get_or, Bool-cases, arith,
}
use srs_ue.Mac.Pdu.Elements.{btable, search_level, buff_size_table}

-- The loop stops at the first entry above the size, or runs through its rounds.
search_level_bounds :
    (k : ℕ) (prev : ℕ) (entries : List ℕ) (i n : ℕ)
    → prev ≤ n
    → k ≤ length entries
    → ((search_level k entries i n ≡ 62) × (get_or (prev ∷ entries) k 0 ≤ n))
      ⊎ ((j : ℕ) × (j < k)
          × (search_level k entries i n ≡ 1 + i + j)
          × (n < get_or entries j 0)
          × (get_or (prev ∷ entries) j 0 ≤ n))
unfolding search_level
search_level_bounds zero prev entries i n h c = inl (refl, h)
search_level_bounds (suc k) prev [] i n h c = absurd (omega arith)
search_level_bounds (suc k) prev (x ∷ entries) i n h c = elim (Bool-cases (ltb n x)) [
  | inl e ↦ inr (0, omega arith, rw e (omega arith), ground arith, h)
  | inr e ↦ elim (search_level_bounds k x entries (i + 1) n (ground arith) (omega arith)) [
    | inl (stop, above) ↦ inl (rw e stop, above)
    | inr (j, below, found, under, over) ↦
        inr (suc j, omega arith, rw e (omega (arith, found)), under, over)
  ]
]

-- What the loop's result says of the table.
level_of :
    (n r : ℕ)
    → ((r ≡ 62) × (get_or (0 ∷ drop 2 btable) 61 0 ≤ n))
      ⊎ ((j : ℕ) × (j < 61)
          × (r ≡ 1 + 0 + j)
          × (n < get_or (drop 2 btable) j 0)
          × (get_or (0 ∷ drop 2 btable) j 0 ≤ n))
    → n ≤ 150000
    → (0 < r)
      × (r < 63)
      × (n ≤ get_or btable (r + 1) 0)
      × ((get_or btable r 0 ≤ n) ⊎ ((r ≡ 1) × (n < 10)))
unfolding btable
level_of n r (inl (e, above)) h = rw e (omega arith, omega arith, h, inl above)
level_of n r (inr (zero, below, e, under, over)) h =
    let one : r ≡ 1 = omega arith in
    rw one (omega arith, omega arith, omega (arith, under), inr (refl, under))
level_of n r (inr (suc j, below, e, under, over)) h =
    let here : r ≡ suc (suc j) = omega arith in
    let next : suc (suc j) + 1 ≡ suc (suc (suc j)) = omega arith in
    rw here (omega arith, omega arith, rw next (omega (arith, under)), inl over)

-- A size that is neither 0 nor above 150000 bytes has a level from 1 to 62; it is at most the next
-- level's size in the table, and no smaller than the level's own, except that level 1 is for every
-- size below 10.
pub buff_size_table_bounds :
    (n : ℕ)
    → 0 < n
    → n ≤ 150000
    → (0 < buff_size_table n)
      × (buff_size_table n < 63)
      × (n ≤ get_or btable (buff_size_table n + 1) 0)
      × ((get_or btable (buff_size_table n) 0 ≤ n) ⊎ ((buff_size_table n ≡ 1) × (n < 10)))
unfolding buff_size_table btable
buff_size_table_bounds n p h =
    let nonzero : (n == 0) ≡ false = ground arith in
    let small : ltb 150000 n ≡ false = ground arith in
    rw (nonzero, small)
      (level_of n (search_level 61 (drop 2 btable) 0 n)
        (search_level_bounds 61 0 (drop 2 btable) 0 n (omega arith) (omega arith)) h)

pub buff_size_table-lt : (n : ℕ) → buff_size_table n < 64
unfolding buff_size_table
buff_size_table-lt n = elim (Bool-cases (n == 0)) [
  | inl e ↦ rw (buff_size_table, e) (omega arith)
  | inr e ↦ elim (Bool-cases (ltb 150000 n)) [
    | inl d ↦ rw (buff_size_table, e, d) (omega arith)
    | inr d ↦ omega (arith, (buff_size_table_bounds n (ground arith) (ground arith)).1)
  ]
]
