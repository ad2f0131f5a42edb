-- ===== src/Runner/Histogram/Search.antt =====
-- The binary search of the histogram finds the first bound that a latency does not pass.
use pg_gobench.Base.{
  ℕ, zero, suc, ◌+◌, ◌-◌, ◌/◌, ◌≤◌, ◌<◌, ◌≡◌, refl, ◌⊎◌, inl, inr, Bool, true, false, arith, ltb,
  Bool-cases,
}
use pg_gobench.Runner.Histogram.{search_loop, sort_search}

-- Below k the test fails, and at k it passes unless k is the end.
abbrev pub IsFirst : ℕ → (ℕ → Bool) → ℕ → Type 0
IsFirst n test k = (k ≤ n) × ((m : ℕ) → m < k → test m ≡ false) × ((k ≡ n) ⊎ (test k ≡ true))

-- Below n, what passes the test goes on passing it.
abbrev pub IsMonotone : ℕ → (ℕ → Bool) → Type 0
IsMonotone n test = (a b : ℕ) → a ≤ b → b < n → test a ≡ true → test b ≡ true

settled :
    (n : ℕ) (test : ℕ → Bool) (i j : ℕ)
    → i ≡ j
    → j ≤ n
    → ((m : ℕ) → m < i → test m ≡ false)
    → (j ≡ n) ⊎ (test j ≡ true)
    → IsFirst n test i
settled n test i j e k below above = (omega arith, below, rw e above)

fails_below :
    (n : ℕ) (test : ℕ → Bool)
    → IsMonotone n test
    → (m h : ℕ) → m ≤ h
    → h < n
    → test h ≡ false
    → test m ≡ false
fails_below n test mono m h l k miss = elim (Bool-cases (test m)) [
  | inl hit ↦ cc (mono m h l k hit)
  | inr e ↦ e
]

search_loop-IsFirst :
    (n : ℕ) (test : ℕ → Bool)
    → IsMonotone n test
    → (fuel i j : ℕ) → i ≤ j
    → j ≤ n
    → j - i ≤ fuel
    → ((m : ℕ) → m < i → test m ≡ false)
    → (j ≡ n) ⊎ (test j ≡ true)
    → IsFirst n test (search_loop fuel test i j)
unfolding search_loop
search_loop-IsFirst n test mono zero i j h k f below above =
    settled n test i j (omega arith) k below above
search_loop-IsFirst n test mono (suc fuel) i j h k f below above =
    let mid = (i + j) / 2 in
    elim (Bool-cases (ltb i j)) [
      | inl open' ↦ elim (Bool-cases (test mid)) [
        | inl hit ↦
            rw (open', hit)
              (search_loop-IsFirst n test mono fuel i mid (ground arith) (ground arith)
                (ground arith) below (inr hit))
        | inr miss ↦
            rw (open', miss)
              (search_loop-IsFirst n test mono fuel (mid + 1) j (ground arith) k (ground arith)
                (λ m l. fails_below n test mono m mid (omega arith) (ground arith) miss) above)
      ]
      | inr done ↦ rw done (settled n test i j (ground arith) k below above)
    ]

-- sort.Search finds the first position, below n, at which a monotone test passes, or n.
pub sort_search-IsFirst :
    (n : ℕ) (test : ℕ → Bool) → IsMonotone n test → IsFirst n test (sort_search n test)
unfolding sort_search
sort_search-IsFirst n test mono =
    search_loop-IsFirst n test mono n 0 n (omega arith) (omega arith) (omega arith)
      (λ m h. absurd (omega arith)) (inl refl)
