-- ===== src/Runner/Workload/Ids.antt =====
-- The ids that an iteration uses, against the rows that the setup statements make.
use native.Mathlib.Nat.{mod-lt, mod-mod_of_dvd, dvd-mul_right}
use pg_gobench.Base.{
  ℕ, ◌+◌, ◌-◌, ◌*◌, ◌/◌, ◌%◌, ◌≤◌, ◌<◌, ◌≡◌, refl, ap, ◌∙◌, arith, int64_half, pos, wrap_int64,
  ◌*ℤ◌,
}
use pg_gobench.Benchmark.Scale.{ScaleModel, resolve_scale}
use pg_gobench.Runner.Workload.{before, account_id, branch_id, teller_id}

-- The sizes of a scale whose products do not wrap.
abbrev sizes : ℕ → ScaleModel
sizes s = record {
  branches = pos s;
  tellers = pos (s * 10);
  accounts = pos (s * 100000);
  history_rows = pos 0;
}

resolve_scale-sizes : (s : ℕ) → s * 100000 < int64_half → resolve_scale (pos s) ≡ sizes s
unfolding resolve_scale
resolve_scale-sizes s h =
    let t : wrap_int64 (pos s *ℤ pos 10) ≡ pos (s * 10) = ground (arith, h) in
    let a : wrap_int64 (pos s *ℤ pos 100000) ≡ pos (s * 100000) = ground (arith, h) in
    rw (t, a) refl

account_id-sizes :
    (s it : ℕ)
    → 1 ≤ s
    → s * 100000 < int64_half
    → account_id it (sizes s) ≡ pos (before it % (s * 100000) + 1)
unfolding account_id
account_id-sizes s it l h =
    let below = mod-lt (before it) {m = s * 100000} (omega arith) in
    let small : before it % (s * 100000) + 1 < int64_half = omega (arith, below, h) in
    ground (arith, small)

branch_id-sizes :
    (s it : ℕ) → 1 ≤ s → s * 100000 < int64_half → branch_id it (sizes s) ≡ pos (before it % s + 1)
unfolding branch_id
branch_id-sizes s it l h =
    let below = mod-lt (before it) {m = s} (omega arith) in ground (arith, below, h)

teller_id-sizes :
    (s it b : ℕ)
    → b < s
    → s * 100000 < int64_half
    → teller_id it (sizes s) (pos (b + 1)) ≡ pos (b * 10 + 1 + before it % 10)
unfolding teller_id
teller_id-sizes s it b l h =
    let below = mod-lt (before it) {m = 10} (omega arith) in ground (arith, below, h, l)

-- What the setup statements store: the branch of an account is `((id - 1) % branches) + 1`, that of
-- a teller `((id - 1) / 10) + 1`.
abbrev account_branch : ℕ → ℕ → ℕ
account_branch s a = (a - 1) % s + 1

abbrev teller_branch : ℕ → ℕ
teller_branch t = (t - 1) / 10 + 1

-- An account, a teller and a branch that are rows of a dataset, of one branch.
pub record IsRowOf (s a t b : ℕ) : Type 0 where
  pub account_exists : (1 ≤ a) × (a ≤ s * 100000)
  pub teller_exists : (1 ≤ t) × (t ≤ s * 10)
  pub branch_exists : (1 ≤ b) × (b ≤ s)
  pub account_of : account_branch s a ≡ b
  pub teller_of : teller_branch t ≡ b

branch_same : (s m : ℕ) → (m % (s * 100000) + 1 - 1) % s ≡ m % s
branch_same s m =
    let back : m % (s * 100000) + 1 - 1 ≡ m % (s * 100000) = omega arith in
    ap (λ k. k % s) back ∙ mod-mod_of_dvd s m (dvd-mul_right s 100000)

teller_same : (q r : ℕ) → r < 10 → (q * 10 + 1 + r - 1) / 10 ≡ q
teller_same q r l = omega (arith, l)

-- In every iteration on a dataset whose sizes do not wrap, the account, the branch and the teller
-- that a workload picks are rows that the setup has made, and the account and the teller belong to
-- the branch.
pub ids-IsRowOf :
    (s it : ℕ)
    → 1 ≤ s
    → s * 100000 < int64_half
    → (a : ℕ) × (t : ℕ) × (b : ℕ) × (account_id it (resolve_scale (pos s)) ≡ pos a)
      × (teller_id it (resolve_scale (pos s)) (branch_id it (resolve_scale (pos s))) ≡ pos t)
      × (branch_id it (resolve_scale (pos s)) ≡ pos b)
      × IsRowOf s a t b
ids-IsRowOf s it l h =
    let m = before it in
    let below = mod-lt m {m = s} (omega arith) in
    let below_accounts = mod-lt m {m = s * 100000} (omega arith) in
    let below_ten = mod-lt m {m = 10} (omega arith) in
    rw (resolve_scale-sizes s h) (
      m % (s * 100000) + 1,
      m % s * 10 + 1 + m % 10,
      m % s + 1,
      account_id-sizes s it l h,
      ap (λ b. teller_id it (sizes s) b) (branch_id-sizes s it l h)
          ∙ teller_id-sizes s it (m % s) below h,
      branch_id-sizes s it l h,
      record {
        account_exists = (omega arith, omega (arith, below_accounts));
        teller_exists = (omega arith, omega (arith, below, below_ten));
        branch_exists = (omega arith, omega (arith, below));
        account_of = ap (λ b. b + 1) (branch_same s m);
        teller_of = ap (λ b. b + 1) (teller_same (m % s) (m % 10) below_ten);
      },
    )
