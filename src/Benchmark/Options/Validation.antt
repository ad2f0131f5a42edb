-- ===== src/Benchmark/Options/Validation.antt =====
-- What the checks of internal/benchmark/options.go accept.
use pg_gobench.Base.{
  String, ◌≡◌, refl, ◌↔◌, ◌⊎◌, true, Option, none, some, arith, ℤ, pos, ◌≤ℤ◌, ◌<ℤ◌, eq_iff, ok,
}
use pg_gobench.Benchmark.Options.{
  StartOptions, profile_read, profile_write, profile_transaction, profile_join, profile_lock,
  profile_mixed, mix_balanced, mix_read_heavy, mix_write_heavy, is_valid_profile,
  is_valid_transaction_mix, validate_read_percent, validate_transaction_mix, validate_start_options,
}

abbrev pub IsProfile : String → Type 0
IsProfile p =
    (p ≡ profile_read)
    ⊎ (p ≡ profile_write)
    ⊎ (p ≡ profile_transaction)
    ⊎ (p ≡ profile_join)
    ⊎ (p ≡ profile_lock)
    ⊎ (p ≡ profile_mixed)

abbrev pub IsTransactionMix : String → Type 0
IsTransactionMix m = (m ≡ mix_balanced) ⊎ (m ≡ mix_read_heavy) ⊎ (m ≡ mix_write_heavy)

pub is_valid_profile_iff : (p : String) → (is_valid_profile p ≡ true) ↔ IsProfile p
unfolding is_valid_profile
is_valid_profile_iff p = ground (
  arith,
  eq_iff p profile_read,
  eq_iff p profile_write,
  eq_iff p profile_transaction,
  eq_iff p profile_join,
  eq_iff p profile_lock,
  eq_iff p profile_mixed,
)

pub is_valid_transaction_mix_iff :
    (m : String) → (is_valid_transaction_mix m ≡ true) ↔ IsTransactionMix m
unfolding is_valid_transaction_mix
is_valid_transaction_mix_iff m =
    ground (arith, eq_iff m mix_balanced, eq_iff m mix_read_heavy, eq_iff m mix_write_heavy)

-- What a read percentage must satisfy for a profile, if one is given.
abbrev pub IsReadPercent : String → Option ℤ → Type 0
IsReadPercent profile none = Unit
IsReadPercent profile (some p) = (profile ≡ profile_mixed) × (pos 0 ≤ℤ p) × (p ≤ℤ pos 100)

abbrev pub IsPositive : Option ℤ → Type 0
IsPositive none = Unit
IsPositive (some v) = pos 1 ≤ℤ v

-- Options that a run may be started with, said without reference to the code's checks.
pub record IsValidStart (o : StartOptions) : Type 0 where
  pub scale_positive : pos 1 ≤ℤ o.scale
  pub clients_positive : pos 1 ≤ℤ o.clients
  pub duration_positive : pos 1 ≤ℤ o.duration_seconds
  pub warmup_nonneg : pos 0 ≤ℤ o.warmup_seconds
  pub warmup_short : o.warmup_seconds <ℤ o.duration_seconds
  pub profile_known : IsProfile o.profile
  pub read_percent_ok : IsReadPercent o.profile o.read_percent
  pub mix_ok :
      (o.transaction_mix ≡ "")
      ⊎ ((o.profile ≡ profile_transaction) × IsTransactionMix o.transaction_mix)
  pub lock_clients : (o.profile ≡ profile_lock) → pos 2 ≤ℤ o.clients
  pub target_tps_ok : IsPositive o.target_tps

validate_read_percent_iff :
    (profile : String) (r : Option ℤ)
    → (validate_read_percent profile r ≡ ok tt) ↔ IsReadPercent profile r
unfolding validate_read_percent
validate_read_percent_iff profile none = (λ _. tt, λ _. refl)
validate_read_percent_iff profile (some p) = ground (arith, eq_iff profile profile_mixed)

validate_transaction_mix_iff :
    (profile mix : String)
    → (validate_transaction_mix profile mix ≡ ok tt)
      ↔ ((mix ≡ "") ⊎ ((profile ≡ profile_transaction) × IsTransactionMix mix))
unfolding validate_transaction_mix
validate_transaction_mix_iff profile mix =
    ground
      (arith, eq_iff mix "", eq_iff profile profile_transaction, is_valid_transaction_mix_iff mix)

-- The checks pass exactly the options that a run may be started with.
pub validate_start_options_iff :
    (o : StartOptions) → (validate_start_options o ≡ ok tt) ↔ IsValidStart o
unfolding validate_start_options
validate_start_options_iff o = ground (
  arith,
  is_valid_profile_iff o.profile,
  validate_read_percent_iff o.profile o.read_percent,
  validate_transaction_mix_iff o.profile o.transaction_mix,
  eq_iff o.profile profile_lock,
)
