-- ===== src/Benchmark/Options/Examples.antt =====
-- Runs of the option checks at given inputs.
use pg_gobench.Base.{
  ◌≡◌, refl, ◌↔◌, true, false, none, some, arith, pos, ◌≤ℤ◌, codes, plain, sentinel, eof, ok, err,
  eq_iff, errors_is,
}
use pg_gobench.Benchmark.Options.{
  StartOptions, AlterOptions, StartPayload, profile_lock, decode_start_options, apply_alter,
  resolve_payload, validate_start_options, is_valid_profile, decode_json, validate_read_percent,
  resolve_read_percent, validate_transaction_mix, resolve_transaction_mix,
}
use pg_gobench.Benchmark.Options.Validation.{IsValidStart, validate_start_options_iff}
use pg_gobench.Benchmark.Options.Decoding.{
  payload_of, Decodes, decode_start_options_iff, decode_start_options_stable,
}
use pg_gobench.Benchmark.Options.Altering.{IsValidAlter, apply_alter-succeeds_iff}

abbrev lock_run : StartOptions
lock_run = record {
  scale = pos 3;
  clients = pos 4;
  duration_seconds = pos 30;
  warmup_seconds = pos 5;
  reset = true;
  profile = "lock";
  read_percent = none;
  transaction_mix = "";
  target_tps = none;
}

lock_run-IsValidStart : IsValidStart lock_run
lock_run-IsValidStart = ground (arith, eq_iff "lock" "lock")

abbrev empty_payload : StartPayload
empty_payload = record {
  scale = none;
  clients = none;
  duration_seconds = none;
  warmup_seconds = none;
  reset = none;
  profile = none;
  read_percent = none;
  transaction_mix = none;
  target_tps = none;
}

validate_start_options_iff_example :
    (validate_start_options lock_run ≡ ok tt) ↔ IsValidStart lock_run
validate_start_options_iff_example = validate_start_options_iff lock_run

-- A profile that no run has.
unknown_profile_refused :
    validate_start_options (record lock_run { profile = "chaos" })
    ≡ err (plain (codes "profile must be one of read, write, transaction, join, lock, mixed"))
unfolding validate_start_options is_valid_profile
unknown_profile_refused = refl

decode_start_options_iff_example :
    (decode_start_options (ok empty_payload) (some (sentinel eof))
      ≡ ok (resolve_payload empty_payload))
    ↔ ((p : StartPayload) × Decodes (ok empty_payload) (some (sentinel eof)) p
        × (resolve_payload empty_payload ≡ resolve_payload p)
        × IsValidStart (resolve_payload empty_payload))
decode_start_options_iff_example =
    decode_start_options_iff (ok empty_payload) (some (sentinel eof))
      (resolve_payload empty_payload)

abbrev default_run : StartOptions
default_run = record {
  scale = pos 10;
  clients = pos 1;
  duration_seconds = pos 60;
  warmup_seconds = pos 10;
  reset = false;
  profile = "mixed";
  read_percent = some (pos 80);
  transaction_mix = "";
  target_tps = none;
}

-- The empty object decodes to the defaults.
empty_payload_decodes :
    decode_start_options (ok empty_payload) (some (sentinel eof)) ≡ ok default_run
unfolding decode_start_options decode_json errors_is validate_start_options resolve_payload
    is_valid_profile validate_read_percent resolve_read_percent validate_transaction_mix
    resolve_transaction_mix
empty_payload_decodes = refl

decode_start_options_stable_example :
    decode_start_options (ok (payload_of default_run)) (some (sentinel eof)) ≡ ok default_run
decode_start_options_stable_example =
    decode_start_options_stable (ok empty_payload) (some (sentinel eof)) default_run
      empty_payload_decodes

abbrev one_client : AlterOptions
one_client = record { clients = some (pos 1); target_tps = none }

-- A lock run cannot be brought down to one client.
apply_alter-succeeds_iff_example : (apply_alter lock_run one_client ≡ ok lock_run) ↔ (
    IsValidAlter one_client
    × (lock_run.profile ≡ profile_lock → pos 2 ≤ℤ pos 1)
    × (lock_run ≡ record lock_run { clients = pos 1; target_tps = none }))
apply_alter-succeeds_iff_example =
    apply_alter-succeeds_iff lock_run one_client lock_run lock_run-IsValidStart
