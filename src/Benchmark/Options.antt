-- ===== src/Benchmark/Options.antt =====
-- internal/benchmark/options.go: start and alter options, their defaults, checks and decoding.
-- A pointer field is an Option; cloneStartOptions copies the pointed-to values, which a value model
-- has for nothing. A reader is given by what the JSON decoder makes of it.
pub mod Validation
pub mod Decoding
pub mod Altering
mod Examples
use pg_gobench.Base.{
  ℕ, String, ◌≡◌, Bool, true, false, ◌&&◌, ◌||◌, not, Option, none, some, List, [], ◌∷◌, ℤ, pos,
  ltb_ℤ, leb_ℤ, if◌then◌else◌, str_eq, Text, codes, Error, plain, wrap, eof, errors_is, Result, ok,
  err, ◌>>=◌, ◌>>◌, refuse_if,
}

abbrev pub default_scale : ℤ
default_scale = pos 10

abbrev pub default_clients : ℤ
default_clients = pos 1

abbrev pub default_duration_seconds : ℤ
default_duration_seconds = pos 60

abbrev pub default_warmup_seconds : ℤ
default_warmup_seconds = pos 10

abbrev pub default_read_percent : ℤ
default_read_percent = pos 80

abbrev pub profile_read : String
profile_read = "read"

abbrev pub profile_write : String
profile_write = "write"

abbrev pub profile_transaction : String
profile_transaction = "transaction"

abbrev pub profile_join : String
profile_join = "join"

abbrev pub profile_lock : String
profile_lock = "lock"

abbrev pub profile_mixed : String
profile_mixed = "mixed"

abbrev pub mix_balanced : String
mix_balanced = "balanced"

abbrev pub mix_read_heavy : String
mix_read_heavy = "read-heavy"

abbrev pub mix_write_heavy : String
mix_write_heavy = "write-heavy"

pub record StartOptions : Type 0 where
  pub scale : ℤ
  pub clients : ℤ
  pub duration_seconds : ℤ
  pub warmup_seconds : ℤ
  pub reset : Bool
  pub profile : String
  pub read_percent : Option ℤ
  pub transaction_mix : String
  pub target_tps : Option ℤ

pub record AlterOptions : Type 0 where
  pub clients : Option ℤ
  pub target_tps : Option ℤ

pub record StartPayload : Type 0 where
  pub scale : Option ℤ
  pub clients : Option ℤ
  pub duration_seconds : Option ℤ
  pub warmup_seconds : Option ℤ
  pub reset : Option Bool
  pub profile : Option String
  pub read_percent : Option ℤ
  pub transaction_mix : Option String
  pub target_tps : Option ℤ

pub is_valid_profile : String → Bool
is_valid_profile p =
    str_eq p profile_read
    || str_eq p profile_write
    || str_eq p profile_transaction
    || str_eq p profile_join
    || str_eq p profile_lock
    || str_eq p profile_mixed

pub is_valid_transaction_mix : String → Bool
is_valid_transaction_mix m =
    str_eq m mix_balanced || str_eq m mix_read_heavy || str_eq m mix_write_heavy

-- The block under `if options.ReadPercent != nil`.
pub validate_read_percent : String → Option ℤ → Result (Unit {0})
validate_read_percent profile none = ok tt
validate_read_percent profile (some p) = do
  refuse_if (not (str_eq profile profile_mixed))
      (codes "read_percent is only supported for profile \"mixed\"")
  refuse_if (ltb_ℤ p (pos 0) || ltb_ℤ (pos 100) p) (codes "read_percent must be between 0 and 100")

-- The block under `if options.TransactionMix != ""`.
pub validate_transaction_mix : String → String → Result (Unit {0})
validate_transaction_mix profile mix = if str_eq mix "" then ok tt else do
  refuse_if (not (str_eq profile profile_transaction))
      (codes "transaction_mix is only supported for profile \"transaction\"")
  refuse_if (not (is_valid_transaction_mix mix))
      (codes "transaction_mix must be one of balanced, read-heavy, write-heavy")

-- `if p != nil && *p < 1`.
abbrev pub refuse_below_one : Option ℤ → Text → Result (Unit {0})
refuse_below_one none t = ok tt
refuse_below_one (some v) t = refuse_if (ltb_ℤ v (pos 1)) t

pub validate_start_options : StartOptions → Result (Unit {0})
validate_start_options o = do
  refuse_if (ltb_ℤ o.scale (pos 1)) (codes "scale must be at least 1")
  refuse_if (ltb_ℤ o.clients (pos 1)) (codes "clients must be at least 1")
  refuse_if (ltb_ℤ o.duration_seconds (pos 1)) (codes "duration_seconds must be at least 1")
  refuse_if (ltb_ℤ o.warmup_seconds (pos 0)) (codes "warmup_seconds must be at least 0")
  refuse_if (leb_ℤ o.duration_seconds o.warmup_seconds)
      (codes "warmup_seconds must be less than duration_seconds")
  refuse_if (not (is_valid_profile o.profile))
      (codes "profile must be one of read, write, transaction, join, lock, mixed")
  validate_read_percent o.profile o.read_percent
  validate_transaction_mix o.profile o.transaction_mix
  refuse_if (str_eq o.profile profile_lock && ltb_ℤ o.clients (pos 2))
      (codes "clients must be at least 2 for profile \"lock\"")
  refuse_below_one o.target_tps (codes "target_tps must be at least 1")

abbrev pub is_none {ℓ} : {A : Type ℓ} → Option A → Bool
is_none none = true
is_none (some a) = false

pub validate_alter_options : AlterOptions → Result (Unit {0})
validate_alter_options a = do
  refuse_if (is_none a.clients && is_none a.target_tps)
      (codes "alter request must include at least one field")
  refuse_below_one a.clients (codes "clients must be at least 1")
  refuse_below_one a.target_tps (codes "target_tps must be at least 1")

-- `first` is what decoder.Decode(target) yields, `second` the error of decoding once more, with none
-- where that found a value.
pub decode_json {ℓ} : {A : Type ℓ} → Result A → Option Error → Result A
decode_json (err e) second = err (wrap (codes "decode JSON") e)
decode_json (ok a) none = err (plain (codes "decode JSON: unexpected trailing data"))
decode_json (ok a) (some e) = if errors_is eof e then ok a else err (wrap (codes "decode JSON") e)

abbrev pub value_or {ℓ} : {A : Type ℓ} → Option A → A → A
value_or none d = d
value_or (some a) d = a

-- The default of read_percent, which only a mixed run has.
pub resolve_read_percent : Option ℤ → String → Option ℤ
resolve_read_percent (some p) profile = some p
resolve_read_percent none profile =
    if str_eq profile profile_mixed then some default_read_percent else none

pub resolve_transaction_mix : Option String → String → String
resolve_transaction_mix (some m) profile = m
resolve_transaction_mix none profile =
    if str_eq profile profile_transaction then mix_balanced else ""

-- The options that DecodeStartOptions builds before it checks them.
pub resolve_payload : StartPayload → StartOptions
resolve_payload p =
    let profile = value_or p.profile profile_mixed in
    record {
      scale = value_or p.scale default_scale;
      clients = value_or p.clients default_clients;
      duration_seconds = value_or p.duration_seconds default_duration_seconds;
      warmup_seconds = value_or p.warmup_seconds default_warmup_seconds;
      reset = value_or p.reset false;
      profile = profile;
      read_percent = resolve_read_percent p.read_percent profile;
      transaction_mix = resolve_transaction_mix p.transaction_mix profile;
      target_tps = p.target_tps;
    }

pub decode_start_options : Result StartPayload → Option Error → Result StartOptions
decode_start_options first second = do
  payload ← decode_json first second
  let options = resolve_payload payload
  validate_start_options options
  ok options

pub decode_alter_options : Result AlterOptions → Option Error → Result AlterOptions
decode_alter_options first second = do
  options ← decode_json first second
  validate_alter_options options
  ok options

-- `if p != nil { field = p }`.
abbrev pub or_else {ℓ} : {A : Type ℓ} → Option A → Option A → Option A
or_else none d = d
or_else (some t) d = some t

-- The copy of ApplyAlter, before it is checked.
pub update_options : StartOptions → AlterOptions → StartOptions
update_options o a = record o {
  clients = value_or a.clients o.clients;
  target_tps = or_else a.target_tps o.target_tps;
}

pub apply_alter : StartOptions → AlterOptions → Result StartOptions
apply_alter o a = do
  validate_alter_options a
  let updated = update_options o a
  validate_start_options updated
  ok updated
