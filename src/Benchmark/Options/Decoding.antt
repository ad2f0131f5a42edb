-- ===== src/Benchmark/Options/Decoding.antt =====
-- DecodeStartOptions of internal/benchmark/options.go, and the JSON form of the options.
use pg_gobench.Base.{
  ◌≡◌, ◌≢◌, refl, sym, ◌↔◌, inl, inr, true, Option, none, some, arith, eq_iff, Error, sentinel, eof,
  errors_is, Result, ok, err, ◌>>◌, Bool-cases, >>=-ok,
}
use pg_gobench.Benchmark.Options.{
  StartOptions, StartPayload, profile_mixed, validate_start_options, decode_json, resolve_payload,
  resolve_read_percent, resolve_transaction_mix, decode_start_options, value_or,
}
use pg_gobench.Benchmark.Options.Validation.{IsValidStart, validate_start_options_iff}

-- What makes decodeJSON accept: a value, and then the end of the input.
abbrev pub Decodes {ℓ} : {A : Type ℓ} → Result A → Option Error → A → Type ℓ
Decodes first second a =
    (first ≡ ok a) × ((e : Error) × (second ≡ some e) × (errors_is eof e ≡ true))

pub decode_json_iff {ℓ} :
    {A : Type ℓ} (first : Result A) (second : Option Error) (a : A)
    → (decode_json first second ≡ ok a) ↔ Decodes first second a
unfolding decode_json
decode_json_iff (err e) second a = (λ h. cc, λ h. cc (h.0))
decode_json_iff (ok b) none a = (λ h. cc, λ h. cc (h.1.1))
decode_json_iff (ok b) (some e) a = elim (Bool-cases (errors_is eof e)) [
  | inl t ↦ rw t (λ h. (h, (e, refl, t)), λ h. h.0)
  | inr f ↦ rw f (λ h. cc, λ h. cc (h.1.1, h.1.2))
]

validated :
    (o o' : StartOptions)
    → ((validate_start_options o >> ok o) ≡ ok o') ↔ ((o' ≡ o) × IsValidStart o)
validated o o' = ground (arith, validate_start_options_iff o)

-- A start request is accepted exactly when its body is one JSON value and nothing more, and the
-- options that come of it by the defaults are valid; the answer is then those options.
pub decode_start_options_iff :
    (first : Result StartPayload) (second : Option Error) (o : StartOptions)
    → (decode_start_options first second ≡ ok o)
      ↔ ((p : StartPayload) × Decodes first second p × (o ≡ resolve_payload p) × IsValidStart o)
unfolding decode_start_options
decode_start_options_iff first second o = (
  λ h.
      let (p, e, r) = >>=-ok (decode_json first second) _ h in
      let (same, v) = (validated (resolve_payload p) o).0 r in
      (p, (decode_json_iff first second p).0 e, same, rw same v),
  λ w.
      rw ((decode_json_iff first second w.0).1 w.1, decode_start_options)
        ((validated (resolve_payload w.0) o).1 (w.2, rw w.2 at w.3)),
)

-- The JSON object of StartOptions, by its struct tags: a nil pointer is left out.
pub payload_of : StartOptions → StartPayload
payload_of o = record {
  scale = some o.scale;
  clients = some o.clients;
  duration_seconds = some o.duration_seconds;
  warmup_seconds = some o.warmup_seconds;
  reset = some o.reset;
  profile = some o.profile;
  read_percent = o.read_percent;
  transaction_mix = some o.transaction_mix;
  target_tps = o.target_tps;
}

-- A mixed run has its read percentage written out.
abbrev pub IsResolved : StartOptions → Type 0
IsResolved o = o.profile ≡ profile_mixed → o.read_percent ≢ none

resolve_payload-payload_of : (o : StartOptions) → IsResolved o → resolve_payload (payload_of o) ≡ o
unfolding resolve_payload payload_of resolve_read_percent resolve_transaction_mix
resolve_payload-payload_of o h = ground (arith, eq_iff o.profile profile_mixed)

resolve_payload-IsResolved : (p : StartPayload) → IsResolved (resolve_payload p)
unfolding resolve_payload resolve_read_percent
resolve_payload-IsResolved p h =
    ground (arith, eq_iff (value_or p.profile profile_mixed) profile_mixed)

-- Valid options whose read percentage is written out, sent back as the JSON that shows them, are
-- accepted and decoded to themselves.
pub decode_start_options-payload_of :
    (o : StartOptions)
    → IsValidStart o
    → IsResolved o
    → decode_start_options (ok (payload_of o)) (some (sentinel eof)) ≡ ok o
decode_start_options-payload_of o v r = (decode_start_options_iff _ _ o).1 (
  payload_of o,
  (refl, (sentinel eof, refl, unfold errors_is in refl)),
  sym (resolve_payload-payload_of o r),
  v,
)

-- Whatever options a request decodes to, the JSON that shows them decodes to them again.
pub decode_start_options_stable :
    (first : Result StartPayload) (second : Option Error) (o : StartOptions)
    → decode_start_options first second ≡ ok o
    → decode_start_options (ok (payload_of o)) (some (sentinel eof)) ≡ ok o
decode_start_options_stable first second o h =
    let (p, d, e, v) = (decode_start_options_iff first second o).0 h in
    decode_start_options-payload_of o v (rw e (resolve_payload-IsResolved p))
