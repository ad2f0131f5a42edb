-- ===== src/Benchmark/Options/Altering.antt =====
-- ApplyAlter of internal/benchmark/options.go.
use pg_gobench.Base.{◌≡◌, ◌≢◌, sym, ap, ◌∙◌, ◌↔◌, ◌⊎◌, none, arith, pos, ◌≤ℤ◌, ok}
use pg_gobench.Benchmark.Options.{
  StartOptions, AlterOptions, profile_lock, validate_alter_options, update_options, apply_alter,
  value_or, or_else,
}
use pg_gobench.Benchmark.Options.Validation.{IsValidStart, IsPositive, validate_start_options_iff}

-- An alter request that names a field, and gives it a positive value.
pub record IsValidAlter (a : AlterOptions) : Type 0 where
  pub some_field : (a.clients ≢ none) ⊎ (a.target_tps ≢ none)
  pub clients_ok : IsPositive a.clients
  pub target_tps_ok : IsPositive a.target_tps

pub validate_alter_options_iff :
    (a : AlterOptions) → (validate_alter_options a ≡ ok tt) ↔ IsValidAlter a
unfolding validate_alter_options
validate_alter_options_iff a = ground arith

update_options-IsValidStart :
    (o : StartOptions) (a : AlterOptions)
    → IsValidStart o
    → IsValidAlter a
    → (o.profile ≡ profile_lock → pos 2 ≤ℤ value_or a.clients o.clients)
    → IsValidStart (update_options o a)
unfolding update_options
update_options-IsValidStart o a v va l = ground arith

pub apply_alter-ok_iff :
    (o : StartOptions) (a : AlterOptions) (o' : StartOptions)
    → (apply_alter o a ≡ ok o')
      ↔ (IsValidAlter a × (o' ≡ update_options o a) × IsValidStart (update_options o a))
unfolding apply_alter
apply_alter-ok_iff o a o' =
    ground (arith, validate_alter_options_iff a, validate_start_options_iff (update_options o a))

-- Altering valid options succeeds exactly when the request is valid and a lock run keeps two
-- clients at least. The result has the requested clients and target, where given, and everything
-- else as it was.
pub apply_alter-succeeds_iff :
    (o : StartOptions) (a : AlterOptions) (o' : StartOptions)
    → IsValidStart o
    → (apply_alter o a ≡ ok o') ↔ (
        IsValidAlter a
        × (o.profile ≡ profile_lock → pos 2 ≤ℤ value_or a.clients o.clients)
        × (o' ≡ record o {
          clients = value_or a.clients o.clients;
          target_tps = or_else a.target_tps o.target_tps;
        }))
unfolding update_options
apply_alter-succeeds_iff o a o' v = (
  λ h. let (va, e, w) = (apply_alter-ok_iff o a o').0 h in (va, w.lock_clients, e),
  λ (va, l, e). (apply_alter-ok_iff o a o').1 (va, e, update_options-IsValidStart o a v va l),
)

-- Two requests in one, the later having the last word.
abbrev pub merge_alter : AlterOptions → AlterOptions → AlterOptions
merge_alter a b = record {
  clients = or_else b.clients a.clients;
  target_tps = or_else b.target_tps a.target_tps;
}

update_options-merge_alter :
    (o : StartOptions) (a b : AlterOptions)
    → update_options o (merge_alter a b) ≡ update_options (update_options o a) b
unfolding update_options
update_options-merge_alter o a b = ground arith

merge_alter-IsValidAlter :
    (a b : AlterOptions) → IsValidAlter a → IsValidAlter b → IsValidAlter (merge_alter a b)
merge_alter-IsValidAlter a b va vb = ground arith

-- Two alters that both succeed come to one alter with the merged request.
pub apply_alter-apply_alter :
    (o : StartOptions) (a b : AlterOptions) (o' o'' : StartOptions)
    → apply_alter o a ≡ ok o'
    → apply_alter o' b ≡ ok o''
    → apply_alter o (merge_alter a b) ≡ ok o''
apply_alter-apply_alter o a b o' o'' h k =
    let (va, e, _) = (apply_alter-ok_iff o a o').0 h in
    let (vb, e', v) = (apply_alter-ok_iff o' b o'').0 k in
    let same = update_options-merge_alter o a b ∙ ap (λ x. update_options x b) (sym e) in
    (apply_alter-ok_iff o (merge_alter a b) o'').1
      (merge_alter-IsValidAlter a b va vb, e' ∙ sym same, rw same v)
