-- ===== src/Config/Parsed.antt =====
-- What every source that the configuration file yields is like.
use pg_gobench.Base.{
  labelled, labelled-ok, ◌≡◌, ◌≢◌, refl, subst, ap, ◌∙◌, ◌++◌, ◌↔◌, arith, Option, none, some, [],
  ℤ, pos, ◌≤ℤ◌, String, Text, codes, Result, ok, err, >>=-ok,
}
use pg_gobench.Config.{
  Node, Fields, SslMode, disable, Tls, Source, lookup, required, required_mapping,
  reject_unknown_fields, required_scalar_string, required_string_field, required_ssl_mode_field,
  optional_tls_field, validate_source_tls,
}
use pg_gobench.Config.Sources.{
  Document, single_root, parse_config_document, load, CredentialSource, value, env_ref, secret_file,
  optional_mode, pick_one, parse_credential_source, read_secret_file, resolve_credential_source,
  required_credential_field, check_port, port_of, required_port_field, parse_source,
}

-- A client certificate has its key, and nothing is set where TLS is off.
pub record IsValidTls (m : SslMode) (t : Tls) : Type 0 where
  pub pair : (t.cert ≡ []) ↔ (t.key ≡ [])
  pub off : m ≡ disable → (t.ca_cert ≡ []) × (t.cert ≡ []) × (t.key ≡ [])

pub record IsValidSource (s : Source) : Type 0 where
  pub host_ok : s.host ≢ []
  pub port_ok : (pos 1 ≤ℤ s.port) × (s.port ≤ℤ pos 65535)
  pub username_ok : s.username ≢ []
  pub password_ok : s.password ≢ []
  pub db_name_ok : s.db_name ≢ []
  pub tls_ok : IsValidTls s.ssl_mode s.tls

validate_source_tls-ok : (m : SslMode) (t : Tls) → validate_source_tls m t ≡ ok tt → IsValidTls m t
unfolding validate_source_tls
validate_source_tls-ok m t h = ground (arith, h)

required_scalar_string-ok :
    (n : Node) (path v : Text) → required_scalar_string n path ≡ ok v → v ≢ []
unfolding required_scalar_string
required_scalar_string-ok n path v h = ground (arith, h)

required_string_field-ok :
    (fs : Fields) (path : Text) (key : String) (v : Text)
    → required_string_field fs path key ≡ ok v
    → v ≢ []
unfolding required_string_field
required_string_field-ok fs path key v h =
    let (n, _, e) = >>=-ok (required (lookup key fs) path) (λ n. required_scalar_string n path) h in
    required_scalar_string-ok n path v e

optional_mode-ok : (n : Option Node) (path v : Text) → optional_mode n path ≡ ok (some v) → v ≢ []
unfolding optional_mode
optional_mode-ok none path v h = ground (arith, h)
optional_mode-ok (some n) path v h =
    let (w, e, g) = >>=-ok (required_scalar_string n path) (λ u. ok (some u)) h in
    ground (arith, required_scalar_string-ok n path w e, g)

check_port-ok : (path : Text) (p q : ℤ) → check_port path p ≡ ok q → (pos 1 ≤ℤ q) × (q ≤ℤ pos 65535)
unfolding check_port
check_port-ok path p q h = ground (arith, h)

pick_one-value :
    (path v : Text) (a b c : Option Text) → pick_one path a b c ≡ ok (value v) → a ≡ some v
unfolding pick_one
pick_one-value path v a b c h = ground (arith, h)

-- A value given in the file is not empty.
parse_credential_source-value :
    (path v : Text) (n : Node) → parse_credential_source path n ≡ ok (value v) → v ≢ []
unfolding parse_credential_source
parse_credential_source-value path v n h =
    let (fs, _, h₁) = >>=-ok (required_mapping n path) _ h in
    let (_, _, h₂) = >>=-ok (reject_unknown_fields fs path _) _ h₁ in
    let (a, e, h₃) = >>=-ok (optional_mode (lookup "value" fs) (path ++ codes ".value")) _ h₂ in
    let (b, _, h₄) = >>=-ok (optional_mode (lookup "env-ref" fs) (path ++ codes ".env-ref")) _ h₃ in
    let (c, _, h₅) =
      >>=-ok (optional_mode (lookup "secret-file" fs) (path ++ codes ".secret-file")) _ h₄ in
    let given = pick_one-value path v a b c h₅ in
    optional_mode-ok (lookup "value" fs) (path ++ codes ".value") v (e ∙ ap ok given)

source_or : Source → Result Source → Source
source_or d (ok s) = s
source_or d (err e) = d

subst_ok : {a b : Source} → ok a ≡ ok b → IsValidSource a → IsValidSource b
unfolding source_or
subst_ok {a} {b} e v = subst IsValidSource (ap (source_or a) e) v

module _ (env : Text → Option Text) (read_file : Text → Result Text) (atoi : Text → Result ℤ) where
  -- What resolves is not empty, when a value in the file is not.
  resolve_credential_source-ok :
      (path v : Text) (c : CredentialSource)
      → ((w : Text) → c ≡ value w → w ≢ [])
      → resolve_credential_source env read_file atoi path c ≡ ok v
      → v ≢ []
  unfolding resolve_credential_source read_secret_file
  resolve_credential_source-ok path v (value w) k h = ground (arith, k w refl, h)
  resolve_credential_source-ok path v (env_ref w) k h = ground (arith, h)
  resolve_credential_source-ok path v (secret_file w) k h = ground (arith, h)

  required_credential_field-ok :
      (fs : Fields) (path : Text) (key : String) (v : Text)
      → required_credential_field env read_file atoi fs path key ≡ ok v
      → v ≢ []
  unfolding required_credential_field
  required_credential_field-ok fs path key v h =
      let (n, _, h₁) = >>=-ok (required (lookup key fs) path) _ h in
      let (c, e, h₂) = >>=-ok (parse_credential_source path n) _ h₁ in
      resolve_credential_source-ok path v c
        (λ w g. parse_credential_source-value path w n (e ∙ ap ok g)) h₂

  port_of-ok :
      (path : Text) (n : Node) (q : ℤ)
      → port_of env read_file atoi path n ≡ ok q
      → (pos 1 ≤ℤ q) × (q ≤ℤ pos 65535)
  unfolding port_of check_port
  port_of-ok path n q h = ground (arith, h)

  -- A source that the parser yields is valid.
  pub parse_source-IsValidSource :
      (n : Node) (s : Source) → parse_source env read_file atoi n ≡ ok s → IsValidSource s
  unfolding parse_source required_port_field
  parse_source-IsValidSource n s h =
      let (fs, _, h₁) = >>=-ok (required_mapping n (codes "source")) _ h in
      let (_, _, h₂) = >>=-ok (reject_unknown_fields fs (codes "source") _) _ h₁ in
      let (host, e₁, h₃) = >>=-ok (required_string_field fs (codes "source.host") "host") _ h₂ in
      let (port, e₂, h₄) =
        >>=-ok (required_port_field env read_file atoi fs (codes "source.port") "port") _ h₃ in
      let (mode, _, h₅) =
        >>=-ok (required_ssl_mode_field fs (codes "source.sslmode") "sslmode") _ h₄ in
      let (user, e₃, h₆) =
        >>=-ok
          (required_credential_field env read_file atoi fs (codes "source.username") "username") _
          h₅ in
      let (password, e₄, h₇) =
        >>=-ok
          (required_credential_field env read_file atoi fs (codes "source.password") "password") _
          h₆ in
      let (name, e₅, h₈) =
        >>=-ok (required_string_field fs (codes "source.dbname") "dbname") _ h₇ in
      let (tls, _, h₉) = >>=-ok (optional_tls_field (lookup "tls" fs)) _ h₈ in
      let (_, e₆, made) = >>=-ok (validate_source_tls mode tls) _ h₉ in
      let (p, _, e₇) = >>=-ok (required (lookup "port" fs) (codes "source.port")) _ e₂ in
      subst_ok made record {
        host_ok = required_string_field-ok fs (codes "source.host") "host" host e₁;
        port_ok = port_of-ok (codes "source.port") p port e₇;
        username_ok = required_credential_field-ok fs (codes "source.username") "username" user e₃;
        password_ok =
            required_credential_field-ok fs (codes "source.password") "password" password e₄;
        db_name_ok = required_string_field-ok fs (codes "source.dbname") "dbname" name e₅;
        tls_ok = validate_source_tls-ok mode tls e₆;
      }

  -- A source that is loaded from a file has a host, a database name, a user and a password that are
  -- not empty, a port from 1 to 65535, a client certificate exactly when it has a client key, and no
  -- TLS file at all where the mode is disable.
  pub load-IsValidSource :
      (decode : Text → Result Document) (path : Text) (s : Source)
      → load env read_file atoi decode path ≡ ok s
      → IsValidSource s
  unfolding load parse_config_document
  load-IsValidSource decode path s h =
      let (bytes, _, h₁) = >>=-ok (labelled (codes "read config file") (read_file path)) _ h in
      let (d, _, h₂) = >>=-ok (labelled (codes "decode config file") (decode bytes)) _ h₁ in
      let p =
        labelled-ok (codes "validate config file") (parse_config_document env read_file atoi d)
          h₂ in
      let (root, _, h₃) = >>=-ok (single_root d) _ p in
      let (fs, _, h₄) = >>=-ok (required_mapping root (codes "config")) _ h₃ in
      let (_, _, h₅) = >>=-ok (reject_unknown_fields fs (codes "config") _) _ h₄ in
      let (n, _, h₆) = >>=-ok (required (lookup "source" fs) (codes "config.source")) _ h₅ in
      parse_source-IsValidSource n s h₆
