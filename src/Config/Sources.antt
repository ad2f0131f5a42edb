-- ===== src/Config/Sources.antt =====
-- Credentials and the whole source of internal/config/config.go.
use pg_gobench.Base.{
  is_empty, Bool, List, labelled, ◌&&◌, ◌||◌, Option, none, some, [], ◌∷◌, ◌++◌, ◌==◌,
  if◌then◌else◌, ℤ, pos, ltb_ℤ, String, Text, codes, plain, wrap, Result, ok, err, ◌>>=◌, ◌>>◌,
}
use pg_gobench.Config.{
  Node, scalar, Fields, Source, lookup, required, required_mapping, reject_unknown_fields,
  required_scalar_string, required_string_field, required_ssl_mode_field, optional_tls_field,
  validate_source_tls,
}

-- strings.TrimRight(s, "\r\n").
unfoldable pub trim_right : Text → Text
trim_right [] = []
trim_right (c ∷ s) =
    let rest = trim_right s in if is_empty rest && ((c == 10) || (c == 13)) then [] else c ∷ rest

pub data CredentialSource : Type 0 where
  value env_ref secret_file : Text → CredentialSource

-- One of the three modes: none where the field is missing.
unfoldable pub optional_mode : Option Node → Text → Result (Option Text)
optional_mode none path = ok none
optional_mode (some n) path = required_scalar_string n path >>= (λ v. ok (some v))

unfoldable pub pick_one : Text → Option Text → Option Text → Option Text → Result CredentialSource
pick_one path (some v) none none = ok (value v)
pick_one path none (some v) none = ok (env_ref v)
pick_one path none none (some v) = ok (secret_file v)
pick_one path _ _ _ =
    err (plain (path ++ codes " must set exactly one of value, env-ref, or secret-file"))

unfoldable pub parse_credential_source : Text → Node → Result CredentialSource
parse_credential_source path n = do
  fields ← required_mapping n path
  reject_unknown_fields fields path ("value" ∷ "env-ref" ∷ "secret-file" ∷ [])
  v ← optional_mode (lookup "value" fields) (path ++ codes ".value")
  e ← optional_mode (lookup "env-ref" fields) (path ++ codes ".env-ref")
  s ← optional_mode (lookup "secret-file" fields) (path ++ codes ".secret-file")
  pick_one path v e s

unfoldable pub check_port : Text → ℤ → Result ℤ
check_port path port =
    if ltb_ℤ port (pos 1) || ltb_ℤ (pos 65535) port
    then err (plain (path ++ codes " must be between 1 and 65535"))
    else ok port

-- The kind of a yaml.Node for a document, and its content.
pub record Document : Type 0 where
  pub is_document : Bool
  pub content : List Node

root_of : List Node → Result Node
root_of (n ∷ []) = ok n
root_of _ = err (plain (codes "config must contain exactly one YAML document"))

unfoldable pub single_root : Document → Result Node
unfolding root_of
single_root d =
    if d.is_document
    then root_of d.content
    else err (plain (codes "config must contain exactly one YAML document"))

module _ (env : Text → Option Text) (read_file : Text → Result Text) (atoi : Text → Result ℤ) where
  unfoldable pub read_secret_file : Text → Text → Result Text
  unfolding trim_right
  read_secret_file path file = elim (read_file file) [
    | err e ↦ err (wrap (path ++ codes " read secret-file") e)
    | ok bytes ↦
        let v = trim_right bytes in
        if is_empty v then err (plain (path ++ codes " secret-file resolved empty value")) else ok v
  ]

  unfoldable pub resolve_credential_source : Text → CredentialSource → Result Text
  resolve_credential_source path (value v) = ok v
  resolve_credential_source path (env_ref name) = elim (env name) [
    | none ↦ err (plain (path ++ codes " env-ref is not set"))
    | some v ↦
        if is_empty v then err (plain (path ++ codes " env-ref resolved empty value")) else ok v
  ]
  resolve_credential_source path (secret_file file) = read_secret_file path file

  unfoldable pub required_credential_field : Fields → Text → String → Result Text
  required_credential_field fields path key = do
    n ← required (lookup key fields) path
    source ← parse_credential_source path n
    resolve_credential_source path source

  unfoldable pub port_of : Text → Node → Result ℤ
  port_of path (scalar v) = elim (atoi v) [
    | err e ↦ err (wrap (path ++ codes " must be an integer") e)
    | ok port ↦ check_port path port
  ]
  port_of path _ = err (plain (path ++ codes " must be an integer"))

  unfoldable pub required_port_field : Fields → Text → String → Result ℤ
  required_port_field fields path key = required (lookup key fields) path >>= port_of path

  unfoldable pub parse_source : Node → Result Source
  parse_source n = do
    fields ← required_mapping n (codes "source")
    reject_unknown_fields fields (codes "source")
        ("host" ∷ "port" ∷ "sslmode" ∷ "username" ∷ "password" ∷ "dbname" ∷ "tls" ∷ [])
    host ← required_string_field fields (codes "source.host") "host"
    port ← required_port_field fields (codes "source.port") "port"
    mode ← required_ssl_mode_field fields (codes "source.sslmode") "sslmode"
    username ← required_credential_field fields (codes "source.username") "username"
    password ← required_credential_field fields (codes "source.password") "password"
    name ← required_string_field fields (codes "source.dbname") "dbname"
    tls ← optional_tls_field (lookup "tls" fields)
    validate_source_tls mode tls
    ok (record {
      host = host;
      port = port;
      ssl_mode = mode;
      username = username;
      password = password;
      db_name = name;
      tls = tls;
    })

  unfoldable pub parse_config_document : Document → Result Source
  parse_config_document d = do
    root ← single_root d
    fields ← required_mapping root (codes "config")
    reject_unknown_fields fields (codes "config") ("source" ∷ [])
    n ← required (lookup "source" fields) (codes "config.source")
    parse_source n

  -- Load. `decode` is the YAML decoder on the bytes of the file.
  unfoldable pub load : (Text → Result Document) → Text → Result Source
  load decode path = do
    bytes ← labelled (codes "read config file") (read_file path)
    document ← labelled (codes "decode config file") (decode bytes)
    labelled (codes "validate config file") (parse_config_document document)
