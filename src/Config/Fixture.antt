-- ===== src/Config/Fixture.antt =====
-- A configuration file for the tests here and in App, whose password stands in another file.
use pg_gobench.Base.{
  true, bytes_eq, ◌≡◌, refl, Option, none, [], ◌∷◌, ℤ, pos, Text, codes, Result, ok,
}
use pg_gobench.Config.{
  Node, scalar, mapping, no_fields, field, disable, Source, lookup, required_mapping,
  reject_unknown_fields, required_scalar_string, required, required_string_field, ssl_mode_of,
  required_ssl_mode_field, optional_tls_field, validate_source_tls,
}
use pg_gobench.Config.Sources.{
  Document, single_root, parse_config_document, load, optional_mode, pick_one,
  parse_credential_source, trim_right, read_secret_file, resolve_credential_source,
  required_credential_field, check_port, port_of, required_port_field, parse_source,
}

abbrev credential : Text → Node
credential t = mapping (field "value" (scalar t) no_fields)

abbrev root : Node
root = mapping (
    field "host" (scalar (codes "db")) (
      field "port" (scalar (codes "5432")) (
        field "sslmode" (scalar (codes "disable")) (
          field "username" (credential (codes "bench")) (
            field "password" (mapping (field "secret-file" (scalar (codes "/run/pw")) no_fields))
              (field "dbname" (scalar (codes "bench")) no_fields))))))

abbrev pub no_env : Text → Option Text
no_env name = none

-- Every file holds `pw` and a line end.
abbrev pub files : Text → Result Text
files path = ok (112 ∷ 119 ∷ 13 ∷ 10 ∷ [])

abbrev pub numbers : Text → Result ℤ
numbers t = ok (pos 5432)

abbrev pub parsed : Source
parsed = record {
  host = codes "db";
  port = pos 5432;
  ssl_mode = disable;
  username = codes "bench";
  password = codes "pw";
  db_name = codes "bench";
  tls = record { ca_cert = []; cert = []; key = [] };
}

abbrev pub document : Document
document = record { is_document = true; content = mapping (field "source" root no_fields) ∷ [] }

pub config_loaded :
    load no_env files numbers (λ bytes. ok document) (codes "config.yaml") ≡ ok parsed
unfolding load parse_config_document single_root parse_source required_port_field required_mapping
    reject_unknown_fields required required_string_field lookup required_scalar_string port_of
    check_port required_ssl_mode_field ssl_mode_of required_credential_field parse_credential_source
    optional_mode pick_one resolve_credential_source read_secret_file trim_right optional_tls_field
    validate_source_tls bytes_eq
config_loaded = refl
