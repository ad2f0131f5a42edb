-- ===== src/Database.antt =====
-- internal/database/database.go. pgx, crypto/tls, crypto/x509, encoding/pem and the file system are
-- arguments: their types and functions are the record `Libraries`. The loop over PEM blocks runs on
-- fuel, with none where it gives out. Quoted paths are left out of the messages; bytes.TrimSpace
-- trims ASCII space here.
pub mod Blocks
pub mod RootCas
pub mod Connections
mod Examples
use pg_gobench.Base.{
  bytes_eq, is_empty, ℕ, zero, suc, ◌≡◌, Bool, true, false, not, ◌||◌, ◌&&◌, Option, none, some,
  List, [], ◌∷◌, ◌++◌, ◌==◌, if◌then◌else◌, length, Text, codes, Error, plain, wrap, Result, ok,
  err, format_int,
}
use pg_gobench.Run.ErrorText.{is_space}
use pg_gobench.Config.{
  Source, Tls, SslMode, disable, allow, prefer, require, verify_ca, verify_full,
}

pub record Block : Type 0 where
  pub kind : Text
  pub bytes : Text

-- The fields of url.URL that the code fills, the query by its one parameter.
pub record ConnUrl : Type 0 where
  pub scheme : Text
  pub username : Text
  pub password : Text
  pub host : Text
  pub path : Text
  pub ssl_mode : Text

-- A tls.Config: the two fields that the code sets, and the rest.
pub record TlsConfig (Cert KeyPair Rest : Type 0) : Type 0 where
  pub root_cas : Option (List Cert)
  pub certificates : List KeyPair
  pub rest : Rest

-- A pgx.ConnConfig likewise.
pub record ConnConfig (Cert KeyPair Rest Settings : Type 0) : Type 0 where
  pub tls_config : Option (TlsConfig Cert KeyPair Rest)
  pub fallbacks : List Settings
  pub settings : Settings

-- `pem_decode` is pem.Decode, none for a nil block; `parse_config` is pgx.ParseConfig on the text of
-- the URL; `zero_rest` is that of an empty tls.Config.
pub record Libraries (Cert KeyPair Rest Settings : Type 0) : Type 0 where
  pub read_file : Text → Result Text
  pub pem_decode : Text → Option (Block × Text)
  pub parse_certificate : Text → Result Cert
  pub is_ca : Cert → Bool
  pub load_key_pair : Text → Text → Result KeyPair
  pub parse_config : ConnUrl → Result (ConnConfig Cert KeyPair Rest Settings)
  pub zero_rest : Rest

unfoldable pub ssl_mode_text : SslMode → Text
ssl_mode_text disable = codes "disable"
ssl_mode_text allow = codes "allow"
ssl_mode_text prefer = codes "prefer"
ssl_mode_text require = codes "require"
ssl_mode_text verify_ca = codes "verify-ca"
ssl_mode_text verify_full = codes "verify-full"

has_colon : Text → Bool
has_colon [] = false
has_colon (c ∷ s) = (c == 58) || has_colon s

-- net.JoinHostPort.
join_host_port : Text → Text → Text
unfolding has_colon
join_host_port host port =
    if has_colon host then 91 ∷ (host ++ (codes "]:" ++ port)) else host ++ (58 ∷ port)

unfoldable pub conn_url : Source → ConnUrl
unfolding join_host_port ssl_mode_text
conn_url s = record {
  scheme = codes "postgres";
  username = s.username;
  password = s.password;
  host = join_host_port s.host (format_int s.port);
  path = s.db_name;
  ssl_mode = ssl_mode_text s.ssl_mode;
}

unfoldable pub has_tls : Tls → Bool
has_tls t = not (is_empty t.ca_cert) || (not (is_empty t.cert) || not (is_empty t.key))

pub is_blank : Text → Bool
unfolding is_space
is_blank [] = true
is_blank (c ∷ s) = is_space c && is_blank s

unfoldable pub check_readiness : Option Error → Result (Unit {0})
check_readiness none = ok tt
check_readiness (some e) = err (wrap (codes "readiness ping") e)

-- The three variables of loadRootCAs; a pool is the certificates added to it in order.
pub record LoadState (Cert : Type 0) : Type 0 where
  pub found_certificate_block : Bool
  pub found_ca : Bool
  pub root_cas : List Cert

abbrev parse_failed : Text → Error
parse_failed why = plain (codes "parse source.tls.ca_cert: " ++ why)

abbrev pub certificate_kind : Text
certificate_kind = codes "CERTIFICATE"

-- What a round of the loop comes to: the loop is left, or goes on with the rest of the file.
pub data Round (Cert : Type 0) : Type 0 where
  stop : Result (LoadState Cert) → Round Cert
  go : Text → LoadState Cert → Round Cert

module _ {Cert KeyPair Rest Settings : Type 0} (lib : Libraries Cert KeyPair Rest Settings) where
  open lib use {
    read_file, pem_decode, parse_certificate, is_ca, load_key_pair, parse_config, zero_rest,
  }

  -- The end of the loop's body.
  pub add_certificate : Cert → LoadState Cert → LoadState Cert
  add_certificate c s =
      let found = record s { found_certificate_block = true } in
      if is_ca c then record found { found_ca = true; root_cas = s.root_cas ++ c ∷ [] } else found

  pub parse_block : Result Cert → Text → LoadState Cert → Round Cert
  unfolding add_certificate
  parse_block (err e) rest s = stop (err (wrap (codes "parse source.tls.ca_cert") e))
  parse_block (ok cert) rest s = go rest (add_certificate cert s)

  pub use_block : Text → Option (Block × Text) → LoadState Cert → Round Cert
  unfolding parse_block is_blank
  use_block t none s =
      if is_blank t then stop (ok s) else stop (err (parse_failed (codes "malformed PEM data")))
  use_block t (some (b, rest)) s =
      if bytes_eq b.kind certificate_kind
      then parse_block (parse_certificate b.bytes) rest s
      else stop (err (parse_failed (codes "unexpected PEM block type")))

  -- One round of the loop, its test included.
  pub next_block : Text → LoadState Cert → Round Cert
  unfolding use_block
  next_block [] s = stop (ok s)
  next_block (c ∷ t) s = use_block (c ∷ t) (pem_decode (c ∷ t)) s

  pub load_loop : ℕ → Text → LoadState Cert → Option (Result (LoadState Cert))
  unfolding next_block
  load_loop zero t s = none
  load_loop (suc fuel) t s = elim (next_block t s) [
    | stop r ↦ some r
    | go rest next ↦ load_loop fuel rest next
  ]

  -- The checks behind the loop.
  check_loaded : Option (Result (LoadState Cert)) → Option (Result (List Cert))
  check_loaded none = none
  check_loaded (some (err e)) = some (err e)
  check_loaded (some (ok s)) =
      if not s.found_certificate_block
      then some (err (parse_failed (codes "no PEM certificate blocks found")))
      else if not s.found_ca
      then some (err (parse_failed (codes "no usable CA certificates found")))
      else some (ok s.root_cas)

  load_file : Result Text → Option (Result (List Cert))
  unfolding load_loop check_loaded
  load_file (err e) = some (err (wrap (codes "read source.tls.ca_cert") e))
  load_file (ok t) = check_loaded (
      load_loop (suc (length t)) t
        record { found_certificate_block = false; found_ca = false; root_cas = [] })

  unfoldable pub load_root_cas : Text → Option (Result (List Cert))
  unfolding load_file
  load_root_cas path = load_file (read_file path)

  add_roots :
      Option (Result (List Cert))
      → TlsConfig Cert KeyPair Rest
      → Option (Result (TlsConfig Cert KeyPair Rest))
  add_roots none t = none
  add_roots (some (err e)) t = some (err e)
  add_roots (some (ok pool)) t = some (ok (record t { root_cas = some pool }))

  add_key_pair :
      Tls
      → Option (Result (TlsConfig Cert KeyPair Rest))
      → Option (Result (TlsConfig Cert KeyPair Rest))
  add_key_pair cfg (some (ok t)) =
      if is_empty cfg.cert then some (ok t) else elim (load_key_pair cfg.cert cfg.key) [
        | err e ↦ some (err (wrap (codes "load source.tls cert/key") e))
        | ok pair ↦ some (ok (record t { certificates = pair ∷ [] }))
      ]
  add_key_pair cfg r = r

  base_config : Option (TlsConfig Cert KeyPair Rest) → TlsConfig Cert KeyPair Rest
  base_config none = record { root_cas = none; certificates = []; rest = zero_rest }
  base_config (some t) = t

  unfoldable pub build_tls_config :
      Tls → Option (TlsConfig Cert KeyPair Rest) → Option (Result (TlsConfig Cert KeyPair Rest))
  unfolding load_root_cas add_roots add_key_pair base_config
  build_tls_config cfg base =
      let start = base_config base in
      add_key_pair cfg (
        if is_empty cfg.ca_cert
        then some (ok start)
        else add_roots (load_root_cas cfg.ca_cert) start)

  with_tls :
      Option (Result (TlsConfig Cert KeyPair Rest))
      → ConnConfig Cert KeyPair Rest Settings
      → Option (Result (ConnConfig Cert KeyPair Rest Settings))
  with_tls none c = none
  with_tls (some (err e)) c = some (err e)
  with_tls (some (ok t)) c = some (ok (record c { tls_config = some t; fallbacks = [] }))

  configure :
      Tls
      → Result (ConnConfig Cert KeyPair Rest Settings)
      → Option (Result (ConnConfig Cert KeyPair Rest Settings))
  unfolding build_tls_config with_tls
  configure cfg (err e) = some (err (wrap (codes "build postgres connection config") e))
  configure cfg (ok c) =
      if has_tls cfg then with_tls (build_tls_config cfg c.tls_config) c else some (ok c)

  unfoldable pub new_conn_config : Source → Option (Result (ConnConfig Cert KeyPair Rest Settings))
  unfolding conn_url configure
  new_conn_config s = configure s.tls (parse_config (conn_url s))

  -- `open_db` is stdlib.OpenDB.
  unfoldable pub open_database :
      {D : Type 0} → (ConnConfig Cert KeyPair Rest Settings → D) → Source → Option (Result D)
  unfolding new_conn_config
  open_database open_db s = elim (new_conn_config s) [
    | none ↦ none
    | some (err e) ↦ some (err e)
    | some (ok c) ↦ some (ok (open_db c))
  ]
