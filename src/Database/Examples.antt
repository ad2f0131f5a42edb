-- ===== src/Database/Examples.antt =====
-- A toy PEM format: a block is the byte 66 and a byte that is the certificate, even for an authority.
use pg_gobench.Base.{
  bytes_eq, ℕ, ◌%◌, ◌<◌, ◌≡◌, refl, ◌↔◌, arith, Option, none, some, List, [], ◌∷◌, ◌==◌,
  if◌then◌else◌, length, pos, Text, codes, plain, Result, ok, err,
}
use pg_gobench.Config.{Source, disable, require}
use pg_gobench.Config.Parsed.{IsValidSource}
use pg_gobench.Database.{
  Block, TlsConfig, ConnConfig, Libraries, certificate_kind, has_tls, load_root_cas,
  new_conn_config,
}
use pg_gobench.Database.RootCas.{IsPoolOf, load_root_cas-accepts_iff, load_root_cas-returns}
use pg_gobench.Database.Connections.{HasFiles, new_conn_config_tls}

decode_block : Text → Option (Block × Text)
decode_block [] = none
decode_block (c ∷ []) = none
decode_block (c ∷ d ∷ rest) =
    if c == 66 then some (record { kind = certificate_kind; bytes = d ∷ [] }, rest) else none

parse_byte : Text → Result ℕ
parse_byte (d ∷ []) = ok d
parse_byte _ = err (plain (codes "malformed certificate"))

-- The file holds an authority, another certificate and a line end.
abbrev lib : Libraries ℕ ℕ ℕ ℕ
lib = record {
  read_file = λ path. ok (66 ∷ 2 ∷ 66 ∷ 7 ∷ 10 ∷ []);
  pem_decode = decode_block;
  parse_certificate = parse_byte;
  is_ca = λ c. c % 2 == 0;
  load_key_pair = λ cert key. ok 5;
  parse_config = λ url. ok (record { tls_config = none; fallbacks = 1 ∷ 2 ∷ []; settings = 9 });
  zero_rest = 0;
}

lib_shortens :
    (t : Text) (b : Block) (rest : Text) → decode_block t ≡ some (b, rest) → length rest < length t
unfolding decode_block
lib_shortens [] b rest h = absurd (cc)
lib_shortens (c ∷ []) b rest h = absurd (cc)
lib_shortens (c ∷ d ∷ s) b rest h = ground (arith, h)

load_root_cas-accepts_iff_example :
    (load_root_cas lib (codes "ca.pem") ≡ some (ok (2 ∷ [])))
    ↔ IsPoolOf lib (codes "ca.pem") (2 ∷ [])
load_root_cas-accepts_iff_example =
    load_root_cas-accepts_iff lib lib_shortens (codes "ca.pem") (2 ∷ [])

pool_loaded : load_root_cas lib (codes "ca.pem") ≡ some (ok (2 ∷ []))
unfolding load_root_cas decode_block parse_byte bytes_eq
pool_loaded = refl

load_root_cas-returns_example :
    (r : Result (List ℕ)) × (load_root_cas lib (codes "ca.pem") ≡ some r)
load_root_cas-returns_example = load_root_cas-returns lib lib_shortens (codes "ca.pem")

abbrev with_ca : Source
with_ca = record {
  host = codes "db";
  port = pos 5432;
  ssl_mode = require;
  username = codes "bench";
  password = codes "pw";
  db_name = codes "bench";
  tls = record { ca_cert = codes "ca.pem"; cert = []; key = [] };
}

abbrev tls_only : ConnConfig ℕ ℕ ℕ ℕ
tls_only = record {
  tls_config = some (record { root_cas = some (2 ∷ []); certificates = []; rest = 0 });
  fallbacks = [];
  settings = 9;
}

connected : new_conn_config lib with_ca ≡ some (ok tls_only)
unfolding new_conn_config has_tls decode_block parse_byte bytes_eq
connected = refl

new_conn_config_tls_example :
    (t : TlsConfig ℕ ℕ ℕ) × (tls_only.tls_config ≡ some t)
    × (tls_only.fallbacks ≡ [])
    × HasFiles lib with_ca.tls t
new_conn_config_tls_example =
    new_conn_config_tls lib with_ca tls_only (unfold has_tls in refl) connected

abbrev no_tls : Source
no_tls = record with_ca { ssl_mode = disable; tls = record { ca_cert = []; cert = []; key = [] } }

no_tls-IsValidSource : IsValidSource no_tls
no_tls-IsValidSource = ground arith
