-- ===== src/Config.antt =====
-- internal/config/config.go from parseConfigDocument's root on. A YAML node is a scalar, a mapping
-- or another kind; of a key that stands twice the last value counts, as in the code's map. The
-- environment, the files and strconv.Atoi are arguments. A file is its bytes. Names quoted with %q
-- are left out of the messages.
pub mod Sources
pub mod Parsed
pub mod Fixture
mod Examples
use pg_gobench.Base.{
  bytes_eq, is_empty, ℕ, ◌≡◌, Bool, true, false, not, ◌&&◌, ◌||◌, Option, none, some, List, [], ◌∷◌,
  ◌++◌, ◌==◌, if◌then◌else◌, ℤ, pos, ltb_ℤ, String, str_eq, Text, codes, Error, plain, wrap, Result,
  ok, err, ◌>>=◌, ◌>>◌, refuse_if,
}

mutual
  pub data Node : Type 0 where
    scalar : Text → Node
    mapping : Fields → Node
    another : Node

  pub data Fields : Type 0 where
    no_fields : Fields
    field : String → Node → Fields → Fields

pub data SslMode : Type 0 where
  disable allow prefer require verify_ca verify_full : SslMode

pub record Tls : Type 0 where
  pub ca_cert : Text
  pub cert : Text
  pub key : Text

pub record Source : Type 0 where
  pub host : Text
  pub port : ℤ
  pub ssl_mode : SslMode
  pub username : Text
  pub password : Text
  pub db_name : Text
  pub tls : Tls

-- `fields[key]` on the map that requiredMapping fills.
pub lookup : String → Fields → Option Node
lookup key no_fields = none
lookup key (field k n rest) =
    let later = lookup key rest in
    elim later [ some m ↦ some m | none ↦ if str_eq key k then some n else none ]

unfoldable pub required_mapping : Node → Text → Result Fields
required_mapping (mapping fields) path = ok fields
required_mapping _ path = err (plain (path ++ codes " must be a mapping object"))

is_among : String → List String → Bool
is_among k [] = false
is_among k (a ∷ rest) = str_eq k a || is_among k rest

unfoldable pub reject_unknown_fields : Fields → Text → List String → Result (Unit {0})
unfolding is_among
reject_unknown_fields no_fields path allowed = ok tt
reject_unknown_fields (field k n rest) path allowed =
    let later = reject_unknown_fields rest path allowed in
    if is_among k allowed then later else err (plain (path ++ codes " has unknown field"))

unfoldable pub required_scalar_string : Node → Text → Result Text
required_scalar_string (scalar v) path =
    if is_empty v then err (plain (path ++ codes " must not be empty")) else ok v
required_scalar_string _ path = err (plain (path ++ codes " must be a string"))

abbrev missing : Text → Error
missing path = plain (path ++ codes " is required")

unfoldable pub required : Option Node → Text → Result Node
required none path = err (missing path)
required (some n) path = ok n

unfoldable pub required_string_field : Fields → Text → String → Result Text
unfolding required
required_string_field fields path key =
    required (lookup key fields) path >>= (λ n. required_scalar_string n path)

has_byte : ℕ → Text → Bool
has_byte c [] = false
has_byte c (d ∷ s) = (c == d) || has_byte c s

unfoldable pub optional_path_string_field : Option Node → Text → Result Text
unfolding has_byte
optional_path_string_field none path = ok []
optional_path_string_field (some n) path = required_scalar_string n path >>= (λ v.
    if has_byte 10 v || has_byte 13 v
    then err (plain (path ++ codes " must be a file path string, not inline content"))
    else ok v)

unfoldable pub ssl_mode_of : Text → Text → Result SslMode
ssl_mode_of path v =
    if bytes_eq v (codes "disable")
    then ok disable
    else if bytes_eq v (codes "allow")
    then ok allow
    else if bytes_eq v (codes "prefer")
    then ok prefer
    else if bytes_eq v (codes "require")
    then ok require
    else if bytes_eq v (codes "verify-ca")
    then ok verify_ca
    else if bytes_eq v (codes "verify-full")
    then ok verify_full
    else err (
        plain (
          path
          ++ codes " must be one of disable, allow, prefer, require, verify-ca, or verify-full"))

pub required_ssl_mode_field : Fields → Text → String → Result SslMode
required_ssl_mode_field fields path key =
    required (lookup key fields) path >>= (λ n. required_scalar_string n path >>= ssl_mode_of path)

unfoldable pub optional_tls_field : Option Node → Result Tls
optional_tls_field none = ok (record { ca_cert = []; cert = []; key = [] })
optional_tls_field (some n) = do
  fields ← required_mapping n (codes "source.tls")
  reject_unknown_fields fields (codes "source.tls") ("ca_cert" ∷ "cert" ∷ "key" ∷ [])
  ca_cert ← optional_path_string_field (lookup "ca_cert" fields) (codes "source.tls.ca_cert")
  cert ← optional_path_string_field (lookup "cert" fields) (codes "source.tls.cert")
  key ← optional_path_string_field (lookup "key" fields) (codes "source.tls.key")
  ok (record { ca_cert = ca_cert; cert = cert; key = key })

abbrev is_disable : SslMode → Bool
is_disable disable = true
is_disable _ = false

unfoldable pub validate_source_tls : SslMode → Tls → Result (Unit {0})
validate_source_tls m t = do
  refuse_if (is_disable m && not (is_empty t.ca_cert))
      (codes "source.tls.ca_cert must not be set when source.sslmode is disable")
  refuse_if (is_disable m && not (is_empty t.cert))
      (codes "source.tls.cert must not be set when source.sslmode is disable")
  refuse_if (is_disable m && not (is_empty t.key))
      (codes "source.tls.key must not be set when source.sslmode is disable")
  refuse_if (is_empty t.cert && not (is_empty t.key))
      (codes "source.tls.cert is required when source.tls.key is set")
  refuse_if (is_empty t.key && not (is_empty t.cert))
      (codes "source.tls.key is required when source.tls.cert is set")
