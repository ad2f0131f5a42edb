-- ===== src/Database/Connections.antt =====
-- The TLS settings of the connection.
use pg_gobench.Base.{
  is_empty, ◌≡◌, ◌≢◌, inl, inr, Result-cases, refl, ap, ◌∙◌, arith, true, false, Option, none, some,
  List, [], ◌∷◌, if◌then◌else◌, Result, ok, err,
}
use pg_gobench.Config.{Source, Tls, disable}
use pg_gobench.Config.Parsed.{IsValidSource}
use pg_gobench.Database.{
  TlsConfig, ConnConfig, Libraries, conn_url, has_tls, load_root_cas, add_roots, add_key_pair,
  base_config, build_tls_config, with_tls, configure, new_conn_config,
}

module _ {Cert KeyPair Rest Settings : Type 0} (lib : Libraries Cert KeyPair Rest Settings) where
  open lib use {load_key_pair, parse_config}

  -- What the settings say about a configured CA file and a configured key pair.
  pub record HasFiles (cfg : Tls) (t : TlsConfig Cert KeyPair Rest) : Type 0 where
    pub roots :
        cfg.ca_cert ≢ []
        → (pool : List Cert) × (load_root_cas lib cfg.ca_cert ≡ some (ok pool))
          × (t.root_cas ≡ some pool)
    pub pair :
        cfg.cert ≢ []
        → (k : KeyPair) × (load_key_pair cfg.cert cfg.key ≡ ok k) × (t.certificates ≡ k ∷ [])

  add_roots-ok :
      (o : Option (Result (List Cert))) (t u : TlsConfig Cert KeyPair Rest)
      → add_roots lib o t ≡ some (ok u)
      → (pool : List Cert) × (o ≡ some (ok pool)) × (u.root_cas ≡ some pool)
  unfolding add_roots
  add_roots-ok none t u h = absurd (cc)
  add_roots-ok (some (err e)) t u h = absurd (ground (arith, h))
  add_roots-ok (some (ok pool)) t u h = (pool, refl, ground (arith, h))

  add_key_pair-ok :
      (cfg : Tls) (o : Option (Result (TlsConfig Cert KeyPair Rest)))
      (u : TlsConfig Cert KeyPair Rest)
      → add_key_pair lib cfg o ≡ some (ok u)
      → (t : TlsConfig Cert KeyPair Rest) × (o ≡ some (ok t))
        × (u.root_cas ≡ t.root_cas)
        × (cfg.cert ≢ []
            → (k : KeyPair) × (load_key_pair cfg.cert cfg.key ≡ ok k) × (u.certificates ≡ k ∷ []))
  unfolding add_key_pair
  add_key_pair-ok cfg none u h = absurd (cc)
  add_key_pair-ok cfg (some (err e)) u h = absurd (ground (arith, h))
  add_key_pair-ok cfg (some (ok t)) u h = (
    t,
    refl,
    ground (arith, h),
    λ ne. elim (Result-cases (load_key_pair cfg.cert cfg.key)) [
      | inl (k, p) ↦ (k, p, ground (arith, h, p, ne))
      | inr (e, p) ↦ absurd (ground (arith, h, p, ne))
    ],
  )

  build_tls_config-HasFiles :
      (cfg : Tls) (base : Option (TlsConfig Cert KeyPair Rest)) (u : TlsConfig Cert KeyPair Rest)
      → build_tls_config lib cfg base ≡ some (ok u)
      → HasFiles cfg u
  unfolding build_tls_config
  build_tls_config-HasFiles cfg base u h =
      let start = base_config lib base in
      let roots = add_roots lib (load_root_cas lib cfg.ca_cert) start in
      let (t, e, same, pair) =
        add_key_pair-ok cfg (if is_empty cfg.ca_cert then some (ok start) else roots) u h in
      record {
        roots = λ ne.
            let given : is_empty cfg.ca_cert ≡ false = ground (arith, ne) in
            let (pool, q, r) =
              add_roots-ok (load_root_cas lib cfg.ca_cert) start t (rw given at e) in
            (pool, q, same ∙ r);
        pair = pair;
      }

  with_tls-ok :
      (o : Option (Result (TlsConfig Cert KeyPair Rest)))
      (c d : ConnConfig Cert KeyPair Rest Settings)
      → with_tls lib o c ≡ some (ok d)
      → (t : TlsConfig Cert KeyPair Rest) × (o ≡ some (ok t))
        × (d.tls_config ≡ some t)
        × (d.fallbacks ≡ [])
  unfolding with_tls
  with_tls-ok none c d h = absurd (cc)
  with_tls-ok (some (err e)) c d h = absurd (ground (arith, h))
  with_tls-ok (some (ok t)) c d h = (t, refl, ground (arith, h), ground (arith, h))

  configure-files :
      (cfg : Tls) (r : Result (ConnConfig Cert KeyPair Rest Settings))
      (d : ConnConfig Cert KeyPair Rest Settings)
      → has_tls cfg ≡ true
      → configure lib cfg r ≡ some (ok d)
      → (t : TlsConfig Cert KeyPair Rest) × (d.tls_config ≡ some t)
        × (d.fallbacks ≡ [])
        × HasFiles cfg t
  unfolding configure
  configure-files cfg (err e) d f h = absurd (ground (arith, h))
  configure-files cfg (ok c) d f h =
      let (t, b, s, e) = with_tls-ok (build_tls_config lib cfg c.tls_config) c d (rw f at h) in
      (t, s, e, build_tls_config-HasFiles cfg c.tls_config t b)

  -- When a TLS file is configured, a connection has TLS settings and nothing to fall back to: the
  -- roots are the pool of the CA file, if there is one, and the only certificate is the configured
  -- pair, if there is one.
  pub new_conn_config_tls :
      (s : Source) (d : ConnConfig Cert KeyPair Rest Settings)
      → has_tls s.tls ≡ true
      → new_conn_config lib s ≡ some (ok d)
      → (t : TlsConfig Cert KeyPair Rest) × (d.tls_config ≡ some t)
        × (d.fallbacks ≡ [])
        × HasFiles s.tls t
  unfolding new_conn_config
  new_conn_config_tls s d f h = configure-files s.tls (parse_config (conn_url s)) d f h

  -- A source that the configuration accepts with TLS off is connected to as pgx reads its URL,
  -- whatever the file system holds.
  pub new_conn_config_disabled :
      (s : Source) (c : ConnConfig Cert KeyPair Rest Settings)
      → IsValidSource s
      → s.ssl_mode ≡ disable
      → parse_config (conn_url s) ≡ ok c
      → new_conn_config lib s ≡ some (ok c)
  unfolding new_conn_config configure has_tls
  new_conn_config_disabled s c v m p =
      let off = v.tls_ok.off m in
      let none_set : has_tls s.tls ≡ false = ground (arith, off) in
      ap (configure lib s.tls) p ∙ rw none_set refl
