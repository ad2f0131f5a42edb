-- ===== src/Database/RootCas.antt =====
-- The CA file: the loop over its blocks ends, and what it accepts.
use mathlib.Core.List.{append-nil, append_assoc}
use pg_gobench.Base.{
  suc, ◌≡◌, ◌≢◌, refl, sym, ap, ◌∙◌, ◌↔◌, inl, inr, arith, true, false, ◌||◌, Option, none, some,
  List, [], ◌∷◌, ◌++◌, Bool-cases, length, Text, Result, ok, err,
}
use pg_gobench.Database.{
  Libraries, LoadState, add_certificate, load_loop, check_loaded, load_file, load_root_cas,
}
use pg_gobench.Database.Blocks.{
  Shortens, Reads, add_all, authorities, load_loop_sound, load_loop_complete, load_loop-returns,
  is_some_list,
}

module _ {Cert KeyPair Rest Settings : Type 0} (lib : Libraries Cert KeyPair Rest Settings) where
  open lib use {read_file, pem_decode, parse_certificate, is_ca}

  abbrev nothing : LoadState Cert
  nothing = record { found_certificate_block = false; found_ca = false; root_cas = [] }

  add_all-roots :
      (cs : List Cert) (s : LoadState Cert)
      → (add_all lib cs s).root_cas ≡ s.root_cas ++ authorities lib cs
  unfolding add_all add_certificate authorities
  add_all-roots [] s = sym (append-nil s.root_cas)
  add_all-roots (c ∷ cs) s =
      let rest = add_all-roots cs (add_certificate lib c s) in
      elim (Bool-cases (is_ca c)) [
        | inl t ↦ rest ∙ rw t (append_assoc s.root_cas (c ∷ []) (authorities lib cs))
        | inr f ↦ rest ∙ rw f refl
      ]

  add_all-found_ca :
      (cs : List Cert) (s : LoadState Cert)
      → (add_all lib cs s).found_ca ≡ (s.found_ca || is_some_list (authorities lib cs))
  unfolding add_all add_certificate authorities
  add_all-found_ca [] s = ground arith
  add_all-found_ca (c ∷ cs) s =
      let rest = add_all-found_ca cs (add_certificate lib c s) in ground (arith, rest)

  add_all-found_block :
      (cs : List Cert) (s : LoadState Cert)
      → (add_all lib cs s).found_certificate_block ≡ (s.found_certificate_block || is_some_list cs)
  unfolding add_all add_certificate
  add_all-found_block [] s = ground arith
  add_all-found_block (c ∷ cs) s =
      let rest = add_all-found_block cs (add_certificate lib c s) in ground (arith, rest)

  authorities-some :
      (cs : List Cert) → is_some_list (authorities lib cs) ≡ true → is_some_list cs ≡ true
  unfolding authorities
  authorities-some [] h = h
  authorities-some (c ∷ cs) h = refl

  check_loaded-ok_iff :
      (certs pool : List Cert)
      → (check_loaded lib (some (ok (add_all lib certs nothing))) ≡ some (ok pool))
        ↔ ((pool ≡ authorities lib certs) × (pool ≢ []))
  unfolding check_loaded
  check_loaded-ok_iff certs pool = ground (
    arith,
    add_all-roots certs nothing,
    add_all-found_ca certs nothing,
    add_all-found_block certs nothing,
    authorities-some certs,
  )

  check_loaded-inverse :
      (r : Option (Result (LoadState Cert))) (pool : List Cert)
      → check_loaded lib r ≡ some (ok pool)
      → (s : LoadState Cert) × (r ≡ some (ok s))
  unfolding check_loaded
  check_loaded-inverse none pool h = absurd (cc)
  check_loaded-inverse (some (err e)) pool h = absurd (ground (arith, h))
  check_loaded-inverse (some (ok s)) pool h = (s, refl)

  -- A pool and the file that it comes from.
  pub record IsPoolOf (path : Text) (pool : List Cert) : Type 0 where
    pub file : Text
    pub certs : List Cert
    pub file_read : read_file path ≡ ok file
    pub blocks_read : Reads lib file certs
    pub pool_is : pool ≡ authorities lib certs
    pub some_authority : pool ≢ []

  load_file_sound :
      (path : Text) (r : Result Text) (pool : List Cert)
      → read_file path ≡ r
      → load_file lib r ≡ some (ok pool)
      → IsPoolOf path pool
  unfolding load_file
  load_file_sound path (err e) pool f h = absurd (ground (arith, h))
  load_file_sound path (ok t) pool f h =
      let (s, e) = check_loaded-inverse (load_loop lib (suc (length t)) t nothing) pool h in
      let (certs, reads, all) = load_loop_sound lib (suc (length t)) t nothing s e in
      let checked = ap (check_loaded lib) (sym (e ∙ ap (λ u. some (ok u)) all)) ∙ h in
      let (is, ne) = (check_loaded-ok_iff certs pool).0 checked in
      record {
        file = t;
        certs = certs;
        file_read = f;
        blocks_read = reads;
        pool_is = is;
        some_authority = ne;
      }

  load_file_complete :
      (path : Text) (pool : List Cert)
      → Shortens lib
      → IsPoolOf path pool
      → load_root_cas lib path ≡ some (ok pool)
  unfolding load_root_cas load_file
  load_file_complete path pool short p =
      ap (load_file lib) p.file_read
      ∙ ap (check_loaded lib) (
          load_loop_complete lib (suc (length p.file)) p.file p.certs nothing short p.blocks_read
            (omega arith))
      ∙ (check_loaded-ok_iff p.certs pool).1 (p.pool_is, p.some_authority)

  -- As long as pem.Decode takes a byte at least off with each block: the CA file is accepted with a
  -- pool exactly when it can be read and is, but for blanks at its end, a sequence of certificate
  -- blocks that parse, some of them certificates of an authority; the pool is then those of an
  -- authority, in order.
  pub load_root_cas-accepts_iff :
      Shortens lib
      → (path : Text) (pool : List Cert)
      → (load_root_cas lib path ≡ some (ok pool)) ↔ IsPoolOf path pool
  unfolding load_root_cas
  load_root_cas-accepts_iff short path pool = (
    λ h. load_file_sound path (read_file path) pool refl h,
    λ p. load_file_complete path pool short p,
  )

  check_loaded-returns :
      (o : Result (LoadState Cert))
      → (r : Result (List Cert)) × (check_loaded lib (some o) ≡ some r)
  unfolding check_loaded
  check_loaded-returns (err e) = (err e, refl)
  check_loaded-returns (ok s) = elim (Bool-cases s.found_certificate_block) [
    | inr n ↦ rw n (_, refl)
    | inl b ↦ elim (Bool-cases s.found_ca) [
      | inr n ↦ rw (b, n) (_, refl)
      | inl c ↦ rw (b, c) (_, refl)
    ]
  ]

  load_file-returns :
      (r : Result Text) → Shortens lib → (o : Result (List Cert)) × (load_file lib r ≡ some o)
  unfolding load_file check_loaded
  load_file-returns (err e) short = (_, refl)
  load_file-returns (ok t) short =
      let (o, e) = load_loop-returns lib (suc (length t)) t nothing short (omega arith) in
      let (r, c) = check_loaded-returns o in (r, ap (check_loaded lib) e ∙ c)

  -- As long as pem.Decode takes a byte at least off with each block, the fuel is enough: the loop
  -- over the blocks of any file ends, with a pool or an error.
  pub load_root_cas-returns :
      Shortens lib → (path : Text) → (r : Result (List Cert)) × (load_root_cas lib path ≡ some r)
  unfolding load_root_cas
  load_root_cas-returns short path = load_file-returns (read_file path) short
