-- ===== src/Database/Blocks.antt =====
-- The loop over the blocks of a CA file: it ends, and what it reads.
use pg_gobench.Base.{
  bytes_eq_iff, bytes_eq, ℕ, zero, suc, ◌<◌, ◌≡◌, ◌≢◌, refl, ap, ◌∙◌, ◌⊎◌, inl, inr, arith, Bool,
  true, false, Option, none, some, List, [], ◌∷◌, if◌then◌else◌, Bool-cases, length, Text, Result,
  ok, err,
}
use pg_gobench.Database.{
  Block, Libraries, LoadState, certificate_kind, is_blank, add_certificate, Round, stop, go,
  parse_block, use_block, next_block, load_loop,
}

abbrev pub is_some_list {ℓ} : {A : Type ℓ} → List A → Bool
is_some_list [] = false
is_some_list (a ∷ rest) = true

some_eq {ℓ} : {A : Type ℓ} {a b : A} → some a ≡ some b → a ≡ b
some_eq e = cc

Round-cases :
    {Cert : Type 0} (r : Round Cert)
    → ((o : Result (LoadState Cert)) × (r ≡ stop o))
      ⊎ ((rest : Text) × (s : LoadState Cert) × (r ≡ go rest s))
Round-cases (stop o) = inl (o, refl)
Round-cases (go rest s) = inr (rest, s, refl)

module _ {Cert KeyPair Rest Settings : Type 0} (lib : Libraries Cert KeyPair Rest Settings) where
  open lib use {read_file, pem_decode, parse_certificate, is_ca}

  -- What pem.Decode documents: the remainder is what follows the block.
  abbrev pub Shortens : Type 0
  Shortens =
      (t : Text) (b : Block) (rest : Text) → pem_decode t ≡ some (b, rest) → length rest < length t

  -- A file that is a sequence of certificate blocks, with the certificates in them.
  pub data Reads : Text → List Cert → Type 0 where
    empty : Reads [] []
    blank :
        (c : ℕ) (t : Text) → pem_decode (c ∷ t) ≡ none → is_blank (c ∷ t) ≡ true → Reads (c ∷ t) []
    certificate :
        (c : ℕ) (t : Text) (b : Block) (rest : Text) (cert : Cert) (certs : List Cert)
        → pem_decode (c ∷ t) ≡ some (b, rest)
        → b.kind ≡ certificate_kind
        → parse_certificate b.bytes ≡ ok cert
        → Reads rest certs
        → Reads (c ∷ t) (cert ∷ certs)

  unfoldable pub add_all : List Cert → LoadState Cert → LoadState Cert
  add_all [] s = s
  add_all (c ∷ cs) s = add_all cs (add_certificate lib c s)

  -- The certificates that may sign others.
  unfoldable pub authorities : List Cert → List Cert
  authorities [] = []
  authorities (c ∷ cs) = if is_ca c then c ∷ authorities cs else authorities cs

  parse_block-go :
      (r : Result Cert) (t rest : Text) (s s' : LoadState Cert)
      → parse_block lib r t s ≡ go rest s'
      → (cert : Cert) × (r ≡ ok cert) × (t ≡ rest) × (s' ≡ add_certificate lib cert s)
  unfolding parse_block
  parse_block-go (ok cert) t rest s s' h = (cert, refl, ground (arith, h), ground (arith, h))
  parse_block-go (err e) t rest s s' h = absurd (cc)

  use_block-go :
      (t rest : Text) (o : Option (Block × Text)) (s s' : LoadState Cert)
      → use_block lib t o s ≡ go rest s'
      → (b : Block) × (cert : Cert) × (o ≡ some (b, rest))
        × (b.kind ≡ certificate_kind)
        × (parse_certificate b.bytes ≡ ok cert)
        × (s' ≡ add_certificate lib cert s)
  unfolding use_block
  use_block-go t rest none s s' h = absurd (ground (arith, h))
  use_block-go t rest (some (b, r)) s s' h = elim (Bool-cases (bytes_eq b.kind certificate_kind)) [
    | inl k ↦
        let (cert, p, e, a) = parse_block-go (parse_certificate b.bytes) r rest s s' (rw k at h) in
        (b, cert, rw e refl, (bytes_eq_iff b.kind certificate_kind).0 k, p, a)
    | inr k ↦ absurd (ground (arith, h, k))
  ]

  -- The loop goes on only behind a certificate block, and so with a shorter rest.
  next_block-go :
      (t rest : Text) (s s' : LoadState Cert)
      → next_block lib t s ≡ go rest s'
      → (cert : Cert) × (s' ≡ add_certificate lib cert s)
        × ((certs : List Cert) → Reads rest certs → Reads t (cert ∷ certs))
        × (Shortens → length rest < length t)
  unfolding next_block
  next_block-go [] rest s s' h = absurd (ground (arith, h))
  next_block-go (c ∷ t) rest s s' h =
      let (b, cert, d, k, p, a) = use_block-go (c ∷ t) rest (pem_decode (c ∷ t)) s s' h in
      (
        cert,
        a,
        λ certs r. certificate c t b rest cert certs d k p r,
        λ short. short (c ∷ t) b rest d,
      )

  parse_block-stop :
      (r : Result Cert) (t : Text) (s s' : LoadState Cert) → parse_block lib r t s ≢ stop (ok s')
  unfolding parse_block
  parse_block-stop (ok cert) t s s' h = ground (arith, h)
  parse_block-stop (err e) t s s' h = ground (arith, h)

  use_block-stop :
      (t : Text) (o : Option (Block × Text)) (s s' : LoadState Cert)
      → use_block lib t o s ≡ stop (ok s')
      → (o ≡ none) × (is_blank t ≡ true) × (s' ≡ s)
  unfolding use_block
  use_block-stop t none s s' h = ground (arith, h)
  use_block-stop t (some (b, r)) s s' h =
      absurd (ground (arith, h, parse_block-stop (parse_certificate b.bytes) r s s'))

  next_block-stop :
      (t : Text) (s s' : LoadState Cert) → next_block lib t s ≡ stop (ok s') → Reads t [] × (s' ≡ s)
  unfolding next_block
  next_block-stop [] s s' h = (empty, ground (arith, h))
  next_block-stop (c ∷ t) s s' h =
      let (n, b, e) = use_block-stop (c ∷ t) (pem_decode (c ∷ t)) s s' h in (blank c t n b, e)

  pub load_loop_sound :
      (fuel : ℕ) (t : Text) (s s' : LoadState Cert)
      → load_loop lib fuel t s ≡ some (ok s')
      → (certs : List Cert) × Reads t certs × (s' ≡ add_all certs s)
  unfolding load_loop add_all
  load_loop_sound zero t s s' h = absurd (cc)
  load_loop_sound (suc fuel) t s s' h = elim (Round-cases (next_block lib t s)) [
    | inl (r, e) ↦
        let (reads, same) =
          next_block-stop t s s' (e ∙ ap stop (some_eq (rw (e, load_loop) at h))) in
        ([], reads, same)
    | inr (rest, next, e) ↦
        let (cert, a, reads, shorter) = next_block-go t rest s next e in
        let (certs, more, all) = load_loop_sound fuel rest next s' (rw (e, load_loop) at h) in
        (cert ∷ certs, reads certs more, all ∙ ap (add_all certs) a)
  ]

  pub load_loop-returns :
      (fuel : ℕ) (t : Text) (s : LoadState Cert)
      → Shortens
      → length t < fuel
      → (r : Result (LoadState Cert)) × (load_loop lib fuel t s ≡ some r)
  unfolding load_loop
  load_loop-returns zero t s short l = absurd (omega arith)
  load_loop-returns (suc fuel) t s short l = elim (Round-cases (next_block lib t s)) [
    | inl (r, e) ↦ (r, rw (e, load_loop) refl)
    | inr (rest, next, e) ↦
        let (cert, a, reads, shorter) = next_block-go t rest s next e in
        rw (e, load_loop) (load_loop-returns fuel rest next short (omega (arith, shorter short, l)))
  ]

  next_block-blank :
      (c : ℕ) (t : Text) (s : LoadState Cert)
      → pem_decode (c ∷ t) ≡ none
      → is_blank (c ∷ t) ≡ true
      → next_block lib (c ∷ t) s ≡ stop (ok s)
  unfolding next_block use_block
  next_block-blank c t s n b = ap (λ o. use_block lib (c ∷ t) o s) n ∙ rw b refl

  next_block-certificate :
      (c : ℕ) (t rest : Text) (b : Block) (cert : Cert) (s : LoadState Cert)
      → pem_decode (c ∷ t) ≡ some (b, rest)
      → b.kind ≡ certificate_kind
      → parse_certificate b.bytes ≡ ok cert
      → next_block lib (c ∷ t) s ≡ go rest (add_certificate lib cert s)
  unfolding next_block use_block parse_block
  next_block-certificate c t rest b cert s d k p =
      ap (λ o. use_block lib (c ∷ t) o s) d
      ∙ rw ((bytes_eq_iff b.kind certificate_kind).1 k, p) refl

  pub load_loop_complete :
      (fuel : ℕ) (t : Text) (certs : List Cert) (s : LoadState Cert)
      → Shortens
      → Reads t certs
      → length t < fuel
      → load_loop lib fuel t s ≡ some (ok (add_all certs s))
  unfolding load_loop add_all
  load_loop_complete zero t certs s short r l = absurd (omega arith)
  load_loop_complete (suc fuel) t certs s short empty l = refl
  load_loop_complete (suc fuel) t certs s short (blank c u n b) l =
      rw (next_block-blank c u s n b, load_loop) refl
  load_loop_complete (suc fuel) t certs s short (certificate c u b rest cert more d k p r) l =
      rw (next_block-certificate c u rest b cert s d k p, load_loop)
        (load_loop_complete fuel rest more (add_certificate lib cert s) short r
          (omega (arith, short (c ∷ u) b rest d, l)))
