-- ===== src/Run/Metrics/Scraper.antt =====
-- A scraper that reads a metrics text: lines, each cut at its first space into a name and a value.
use mathlib.Core.List.{append_assoc}
use pg_gobench.Base.{
  bytes_eq, ℕ, ◌≡◌, refl, ap, ap₂, ◌∙◌, arith, true, Option, none, some, List, [], ◌∷◌, ◌++◌, ◌==◌,
  if◌then◌else◌, map, ℤ, Text, All, read_int, lacks, lacks-append,
}

push : ℕ → List Text → List Text
push c [] = (c ∷ []) ∷ []
push c (l ∷ ls) = (c ∷ l) ∷ ls

pub lines : Text → List Text
unfolding push
lines [] = []
lines (c ∷ s) = let rest = lines s in if c == 10 then [] ∷ rest else push c rest

pub cut : Text → Text × Text
cut [] = ([], [])
cut (c ∷ s) = let rest = cut s in if c == 32 then ([], s) else (c ∷ rest.0, rest.1)

abbrev pub Entry : Type 0
Entry = Text × Text

pub read_entries : Text → List Entry
unfolding lines cut
read_entries text = map cut (lines text)

unfoldable pub value_of : Text → List Entry → Option Text
unfolding bytes_eq
value_of key [] = none
value_of key ((k, v) ∷ es) = let rest = value_of key es in if bytes_eq key k then some v else rest

unfoldable pub read_value : Option Text → Option ℤ
read_value none = none
read_value (some v) = read_int v

-- The number that a text gives for a name.
unfoldable pub counter : Text → Text → Option ℤ
unfolding read_value
counter key text = read_value (value_of key (read_entries text))

pub text_of : List Text → Text
text_of [] = []
text_of (c ∷ cs) = c ++ text_of cs

lines-append : (x rest : Text) → lacks 10 x ≡ true → lines (x ++ 10 ∷ rest) ≡ x ∷ lines rest
unfolding lines
lines-append [] rest h = refl
lines-append (c ∷ x) rest h = ground (arith, lines-append x rest, h)

cut-append : (k v : Text) → lacks 32 k ≡ true → cut (k ++ 32 ∷ v) ≡ (k, v)
unfolding cut
cut-append [] v h = refl
cut-append (c ∷ k) v h = ground (arith, cut-append k v, h)

abbrev pub chunk_of : Entry → Text
chunk_of (k, v) = k ++ (32 ∷ (v ++ 10 ∷ []))

abbrev pub IsPlain : Entry → Type 0
IsPlain (k, v) = (lacks 10 k ≡ true) × (lacks 32 k ≡ true) × (lacks 10 v ≡ true)

chunk_of-append :
    (k v rest : Text) → (k ++ (32 ∷ (v ++ 10 ∷ []))) ++ rest ≡ (k ++ 32 ∷ v) ++ 10 ∷ rest
chunk_of-append k v rest = simp append_assoc

pub read_entries-text :
    (es : List Entry) → All IsPlain es → read_entries (text_of (map chunk_of es)) ≡ es
unfolding read_entries text_of
read_entries-text [] h = refl
read_entries-text ((k, v) ∷ es) ((a, b, c), h) =
    let rest = text_of (map chunk_of es) in
    ap read_entries (chunk_of-append k v rest)
    ∙ ap (λ ls. map cut ls) (lines-append (k ++ 32 ∷ v) rest (lacks-append 10 k (32 ∷ v) a c))
    ∙ ap₂ (λ e es. e ∷ es) (cut-append k v b) (read_entries-text es h)
