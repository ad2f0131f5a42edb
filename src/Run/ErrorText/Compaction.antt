-- ===== src/Run/ErrorText/Compaction.antt =====
-- What compactErrorText makes of a text.
use pg_gobench.Base.{
  ℕ, zero, suc, ◌-◌, ◌≤◌, ◌≡◌, ◌≢◌, refl, sym, ap, ◌∙◌, ◌⊎◌, inl, inr, false, List, [], ◌∷◌, ◌++◌,
  arith, leb, ◌<◌, if◌then◌else◌, leb_iff, leb→le, Bool-cases, length, length-append,
  length-take-le, take, All, All-append, Text, codes,
}
use mathlib.Core.List.{append_assoc, append-nil}
use pg_gobench.Run.ErrorText.{is_space, flush, fields_from, fields, join_words, compact_error_text}

-- A word has a letter at least, and no white space.
abbrev pub HasNoSpace : Text → Type 0
HasNoSpace w = All (λ c. is_space c ≡ false) w

abbrev pub IsWord : Text → Type 0
IsWord w = (w ≢ []) × HasNoSpace w

flush-IsWord : (w : Text) (ws : List Text) → HasNoSpace w → All IsWord ws → All IsWord (flush w ws)
flush-IsWord [] ws h k = k
flush-IsWord (c ∷ w) ws h k = ((λ e. cc, h), k)

fields_from-IsWord : (w s : Text) → HasNoSpace w → All IsWord (fields_from w s)
unfolding fields_from
fields_from-IsWord w [] h = flush-IsWord w [] h tt
fields_from-IsWord w (c ∷ s) h = elim (Bool-cases (is_space c)) [
  | inl e ↦ rw (e, fields_from) (flush-IsWord w _ h (fields_from-IsWord [] s tt))
  | inr e ↦
      rw (e, fields_from) (fields_from-IsWord (w ++ c ∷ []) s (All-append _ w (c ∷ []) h (e, tt)))
]

-- A word in front of a text is read as the beginning of its first word.
fields_from-append : (v w s : Text) → HasNoSpace w → fields_from v (w ++ s) ≡ fields_from (v ++ w) s
unfolding fields_from
fields_from-append v [] s h = rw append-nil
fields_from-append v (c ∷ w) s (e, h) =
    rw (e, fields_from) (fields_from-append (v ++ c ∷ []) w s h ∙ rw append_assoc)

flush_of_ne : (w : Text) (ws : List Text) → w ≢ [] → flush w ws ≡ w ∷ ws
flush_of_ne [] ws h = absurd (h refl)
flush_of_ne (c ∷ w) ws h = refl

fields_from-word : (w : Text) → IsWord w → fields_from [] w ≡ w ∷ []
unfolding fields_from
fields_from-word w (n, h) =
    ap (fields_from []) (sym (append-nil w)) ∙ fields_from-append [] w [] h ∙ flush_of_ne w [] n

fields_from-word_space :
    (w s : Text) → IsWord w → fields_from [] (w ++ (32 ∷ s)) ≡ w ∷ fields_from [] s
unfolding fields_from
fields_from-word_space w s (n, h) =
    fields_from-append [] w (32 ∷ s) h ∙ flush_of_ne w (fields_from [] s) n

-- Words joined by single spaces are read back as those words.
fields-join_words : (ws : List Text) → All IsWord ws → fields_from [] (join_words ws) ≡ ws
unfolding join_words
fields-join_words [] h = unfold fields_from in refl
fields-join_words (w ∷ []) h = fields_from-word w h.0
fields-join_words (w ∷ v ∷ ws) h =
    fields_from-word_space w (join_words (v ∷ ws)) h.0
    ∙ ap (λ r. w ∷ r) (fields-join_words (v ∷ ws) h.1)

abbrev pub dots : Text
dots = codes "..."

-- The words of a text that was cut at n bytes and ends in dots.
cut : ℕ → List Text → List Text
cut n [] = dots ∷ []
cut n (w ∷ []) = (take n w ++ dots) ∷ []
cut n (w ∷ v ∷ ws) =
    let rest = cut (n - length w - 1) (v ∷ ws) in
    if leb n (length w) then (take n w ++ dots) ∷ [] else w ∷ rest

take-HasNoSpace : (n : ℕ) (w : Text) → HasNoSpace w → HasNoSpace (take n w)
take-HasNoSpace zero w h = tt
take-HasNoSpace (suc n) [] h = tt
take-HasNoSpace (suc n) (c ∷ w) h = (h.0, take-HasNoSpace n w h.1)

append_ne : (w : Text) (c : ℕ) (s : Text) → w ++ (c ∷ s) ≢ []
append_ne [] c s e = cc
append_ne (d ∷ w) c s e = cc

dots-HasNoSpace : HasNoSpace dots
unfolding is_space
dots-HasNoSpace = (refl, (refl, (refl, tt)))

append_dots-IsWord : (n : ℕ) (w : Text) → HasNoSpace w → IsWord (take n w ++ dots)
append_dots-IsWord n w h =
    (append_ne (take n w) _ _, All-append _ (take n w) dots (take-HasNoSpace n w h) dots-HasNoSpace)

cut-IsWord : (n : ℕ) (ws : List Text) → All IsWord ws → All IsWord (cut n ws)
unfolding cut
cut-IsWord n [] h = ((λ e. cc, dots-HasNoSpace), tt)
cut-IsWord n (w ∷ []) h = (append_dots-IsWord n w h.0.1, tt)
cut-IsWord n (w ∷ v ∷ ws) h = elim (Bool-cases (leb n (length w))) [
  | inl e ↦ rw (e, cut) (append_dots-IsWord n w h.0.1, tt)
  | inr e ↦ rw (e, cut) (h.0, cut-IsWord (n - length w - 1) (v ∷ ws) h.1)
]

take-append_short : (n : ℕ) (w s : Text) → n ≤ length w → take n (w ++ s) ≡ take n w
take-append_short zero w s h = refl
take-append_short (suc n) [] s h = absurd (omega arith)
take-append_short (suc n) (c ∷ w) s h = ap (λ r. c ∷ r) (take-append_short n w s (omega arith))

take-append_long :
    (n : ℕ) (w s : Text) (c : ℕ)
    → length w < n
    → take n (w ++ (c ∷ s)) ≡ w ++ (c ∷ take (n - length w - 1) s)
take-append_long zero w s c h = absurd (omega arith)
take-append_long (suc n) [] s c h = ap (λ m. c ∷ take m s) (omega arith)
take-append_long (suc n) (d ∷ w) s c h =
    ap (λ r. d ∷ r)
      (take-append_long n w s c (omega arith) ∙ ap (λ m. w ++ (c ∷ take m s)) (omega arith))

cons_join_words :
    (w : Text) (ws : List Text) → ws ≢ [] → join_words (w ∷ ws) ≡ w ++ (32 ∷ join_words ws)
unfolding join_words
cons_join_words w [] h = absurd (h refl)
cons_join_words w (v ∷ ws) h = refl

cut_ne : (n : ℕ) (v : Text) (ws : List Text) → cut n (v ∷ ws) ≢ []
unfolding cut
cut_ne n v [] e = cc
cut_ne n v (w ∷ ws) e = elim (Bool-cases (leb n (length v))) [
  | inl t ↦ cc (rw (t, cut) at e)
  | inr t ↦ cc (rw (t, cut) at e)
]

take-join_words : (n : ℕ) (ws : List Text) → take n (join_words ws) ++ dots ≡ join_words (cut n ws)
unfolding join_words cut
take-join_words zero [] = refl
take-join_words (suc n) [] = refl
take-join_words n (w ∷ []) = refl
take-join_words n (w ∷ v ∷ ws) = elim (Bool-cases (leb n (length w))) [
  | inl e ↦
      rw (e, cut)
        (ap (λ t. t ++ dots) (take-append_short n w (32 ∷ join_words (v ∷ ws)) (ground arith)))
  | inr e ↦
      rw (e, cut)
        (ap (λ t. t ++ dots) (take-append_long n w (join_words (v ∷ ws)) 32 (ground arith))
          ∙ append_assoc w _ dots
          ∙ ap (λ t. w ++ (32 ∷ t)) (take-join_words (n - length w - 1) (v ∷ ws))
          ∙ sym (cons_join_words w (cut (n - length w - 1) (v ∷ ws)) (cut_ne _ v ws)))
]

-- The words of a compacted text: those of the text, or what is left of them after the cut.
compact_words : Text → List Text
compact_words t =
    let ws = fields_from [] t in if leb (length (join_words ws)) 160 then ws else cut 157 ws

compact_error_text_lem : (t : Text) → compact_error_text t ≡ join_words (compact_words t)
unfolding compact_error_text compact_words fields
compact_error_text_lem t = elim (Bool-cases (leb (length (join_words (fields_from [] t))) 160)) [
  | inl e ↦ rw e
  | inr e ↦ rw e (take-join_words 157 (fields_from [] t))
]

compact_words-IsWord : (t : Text) → All IsWord (compact_words t)
unfolding compact_words
compact_words-IsWord t = elim (Bool-cases (leb (length (join_words (fields_from [] t))) 160)) [
  | inl e ↦ rw e (fields_from-IsWord [] t tt)
  | inr e ↦ rw e (cut-IsWord 157 (fields_from [] t) (fields_from-IsWord [] t tt))
]

length-shorten : (s : Text) → length (if leb (length s) 160 then s else take 157 s ++ dots) ≤ 160
length-shorten s = elim (Bool-cases (leb (length s) 160)) [
  | inl e ↦ rw e (leb→le (length s) 160 e)
  | inr e ↦ rw (e, length-append (take 157 s) dots) (omega (arith, length-take-le 157 s))
]

length-compact_error_text : (t : Text) → length (compact_error_text t) ≤ 160
unfolding compact_error_text fields
length-compact_error_text t = length-shorten (join_words (fields_from [] t))

-- The compacted text is at most 160 bytes long, and consists of words, without white space in them,
-- that stand one single space apart.
pub compact_error_text_form :
    (t : Text)
    → (length (compact_error_text t) ≤ 160)
      × ((ws : List Text) × All IsWord ws × (compact_error_text t ≡ join_words ws))
compact_error_text_form t = (
  length-compact_error_text t,
  (compact_words t, compact_words-IsWord t, compact_error_text_lem t),
)

-- A text whose words, single spaces apart, take 160 bytes at most loses none of them; a longer one
-- is cut to 160 bytes or fewer that end in three dots.
pub compact_error_text_keeps :
    (t : Text)
    → ((length (join_words (fields t)) ≤ 160) × (fields (compact_error_text t) ≡ fields t))
      ⊎ ((160 < length (join_words (fields t))) × ((s : Text) × (compact_error_text t ≡ s ++ dots)))
unfolding compact_error_text fields
compact_error_text_keeps t = elim (Bool-cases (leb (length (join_words (fields_from [] t))) 160)) [
  | inl e ↦
      inl (ground arith, rw e (fields-join_words (fields_from [] t) (fields_from-IsWord [] t tt)))
  | inr e ↦ inr (ground arith, (take 157 (join_words (fields_from [] t)), rw e refl))
]

-- Compacting a compacted text changes nothing.
pub compact_error_text_idem :
    (t : Text) → compact_error_text (compact_error_text t) ≡ compact_error_text t
unfolding compact_error_text fields
compact_error_text_idem t =
    let form = compact_error_text_lem t in
    let read = ap (fields_from []) form ∙ fields-join_words _ (compact_words-IsWord t) in
    let same = ap join_words read ∙ sym form in
    rw (same, (leb_iff _ 160).1 (length-compact_error_text t))
