-- ===== src/Run/ErrorText.antt =====
-- compactErrorText of internal/benchmarkrun/coordinator.go. A text is its bytes; the white space of
-- strings.Fields is that of ASCII (the space, and the bytes 9 to 13), so a non-ASCII space such as
-- U+00A0 counts as a letter here.
pub mod Compaction
mod Examples
use pg_gobench.Base.{
  ℕ, ◌≡◌, Bool, ◌||◌, ◌&&◌, List, [], ◌∷◌, ◌++◌, leb, ◌==◌, if◌then◌else◌, length, take, Text,
  codes,
}

unfoldable pub is_space : ℕ → Bool
is_space c = c == 32 || (leb 9 c && leb c 13)

-- The word read so far, if there is one, in front of the words that follow.
abbrev pub flush : Text → List Text → List Text
flush [] rest = rest
flush (c ∷ cs) rest = (c ∷ cs) ∷ rest

-- strings.Fields, with the word read so far.
pub fields_from : Text → Text → List Text
unfolding is_space
fields_from word [] = flush word []
fields_from word (c ∷ s) =
    let closed = flush word (fields_from [] s) in
    let longer = fields_from (word ++ c ∷ []) s in if is_space c then closed else longer

pub fields : Text → List Text
unfolding fields_from
fields s = fields_from [] s

-- strings.Join(words, " ").
pub join_words : List Text → Text
join_words [] = []
join_words (w ∷ []) = w
join_words (w ∷ v ∷ ws) = w ++ (32 ∷ join_words (v ∷ ws))

unfoldable pub compact_error_text : Text → Text
unfolding fields join_words
compact_error_text text =
    let compact = join_words (fields text) in
    if leb (length compact) 160 then compact else take 157 compact ++ codes "..."
