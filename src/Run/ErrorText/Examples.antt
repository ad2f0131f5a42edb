-- ===== src/Run/ErrorText/Examples.antt =====
-- Compacting given texts.
use pg_gobench.Base.{◌≡◌, refl, ◌≤◌, List, Text, length, All, codes}
use pg_gobench.Run.ErrorText.{join_words, compact_error_text}
use pg_gobench.Run.ErrorText.Compaction.{IsWord, compact_error_text_form}

abbrev spaced : Text
spaced = codes "  dial  tcp:\n refused "

spaced_compacts : compact_error_text spaced ≡ codes "dial tcp: refused"
unfolding compact_error_text
spaced_compacts = refl

compact_error_text_form_example :
    (length (compact_error_text spaced) ≤ 160)
    × ((ws : List Text) × All IsWord ws × (compact_error_text spaced ≡ join_words ws))
compact_error_text_form_example = compact_error_text_form spaced
