-- ===== src/Sync/Push/Reference.antt =====
-- `isReferenceMiss` of push/pipeline.ts. A text is the list of its characters' codes.
use channex_pms.Prelude.{
  ℕ, ◌+◌, Bool, true, false, ◌&&◌, ◌||◌, List, [], ◌∷◌, if◌then◌else◌, ◌==◌, leb, not,
}

abbrev pub Text : Type 0
Text = List ℕ

-- The lower case of a letter, as /i compares them.
abbrev pub to_lower : ℕ → ℕ
to_lower c = if leb 65 c && leb c 90 then c + 32 else c

-- Some occurrence of each of the words in turn at the start of a text; a word that is followed by
-- another may have one character, but no line end, in between (`.?`).
abbrev pub starts_with : Text → Text → Bool
starts_with [] text = true
starts_with (w ∷ ws) [] = false
starts_with (w ∷ ws) (c ∷ text) = (to_lower c == w) && starts_with ws text

abbrev pub after_prefix : Text → Text → Text
after_prefix [] text = text
after_prefix (w ∷ ws) [] = []
after_prefix (w ∷ ws) (c ∷ text) = after_prefix ws text

abbrev pub gap_then : Text → Text → Bool
gap_then second [] = starts_with second []
gap_then second (c ∷ text) =
    starts_with second (c ∷ text)
    || (not ((c == 10) || ((c == 13) || ((c == 8232) || (c == 8233)))) && starts_with second text)

abbrev pub starts_with_both : Text → Text → Text → Bool
starts_with_both first second text =
    starts_with first text && gap_then second (after_prefix first text)

-- A match at any place of the text.
abbrev pub occurs : (Text → Bool) → Text → Bool
occurs p [] = p []
occurs p (c ∷ text) = p (c ∷ text) || occurs p text

-- "not found", "property", "rate", "plan", "room", "type".
abbrev pub not_found_word : Text
not_found_word = 110 ∷ 111 ∷ 116 ∷ 32 ∷ 102 ∷ 111 ∷ 117 ∷ 110 ∷ 100 ∷ []

abbrev pub property_word : Text
property_word = 112 ∷ 114 ∷ 111 ∷ 112 ∷ 101 ∷ 114 ∷ 116 ∷ 121 ∷ []

abbrev pub rate_word : Text
rate_word = 114 ∷ 97 ∷ 116 ∷ 101 ∷ []

abbrev pub plan_word : Text
plan_word = 112 ∷ 108 ∷ 97 ∷ 110 ∷ []

abbrev pub room_word : Text
room_word = 114 ∷ 111 ∷ 111 ∷ 109 ∷ []

abbrev pub type_word : Text
type_word = 116 ∷ 121 ∷ 112 ∷ 101 ∷ []

unfoldable pub is_reference_miss : Text → Bool
is_reference_miss reason =
    occurs (starts_with not_found_word) reason
    && (occurs (starts_with property_word) reason
        || (occurs (starts_with_both rate_word plan_word) reason
            || occurs (starts_with_both room_word type_word) reason))
