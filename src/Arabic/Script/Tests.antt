-- ===== src/Arabic/Script/Tests.antt =====
-- The detection on a short text (src/moc/arabic/script.py).
use moreofchat.Prelude.{◌≡◌, refl, true, some, [], ◌∷◌}
use moreofchat.Str.{Text}
use moreofchat.Arabic.Script.{
  Scripts, detect_language, script_counts, count_letters, zero_counts, dominant, best_of, tally,
  in_ranges,
}

abbrev scripts : Scripts
scripts = record {
  languages = ("ar", (1536, 1791) ∷ []) ∷ ("en", (65, 90) ∷ (97, 122) ∷ []) ∷ [];
  franco_markers = [];
}

-- Two Arabic letters and one Latin letter.
abbrev mixed : Text
mixed = 1575 ∷ 97 ∷ 1576 ∷ []

arabic : detect_language (λ c. true) scripts mixed ≡ some "ar"
unfolding detect_language script_counts count_letters zero_counts dominant best_of tally in_ranges
arabic = refl
