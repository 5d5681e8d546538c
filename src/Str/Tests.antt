-- ===== src/Str/Tests.antt =====
-- The text operations at concrete texts.
use moreofchat.Prelude.{◌≡◌, refl, [], ◌∷◌}
use moreofchat.Str.{words, split_at, push_char, is_space, strip, lstrip}

words_run : words (32 ∷ 65 ∷ 66 ∷ 10 ∷ 32 ∷ 67 ∷ []) ≡ (65 ∷ 66 ∷ []) ∷ (67 ∷ []) ∷ []
unfolding words split_at push_char is_space
words_run = refl

strip_run : strip (32 ∷ 65 ∷ 32 ∷ 66 ∷ 9 ∷ []) ≡ 65 ∷ 32 ∷ 66 ∷ []
unfolding strip lstrip is_space
strip_run = refl
