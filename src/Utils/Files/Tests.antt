-- ===== src/Utils/Files/Tests.antt =====
-- The end of a file of three lines, and a negative number of bytes.
use itzo.Base.{◌≡◌, refl, none, [], ◌∷◌, Str, pos, negsuc, inr}
use itzo.Utils.Files.{newline, tail_bytes, tail_file}

abbrev three_lines : Str
three_lines = 97 ∷ newline ∷ 98 ∷ newline ∷ 99 ∷ newline ∷ []

test_tail_file_panics : tail_file (inr three_lines) (pos 0) (negsuc 0) ≡ none
unfolding tail_file tail_bytes
test_tail_file_panics = refl
