-- ===== src/Utils/Files/Tail.antt =====
-- The loop of `tailLines`.
use itzo.Base.{ℕ, ◌-◌, ◌*◌, ◌≤◌, ◌≡◌, Bool, ◌&&◌, Option, some, List, ◌++◌, length, ltb, Str, ◌⊎◌}
use itzo.Utils.Files.{chunk_size, count_lines, concat}

-- A text is the end of a file, of at most so many lines, and it is that many lines, the whole file,
-- or not shorter than the bound.
abbrev pub Ends : Str → ℕ → ℕ → Str → Type 0
Ends file lines bound text =
    (front : Str) × (file ≡ front ++ text)
    × (count_lines text ≤ lines)
    × ((count_lines text ≡ lines) ⊎ ((text ≡ file) ⊎ (bound ≤ length text)))

module _ (file : Str) (lines bound : ℕ) where
  abbrev goes_on : ℕ → ℕ → Bool
  goes_on cur seen =
      ltb seen lines && ltb (cur * chunk_size) (length file) && ltb (cur * chunk_size) bound

  -- What was read so far.
  record Reached (cur seen : ℕ) (parts : List Str) : Type 0 where
    front : Str
    whole : file ≡ front ++ concat parts
    left : length front ≡ length file - cur * chunk_size
    counted : count_lines (concat parts) ≡ seen
    few : seen ≤ lines

  Returned : Option (List Str) → Type 0
  Returned r = (parts : List Str) × (r ≡ some parts) × Ends file lines bound (concat parts)
