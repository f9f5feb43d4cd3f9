-- ===== src/Utils/Files/Laws.antt =====
-- Newlines, and the chunks of a file that `tailLines` reads.
use itzo.Base.{
  ℕ, zero, suc, ◌+◌, ◌-◌, ◌*◌, ◌≤◌, ◌≡◌, refl, sym, ap, ◌∙◌, arith, true, false, [], ◌∷◌, ◌++◌,
  length, take, drop, ltb, ltb→lt, if◌then◌else◌, ◌==◌, nat_eq, Str, split, join-split, Bool-cases,
  inl, inr,
}
use itzo.Utils.Files.{newline, chunk_size, count_lines, lines_of, join_lines, chunk_at}

pub count_lines-append : (s t : Str) → count_lines (s ++ t) ≡ count_lines s + count_lines t
unfolding count_lines
count_lines-append [] t = omega arith
count_lines-append (c ∷ s) t = ground (arith, count_lines-append s t)

count_lines-newline :
    (c : ℕ) (s : Str) → (c == newline) ≡ true → count_lines (c ∷ s) ≡ suc (count_lines s)
unfolding count_lines
count_lines-newline c s e = simp e

count_lines-other : (c : ℕ) (s : Str) → (c == newline) ≡ false → count_lines (c ∷ s) ≡ count_lines s
unfolding count_lines
count_lines-other c s e = simp e

-- Lines dropped from the front.
abbrev pub Cut : Str → ℕ → Str → Type 0
Cut chunk over kept =
    (front : Str) × (chunk ≡ front ++ kept) × (count_lines kept + over ≡ count_lines chunk)

pub drop_lines :
    (chunk : Str) (over : ℕ)
    → over ≤ count_lines chunk
    → Cut chunk over (join_lines (drop over (lines_of chunk)))
unfolding count_lines lines_of join_lines split
drop_lines chunk zero h = (
  [],
  sym (join-split newline chunk),
  ap (λ s. count_lines s + 0) (join-split newline chunk) ∙ omega arith,
)
drop_lines [] (suc over) h = absurd (omega arith)
drop_lines (c ∷ chunk) (suc over) h = elim (Bool-cases (c == newline)) [
  | inl e ↦
      let more = count_lines-newline c chunk e in
      let (front, same, counted) = drop_lines chunk over (omega arith) in
      simp e (c ∷ front, ap (λ s. c ∷ s) same, omega arith)
  | inr e ↦
      let more = count_lines-other c chunk e in
      let (front, same, counted) = drop_lines chunk (suc over) (omega arith) in
      simp e (c ∷ front, ap (λ s. c ∷ s) same, omega arith)
]

-- There is one more part than there are newlines.
pub length-lines_of : (s : Str) → length (lines_of s) ≡ suc (count_lines s)
unfolding lines_of count_lines split
length-lines_of [] = refl
length-lines_of (c ∷ s) = elim (Bool-cases (c == newline)) [
  | inl e ↦ simp (e, length-lines_of s)
  | inr e ↦ simp e (length-lines_of s)
]

take-append : (s t : Str) → take (length s) (s ++ t) ≡ s
take-append [] t = refl
take-append (c ∷ s) t = ap (λ u. c ∷ u) (take-append s t)

drop-append : (m : ℕ) (s t : Str) → m ≤ length s → drop m (s ++ t) ≡ drop m s ++ t
drop-append zero s t h = refl
drop-append (suc m) [] t h = absurd (omega arith)
drop-append (suc m) (c ∷ s) t h = drop-append m s t (omega arith)

pub length-drop : (m : ℕ) (s : Str) → length (drop m s) ≡ length s - m
length-drop zero s = omega arith
length-drop (suc m) [] = omega arith
length-drop (suc m) (c ∷ s) = length-drop m s ∙ omega arith

pub take-drop : (m : ℕ) (s : Str) → s ≡ take m s ++ drop m s
take-drop zero s = refl
take-drop (suc m) [] = refl
take-drop (suc m) (c ∷ s) = ap (λ t. c ∷ t) (take-drop m s)

-- The part of a file between two distances `m` and `e` from its end, `k` apart.
part-front :
    (front tail : Str) (m e k : ℕ)
    → length front + m ≡ length (front ++ tail)
    → e ≡ m + k
    → (if ltb (length (front ++ tail)) e
        then take (length (front ++ tail) - m) (front ++ tail)
        else take k (drop (length (front ++ tail) - e) (front ++ tail)))
      ≡ drop (length front - k) front
part-front front tail m e k h g = elim (Bool-cases (ltb (length (front ++ tail)) e)) [
  | inl b ↦
      let short = ltb→lt (length (front ++ tail)) e b in
      let same : length (front ++ tail) - m ≡ length front = omega arith in
      let none_dropped : length front - k ≡ 0 = omega arith in
      simp (b, same, none_dropped, take-append front tail) refl
  | inr b ↦
      let long : e ≤ length (front ++ tail) = ground (arith, b) in
      let same : length (front ++ tail) - e ≡ length front - k = omega arith in
      let there = drop-append (length front - k) front tail (omega arith) in
      let long_enough : k ≡ length (drop (length front - k) front) =
        sym (length-drop (length front - k) front ∙ omega arith) in
      simp (b, same, there)
        (ap (λ n. take n (drop (length front - k) front ++ tail)) long_enough
          ∙ take-append (drop (length front - k) front) tail)
]

-- The chunk before an end of the file that was read.
pub chunk_at-front :
    (front tail : Str) (cur : ℕ)
    → length front + cur * chunk_size ≡ length (front ++ tail)
    → chunk_at (front ++ tail) cur ≡ drop (length front - chunk_size) front
unfolding chunk_at
chunk_at-front front tail cur h =
    part-front front tail (cur * chunk_size) (suc cur * chunk_size) chunk_size h (omega arith)
