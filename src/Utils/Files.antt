-- ===== src/Utils/Files.antt =====
-- The end of a file: `TailFile` of pkg/util/file.go, for a regular file that does not change while
-- it is read.
pub mod Laws
pub mod Tail
mod Tests
use itzo.Base.{
  ℕ, zero, suc, ◌+◌, ◌-◌, ◌*◌, Bool, true, false, ◌&&◌, ◌||◌, Option, none, some, List, [], ◌∷◌,
  ◌++◌, length, take, drop, ltb, if◌then◌else◌, ◌==◌, nat_eq, Str, split, join, ℤ, pos, negsuc,
  is_zero, ltz, Error, ◌⊎◌, inl, inr,
}

abbrev pub newline : ℕ
newline = 10

abbrev pub chunk_size : ℕ
chunk_size = 8196

abbrev pub max_buffer_size : ℕ
max_buffer_size = 10485760

-- `bytes.Count(s, []byte("\n"))`
unfoldable pub count_lines : Str → ℕ
count_lines [] = 0
count_lines (c ∷ s) = let n = count_lines s in if c == newline then suc n else n

-- `bytes.Split` and `bytes.Join` at newlines.
unfoldable pub lines_of : Str → List Str
unfolding split
lines_of s = let r = split newline s in r.0 ∷ r.1

unfoldable pub join_lines : List Str → Str
unfolding join
join_lines [] = []
join_lines (part ∷ parts) = join newline part parts

-- The chunk that ends `cur` chunks before the end; the first one of the file may be shorter.
unfoldable pub chunk_at : Str → ℕ → Str
chunk_at file cur =
    let from_end = suc cur * chunk_size in
    if ltb (length file) from_end
    then take (length file - cur * chunk_size) file
    else take chunk_size (drop (length file - from_end) file)

-- The parts that are returned, the last one read first.
unfoldable pub add_part : ℕ → ℕ → Str → List Str → List Str
unfolding lines_of join_lines
add_part lines seen chunk parts =
    if ltb lines seen
    then (if ltb (seen - lines) (length (lines_of chunk))
        then join_lines (drop (seen - lines) (lines_of chunk)) ∷ parts
        else parts)
    else chunk ∷ parts

-- A negative bound is like 0 here. `none` if the fuel does not suffice.
unfoldable pub tail_loop : ℕ → Str → ℕ → ℕ → ℕ → ℕ → List Str → Option (List Str)
unfolding add_part chunk_at count_lines
tail_loop zero file lines max_bytes cur seen parts = none
tail_loop (suc fuel) file lines max_bytes cur seen parts =
    let chunk = chunk_at file cur in
    let now = seen + count_lines chunk in
    let rest = tail_loop fuel file lines max_bytes (suc cur) now (add_part lines now chunk parts) in
    if ltb seen lines && ltb (cur * chunk_size) (length file) && ltb (cur * chunk_size) max_bytes
    then rest
    else some parts

unfoldable pub concat : List Str → Str
concat [] = []
concat (part ∷ parts) = part ++ concat parts

unfoldable pub bound_of : ℤ → ℕ
bound_of (pos n) = n
bound_of (negsuc n) = 0

unfoldable pub joined : Option (List Str) → Option Str
unfolding concat
joined none = none
joined (some parts) = some (concat parts)

unfoldable pub tail_lines : Str → ℕ → ℤ → Option Str
unfolding joined tail_loop bound_of
tail_lines file lines max_bytes =
    joined (tail_loop (suc (length file)) file lines (bound_of max_bytes) 0 0 [])

-- A slice cannot be made with a negative length: `none` is a panic.
unfoldable pub tail_bytes : Str → ℤ → Option Str
tail_bytes file (negsuc n) = none
tail_bytes file (pos n) = some (drop (length file - n) file)

default_bound : ℤ → ℤ
default_bound max_bytes =
    if is_zero max_bytes || ltz (pos max_buffer_size) max_bytes
    then pos max_buffer_size
    else max_bytes

-- The first argument is what the file system has at the path.
tail_opened : ℤ → ℤ → Str → Option Str
unfolding tail_lines tail_bytes
tail_opened (pos (suc n)) max_bytes file = tail_lines file (suc n) max_bytes
tail_opened lines max_bytes file = tail_bytes file max_bytes

unfoldable pub tail_file : Error ⊎ Str → ℤ → ℤ → Option (Error ⊎ Str)
unfolding tail_opened default_bound
tail_file (inl e) lines max_bytes = some (inl e)
tail_file (inr file) lines max_bytes = elim (tail_opened lines (default_bound max_bytes) file) [
  | none ↦ none
  | some text ↦ some (inr text)
]
