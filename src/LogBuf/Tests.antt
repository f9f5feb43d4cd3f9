-- ===== src/LogBuf/Tests.antt =====
-- The log buffer on concrete lines, and its theorems at such inputs.
use itzo.Base.{
  ℕ, ◌+◌, ◌≡◌, refl, true, none, some, List, [], ◌∷◌, ◌++◌, arith, Str, lit, pos, negsuc, length,
  ◌<◌, ◌≤◌, ◌%◌, get_or, zero, suc,
}
use itzo.LogBuf.{
  LogEntry, LogBuffer, stdout, stderr, zero_entry, new_log_buffer, write, read, read_since, format,
}
use itzo.LogBuf.History.{Holds, new-Holds}
use itzo.LogBuf.Write.{entry, write-Holds}
use itzo.LogBuf.Read.{last, wanted, read-eq-last, poll-exact}

abbrev now : Str
now = b't' ∷ []

abbrev line_of : ℕ → LogEntry
line_of n = record { timestamp = now; source = stdout; line = n ∷ [] }

-- A buffer for two lines that got three.
abbrev wrapped : LogBuffer
wrapped = record { buf = line_of 3 ∷ line_of 2 ∷ []; capacity = 2; offset = 3 }

abbrev history : List LogEntry
history = line_of 1 ∷ line_of 2 ∷ line_of 3 ∷ []

wrapped-at :
    (i : ℕ)
    → i < 3
    → 3 ≤ i + 2
    → get_or wrapped.buf (i % 2) zero_entry ≡ get_or history i zero_entry
wrapped-at zero p q = absurd (omega arith)
wrapped-at (suc zero) p q = refl
wrapped-at (suc (suc zero)) p q = refl
wrapped-at (suc (suc (suc i))) p q = absurd (omega arith)

wrapped-Holds : Holds wrapped history
wrapped-Holds = record { room = omega arith; storage = refl; counted = refl; at_index = wrapped-at }

read-eq-last_example : read wrapped (pos 9) ≡ last (wanted 2 3 9) history
read-eq-last_example = read-eq-last wrapped-Holds 9

poll-exact_example :
    read_since wrapped (pos (length (line_of 1 ∷ [])))
    ≡ some
        (line_of 2 ∷ line_of 3 ∷ [], length (line_of 1 ∷ []) + length (line_of 2 ∷ line_of 3 ∷ []))
poll-exact_example =
    poll-exact (line_of 1 ∷ []) (line_of 2 ∷ line_of 3 ∷ []) wrapped-Holds (omega arith)

write-Holds_example :
    (lb' : LogBuffer) × (write (new_log_buffer 2) now stderr (7 ∷ []) none ≡ some lb')
    × Holds lb' ([] ++ entry now stderr (7 ∷ []) none ∷ [])
write-Holds_example = write-Holds now stderr (7 ∷ []) none (new-Holds 2 (omega arith))

read_newest : read wrapped (pos 1) ≡ line_of 3 ∷ []
unfolding read
read_newest = refl

read_all : read wrapped (pos 9) ≡ line_of 2 ∷ line_of 3 ∷ []
unfolding read
read_all = refl

-- A position before the start of the buffer's life panics.
read_before_start : read_since (record wrapped { offset = 1 }) (negsuc 0) ≡ none
unfolding read_since
read_before_start = refl

-- A line without a newline is formatted without one.
format_bare : format (line_of 5) true ≡ some (lit "t stdout F " ++ 5 ∷ [])
unfolding format lit
format_bare = refl
