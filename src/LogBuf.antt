-- ===== src/LogBuf.antt =====
-- pkg/logbuf/logbuf.go: the ring buffer that keeps the last lines of a unit's output.
-- `offset` is an int64 that only `Write` and `flush` change, by one at a time; it is a plain number
-- here, so the model stands for a buffer with fewer than 2 ^ 63 writes. `none` is a Go panic.
pub mod History
pub mod Write
pub mod Read
mod Tests
use itzo.Base.{
  ℕ, zero, suc, ◌+◌, ◌-◌, ◌%◌, Bool, true, false, not, ◌||◌, Option, none, some, List, [], ◌∷◌,
  ◌++◌, ltb, leb, if◌then◌else◌, ◌==◌, nat_eq, get_or, set, replicate, Str, lit, ℤ, pos, negsuc,
}

pub data LogSource : Type 0 where
  stdout stderr helper : LogSource

pub record LogEntry : Type 0 where
  pub timestamp : Str
  pub source : LogSource
  pub line : Str

unfoldable pub source_text : LogSource → Str
unfolding lit
source_text stdout = lit "stdout"
source_text stderr = lit "stderr"
source_text helper = lit "helper"

-- The last byte is read to decide on a newline; the line with the newline is then left unused.
unfoldable pub format : LogEntry → Bool → Option Str
unfolding source_text
format e false = some e.line
format e true = elim e.line [
  | [] ↦ none
  | _ ∷ _ ↦ some (e.timestamp ++ (b' ' ∷ (source_text e.source ++ (lit " F " ++ e.line))))
]

pub record LogBuffer : Type 0 where
  pub buf : List LogEntry
  pub capacity : ℕ
  pub offset : ℕ

-- The zero value that `make` fills a slice with.
abbrev pub zero_entry : LogEntry
zero_entry = record { timestamp = []; source = stdout; line = [] }

unfoldable pub new_log_buffer : ℕ → LogBuffer
new_log_buffer capacity = record {
  buf = replicate capacity zero_entry;
  capacity = capacity;
  offset = 0;
}

unfoldable pub get_offset : LogBuffer → ℕ
get_offset lb = lb.offset

unfoldable pub stamp : Str → Option Str → Str
stamp now none = now
stamp now (some t) = t

-- `now` is the formatted current time. `% 0` panics.
unfoldable pub write : LogBuffer → Str → LogSource → Str → Option Str → Option LogBuffer
unfolding stamp
write lb now source line timestamp =
    let e : LogEntry = record { timestamp = stamp now timestamp; source = source; line = line } in
    if lb.capacity == 0
    then none
    else some (record lb { buf = set lb.buf (lb.offset % lb.capacity) e; offset = lb.offset + 1 })

-- `util.Minint64` on two values that are not negative.
unfoldable pub minint64 : ℕ → ℕ → ℕ
minint64 a b = if ltb a b then a else b

unfoldable pub len : LogBuffer → ℕ
unfolding minint64
len lb = minint64 lb.capacity lb.offset

-- The loop of `Read` with `suc k` rounds left: there `j` is `k`.
fill : LogBuffer → ℕ → ℕ → List LogEntry → List LogEntry
fill lb zero i entries = entries
fill lb (suc k) i entries =
    fill lb k (i + 1) (set entries k (get_or lb.buf ((lb.offset - i) % lb.capacity) zero_entry))

-- The number of entries that `Read` returns for a count that is not negative.
read_count : LogBuffer → ℕ → ℕ
unfolding minint64
read_count lb nn =
    let n = if ltb lb.capacity nn || ltb lb.offset nn then 0 else nn in
    if n == 0 then minint64 lb.capacity lb.offset else n

-- A negative count gives nil.
unfoldable pub read : LogBuffer → ℤ → List LogEntry
unfolding fill read_count
read lb (negsuc _) = []
read lb (pos nn) = let n = read_count lb nn in fill lb n 1 (replicate n zero_entry)

-- The loop of `ReadSince` at `i ≥ 0`, with the rounds that are left.
scan : LogBuffer → ℕ → ℕ → List LogEntry
scan lb zero i = []
scan lb (suc rounds) i = get_or lb.buf (i % lb.capacity) zero_entry ∷ scan lb rounds (i + 1)

-- Its rounds at -k, …, -1: Go's `%` is then negative or 0, and a negative index panics.
scan_negative : LogBuffer → ℕ → Option (List LogEntry)
scan_negative lb zero = some (scan lb lb.offset 0)
scan_negative lb (suc k) = elim (scan_negative lb k) [
  | none ↦ none
  | some rest ↦ if suc k % lb.capacity == 0 then some (get_or lb.buf 0 zero_entry ∷ rest) else none
]

-- For `i + capacity < offset` the read starts at `offset - capacity`.
unfoldable pub read_since : LogBuffer → ℤ → Option (List LogEntry × ℕ)
unfolding scan scan_negative
read_since lb (pos i) =
    if leb lb.offset i
    then some ([], lb.offset)
    else if ltb (i + lb.capacity) lb.offset
    then some (scan lb lb.capacity (lb.offset - lb.capacity), lb.offset)
    else some (scan lb (lb.offset - i) i, lb.offset)
read_since lb (negsuc k) =
    if ltb lb.capacity (lb.offset + suc k)
    then some (scan lb lb.capacity (lb.offset - lb.capacity), lb.offset)
    else elim (scan_negative lb (suc k)) [ none ↦ none | some entries ↦ some (entries, lb.offset) ]

unfoldable pub flush : LogBuffer → LogBuffer
flush lb = record lb { buf = replicate lb.capacity zero_entry; offset = 0 }
