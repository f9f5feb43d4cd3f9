-- ===== src/LogBuf/History.antt =====
-- What a log buffer stands for: the whole history of the entries written to it.
use itzo.Base.{ℕ, ◌+◌, ◌%◌, ◌≤◌, ◌<◌, ◌≡◌, ◌≢◌, List, [], arith, length, get_or, length-replicate}
use itzo.LogBuf.{LogEntry, LogBuffer, zero_entry, new_log_buffer, flush}

-- The buffer holds the last `capacity` entries of the history, each at its number modulo the
-- capacity, and `offset` counts the history.
pub record Holds (lb : LogBuffer) (history : List LogEntry) : Type 0 where
  pub room : 0 < lb.capacity
  pub storage : length lb.buf ≡ lb.capacity
  pub counted : lb.offset ≡ length history
  pub at_index :
      (i : ℕ)
      → i < lb.offset
      → lb.offset ≤ i + lb.capacity
      → get_or lb.buf (i % lb.capacity) zero_entry ≡ get_or history i zero_entry

-- A new buffer holds the empty history.
pub new-Holds : (capacity : ℕ) → 0 < capacity → Holds (new_log_buffer capacity) []
unfolding new_log_buffer
new-Holds capacity h = record {
  room = h;
  storage = length-replicate capacity zero_entry;
  counted = omega arith;
  at_index = λ i p q. absurd (omega arith);
}

-- `flush` forgets the history.
pub flush-Holds :
    {lb : LogBuffer} {history : List LogEntry} → Holds lb history → Holds (flush lb) []
unfolding flush
flush-Holds {lb} h = record {
  room = h.room;
  storage = length-replicate lb.capacity zero_entry;
  counted = omega arith;
  at_index = λ i p q. absurd (omega arith);
}

-- Two numbers less than `cap` apart fall on different places of the ring.
pub mod-ne : (cap i j : ℕ) → i < j → j < i + cap → i % cap ≢ j % cap
mod-ne cap i j h k = grind arith
