-- ===== src/LogBuf/Write.antt =====
-- `Write` appends to the history.
use itzo.Base.{
  ℕ, ◌+◌, ◌%◌, ◌≤◌, ◌<◌, ◌≡◌, sym, ◌∙◌, ◌⊎◌, inl, inr, Option, some, List, [], ◌∷◌, ◌++◌, arith,
  Str, length-append, length-set, get_or, get_or-set_self, get_or-set_ne, get_or-append,
  get_or-append_length, set,
}
use itzo.LogBuf.{LogSource, LogEntry, LogBuffer, zero_entry, stamp, write}
use itzo.LogBuf.History.{Holds, mod-ne}

abbrev pub entry : Str → LogSource → Str → Option Str → LogEntry
entry now source line timestamp = record {
  timestamp = stamp now timestamp;
  source = source;
  line = line;
}

abbrev pub written : LogBuffer → LogEntry → LogBuffer
written lb e = record lb { buf = set lb.buf (lb.offset % lb.capacity) e; offset = lb.offset + 1 }

last_or_earlier : (i n : ℕ) → i < n + 1 → (i ≡ n) ⊎ (i < n)
last_or_earlier i n h = grind arith

module _ {lb : LogBuffer} {history : List LogEntry} (e : LogEntry) (h : Holds lb history) where
  written-at :
      (i : ℕ)
      → i < lb.offset + 1
      → lb.offset + 1 ≤ i + lb.capacity
      → get_or (written lb e).buf (i % lb.capacity) zero_entry
        ≡ get_or (history ++ e ∷ []) i zero_entry
  written-at i p q = elim (last_or_earlier i lb.offset p) [
    | inl last ↦ rw last (
        get_or-set_self lb.buf (lb.offset % lb.capacity) e zero_entry
          (omega (arith, h.room, h.storage))
        ∙ sym (rw h.counted (get_or-append_length history [] e zero_entry)))
    | inr earlier ↦
        get_or-set_ne lb.buf e zero_entry
          (λ eq. mod-ne lb.capacity i lb.offset earlier (omega arith) (sym eq))
        ∙ h.at_index i earlier (omega arith)
        ∙ sym (get_or-append history (e ∷ []) i zero_entry (omega (arith, h.counted)))
  ]

  written-Holds : Holds (written lb e) (history ++ e ∷ [])
  written-Holds = record {
    room = h.room;
    storage = length-set lb.buf (lb.offset % lb.capacity) e ∙ h.storage;
    counted = omega (arith, h.counted, length-append history (e ∷ []));
    at_index = written-at;
  }

-- `Write` never panics on a buffer with room, and appends its entry to the history: the current
-- time is the timestamp unless the caller gives one.
pub write-Holds :
    {lb : LogBuffer} {history : List LogEntry} (now : Str) (source : LogSource) (line : Str)
    (timestamp : Option Str)
    → Holds lb history
    → (lb' : LogBuffer) × (write lb now source line timestamp ≡ some lb')
      × Holds lb' (history ++ entry now source line timestamp ∷ [])
unfolding write
write-Holds {lb} now source line timestamp h = (written lb e, ground arith, written-Holds e h)
  where
    e : LogEntry
    e = entry now source line timestamp
