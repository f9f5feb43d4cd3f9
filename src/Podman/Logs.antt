-- ===== src/Podman/Logs.antt =====
-- The log buffer that GetLogBuffer fills from what podman prints.
use itzo.Base.{ℕ, Option, none, some, List, [], ◌∷◌, ◌++◌, if◌then◌else◌, ◌==◌, nat_eq, Str, split2}
use itzo.LogBuf.{LogSource, LogEntry}

-- The text without a byte.
abbrev pub without : ℕ → Str → Str
without b [] = []
without b (c ∷ s) = if c == b then without b s else c ∷ without b s

abbrev pub at : Str → Str → LogEntry
at time line = record { timestamp = time; source = LogSource.stdout; line = line }

-- The entry of a message: its time stands before the first space. A message without one has none.
abbrev pub entry_of : Str × Option Str → List LogEntry
entry_of (time, none) = []
entry_of (time, some line) = at time (without b' ' line ++ b'\n' ∷ []) ∷ []

abbrev pub entries_of : List Str → List LogEntry
entries_of [] = []
entries_of (msg ∷ msgs) = entry_of (split2 b' ' msg) ++ entries_of msgs
