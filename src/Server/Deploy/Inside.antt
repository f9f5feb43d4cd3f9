-- ===== src/Server/Deploy/Inside.antt =====
-- Packages without `..` in the names of their entries.
use itzo.Base.{◌≡◌, some, All, Str}
use itzo.Io.Os.{Os}
use itzo.Io.Paths.{parts_of}
use itzo.Io.Paths.Laws.{NotUp}
use itzo.Server.Deploy.{Archive, finished, broken, entry, below_rootfs}

abbrev pub IsPlain : Archive → Type 0
IsPlain finished = Unit
IsPlain (broken e) = Unit
IsPlain (entry h c archive) =
    ((rest : Str) → below_rootfs h.name ≡ some rest → All NotUp (parts_of rest)) × IsPlain archive
