-- ===== src/Kill/Tests.antt =====
-- Runs of Kill.antt: a process with a child and a grandchild, of which one cannot be killed.
use itzo.Base.{
  int_beq, ℕ, [], ◌∷◌, ◌≡◌, refl, if◌then◌else◌, List, Error, inr, Option, none, some, ℤ, pos,
  arith,
}
use itzo.Kill.{Process, ProcessHandler, append_to, and_then, copy_except, kill_process_tree}
use itzo.Kill.Laws.{Lasting, Descends, Kills, kill_process_tree-Kills}

abbrev process : ℕ → ℕ → Process
process pid ppid = record { pid = pos pid; ppid = pos ppid; executable = [] }

abbrev family : List Process
family = process 4 2 ∷ process 2 1 ∷ process 7 6 ∷ []

-- The world is the list of the processes whose kill was made, the last one first.
abbrev killer : ProcessHandler (List ℤ)
killer = record {
  list_processes = λ w. (inr family, w);
  kill_process =
      λ pid w. (if int_beq pid (pos 4) then some (Error.errorf "%v" []) else none, pid ∷ w);
}

abbrev join_errors : Option Error → Error → Error
join_errors none e = e
join_errors (some first) e = Error.errorf "%v" []

data Among (pid : ℤ) : List ℤ → Type 0 where
  here : {w : List ℤ} → Among pid (pid ∷ w)
  there : {other : ℤ} {w : List ℤ} → Among pid w → Among pid (other ∷ w)

Among-Lasting : Lasting killer Among
Among-Lasting = record { after = λ pid w. Among.here; keeps = λ pid other w k. Among.there k }

family_killed :
    kill_process_tree join_errors killer 4 (pos 1) []
    ≡ some (some (Error.errorf "%v" []), pos 1 ∷ pos 2 ∷ pos 4 ∷ [])
unfolding kill_process_tree int_beq copy_except append_to and_then
family_killed = refl

kill_process_tree-Kills_example :
    Kills Among (Descends family (pos 1)) [] (kill_process_tree join_errors killer 4 (pos 1) [])
kill_process_tree-Kills_example =
    kill_process_tree-Kills join_errors killer Among Among-Lasting 4 (pos 1) family [] [] refl
      (omega arith)
