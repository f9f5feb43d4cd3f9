-- ===== src/Kill/Laws.antt =====
-- The whole tree of a process is killed, and the nested calls end.
use itzo.Base.{
  int_beq, ℕ, zero, suc, [], ◌∷◌, ◌≡◌, refl, sym, ap, subst, ◌∙◌, Bool, true, false, if◌then◌else◌,
  List, Error, ◌⊎◌, inl, inr, Option, none, some, ℤ, pos, negsuc, length, get_elem?, ◌+◌, ◌<◌,
  arith,
}
use itzo.Kill.{
  Process, ProcessHandler, Outcome, copy_except, append_to, and_then, kill_children, kill_self,
  kill_tree, kill_listed, kill_process_tree,
}

-- A chain of processes of the list from the root to a process, each the child of the one before,
-- in which no entry of the list is used twice.
pub data Descends : List Process → ℤ → ℤ → Type 0 where
  self : {ps : List Process} {root : ℤ} → Descends ps root root
  child :
      {ps : List Process} {root pid : ℤ} (i : ℕ) (p : Process)
      → get_elem? ps i ≡ some p
      → p.ppid ≡ root
      → Descends (copy_except ps i) p.pid pid
      → Descends ps root pid

-- What a kill does to a process, and that other kills leave it so.
pub record Lasting {W : Type 0} (handler : ProcessHandler W) (Killed : ℤ → W → Type 0)
    : Type 0 where
  pub after : (pid : ℤ) (w : W) → Killed pid (handler.kill_process pid w).1
  pub keeps : (pid other : ℤ) (w : W) → Killed pid w → Killed pid (handler.kill_process other w).1

int_beq_refl : (a : ℤ) → int_beq a a ≡ true
unfolding int_beq
int_beq_refl (pos a) = ground arith
int_beq_refl (negsuc a) = ground arith

int_beq_of_eq : (a b : ℤ) → a ≡ b → int_beq a b ≡ true
int_beq_of_eq a b h = subst (λ c. int_beq a c ≡ true) h (int_beq_refl a)

length-copy_except :
    (ps : List Process) (i : ℕ) → i < length ps → suc (length (copy_except ps i)) ≡ length ps
unfolding copy_except
length-copy_except [] i h = omega arith
length-copy_except (p ∷ ps) zero h = refl
length-copy_except (p ∷ ps) (suc i) h = ap suc (length-copy_except ps i (omega arith))

module _ {W : Type 0} (Killed : ℤ → W → Type 0) where
  -- A result, after which the processes of `Goal` are killed and those killed before still are.
  pub record Kills (Goal : ℤ → Type 0) (w : W) (o : Option (Outcome W)) : Type 0 where
    pub result : Option Error
    pub world : W
    pub ends : o ≡ some (result, world)
    pub goal : (pid : ℤ) → Goal pid → Killed pid world
    pub kept : (pid : ℤ) → Killed pid w → Killed pid world

  -- A test that holds if the chain is to be followed.
  Kills-if :
      {Goal Rest : ℤ → Type 0} {Hit : Type 0} (b : Bool) {w : W} {o o' : Option (Outcome W)}
      → (Hit → b ≡ true)
      → ((pid : ℤ) → Goal pid → Hit ⊎ Rest pid)
      → Kills Goal w o
      → Kills Rest w o'
      → Kills Goal w (if b then o else o')
  Kills-if true hit split first second = first
  Kills-if false hit split first second = record {
    result = second.result;
    world = second.world;
    ends = second.ends;
    goal = λ pid g. elim (split pid g) [
      | inl h ↦ absurd (let e = hit h in ground arith)
      | inr r ↦ second.goal pid r
    ];
    kept = second.kept;
  }

-- The chains through the children from the index `i` on.
record Below (root : ℤ) (ps : List Process) (i : ℕ) (rest : List Process) (pid : ℤ) : Type 0 where
  index : ℕ
  process : Process
  at : get_elem? rest index ≡ some process
  parent : process.ppid ≡ root
  chain : Descends (copy_except ps (i + index)) process.pid pid

less_one :
    (ps : List Process) (i n : ℕ)
    → i < length ps
    → length ps < suc n
    → length (copy_except ps i) < n
less_one ps i n h h' = let e = length-copy_except ps i h in omega arith

Below-at_index :
    (root pid : ℤ) (ps rest : List Process) (i : ℕ) (p : Process) (j : ℕ) (q : Process)
    → get_elem? (p ∷ rest) j ≡ some q
    → q.ppid ≡ root
    → Descends (copy_except ps (i + j)) q.pid pid
    → (p.ppid ≡ root × Descends (copy_except ps i) p.pid pid) ⊎ Below root ps (suc i) rest pid
Below-at_index root pid ps rest i p zero q at parent chain =
    let same : q ≡ p = cc in
    inl (
      ap (λ c. c.ppid) (sym same) ∙ parent,
      subst (λ c. Descends (copy_except ps i) c.pid pid) same
          (subst (λ j. Descends (copy_except ps j) q.pid pid) (omega arith) chain),
    )
Below-at_index root pid ps rest i p (suc j) q at parent chain = inr (record {
  index = j;
  process = q;
  at = at;
  parent = parent;
  chain = subst (λ k. Descends (copy_except ps k) q.pid pid) (omega arith) chain;
})

Descends-cases :
    {root pid : ℤ} {ps : List Process}
    → Descends ps root pid
    → Below root ps 0 ps pid ⊎ (pid ≡ root)
Descends-cases self = inr refl
Descends-cases {root} {pid} {ps} (child i p at parent chain) = inl (record {
  index = i;
  process = p;
  at = at;
  parent = parent;
  chain = subst (λ k. Descends (copy_except ps k) p.pid pid) (omega arith) chain;
})

-- The first of the children, or one of the others.
Below-cons :
    (root pid : ℤ) (ps rest : List Process) (i : ℕ) (p : Process)
    → Below root ps i (p ∷ rest) pid
    → (p.ppid ≡ root × Descends (copy_except ps i) p.pid pid) ⊎ Below root ps (suc i) rest pid
Below-cons root pid ps rest i p b =
    Below-at_index root pid ps rest i p b.index b.process b.at b.parent b.chain

Kills-and_then :
    {W : Type 0} (Killed : ℤ → W → Type 0) {A B C : ℤ → Type 0} (w : W) (o : Option (Outcome W))
    (f : Outcome W → Option (Outcome W))
    → Kills Killed A w o
    → ((p : Outcome W) → Kills Killed B p.1 (f p))
    → ((pid : ℤ) → C pid → A pid ⊎ B pid)
    → Kills Killed C w (and_then o f)
unfolding and_then
Kills-and_then Killed {A} {B} {C} w o f first second split =
    let last = second (first.result, first.world) in
    record {
      result = last.result;
      world = last.world;
      ends = ap (λ q. and_then q f) first.ends ∙ last.ends;
      goal = λ pid c. elim (split pid c) [
        | inl a ↦ last.kept pid (first.goal pid a)
        | inr b ↦ last.goal pid b
      ];
      kept = λ pid k. last.kept pid (first.kept pid k);
    }

module _ {W : Type 0} (append : Option Error → Error → Error) (handler : ProcessHandler W)
    (Killed : ℤ → W → Type 0) (lasting : Lasting handler Killed) where
  -- The nested calls of a call do what is stated of them.
  abbrev Recurses : (ℤ → List Process → Option Error → W → Option (Outcome W)) → ℕ → Type 0
  Recurses kill n =
      (pid : ℤ) (ps : List Process) (r : Option Error) (w : W)
      → length ps < n
      → Kills Killed (Descends ps pid) w (kill pid ps r w)

  Kills-kill_self :
      (ppid : ℤ) (o : Outcome W)
      → Kills Killed (λ pid. pid ≡ ppid) o.1 (kill_self append handler ppid o)
  unfolding kill_self
  Kills-kill_self ppid o =
      let killed = handler.kill_process ppid o.1 in
      record {
        result = append_to append o.0 killed.0;
        world = killed.1;
        ends = refl;
        goal = λ pid h. subst (λ c. Killed c killed.1) (sym h) (lasting.after ppid o.1);
        kept = λ pid k. lasting.keeps pid ppid o.1 k;
      }

  Kills-skip :
      {Goal : ℤ → Type 0} (r : Option Error) (w : W)
      → ((pid : ℤ) → Goal pid → Killed pid w)
      → Kills Killed Goal w (some (r, w))
  Kills-skip r w goal = record {
    result = r;
    world = w;
    ends = refl;
    goal = goal;
    kept = λ pid k. k;
  }

  Kills-kill_children :
      (kill : ℤ → List Process → Option Error → W → Option (Outcome W)) (n : ℕ)
      → Recurses kill n
      → (ppid : ℤ) (ps : List Process) (i : ℕ) (rest : List Process) (r : Option Error) (w : W)
      → i + length rest ≡ length ps
      → length ps < suc n
      → Kills Killed (Below ppid ps i rest) w (kill_children append kill ppid ps i rest r w)
  unfolding kill_children
  Kills-kill_children kill n rec ppid ps i [] r w total h =
      Kills-skip r w (λ pid b. absurd (let at = b.at in ground arith))
  Kills-kill_children kill n rec ppid ps i (p ∷ rest) r w total h =
      Kills-if Killed (int_beq p.ppid ppid) (int_beq_of_eq p.ppid ppid)
        (λ pid b. elim (Below-cons ppid pid ps rest i p b) [ inl h ↦ inl h.0 | inr c ↦ inr c ])
        (Kills-and_then Killed w (kill p.pid (copy_except ps i) r w)
          (λ o. kill_children append kill ppid ps (suc i) rest (append_to append r o.0) o.1)
          (rec p.pid (copy_except ps i) r w (less_one ps i n (omega arith) h))
          (λ o.
            Kills-kill_children kill n rec ppid ps (suc i) rest (append_to append r o.0) o.1
              (omega arith) h)
          (λ pid b. elim (Below-cons ppid pid ps rest i p b) [ inl h ↦ inl h.1 | inr c ↦ inr c ]))
        (Kills-kill_children kill n rec ppid ps (suc i) rest r w (omega arith) h)

  kill_tree-Kills : (n : ℕ) → Recurses (kill_tree append handler n) n
  unfolding kill_tree
  kill_tree-Kills zero pid ps r w h = absurd (omega arith)
  kill_tree-Kills (suc n) pid ps r w h =
      Kills-and_then Killed w (kill_children append (kill_tree append handler n) pid ps 0 ps r w)
        (kill_self append handler pid)
        (Kills-kill_children (kill_tree append handler n) n (kill_tree-Kills n) pid ps 0 ps r w
          (omega arith) h)
        (Kills-kill_self pid) (λ other d. Descends-cases d)

  -- When the processes can be listed and there is fuel for more nested calls than processes, the
  -- call returns; whichever kills failed, each process that a chain of children in the list leads
  -- to from the given one, itself included, had its kill made, and no earlier kill is undone.
  -- `Killed` is any predicate that a kill of a process, failed or not, makes true of it and that
  -- other kills keep.
  pub kill_process_tree-Kills :
      (n : ℕ) (root : ℤ) (ps : List Process) (w listed : W)
      → handler.list_processes w ≡ (inr ps, listed)
      → length ps < n
      → Kills Killed (Descends ps root) listed (kill_process_tree append handler n root w)
  unfolding kill_process_tree kill_listed
  kill_process_tree-Kills n root ps w listed e h =
      subst (λ l. Kills Killed (Descends ps root) listed (kill_listed append handler n root l))
        (sym e) (kill_tree-Kills n root ps none listed h)
