-- ===== src/Mount/Special/Laws.antt =====
-- The calls that mounting and unmounting the special file systems makes.
use itzo.Base.{
  ◌≡◌, refl, sym, ap, ◌∙◌, List, [], ◌∷◌, ◌++◌, append_assoc, append-nil, Str, Error, ◌⊎◌, inl, inr,
  Option-cases,
}
use itzo.Io.{Result, ok, err, for_each}
use itzo.Io.Laws.{for_each-cons_ok, for_each-cons_err}
use itzo.Io.Os.{Os, Call, mkdir_all, mount, unmount, perform, mnt_detach, traced}
use itzo.Io.Paths.{join_path}
use itzo.Mount.Special.{
  Mount, mounts, rootfs_of, unmount_all, unmount_special, or_unmount, mount_one, mount_special,
}

-- An independent description of the calls.
abbrev pub target_of : Str → Mount → Str
target_of rootfs m = join_path (rootfs ∷ m.target ∷ [])

abbrev pub make_target : Str → Mount → Call
make_target rootfs m = mkdir_all (target_of rootfs m) 448

abbrev pub mount_call : Str → Mount → Call
mount_call rootfs m = mount m.source (target_of rootfs m) m.fs m.flags m.mount_data

abbrev pub setup : Str → List Mount → List Call
setup rootfs [] = []
setup rootfs (m ∷ ms) = make_target rootfs m ∷ mount_call rootfs m ∷ setup rootfs ms

abbrev pub teardown : Str → List Mount → List Call
teardown rootfs [] = []
teardown rootfs (m ∷ ms) = teardown rootfs ms ++ unmount (target_of rootfs m) mnt_detach ∷ []

module _ {W : Type 0} (os : Os W) where
  unmount_all-calls :
      (rootfs : Str) (ms : List Mount) (w : W) (cs : List Call)
      → (unmount_all (traced os) rootfs ms (w, cs)).1 ≡ cs ++ teardown rootfs ms
  unfolding unmount_all
  unmount_all-calls rootfs [] w cs = sym (append-nil cs)
  unmount_all-calls rootfs (m ∷ ms) w cs =
      rw (unmount_all-calls rootfs ms w cs)
        (append_assoc cs (teardown rootfs ms) (unmount (target_of rootfs m) mnt_detach ∷ []))

-- The calls after which a mount of `m` that failed is left: its directory could not be made, or all
-- the mounts were undone.
abbrev pub Failed : Str → Mount → List Call → Type 0
Failed rootfs m cs =
    (cs ≡ make_target rootfs m ∷ [])
    ⊎ (cs ≡ make_target rootfs m ∷ mount_call rootfs m ∷ teardown rootfs mounts)

module _ {W : Type 0} (os : Os W) (basedir unitname : Str) where
  -- One round: the result, and what it called.
  abbrev RoundEnds : Mount → Result (Unit {0}) × (W × List Call) → List Call → Type 0
  RoundEnds m r before =
      ((r.0 ≡ ok tt) × (r.1.1 ≡ before ++ setup (rootfs_of basedir unitname) (m ∷ [])))
      ⊎ ((e : Error) × (cs : List Call) × (r.0 ≡ err e)
          × Failed (rootfs_of basedir unitname) m cs
          × (r.1.1 ≡ before ++ cs))

  mount_one-calls :
      (m : Mount) (s : W × List Call) → RoundEnds m (mount_one (traced os) basedir unitname m s) s.1
  unfolding mount_one perform or_unmount unmount_special
  mount_one-calls m s =
      let rootfs = rootfs_of basedir unitname in
      let made = os.call (make_target rootfs m) s.0 in
      let mounted = os.call (mount_call rootfs m) made.1 in
      elim (Option-cases made.0) [
        | inr (e, h) ↦ inr (e, make_target rootfs m ∷ [], simp h, inl refl, simp h)
        | inl h ↦ elim (Option-cases mounted.0) [
          | inl k ↦ inl (simp (h, k), simp (h, k, append_assoc))
          | inr (e, k) ↦ inr (
            e,
            make_target rootfs m ∷ mount_call rootfs m ∷ teardown rootfs mounts,
            simp (h, k),
            inr refl,
            simp (h, k, append_assoc, unmount_all-calls os),
          )
        ]
      ]

  abbrev pub LoopEnds : List Mount → Result (Unit {0}) × (W × List Call) → List Call → Type 0
  LoopEnds ms r before =
      ((r.0 ≡ ok tt) × (r.1.1 ≡ before ++ setup (rootfs_of basedir unitname) ms))
      ⊎ ((e : Error) × (done : List Mount) × (m : Mount) × (rest : List Mount) × (cs : List Call)
          × (r.0 ≡ err e)
          × (ms ≡ done ++ m ∷ rest)
          × Failed (rootfs_of basedir unitname) m cs
          × (r.1.1 ≡ before ++ (setup (rootfs_of basedir unitname) done ++ cs)))

  -- A round that went well, and the rounds after it.
  after_round :
      (m : Mount) (ms : List Mount) (before : List Call) (s : W × List Call)
      (r : Result (Unit {0}) × (W × List Call))
      → s.1 ≡ before ++ setup (rootfs_of basedir unitname) (m ∷ [])
      → LoopEnds ms r s.1
      → LoopEnds (m ∷ ms) r before
  after_round m ms before s r h (inl (o, k)) =
      inl (o, k ∙ rw h (append_assoc before (setup (rootfs_of basedir unitname) (m ∷ [])) _))
  after_round m ms before s r h (inr (e, done, n, rest, cs, o, p, f, k)) = inr (
    e,
    m ∷ done,
    n,
    rest,
    cs,
    o,
    ap (λ l. m ∷ l) p,
    f,
    k
        ∙ rw h (
            append_assoc before (setup (rootfs_of basedir unitname) (m ∷ []))
              (setup (rootfs_of basedir unitname) done ++ cs)),
  )

  mount_list-calls :
      (ms : List Mount) (s : W × List Call)
      → LoopEnds ms (for_each ms (mount_one (traced os) basedir unitname) s) s.1
  mount_list-calls [] s = unfold for_each in inl (refl, sym (append-nil s.1))
  mount_list-calls (m ∷ ms) s =
      let body = mount_one (traced os) basedir unitname in
      let one = body m s in
      elim (mount_one-calls m s) [
        | inr (e, cs, o, f, k) ↦
            rw (for_each-cons_err m ms body s o) (inr (e, [], m, ms, cs, refl, refl, f, k))
        | inl (o, k) ↦
            rw (for_each-cons_ok m ms body s o)
              (after_round m ms s.1 one.1 (for_each ms body one.1) k (mount_list-calls ms one.1))
      ]

  -- What `MountSpecial` calls, whatever the system answers: without an error the directory and the
  -- mount of each entry of `Mounts`, in their order. With an error the same for the entries before
  -- the one that failed, and then the directory of that one; and if it is the mount that failed, all
  -- four are unmounted, the last one first.
  pub mount_special-calls :
      (s : W × List Call) → LoopEnds mounts (mount_special (traced os) basedir unitname s) s.1
  unfolding mount_special
  mount_special-calls s = mount_list-calls mounts s
