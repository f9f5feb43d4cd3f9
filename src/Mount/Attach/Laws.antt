-- ===== src/Mount/Attach/Laws.antt =====
-- Where volumes are mounted, and with which calls.
use itzo.Base.{
  ℕ, ◌+◌, ◌≡◌, refl, true, false, List, [], ◌∷◌, ◌++◌, Str, Error, has_prefix, ◌⊎◌, inl, inr,
  if◌then◌else◌, ◌==◌, str_eq, lit, Bool-cases,
}
use itzo.Io.{Result, ok, err, panic, ◌>>=◌, ◌>>◌, of_sum, is_ok, continue}
use itzo.Io.Os.{
  Os, Call, FileInfo, unmount, mnt_detach, mkdir_all, mount, create, perform, stat, traced, ms_bind,
  ms_rec, ms_shared,
}
use itzo.Io.Os.Laws.{Made, Performs, Performs-pure, Performs-if, Performs-then, Performs-perform}
use itzo.Mount.Volumes.{share_mount}
use itzo.Mount.Attach.{
  unit_base, mount_source, target_dir, attach_at, attach_mount, detach_mount, check_inside,
  create_file,
}
use itzo.Mount.Links.{resolve_links}
use itzo.Mount.Links.Laws.{Reads-resolve_links}

-- The calls of a mount of a volume at a target, of which `dir` is the directory or the parent.
abbrev pub attach_calls : Str → Str → Str → List Call
attach_calls source target dir =
    mkdir_all dir 493 ∷ (if dir == target then [] else create target ∷ [])
    ++ mount source target [] (ms_bind + ms_rec) []
      ∷ mount (lit "none") target [] (ms_shared + ms_rec) []
      ∷ []

module _ {W : Type 0} (os : Os W) where
  -- The directory is inside and the calls were made up to the first error; or no call was made, and
  -- there is an error.
  abbrev pub Attached :
      Str → Str → Str → Str → Result (Unit {0}) × (W × List Call) → List Call → Type 0
  Attached base source target dir r before =
      ((has_prefix dir base ≡ true) × Made (attach_calls source target dir) r before)
      ⊎ ((is_ok r.0 ≡ false) × (r.1.1 ≡ before))

  attach-Performs :
      (source target dir : Str)
      → Performs
          (do
            perform (traced os) (mkdir_all dir 493)
            create_file (traced os) dir target
            perform (traced os) (mount source target [] (ms_bind + ms_rec) [])
            share_mount (traced os) target (ms_shared + ms_rec))
          (attach_calls source target dir)
  unfolding create_file share_mount
  attach-Performs source target dir =
      Performs-then _ _ (mkdir_all dir 493 ∷ []) _ (Performs-perform os _) (
        Performs-then _ _ (if dir == target then [] else create target ∷ []) _
          (Performs-if (dir == target) _ _ [] _ Performs-pure (Performs-perform os _))
          (Performs-then _ _ (mount source target [] (ms_bind + ms_rec) [] ∷ []) _
            (Performs-perform os _) (Performs-perform os _)))

  attach_at-Attached :
      (base source dst target dir : Str) (s : W × List Call)
      → Attached base source target dir (attach_at (traced os) base source dst target dir s) s.1
  unfolding attach_at check_inside
  attach_at-Attached base source dst target dir s = elim (Bool-cases (has_prefix dir base)) [
    | inl h ↦ inl (h, simp h ((attach-Performs source target dir).at s))
    | inr h ↦ inr (simp h, simp h)
  ]

module _ {W : Type 0} (os : Os W) (base source dst : Str) where
  abbrev pub Mounted : Result Str → W × List Call → Result (Unit {0}) × (W × List Call) → Type 0
  Mounted resolved s r =
      ((target : Str) × (fi : FileInfo) × (resolved ≡ ok target)
        × (os.stat source s.0 ≡ inr fi)
        × (has_prefix (target_dir fi.is_dir target) base ≡ true)
        × Made (attach_calls source target (target_dir fi.is_dir target)) r s.1)
      ⊎ ((is_ok r.0 ≡ false) × (r.1.1 ≡ s.1))

  to_mounted :
      (target : Str) (fi : FileInfo) (s : W × List Call) (r : Result (Unit {0}) × (W × List Call))
      → os.stat source s.0 ≡ inr fi
      → Attached os base source target (target_dir fi.is_dir target) r s.1
      → Mounted (ok target) s r
  to_mounted target fi s r h (inl (p, m)) = inl (target, fi, refl, h, p, m)
  to_mounted target fi s r h (inr k) = inr k

  after_stat :
      (target : Str) (found : Error ⊎ FileInfo) (s : W × List Call)
      → os.stat source s.0 ≡ found
      → Mounted (ok target) s (
          (of_sum found >>= λ fi.
          attach_at (traced os) base source dst target (target_dir fi.is_dir target))
            s)
  after_stat target (inl e) s h = inr (refl, refl)
  after_stat target (inr fi) s h =
      let dir = target_dir fi.is_dir target in
      to_mounted target fi s (attach_at (traced os) base source dst target dir s) h
        (attach_at-Attached os base source dst target dir s)

  after_links :
      (resolved : Result Str) (s : W × List Call)
      → Mounted resolved s (
          continue resolved
            (λ target. stat (traced os) source >>= λ fi.
              attach_at (traced os) base source dst target (target_dir fi.is_dir target))
            s)
  unfolding stat
  after_links (ok target) s = after_stat target (os.stat source s.0) s refl
  after_links (err e) s = inr (refl, refl)
  after_links panic s = inr (refl, refl)

-- `AttachMount` either makes no call that changes the system and does not succeed; or the links of
-- the target were resolved, the source was found, and the directory that is made (the target, or for
-- a file its parent) has the path of the unit's root file system as a prefix. Then the calls are, up to
-- the first error, exactly: that directory is made, for a file the target is created, the source is bound
-- on the target, and the mount is shared.
pub attach_mount-calls :
    {W : Type 0} (os : Os W) (depth : ℕ) (basedir unit src dst : Str) (s : W × List Call)
    → Mounted os
        (unit_base basedir unit)
        (mount_source basedir src)
        dst
        (resolve_links (traced os) depth (unit_base basedir unit) dst s).0
        s
        (attach_mount (traced os) depth basedir unit src dst s)
unfolding attach_mount
attach_mount-calls os depth basedir unit src dst s =
    let base = unit_base basedir unit in
    rw ((Reads-resolve_links (traced os) depth base dst).at s) (
      after_links os base (mount_source basedir src) dst
        (resolve_links (traced os) depth base dst s).0 s)

-- What a later detach unmounts: if the links of a mount path still resolve to the target that they
-- had when the volume was attached, `DetachMount` makes one call, and it unmounts that target.
detach_mount-calls :
    {W : Type 0} (os : Os W) (depth : ℕ) (basedir unit dst : Str) (s : W × List Call) (target : Str)
    → (resolve_links (traced os) depth (unit_base basedir unit) dst s).0 ≡ ok target
    → Made (unmount target mnt_detach ∷ []) (detach_mount (traced os) depth basedir unit dst s) s.1
unfolding detach_mount
detach_mount-calls os depth basedir unit dst s target h =
    rw (h, (Reads-resolve_links (traced os) depth (unit_base basedir unit) dst).at s)
      ((Performs-perform os (unmount target mnt_detach)).at s)
