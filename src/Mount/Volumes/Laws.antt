-- ===== src/Mount/Volumes/Laws.antt =====
-- Which volumes can be created and deleted, and what the checks of host paths let through.
use itzo.Base.{
  ◌≡◌, refl, Bool, true, false, not, ◌&&◌, ◌||◌, none, some, is_some, [], ◌∷◌, Str, Error, ◌⊎◌, inl,
  inr, Option, arith, String,
}
use itzo.Api.{
  Volume, HostPathVolumeSource, EmptyDir, StorageMedium, HostPathType, unset, directory_or_create,
  directory, file_or_create, file, socket, char_dev, block_dev,
}
use itzo.Io.{Io, of_sum, raise, ok, ◌>>=◌, ◌>>◌}
use itzo.Io.Laws.{Ensures, Ensures-last}
use itzo.Io.Os.{Os, Call, FileInfo, perform, stat}
use itzo.Mount.Volumes.{
  from_package, create_mount, delete_mount, add_package, add_host_path, finish, multiple,
  delete_link, delete_empty_dir, delete_medium, check_host_path, check_directory, check_file,
  refuse_if,
}

abbrev pub exactly_one : Bool → Bool → Bool → Bool
exactly_one true b c = not (b || c)
exactly_one false true c = not c
exactly_one false false c = c

module _ {W : Type 0} (os : Os W) (volume_text : Volume → Str) (basedir : Str)
    (volume : Volume) where
  abbrev linking : Str → Bool → Bool → Option HostPathVolumeSource → Io W (Unit {0})
  linking mountpath e p h = do
    add_package os volume_text basedir volume mountpath e p
    add_host_path os volume_text basedir volume mountpath (e || p) h
    finish os volume_text basedir volume "no volume specified in %v" (e || p || is_some h)

  linking_lem :
      (mountpath : Str) (e p : Bool) (h : Option HostPathVolumeSource) (w : W)
      → (linking mountpath e p h w).0 ≡ ok tt
      → exactly_one e p (is_some h) ≡ true
  unfolding add_package add_host_path finish multiple
  linking_lem mountpath true true h w q = cc
  linking_lem mountpath true false none w q = refl
  linking_lem mountpath true false (some source) w q = cc
  linking_lem mountpath false true none w q = refl
  linking_lem mountpath false true (some source) w q =
      let never =
        Ensures-last (add_package os volume_text basedir volume mountpath false true)
          (λ _.
            raise (Error.errorf "multiple volumes are specified in %v" (volume_text volume ∷ [])))
          (λ (_ : Unit {0}) _. ⊥) (λ _. record { at = λ w q. cc }) in
      absurd (never.at w q)
  linking_lem mountpath false false none w q = cc
  linking_lem mountpath false false (some source) w q = refl

  abbrev OneKind : Unit {0} → W → Type 0
  OneKind _ _ =
      exactly_one (is_some volume.empty_dir) (from_package volume) (is_some volume.host_path) ≡ true

  linking-Ensures :
      (mountpath : Str)
      → Ensures
          (linking mountpath (is_some volume.empty_dir) (from_package volume) volume.host_path)
          OneKind
  linking-Ensures mountpath = record { at = λ s q. linking_lem mountpath _ _ _ s q }

  create_mount-Ensures : Ensures (create_mount os volume_text basedir volume) OneKind
  unfolding create_mount
  create_mount-Ensures = search (Ensures-last, linking-Ensures)

  -- A volume that is created without an error is of exactly one kind: an empty directory, something
  -- backed by a package (package path, secret, config map or projected), or a host path.
  pub create_mount_lem :
      (w : W)
      → (create_mount os volume_text basedir volume w).0 ≡ ok tt
      → exactly_one (is_some volume.empty_dir) (from_package volume) (is_some volume.host_path)
        ≡ true
  create_mount_lem w q = (create_mount-Ensures).at w q

-- What the code lets through: for the last three types that is the opposite of what their names and
-- the texts of their errors say.
abbrev pub admits : HostPathType → FileInfo → Bool
admits unset fi = true
admits directory_or_create fi = fi.is_dir
admits directory fi = fi.is_dir
admits file_or_create fi = not fi.is_dir
admits file fi = not fi.is_dir
admits socket fi = not fi.mode_socket
admits char_dev fi = not fi.mode_char_device
admits block_dev fi = not (fi.mode_device && not fi.mode_char_device)
admits (HostPathType.other name) fi = false

module _ {W : Type 0} (os : Os W) (path : Str) where
  abbrev pub Checked : HostPathType → W → Type 0
  Checked unset w = Unit
  Checked t w = (fi : FileInfo) × (os.stat path w ≡ inr fi) × (admits t fi ≡ true)

  refused-none :
      (b : Bool) (format : String) (w : W) → (refuse_if os b format path w).0 ≡ ok tt → not b ≡ true
  unfolding refuse_if
  refused-none b format w q = ground arith

  refuse_if-state : (b : Bool) (format : String) (w : W) → (refuse_if os b format path w).1 ≡ w
  unfolding refuse_if
  refuse_if-state b format w = ground arith

  seen :
      (refused : FileInfo → Bool) (format : String) (r : Error ⊎ FileInfo) (w : W)
      → os.stat path w ≡ r
      → ((of_sum r >>= λ fi. refuse_if os (refused fi) format path) w).0 ≡ ok tt
      → (fi : FileInfo) × (os.stat path
            ((of_sum r >>= λ fi. refuse_if os (refused fi) format path) w).1
          ≡ inr fi)
        × (not (refused fi) ≡ true)
  seen refused format (inl e) w h q = cc
  seen refused format (inr fi) w h q =
      (fi, rw (refuse_if-state (refused fi) format w) h, refused-none (refused fi) format w q)

  -- A test of the file that is there, after which the file is as it was.
  tested :
      (refused : FileInfo → Bool) (format : String)
      → Ensures
          (stat os path >>= λ fi. refuse_if os (refused fi) format path)
          (λ _ w. (fi : FileInfo) × (os.stat path w ≡ inr fi) × (not (refused fi) ≡ true))
  unfolding stat
  tested refused format = record { at = λ w q. seen refused format (os.stat path w) w refl q }

  is_dir-Ensures :
      Ensures
        (check_directory os path)
        (λ _ w. (fi : FileInfo) × (os.stat path w ≡ inr fi) × (fi.is_dir ≡ true))
  unfolding check_directory
  is_dir-Ensures = record {
    at = λ w q.
        let (fi, h, k) = (tested (λ fi. not fi.is_dir) "%s is not a directory").at w q in
        (fi, h, ground arith);
  }

  check_host_path-Ensures :
      (t : HostPathType) → Ensures (check_host_path os path t) (λ _ w. Checked t w)
  unfolding check_host_path check_file
  check_host_path-Ensures unset = record { at = λ w q. tt }
  check_host_path-Ensures directory_or_create = search (Ensures-last, is_dir-Ensures)
  check_host_path-Ensures directory = is_dir-Ensures
  check_host_path-Ensures file_or_create = search (Ensures-last, tested)
  check_host_path-Ensures file = tested _ _
  check_host_path-Ensures socket = tested _ _
  check_host_path-Ensures char_dev = tested _ _
  check_host_path-Ensures block_dev = tested _ _
  check_host_path-Ensures (HostPathType.other name) = record { at = λ w q. cc }

  -- Where the check of a host path gives no error, the file is there in the state that it leaves,
  -- for every type but the unset one, and is of a kind that `admits` tells: a directory or no
  -- directory, as the type says; but for the types of sockets, character and block devices it is
  -- none. A type without a constant never passes.
  check_host_path-Checked :
      (t : HostPathType) (w : W)
      → (check_host_path os path t w).0 ≡ ok tt
      → Checked t (check_host_path os path t w).1
  check_host_path-Checked t w q = (check_host_path-Ensures t).at w q

module _ {W : Type 0} (os : Os W) (volume_text : Volume → Str) (basedir : Str) (volume : Volume)
    (succeeds : (c : Call) (w : W) → (os.call c w).0 ≡ none) where
  perform-succeeds : (c : Call) (w : W) → (perform os c w).0 ≡ ok tt
  unfolding perform
  perform-succeeds c w = simp (succeeds c w)

  delete_medium-succeeds :
      (mountpath : Str) (medium : StorageMedium) (w : W)
      → (delete_medium os volume_text basedir volume mountpath medium w).0 ≡ ok tt
  unfolding delete_medium
  delete_medium-succeeds mountpath StorageMedium.default w = perform-succeeds _ w
  delete_medium-succeeds mountpath StorageMedium.memory w = perform-succeeds _ w
  delete_medium-succeeds mountpath (StorageMedium.other medium) w = refl

  abbrev deleting : Str → Option EmptyDir → Bool → Io W (Unit {0})
  deleting mountpath empty_dir linked = do
    delete_empty_dir os volume_text basedir volume mountpath empty_dir
    delete_link os volume_text basedir volume mountpath (is_some empty_dir) linked
    finish os volume_text basedir volume "No volume specified in %v" (is_some empty_dir || linked)

  deleting-succeeds :
      (mountpath : Str) (empty_dir : Option EmptyDir) (linked : Bool) (w : W)
      → is_some empty_dir ≡ not linked
      → (deleting mountpath empty_dir linked w).0 ≡ ok tt
  unfolding delete_empty_dir delete_link finish
  deleting-succeeds mountpath none true w h = simp (perform-succeeds _ w)
  deleting-succeeds mountpath none false w h = cc
  deleting-succeeds mountpath (some e) true w h = cc
  deleting-succeeds mountpath (some e) false w h =
      simp (delete_medium-succeeds mountpath e.medium w)

  one_kind : (b c d : Bool) → exactly_one b c d ≡ true → b ≡ not (c || d)
  one_kind b c d h = ground arith

  -- A volume that was created without an error can be deleted: on a system whose calls all succeed
  -- `DeleteMount` of the same volume gives no error, in whatever state it is called, and whatever the
  -- calls did when the volume was created.
  pub delete_mount-create_mount :
      {V : Type 0} (before : Os V) (made : V) (w : W)
      → (create_mount before volume_text basedir volume made).0 ≡ ok tt
      → (delete_mount os volume_text basedir volume w).0 ≡ ok tt
  unfolding delete_mount
  delete_mount-create_mount before made w q =
      deleting-succeeds _ volume.empty_dir (from_package volume || is_some volume.host_path) w
        (one_kind _ _ _ (create_mount_lem before volume_text basedir volume made q))
