-- ===== src/Server/Deploy.antt =====
-- Packages that are uploaded: `DeployPackage` of pkg/server/util.go, with `deployHandler` and
-- `saveFile` of pkg/server/server.go.
pub mod Calls
pub mod Inside
pub mod Laws
mod Tests
use itzo.Base.{
  ℕ, Bool, true, false, Option, none, some, List, [], ◌∷◌, ◌++◌, length, ltb, if◌then◌else◌, ◌==◌,
  str_eq, nat_eq, Str, lit, ℤ, to_uint32, drop, has_prefix, Error, is_not_exist, ◌⊎◌, inl, inr,
}
use itzo.Io.{
  Io, Result, ok, err, panic, pure, raise, of_sum, check, ignore, attempt, for_each, ◌>>=◌, ◌>>◌,
}
use itzo.Io.Os.{
  Os, Call, mkdir_all, mkdir, write_file, chown, chmod, lchown, symlink, link, remove, perform,
  stat,
}
use itzo.Io.Paths.{join_path, dir_of}
use itzo.Server.Responses.{
  Response, not_found, server_error, answered, bad_request, upgraded, path_parts,
}

-- `header.Typeflag` of package archive/tar.
pub data TypeFlag : Type 0 where
  directory regular hard_link symbolic_link other : TypeFlag

-- Of `tar.Header` what is used.
pub record Header : Type 0 where
  pub name : Str
  pub typeflag : TypeFlag
  pub size : ℕ
  pub mode : ℤ
  pub uid : ℕ
  pub gid : ℕ
  pub linkname : Str

-- What `tr.Read` gives for an entry: some bytes at a time, and then an error. The end of the entry
-- is an error here too, as it is not reached before `size` bytes were read.
pub record Contents : Type 0 where
  pub reads : List Str
  pub failure : Error

-- What `tr.Next` finds.
pub data Archive : Type 0 where
  finished : Archive
  broken : Error → Archive
  entry : Header → Contents → Archive → Archive

pub record Link : Type 0 where
  pub dst : Str
  pub src : Str
  pub is_symlink : Bool
  pub mode : ℕ
  pub uid : ℕ
  pub gid : ℕ

-- The part of a name below `ROOTFS/`.
unfoldable pub below_rootfs : Str → Option Str
unfolding has_prefix lit
below_rootfs name = if has_prefix name (lit "ROOTFS/") then some (drop 7 name) else none

unfoldable pub link_target : Str → Str → Str
unfolding below_rootfs join_path
link_target destdir linkname = elim (below_rootfs linkname) [
  | none ↦ linkname
  | some rest ↦ join_path (destdir ∷ rest ∷ [])
]

-- The loop that fills `data`.
unfoldable pub read_data : ℕ → Str → List Str → Error → Error ⊎ Str
read_data size bytes [] failure = if ltb (length bytes) size then inl failure else inr bytes
read_data size bytes (more ∷ reads) failure =
    let rest = read_data size (bytes ++ more) reads failure in
    if ltb (length bytes) size then rest else inr bytes

unfoldable pub package_dir : Str → Str → Str
unfolding join_path lit
package_dir rootdir pkgname = join_path (rootdir ∷ lit ".." ∷ lit "packages" ∷ pkgname ∷ [])

module _ {W : Type 0} (os : Os W) where
  make_parent : Str → Error ⊎ Unit {0} → Io W (Unit {0})
  make_parent dirname (inr _) = pure tt
  make_parent dirname (inl e) =
      if is_not_exist e then ignore (perform os (mkdir_all dirname 493)) else pure tt

  ensure_parent : Str → Io W (Unit {0})
  unfolding make_parent stat dir_of
  ensure_parent name = do
    found ← attempt (stat os (dir_of name))
    make_parent (dir_of name) (elim found [ inl e ↦ inl e | inr _ ↦ inr tt ])

  change_owner : Str → Header → Io W (Unit {0})
  unfolding perform
  change_owner name h = ignore (perform os (chown name h.uid h.gid))

  new_link : Str → Str → Bool → Header → Link
  unfolding link_target
  new_link destdir name is_symlink h = record {
    dst = link_target destdir h.linkname;
    src = name;
    is_symlink = is_symlink;
    mode = to_uint32 h.mode;
    uid = h.uid;
    gid = h.gid;
  }

  -- The `switch`, with the link that is to be made later.
  extract_as : Str → Str → Header → Contents → TypeFlag → Io W (List Link)
  unfolding change_owner new_link read_data perform
  extract_as destdir name h c directory = do
    ignore (perform os (mkdir name (to_uint32 h.mode)))
    change_owner name h
    pure []
  extract_as destdir name h c regular = do
    bytes ← of_sum (read_data h.size [] c.reads c.failure)
    ignore (perform os (write_file name bytes (to_uint32 h.mode)))
    change_owner name h
    pure []
  extract_as destdir name h c hard_link = pure (new_link destdir name false h ∷ [])
  extract_as destdir name h c symbolic_link = pure (new_link destdir name true h ∷ [])
  extract_as destdir name h c other = pure []

  extract_below : Str → Header → Contents → Option Str → Io W (List Link)
  unfolding extract_as ensure_parent join_path
  extract_below destdir h c none = pure []
  extract_below destdir h c (some rest) = do
    ensure_parent (join_path (destdir ∷ rest ∷ []))
    extract_as destdir (join_path (destdir ∷ rest ∷ [])) h c h.typeflag

  unfoldable pub extract_entry : Str → Header → Contents → Io W (List Link)
  unfolding extract_below below_rootfs
  extract_entry destdir h c = extract_below destdir h c (below_rootfs h.name)

  unfoldable pub extract_all : Str → Archive → Io W (List Link)
  unfolding extract_entry
  extract_all destdir finished = pure []
  extract_all destdir (broken e) = raise e
  extract_all destdir (entry h c archive) = do
    links ← extract_entry destdir h c
    more ← extract_all destdir archive
    pure (links ++ more)

  make_link : Link → Bool → Io W (Unit {0})
  unfolding perform
  make_link l true = do
    perform os (symlink l.dst l.src)
    ignore (perform os (lchown l.src l.uid l.gid))
  make_link l false = do
    perform os (link l.dst l.src)
    perform os (chmod l.src l.mode)
    ignore (perform os (chown l.src l.uid l.gid))

  unfoldable pub place_link : Link → Io W (Unit {0})
  unfolding make_link perform
  place_link l = do ignore (perform os (remove l.src)); make_link l l.is_symlink

  -- The first parameter opens a file, uncompresses it and lists it as an archive.
  module _ (open_package : Str → W → Error ⊎ Archive) where
    unfoldable pub do_deploy_package : Str → Str → Io W (Unit {0})
    unfolding extract_all place_link for_each
    do_deploy_package filename destdir = do
      archive ← λ w. of_sum (open_package filename w) w
      links ← extract_all destdir archive
      for_each links place_link

    unfoldable pub deploy_package : Str → Str → Str → Io W (Unit {0})
    unfolding do_deploy_package package_dir perform
    deploy_package filename rootdir pkgname = do
      perform os (mkdir_all (package_dir rootdir pkgname) 448)
      do_deploy_package filename (package_dir rootdir pkgname)

  -- A temporary file is made by `ioutil.TempFile`, and filled by `io.Copy`.
  module _ (temp_file : Io W Str) (fill : Str → Str → Io W (Unit {0})) where
    unless_filled : Str → Error ⊎ Unit {0} → Io W Str
    unfolding perform
    unless_filled filename (inr _) = pure filename
    unless_filled filename (inl e) = do ignore (perform os (remove filename)); raise e

    unfoldable pub save_file : Str → Io W Str
    unfolding unless_filled
    save_file content = do
      filename ← temp_file
      filled ← attempt (fill filename content)
      unless_filled filename filled

    module _ (open_package : Str → W → Error ⊎ Archive) (rootdir : Str) where
      deploy_saved : Str → Str → Io W (Unit {0})
      unfolding deploy_package perform
      deploy_saved pkgname pkgfile = do
        deployed ← attempt (deploy_package open_package pkgfile rootdir pkgname)
        ignore (perform os (remove pkgfile))
        of_sum deployed

      -- The last part of the path is the name of the package.
      deploy_posted : Str → List Str → Error ⊎ Str → Io W (Unit {0})
      unfolding deploy_saved save_file
      deploy_posted path (_ ∷ _ ∷ _ ∷ pod ∷ name ∷ []) (inr content) =
          save_file content >>= deploy_saved name
      deploy_posted path (_ ∷ _ ∷ _ ∷ pod ∷ name ∷ []) (inl e) = raise e
      deploy_posted path parts form_file = raise (Error.errorf "invalid deploy path %s" (path ∷ []))

      deploy_answer : Result (Unit {0}) → Option Response
      deploy_answer (ok _) = some (answered [])
      deploy_answer (err e) = some (server_error e)
      deploy_answer panic = none

      -- The method, the path and the file that the request's form brings.
      unfoldable pub deploy_handler : Str → Str → Error ⊎ Str → W → Option Response × W
      unfolding deploy_answer deploy_posted path_parts lit
      deploy_handler method path form_file w =
          if method == lit "POST"
          then (let r = deploy_posted path (path_parts path) form_file w in
              (deploy_answer r.0, r.1))
          else (some not_found, w)
