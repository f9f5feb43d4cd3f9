-- ===== src/Server/Deploy/Calls.antt =====
-- The calls that unpacking makes, entry by entry and link by link.
use itzo.Base.{
  ℕ, ◌≡◌, refl, Bool, true, false, Option, none, some, [], ◌∷◌, ◌++◌, All, All-append, Str, Error,
  is_not_exist, ◌⊎◌, inl, inr, if◌then◌else◌,
}
use itzo.Io.{pure, of_sum, ignore, attempt, ◌>>◌}
use itzo.Io.Os.{
  Os, Call, mkdir_all, mkdir, write_file, chown, chmod, lchown, symlink, link, remove, perform,
  stat, traced,
}
use itzo.Io.Os.Does.{
  Any, Does, Does-pure, Does-raise, Does-of_sum, Does-view, Does-attempt, Does-try, Does-after_try,
  Does-after, Does-bind,
}
use itzo.Io.Paths.{join_path, dir_of}
use itzo.Server.Deploy.{
  TypeFlag, directory, regular, hard_link, symbolic_link, other, Header, Contents, Archive,
  finished, broken, entry, Link, below_rootfs, make_parent, ensure_parent, change_owner, new_link,
  extract_as, extract_below, extract_entry, extract_all, make_link, place_link, read_data,
}

-- The calls that extract an entry.
pub data Extracts (Q : Str → Type 0) : Call → Type 0 where
  parents : (path : Str) → Q path → Extracts Q (mkdir_all (dir_of path) 493)
  makes : (path : Str) (mode : ℕ) → Q path → Extracts Q (mkdir path mode)
  writes : (path text : Str) (mode : ℕ) → Q path → Extracts Q (write_file path text mode)
  owns : (path : Str) (uid gid : ℕ) → Q path → Extracts Q (chown path uid gid)

-- The calls that put a link in its place.
pub data Places (Q : Str → Type 0) : Call → Type 0 where
  clears : (path : Str) → Q path → Places Q (remove path)
  symlinks : (dst path : Str) → Q path → Places Q (symlink dst path)
  hard_links : (dst path : Str) → Q path → Places Q (link dst path)
  sets_mode : (path : Str) (mode : ℕ) → Q path → Places Q (chmod path mode)
  owns_symlink : (path : Str) (uid gid : ℕ) → Q path → Places Q (lchown path uid gid)
  owns_file : (path : Str) (uid gid : ℕ) → Q path → Places Q (chown path uid gid)

-- The paths of all entries that are extracted satisfy `Q`.
abbrev pub Named : (Str → Type 0) → Str → Archive → Type 0
Named Q destdir finished = Unit
Named Q destdir (broken e) = Unit
Named Q destdir (entry h c archive) =
    ((rest : Str) → below_rootfs h.name ≡ some rest → Q (join_path (destdir ∷ rest ∷ [])))
    × Named Q destdir archive

abbrev pub Placed : (Str → Type 0) → Link → Type 0
Placed Q l = Q l.src

module _ {W : Type 0} (os : Os W) (Q : Str → Type 0) (destdir : Str) where
  make_parent-Does :
      (path : Str) (r : Error ⊎ Unit {0})
      → Q path
      → Does (Extracts Q) Any (make_parent (traced os) (dir_of path) r)
  unfolding make_parent
  make_parent-Does path (inr _) p = Does-pure (Extracts Q) Any tt tt
  make_parent-Does path (inl e) p = if_missing (is_not_exist e)
    where
      if_missing :
          (b : Bool)
          → Does
              (Extracts Q)
              Any
              (if b then ignore (perform (traced os) (mkdir_all (dir_of path) 493)) else pure tt)
      if_missing true = Does-try (Extracts Q) os _ (parents path p)
      if_missing false = Does-pure (Extracts Q) Any tt tt

  ensure_parent-Does :
      (path : Str) → Q path → Does (Extracts Q) Any (ensure_parent (traced os) path)
  unfolding ensure_parent stat
  ensure_parent-Does path p =
      Does-bind (Extracts Q) Any Any _ (λ found _. make_parent-Does path _ p)
        (attempt (stat (traced os) (dir_of path)))
        (Does-attempt (Extracts Q) Any (stat (traced os) (dir_of path))
          (Does-view (Extracts Q) Any (λ s. os.stat (dir_of path) s.0) (λ s a q. tt)))

  owned-Does :
      (path : Str) (h : Header)
      → Q path
      → Does (Extracts Q) (All (Placed Q)) (change_owner (traced os) path h >> pure [])
  unfolding change_owner
  owned-Does path h p =
      Does-after_try (Extracts Q) (All (Placed Q)) os (chown path h.uid h.gid) (pure [])
        (owns path h.uid h.gid p) (Does-pure (Extracts Q) (All (Placed Q)) [] tt)

  extract_as-Does :
      (path : Str) (h : Header) (c : Contents) (flag : TypeFlag)
      → Q path
      → Does (Extracts Q) (All (Placed Q)) (extract_as (traced os) destdir path h c flag)
  unfolding extract_as new_link
  extract_as-Does path h c directory p =
      Does-after_try (Extracts Q) (All (Placed Q)) os _ (change_owner (traced os) path h >> pure [])
        (makes path _ p) (owned-Does path h p)
  extract_as-Does path h c regular p =
      Does-bind (Extracts Q) Any (All (Placed Q)) _
        (λ text _.
          Does-after_try (Extracts Q) (All (Placed Q)) os _
            (change_owner (traced os) path h >> pure []) (writes path text _ p)
            (owned-Does path h p))
        (of_sum (read_data h.size [] c.reads c.failure))
        (Does-of_sum (Extracts Q) Any _ (λ a q. tt))
  extract_as-Does path h c hard_link p = Does-pure (Extracts Q) (All (Placed Q)) _ (p, tt)
  extract_as-Does path h c symbolic_link p = Does-pure (Extracts Q) (All (Placed Q)) _ (p, tt)
  extract_as-Does path h c other p = Does-pure (Extracts Q) (All (Placed Q)) [] tt

  extract_below-Does :
      (h : Header) (c : Contents) (name : Option Str)
      → ((rest : Str) → name ≡ some rest → Q (join_path (destdir ∷ rest ∷ [])))
      → Does (Extracts Q) (All (Placed Q)) (extract_below (traced os) destdir h c name)
  unfolding extract_below
  extract_below-Does h c none v = Does-pure (Extracts Q) (All (Placed Q)) [] tt
  extract_below-Does h c (some rest) v =
      let path = join_path (destdir ∷ rest ∷ []) in
      let p : Q path = v rest refl in
      Does-bind (Extracts Q) Any (All (Placed Q))
        (λ _. extract_as (traced os) destdir path h c h.typeflag)
        (λ _ _. extract_as-Does path h c h.typeflag p) (ensure_parent (traced os) path)
        (ensure_parent-Does path p)

  pub extract_all-Does :
      (archive : Archive)
      → Named Q destdir archive
      → Does (Extracts Q) (All (Placed Q)) (extract_all (traced os) destdir archive)
  unfolding extract_all extract_entry
  extract_all-Does finished v = Does-pure (Extracts Q) (All (Placed Q)) [] tt
  extract_all-Does (broken e) v = Does-raise (Extracts Q) (All (Placed Q)) e
  extract_all-Does (entry h c archive) v =
      Does-bind (Extracts Q) (All (Placed Q)) (All (Placed Q)) _
        (λ links p.
          Does-bind (Extracts Q) (All (Placed Q)) (All (Placed Q)) _
            (λ more q.
              Does-pure (Extracts Q) (All (Placed Q)) (links ++ more)
                (All-append (Placed Q) links more p q))
            (extract_all (traced os) destdir archive) (extract_all-Does archive v.1))
        (extract_below (traced os) destdir h c (below_rootfs h.name))
        (extract_below-Does h c (below_rootfs h.name) v.0)

  make_link-Does :
      (l : Link) (b : Bool) → Placed Q l → Does (Places Q) Any (make_link (traced os) l b)
  unfolding make_link
  make_link-Does l true p =
      Does-after (Places Q) Any os _ _ (symlinks l.dst l.src p)
        (Does-try (Places Q) os _ (owns_symlink l.src l.uid l.gid p))
  make_link-Does l false p = Does-after (Places Q) Any os _ _ (hard_links l.dst l.src p) (
      Does-after (Places Q) Any os _ _ (sets_mode l.src l.mode p)
        (Does-try (Places Q) os _ (owns_file l.src l.uid l.gid p)))

  pub place_link-Does : (l : Link) → Placed Q l → Does (Places Q) Any (place_link (traced os) l)
  unfolding place_link
  place_link-Does l p =
      Does-after_try (Places Q) Any os _ _ (clears l.src p) (make_link-Does l l.is_symlink p)
