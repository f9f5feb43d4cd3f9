-- ===== src/Mount/Links.antt =====
-- Symbolic links below the root of a unit: `resolveLinks`.
pub mod Laws
use itzo.Base.{
  is_exist, is_not_exist, ℕ, zero, suc, not, List, [], ◌∷◌, ◌++◌, if◌then◌else◌, Str, Error, ◌⊎◌,
  inl, inr,
}
use itzo.Io.{Io, pure, raise, nil_pointer, ◌>>=◌, attempt}
use itzo.Io.Os.{Os, FileInfo, lstat, readlink}
use itzo.Io.Paths.{join_path, parts_of, is_rooted}

module _ {W : Type 0} (os : Os W) where
  -- `again` is the call of itself that an absolute link makes, and `rest` the rounds that follow.
  after_link : (Str → Str → Io W Str) → Str → List Str → Io W Str → Str → Io W Str
  unfolding is_rooted join_path
  after_link again base parts rest dst =
      if is_rooted dst then again (join_path (base ∷ dst ∷ [])) (join_path parts) else rest

  visit :
      (Str → Str → Io W Str) → Str → Str → Str → List Str → Io W Str → Error ⊎ FileInfo → Io W Str
  unfolding is_not_exist join_path readlink after_link
  visit again base target path parts rest (inl e) =
      if is_not_exist e then pure (join_path (base ∷ target ∷ [])) else raise e
  visit again base target path parts rest (inr fi) =
      if not fi.mode_symlink then rest else readlink os path >>= after_link again base parts rest

  -- The rounds from the part after `before` on; `path` is that of the round before.
  links_loop : (Str → Str → Io W Str) → Str → Str → Str → List Str → List Str → Io W Str
  unfolding join_path lstat visit
  links_loop again base target path before [] = pure path
  links_loop again base target path before (part ∷ parts) =
      let here = before ++ part ∷ [] in
      let next = join_path (base ∷ join_path here ∷ []) in
      let rest = links_loop again base target next here parts in
      attempt (lstat os next) >>= visit again base target next parts rest

  -- A call of itself deeper than `depth` overflows the stack.
  unfoldable pub resolve_links : ℕ → Str → Str → Io W Str
  unfolding links_loop parts_of
  resolve_links zero base target = nil_pointer
  resolve_links (suc depth) base target =
      links_loop (resolve_links depth) base target [] [] (parts_of target)
