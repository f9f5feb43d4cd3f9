-- ===== src/Mount/Links/Laws.antt =====
-- What `resolveLinks` answers, and that it only reads.
use itzo.Base.{
  is_not_exist, ℕ, zero, suc, ◌≡◌, refl, subst, Bool, true, false, not, Bool-cases, ◌⊎◌, inl, inr,
  List, [], ◌∷◌, ◌++◌, append_assoc, Str, Error, if◌then◌else◌, split,
}
use itzo.Io.{Io, Result, ok, err, ◌>>=◌, attempt, pure, of_sum}
use itzo.Io.Laws.{Reads, reads_rules}
use itzo.Io.Os.{Os, FileInfo, lstat, readlink}
use itzo.Io.Paths.{join_path, parts_of, is_rooted, slash}
use itzo.Mount.Links.{after_link, visit, links_loop, resolve_links}

module _ {W : Type 0} (os : Os W) where
  of_sum-state : {A : Type 0} (r : Error ⊎ A) (w : W) → (of_sum r w).1 ≡ w
  of_sum-state (inl e) w = refl
  of_sum-state (inr a) w = refl

  Reads-lstat : (path : Str) → Reads (lstat os path)
  unfolding lstat
  Reads-lstat path = record { at = λ w. of_sum-state (os.lstat path w) w }

  Reads-readlink : (path : Str) → Reads (readlink os path)
  unfolding readlink
  Reads-readlink path = record { at = λ w. of_sum-state (os.readlink path w) w }

  Reads-visit :
      (again : Str → Str → Io W Str) (base target path : Str) (parts : List Str) (rest : Io W Str)
      (found : Error ⊎ FileInfo)
      → ((b t : Str) → Reads (again b t))
      → Reads rest
      → Reads (visit os again base target path parts rest found)
  unfolding visit after_link
  Reads-visit again base target path parts rest (inl e) h k = search reads_rules
  Reads-visit again base target path parts rest (inr fi) h k = search (reads_rules, Reads-readlink)

  Reads-links_loop :
      (again : Str → Str → Io W Str) (base target path : Str) (before parts : List Str)
      → ((b t : Str) → Reads (again b t))
      → Reads (links_loop os again base target path before parts)
  unfolding links_loop
  Reads-links_loop again base target path before [] h = search reads_rules
  Reads-links_loop again base target path before (part ∷ parts) h =
      let here = before ++ part ∷ [] in
      let next = join_path (base ∷ join_path here ∷ []) in
      let rest = Reads-links_loop again base target next here parts h in
      search (reads_rules, Reads-lstat, Reads-visit)

  pub Reads-resolve_links :
      (depth : ℕ) (base target : Str) → Reads (resolve_links os depth base target)
  unfolding resolve_links
  Reads-resolve_links zero base target = record { at = λ w. refl }
  Reads-resolve_links (suc depth) base target =
      Reads-links_loop (resolve_links os depth) base target [] [] (parts_of target)
        (Reads-resolve_links depth)

-- A method whose results are all of a kind.
record Answers {S A : Type 0} (P : Result A → Type 0) (m : Io S A) : Type 0 where
  at : (s : S) → P (m s).0

module _ {W : Type 0} (os : Os W) (P : Result Str → Type 0) where
  Answers-if :
      (b : Bool) (m k : Io W Str) → Answers P m → Answers P k → Answers P (if b then m else k)
  Answers-if true m k h h' = h
  Answers-if false m k h h' = h'

  Answers-lstat :
      (path : Str) (f : Error ⊎ FileInfo → Io W Str)
      → ((w : W) (found : Error ⊎ FileInfo) → os.lstat path w ≡ found → Answers P (f found))
      → Answers P (attempt (lstat os path) >>= f)
  unfolding lstat
  Answers-lstat path f h = record { at = λ w. go (os.lstat path w) w refl }
    where
      go : (r : Error ⊎ FileInfo) (w : W) → os.lstat path w ≡ r → P ((attempt (of_sum r) >>= f) w).0
      go (inl e) w same = (h w (inl e) same).at w
      go (inr fi) w same = (h w (inr fi) same).at w

  Answers-readlink :
      (path : Str) (f : Str → Io W Str)
      → ((w : W) (e : Error) → os.readlink path w ≡ inl e → P (err e))
      → ((w : W) (dst : Str) → os.readlink path w ≡ inr dst → Answers P (f dst))
      → Answers P (readlink os path >>= f)
  unfolding readlink
  Answers-readlink path f errs h = record { at = λ w. go (os.readlink path w) w refl }
    where
      go : (r : Error ⊎ Str) (w : W) → os.readlink path w ≡ r → P ((of_sum r >>= f) w).0
      go (inl e) w same = errs w e same
      go (inr dst) w same = (h w dst same).at w

-- What the system says of some path: an error that is not that nothing is there, or a link that it
-- cannot read.
abbrev pub Given : {W : Type 0} → Os W → Error → Type 0
Given {W} os e =
    (path : Str) × (w : W) × (((os.lstat path w ≡ inl e) × (is_not_exist e ≡ false))
      ⊎ (os.readlink path w ≡ inl e))

-- The target below the base as it stands, in one of the two ways that the source joins them, the
-- first one only if the system said of some path that nothing is there; or an error that the system
-- gave.
abbrev pub Unresolved : {W : Type 0} → Os W → Str → Str → List Str → Result Str → Type 0
Unresolved {W} os base target parts r =
    ((r ≡ ok (join_path (base ∷ target ∷ [])))
      × ((e : Error) × (path : Str) × (w : W) × (os.lstat path w ≡ inl e)
          × (is_not_exist e ≡ true)))
    ⊎ (r ≡ ok (join_path (base ∷ join_path parts ∷ [])))
    ⊎ ((e : Error) × (r ≡ err e) × Given os e)

module _ {W : Type 0} (os : Os W)
    (relative : (path dst : Str) (w : W) → os.readlink path w ≡ inr dst → is_rooted dst ≡ false)
    (again : Str → Str → Io W Str) (base target : Str) where
  after_link-rest :
      (parts : List Str) (rest : Io W Str) (dst : Str)
      → is_rooted dst ≡ false
      → after_link os again base parts rest dst ≡ rest
  unfolding after_link
  after_link-rest parts rest dst h = simp h

  visit-Answers :
      (all parts : List Str) (path : Str) (rest : Io W Str) (found : Error ⊎ FileInfo) (v : W)
      → os.lstat path v ≡ found
      → Answers (Unresolved os base target all) rest
      → Answers (Unresolved os base target all) (visit os again base target path parts rest found)
  unfolding visit
  visit-Answers all parts path rest (inl e) v same h = elim (Bool-cases (is_not_exist e)) [
    | inl b ↦ rw b (record { at = λ w. inl (refl, (e, path, v, same, b)) })
    | inr b ↦ rw b (record { at = λ w. inr (inr (e, refl, (path, v, inl (same, b)))) })
  ]
  visit-Answers all parts path rest (inr fi) v same h =
      let P = Unresolved os base target all in
      Answers-if os P (not fi.mode_symlink) _ _ h (
        Answers-readlink os P path (after_link os again base parts rest)
          (λ w e gave. inr (inr (e, refl, (path, w, inr gave))))
          (λ w dst gave. rw (after_link-rest parts rest dst (relative path dst w gave)) h))

  links_loop-Answers :
      (path : Str) (before : List Str) (part : Str) (parts : List Str)
      → Answers
          (Unresolved os base target (before ++ part ∷ parts))
          (links_loop os again base target path before (part ∷ parts))
  unfolding links_loop
  links_loop-Answers path before part [] =
      let here = before ++ part ∷ [] in
      let next = join_path (base ∷ join_path here ∷ []) in
      Answers-lstat os (Unresolved os base target here) next
        (visit os again base target next [] (pure next))
        (λ w found same.
          visit-Answers here [] next (pure next) found w same (record { at = λ v. inr (inl refl) }))
  links_loop-Answers path before part (p ∷ parts) =
      let here = before ++ part ∷ [] in
      let next = join_path (base ∷ join_path here ∷ []) in
      let P = Unresolved os base target (before ++ part ∷ p ∷ parts) in
      let rest = links_loop os again base target next here (p ∷ parts) in
      Answers-lstat os P next (visit os again base target next (p ∷ parts) rest) (λ w found same.
        visit-Answers (before ++ part ∷ p ∷ parts) (p ∷ parts) next rest found w same (
          subst (λ all. Answers (Unresolved os base target all) rest)
            (append_assoc before (part ∷ []) (p ∷ parts)) (links_loop-Answers next here p parts)))

-- If every symbolic link is a relative one, then `resolveLinks` does not call itself and returns, and
-- resolves nothing: its path is the target below the base as it stands, or it gives an error that
-- the system gave, for a path that it looked up (and not that nothing is there) or for a link that
-- it read.
pub resolve_links-Unresolved :
    {W : Type 0} (os : Os W) (depth : ℕ) (base target : Str) (w : W)
    → ((path dst : Str) (v : W) → os.readlink path v ≡ inr dst → is_rooted dst ≡ false)
    → Unresolved os base target (parts_of target) (resolve_links os (suc depth) base target w).0
unfolding resolve_links parts_of
resolve_links-Unresolved os depth base target w relative =
    (links_loop-Answers os relative (resolve_links os depth) base target [] []
        (split slash target).0 (split slash target).1).at
      w
