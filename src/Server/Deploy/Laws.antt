-- ===== src/Server/Deploy/Laws.antt =====
-- The order in which a package is unpacked, and the paths that it is unpacked to.
use itzo.Base.{
  ◌≡◌, refl, sym, ap, subst, ◌∙◌, Option, none, some, List, [], ◌∷◌, ◌++◌, All, append_assoc,
  append-nil, Str, Error, ◌⊎◌, inl, inr,
}
use itzo.Io.{Result, ok, err, panic, check, of_sum, for_each, continue, ◌>>=◌, ◌>>◌}
use itzo.Io.Os.{Os, Call, mkdir_all, perform, traced}
use itzo.Io.Os.Does.{Adds, Does-for_each}
use itzo.Server.Deploy.{
  Archive, Link, extract_all, place_link, do_deploy_package, package_dir, deploy_package,
}
use itzo.Server.Deploy.Calls.{Extracts, Places, Named, Placed, extract_all-Does, place_link-Does}

-- The calls that unpack an archive: entries are extracted, and then links are placed.
abbrev pub IsUnpacked : (Str → Type 0) → List Call → List Call → Type 0
IsUnpacked Q before now =
    (files : List Call) × (links : List Call) × (now ≡ before ++ (files ++ links))
    × All (Extracts Q) files
    × All (Places Q) links

-- The directory is made before that.
abbrev pub IsOrdered : (Str → Type 0) → Str → List Call → List Call → Type 0
IsOrdered Q dir before now = IsUnpacked Q (before ++ mkdir_all dir 448 ∷ []) now

module _ {W : Type 0} (os : Os W) (Q : Str → Type 0) (destdir : Str) where
  placed :
      (r : Result (List Link)) (s : W × List Call) (before : List Call)
      → Adds (Extracts Q) before s.1
      → ((links : List Link) → r ≡ ok links → All (Placed Q) links)
      → IsUnpacked Q before (continue r (λ links. for_each links (place_link (traced os))) s).1.1
  placed (ok links) s before (files, same, extracted) h =
      let (calls, same', there) =
        (Does-for_each (Places Q) (Placed Q) links (place_link (traced os))
            (place_link-Does os Q destdir) (h links refl)).added
          s in
      (
        files,
        calls,
        same' ∙ ap (λ cs. cs ++ calls) same ∙ append_assoc before files calls,
        extracted,
        there,
      )
  placed (err e) s before (files, same, extracted) h =
      (files, [], same ∙ ap (λ cs. before ++ cs) (sym (append-nil files)), extracted, tt)
  placed panic s before (files, same, extracted) h =
      (files, [], same ∙ ap (λ cs. before ++ cs) (sym (append-nil files)), extracted, tt)

  unpacked :
      (r : Error ⊎ Archive) (s : W × List Call)
      → ((archive : Archive) → r ≡ inr archive → Named Q destdir archive)
      → IsUnpacked Q s.1
          ((of_sum r >>= (λ archive.
              extract_all (traced os) destdir archive
              >>= (λ links. for_each links (place_link (traced os)))))
            s).1.1
  unpacked (inl e) s h = ([], [], sym (append-nil s.1), tt, tt)
  unpacked (inr archive) s h =
      let extraction = extract_all-Does os Q destdir archive (h archive refl) in
      placed (extract_all (traced os) destdir archive s).0
        (extract_all (traced os) destdir archive s).1 s.1 (extraction.added s)
        (λ links q. extraction.value s q)

  do_deploy_package-IsUnpacked :
      (open_package : Str → W → Error ⊎ Archive) (filename : Str) (s : W × List Call)
      → ((w : W) (archive : Archive)
          → open_package filename w ≡ inr archive
          → Named Q destdir archive)
      → IsUnpacked Q s.1
          (do_deploy_package (traced os) (λ f t. open_package f t.0) filename destdir s).1.1
  unfolding do_deploy_package
  do_deploy_package-IsUnpacked open_package filename s h =
      unpacked (open_package filename s.0) s (h s.0)

module _ {W : Type 0} (os : Os W) (Q : Str → Type 0) (open_package : Str → W → Error ⊎ Archive)
    (filename rootdir pkgname : Str) where
  abbrev made : Call
  made = mkdir_all (package_dir rootdir pkgname) 448

  ordered :
      (o : Option Error) (t : W × List Call) (before : List Call)
      → t.1 ≡ before ++ made ∷ []
      → ((w : W) (archive : Archive)
          → open_package filename w ≡ inr archive
          → Named Q (package_dir rootdir pkgname) archive)
      → IsOrdered Q
          (package_dir rootdir pkgname)
          before
          ((check o
              >> do_deploy_package
                  (traced os)
                  (λ f t. open_package f t.0)
                  filename
                  (package_dir rootdir pkgname))
            t).1.1
  ordered none t before q h =
      subst
        (λ calls.
          IsUnpacked Q calls
            (do_deploy_package (traced os) (λ f t. open_package f t.0) filename
              (package_dir rootdir pkgname) t).1.1)
        q
        (do_deploy_package-IsUnpacked os Q (package_dir rootdir pkgname) open_package filename t h)
  ordered (some e) t before q h = ([], [], q ∙ sym (append-nil (before ++ made ∷ [])), tt, tt)

  -- Whatever fails: first the directory of the package is made, then only files and directories,
  -- and only after all of these links are placed, so that no entry is extracted once a link of the
  -- package was made; and all of that is done at the paths of entries of the package.
  pub deploy_package-IsOrdered :
      (s : W × List Call)
      → ((w : W) (archive : Archive)
          → open_package filename w ≡ inr archive
          → Named Q (package_dir rootdir pkgname) archive)
      → IsOrdered Q
          (package_dir rootdir pkgname)
          s.1
          (deploy_package (traced os) (λ f t. open_package f t.0) filename rootdir pkgname s).1.1
  unfolding deploy_package perform
  deploy_package-IsOrdered s h =
      ordered (os.call made s.0).0 ((os.call made s.0).1, s.1 ++ made ∷ []) s.1 refl h
