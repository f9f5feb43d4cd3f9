-- ===== src/Server/Deploy/Tests.antt =====
-- A package with a file and a link, and one with a name that leads out of its directory.
use itzo.Base.{
  ◌≡◌, refl, subst, true, [], ◌∷◌, Str, lit, is_not_exist, str_beq, has_prefix, pos, Error, ◌⊎◌,
  inr,
}
use itzo.Io.Os.{mkdir_all, write_file, chown, perform, stat, traced}
use itzo.Io.Paths.{join_path, dir_of}
use itzo.UnitDir.Samples.{empty_disk}
use itzo.Server.Deploy.{
  Header, Contents, Archive, finished, entry, regular, symbolic_link, below_rootfs, extract_all,
  do_deploy_package, deploy_package, package_dir, read_data,
}
use itzo.Server.Deploy.Calls.{Named}
use itzo.Server.Deploy.Laws.{IsOrdered, deploy_package-IsOrdered}

abbrev file_named : Str → Header
file_named name = record {
  name = name;
  typeflag = regular;
  size = 2;
  mode = pos 420;
  uid = 0;
  gid = 0;
  linkname = [];
}

abbrev linked : Header
linked = record (file_named (lit "ROOTFS/ln")) {
  typeflag = symbolic_link;
  linkname = lit "ROOTFS/sh";
}

abbrev hi : Contents
hi = record { reads = lit "h" ∷ lit "i" ∷ []; failure = Error.foreign 1 }

abbrev two_entries : Archive
two_entries = entry linked hi (entry (file_named (lit "ROOTFS/sh")) hi finished)

abbrev opened : Str → Unit {0} → Error ⊎ Archive
opened filename w = inr two_entries

abbrev evil : Archive
evil = entry (file_named (lit "ROOTFS/../../x")) hi finished

test_outside :
    (deploy_package
      (traced empty_disk)
      (λ f w. inr evil)
      (lit "/tmp/p")
      (lit "/itzo/units")
      (lit "app")
      (tt, [])).1.1
    ≡ mkdir_all (lit "/itzo/packages/app") 448
      ∷ mkdir_all (lit "/itzo") 493
      ∷ write_file (lit "/itzo/x") (lit "hi") 420
      ∷ chown (lit "/itzo/x") 0 0
      ∷ []
unfolding deploy_package do_deploy_package extract_all package_dir join_path dir_of lit perform stat
    below_rootfs read_data is_not_exist str_beq
test_outside = refl

abbrev InApp : Str → Type 0
InApp path = has_prefix path (lit "/itzo/packages/app/") ≡ true

abbrev app : Str
app = package_dir (lit "/itzo/units") (lit "app")

two_entries-Named : Named InApp app two_entries
unfolding lit below_rootfs package_dir join_path has_prefix str_beq
two_entries-Named = (
  λ rest q.
      let same : lit "ln" ≡ rest = cc in subst (λ r. InApp (join_path (app ∷ r ∷ []))) same refl,
  (
    λ rest q.
        let same : lit "sh" ≡ rest = cc in subst (λ r. InApp (join_path (app ∷ r ∷ []))) same refl,
    tt,
  ),
)

deploy_package-IsOrdered_example :
    IsOrdered InApp app []
      (deploy_package
        (traced empty_disk)
        (λ f t. opened f t.0)
        (lit "/tmp/p")
        (lit "/itzo/units")
        (lit "app")
        (tt, [])).1.1
deploy_package-IsOrdered_example =
    deploy_package-IsOrdered empty_disk InApp opened (lit "/tmp/p") (lit "/itzo/units") (lit "app")
      (tt, [])
      (λ w archive q.
        let same : two_entries ≡ archive = cc in subst (Named InApp app) same two_entries-Named)
