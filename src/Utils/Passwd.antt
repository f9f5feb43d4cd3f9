-- ===== src/Utils/Passwd.antt =====
-- pkg/util/pwduser.go: users and groups looked up in the files of a root file system.
use itzo.Base.{
  Option, none, some, [], ◌∷◌, List, Str, Map, lookup, insert, lit, ◌++◌, if◌then◌else◌, ℤ, pos,
  negsuc, int_beq, int_text, Error, ◌⊎◌, inl, inr, ◌≡◌, refl,
}
use itzo.Utils.Users.{User, Group, UserLookup}

-- What is read of an entry of the files, as the parser of libcontainer returns them.
pub record Entry : Type 0 where
  pub name : Str
  pub uid : ℤ
  pub gid : ℤ
  pub home : Str

pub record GroupEntry : Type 0 where
  pub name : Str
  pub gid : ℤ

-- A map by numbers, with the last entry put in first.
unfoldable pub by_number {ℓ} : {V : Type ℓ} → ℤ → List (ℤ × V) → Option V
by_number n [] = none
by_number n (entry ∷ m) =
    let rest = by_number n m in if int_beq entry.0 n then some entry.1 else rest

pub record PasswdUserLookup : Type 0 where
  pub root_fs : Str
  pub users : Map Entry
  pub uids : List (ℤ × Entry)
  pub groups : Map GroupEntry
  pub gids : List (ℤ × GroupEntry)

add_users : List Entry → PasswdUserLookup → PasswdUserLookup
add_users [] l = l
add_users (u ∷ us) l =
    add_users us (record l { users = insert u.name u l.users; uids = (u.uid, u) ∷ l.uids })

add_groups : List GroupEntry → PasswdUserLookup → PasswdUserLookup
add_groups [] l = l
add_groups (g ∷ gs) l =
    add_groups gs (record l { groups = insert g.name g l.groups; gids = (g.gid, g) ∷ l.gids })

-- The two parameters are `ParsePasswdFile` and `ParseGroupFile`.
unfoldable pub new_passwd_user_lookup :
    (Str → Error ⊎ List Entry) → (Str → Error ⊎ List GroupEntry) → Str → Error ⊎ PasswdUserLookup
unfolding add_users add_groups lit
new_passwd_user_lookup parse_passwd_file parse_group_file path =
    elim (parse_passwd_file (path ++ lit "/etc/passwd")) [
      | inl e ↦ inl e
      | inr users ↦ elim (parse_group_file (path ++ lit "/etc/group")) [
        | inl e ↦ inl e
        | inr groups ↦ inr (
            add_groups groups (
              add_users users
                (record { root_fs = path; users = []; uids = []; groups = []; gids = [] })))
      ]
    ]

unfoldable pub user_of : Entry → User
unfolding int_text
user_of entry = record {
  uid = int_text entry.uid;
  gid = int_text entry.gid;
  username = entry.name;
  home_dir = entry.home;
}

unfoldable pub lookup_name : PasswdUserLookup → Str → Error ⊎ User
unfolding lookup user_of
lookup_name l username = elim (lookup username l.users) [
  | none ↦ inl (Error.errorf "No such user %q in %q" (username ∷ l.root_fs ∷ []))
  | some entry ↦ inr (user_of entry)
]

unfoldable pub lookup_group : PasswdUserLookup → Str → Error ⊎ Group
unfolding lookup int_text
lookup_group l name = elim (lookup name l.groups) [
  | none ↦ inl (Error.errorf "No such group %q in %q" (name ∷ l.root_fs ∷ []))
  | some entry ↦ inr (record { name = entry.name; gid = int_text entry.gid })
]

-- `parse_int` is `strconv.ParseInt` for texts of 32 bits in base 10.
module _ (parse_int : Str → Error ⊎ ℤ) where
  -- An identifier that no entry has is a user without a name.
  unfoldable pub lookup_id : PasswdUserLookup → Str → Error ⊎ User
  unfolding by_number user_of int_text
  lookup_id l username = elim (parse_int username) [
    | inl e ↦ inl e
    | inr (negsuc n) ↦ inl (Error.errorf "Invalid user ID %q" (username ∷ []))
    | inr (pos n) ↦ elim (by_number (pos n) l.uids) [
      | none ↦ inr (record { uid = int_text (pos n); gid = []; username = []; home_dir = [] })
      | some entry ↦ inr (user_of entry)
    ]
  ]

  -- The entry is looked for among the users.
  unfoldable pub lookup_group_id : PasswdUserLookup → Str → Error ⊎ Group
  unfolding by_number int_text
  lookup_group_id l name = elim (parse_int name) [
    | inl e ↦ inl e
    | inr (negsuc n) ↦ inl (Error.errorf "Invalid group ID %q" (name ∷ []))
    | inr (pos n) ↦ elim (by_number (pos n) l.uids) [
      | none ↦ inr (record { name = []; gid = int_text (pos n) })
      | some entry ↦ inr (record { name = entry.name; gid = int_text entry.gid })
    ]
  ]

  abbrev pub passwd_users : PasswdUserLookup → UserLookup
  passwd_users l = record {
    lookup = lookup_name l;
    lookup_id = lookup_id l;
    lookup_group = lookup_group l;
    lookup_group_id = lookup_group_id l;
  }

  -- The groups of the file are not read for a group's number.
  lookup_group_id-uids :
      (l m : PasswdUserLookup) (name : Str)
      → l.uids ≡ m.uids
      → lookup_group_id l name ≡ lookup_group_id m name
  unfolding lookup_group_id
  lookup_group_id-uids l m name e = rw (e) refl
