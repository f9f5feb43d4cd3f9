-- ===== src/Utils/Users.antt =====
-- pkg/util/user.go: `LookupUser`, which reads a text like `user:group`.
use itzo.Base.{ℕ, Option, none, some, [], ◌∷◌, Str, lit, split2, ℤ, to_uint32, Error, ◌⊎◌, inl, inr}

-- `user.User` of os/user.
pub record User : Type 0 where
  pub uid : Str
  pub gid : Str
  pub username : Str
  pub home_dir : Str

pub record Group : Type 0 where
  pub gid : Str
  pub name : Str

-- `UserLookup`: a nil pointer comes with an error, and nothing else does.
pub record UserLookup : Type 0 where
  pub lookup : Str → Error ⊎ User
  pub lookup_id : Str → Error ⊎ User
  pub lookup_group : Str → Error ⊎ Group
  pub lookup_group_id : Str → Error ⊎ Group

-- The first result, or else the second.
or_else {ℓ} : {A : Type ℓ} → Error ⊎ A → Error ⊎ A → Error ⊎ A
or_else (inl e) second = second
or_else (inr a) second = inr a

-- A group is looked up as a number and then as a name; the empty text stands for no group.
gid_text : UserLookup → Option Str → Str
unfolding or_else
gid_text l none = []
gid_text l (some group) = elim (or_else (l.lookup_group_id group) (l.lookup_group group)) [
  | inl e ↦ []
  | inr g ↦ g.gid
]

or_text : Str → Str → Str
or_text [] second = second
or_text (c ∷ s) second = c ∷ s

-- `atoi` is `strconv.Atoi`.
finish_lookup : (Str → Error ⊎ ℤ) → Str → User → Error ⊎ (ℕ × ℕ × Str)
unfolding or_text lit
finish_lookup atoi gid_str usr = elim (atoi usr.uid) [
  | inl e ↦ inl (Error.errorf "Failed to parse user id %q: %v" (usr.uid ∷ []))
  | inr uid ↦ elim (atoi (or_text gid_str (or_text usr.gid (lit "0")))) [
    | inl e ↦ inl (
        Error.errorf "Failed to parse group id %q %v"
          (or_text gid_str (or_text usr.gid (lit "0")) ∷ []))
    | inr gid ↦ inr (to_uint32 uid, to_uint32 gid, usr.home_dir)
  ]
]

-- The uid, the gid and the home directory of a text with or without a group.
unfoldable pub lookup_user : (Str → Error ⊎ ℤ) → UserLookup → Str → Error ⊎ (ℕ × ℕ × Str)
unfolding split2 or_else gid_text finish_lookup
lookup_user atoi l userspec =
    let parts = split2 b':' userspec in
    elim (or_else (l.lookup_id parts.0) (l.lookup parts.0)) [
      | inl e ↦ inl e
      | inr usr ↦ finish_lookup atoi (gid_text l parts.1) usr
    ]
