-- ===== src/Utils/Tests.antt =====
-- The helpers of pkg/util on concrete texts, and their theorems at such inputs.
use itzo.Base.{
  ℕ, ℤ, pos, Error, inr, ◌+◌, ◌-◌, ◌*◌, int_beq, int_text, ◌≡◌, refl, none, List, [], ◌∷◌, Str, lit,
  ◌⊎◌, split2, str_beq,
}
use itzo.Utils.Users.{lookup_user}
use itzo.Utils.Passwd.{
  Entry, PasswdUserLookup, passwd_users, by_number, user_of, lookup_id, lookup_group_id,
}
use itzo.Utils.EnvList.{entry, reverse_onto, name_of, environ_to_api_env_var}
use itzo.Utils.EnvList.Laws.{entries_of, first_or}
use itzo.Utils.Images.{slash}

abbrev ns : Str
ns = b'n' ∷ b's' ∷ []

abbrev name : Str
name = b'a' ∷ b'_' ∷ []

-- Two entries for `A` and one for `B`.
abbrev env : List Str
env = (b'A' ∷ b'=' ∷ b'1' ∷ []) ∷ (b'B' ∷ []) ∷ (b'A' ∷ b'=' ∷ b'2' ∷ []) ∷ []

abbrev key : Str
key = b'A' ∷ []

last_entry_is_kept :
    first_or (entry key []) (entries_of key (reverse_onto env [])) ≡ b'A' ∷ b'=' ∷ b'2' ∷ []
unfolding name_of split2 str_beq
last_entry_is_kept = refl

-- An entry without an equals sign.
environ_panics : environ_to_api_env_var env ≡ none
unfolding environ_to_api_env_var split2
environ_panics = refl

abbrev image : Str
image = b'g' ∷ b'.' ∷ b'i' ∷ b'/' ∷ b'x' ∷ []

digits : Str → ℕ → ℕ
digits [] n = n
digits (c ∷ s) n = digits s (n * 10 + (c - 48))

abbrev number : Str → Error ⊎ ℤ
number s = inr (pos (digits s 0))

-- A user with the number 5 in the group 60.
abbrev games : Entry
games = record { name = ns; uid = pos 5; gid = pos 60; home = slash ∷ [] }

abbrev games_only : PasswdUserLookup
games_only = record {
  root_fs = [];
  users = (ns, games) ∷ [];
  uids = (pos 5, games) ∷ [];
  groups = [];
  gids = [];
}

-- The group 5 that is asked for becomes the group of the user 5.
group_of_user :
    lookup_user number (passwd_users number games_only) (lit "0:5") ≡ inr (0, 60, lit "")
unfolding lookup_user lookup_group_id lookup_id digits by_number user_of int_beq int_text lit
group_of_user = refl
