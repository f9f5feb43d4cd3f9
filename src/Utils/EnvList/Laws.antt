-- ===== src/Utils/EnvList/Laws.antt =====
-- What a list of `name=value` texts holds after a variable has been put into it.
use itzo.Base.{
  ◌≡◌, refl, ap, ◌∙◌, Bool, true, false, Bool-cases, List, [], ◌∷◌, if◌then◌else◌, ◌==◌, str_eq,
  Str, split2-append, contains_byte, str_beq_refl, inl, inr,
}
use itzo.Utils.EnvList.{name_of, equals, entry, reverse_onto, add_from, add_to_env_list}

-- The entries with the name `key`, in their order, or those with another name.
abbrev pub entries_of : Str → List Str → List Str
entries_of key [] = []
entries_of key (e ∷ env) =
    let rest = entries_of key env in if name_of e == key then e ∷ rest else rest

abbrev pub others : Str → List Str → List Str
others key [] = []
others key (e ∷ env) = let rest = others key env in if name_of e == key then rest else e ∷ rest

-- The first of the entries that is kept, or the new one.
abbrev pub first_or : Str → List Str → Str
first_or new [] = new
first_or new (e ∷ env) = e

name_of-entry :
    (key value : Str) → contains_byte equals key ≡ false → name_of (entry key value) ≡ key
unfolding name_of
name_of-entry key value h = ap (λ r. r.0) (split2-append equals key value h)

module _ (key value : Str) (plain : contains_byte equals key ≡ false) where
  entry_has_name : (name_of (entry key value) == key) ≡ true
  entry_has_name = rw (name_of-entry key value plain) (str_beq_refl key)

  add_from-found :
      (overwrite : Bool) (env : List Str)
      → (entries_of key (add_from key value overwrite true env) ≡ [])
        × (others key (add_from key value overwrite true env) ≡ others key env)
  unfolding add_from
  add_from-found overwrite [] = (refl, refl)
  add_from-found overwrite (e ∷ env) = elim (Bool-cases (name_of e == key)) [
    | inl h ↦ let r = add_from-found overwrite env in (simp (h, r.0), simp (h, r.1))
    | inr h ↦ let r = add_from-found overwrite env in (simp (h, r.0), simp (h, r.1))
  ]

  add_from-hit :
      (overwrite : Bool) (e : Str) (env : List Str)
      → (name_of e == key) ≡ true
      → (entries_of key (add_from key value overwrite false (e ∷ env))
          ≡ (if overwrite then entry key value else e) ∷ [])
        × (others key (add_from key value overwrite false (e ∷ env)) ≡ others key env)
  unfolding add_from
  add_from-hit true e env h =
      let r = add_from-found true env in
      (simp (h, entry_has_name, r.0), simp (h, entry_has_name, r.1))
  add_from-hit false e env h = let r = add_from-found false env in (simp (h, r.0), simp (h, r.1))

  add_from-first :
      (overwrite : Bool) (env : List Str)
      → (entries_of key (add_from key value overwrite false env)
          ≡ (if overwrite then entry key value else first_or (entry key value) (entries_of key env))
            ∷ [])
        × (others key (add_from key value overwrite false env) ≡ others key env)
  unfolding add_from
  add_from-first true [] = (simp entry_has_name, simp entry_has_name)
  add_from-first false [] = (simp entry_has_name, simp entry_has_name)
  add_from-first overwrite (e ∷ env) = elim (Bool-cases (name_of e == key)) [
    | inl h ↦ let r = add_from-hit overwrite e env h in (r.0 ∙ simp h, r.1 ∙ simp h)
    | inr h ↦ let r = add_from-first overwrite env in (simp (h, r.0), simp (h, r.1))
  ]

  -- For a name without `=`: the list then has exactly one entry of that name, which is the given
  -- one under `overwrite` or if there was none, and else the last that there was; the entries of
  -- other names are all kept, in the reverse of their order.
  add_to_env_list_lem :
      (overwrite : Bool) (env : List Str)
      → (entries_of key (add_to_env_list env key value overwrite)
          ≡ (if overwrite
              then entry key value
              else first_or (entry key value) (entries_of key (reverse_onto env [])))
            ∷ [])
        × (others key (add_to_env_list env key value overwrite) ≡ others key (reverse_onto env []))
  unfolding add_to_env_list
  add_to_env_list_lem overwrite env = add_from-first overwrite (reverse_onto env [])
