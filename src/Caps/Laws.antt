-- ===== src/Caps/Laws.antt =====
-- The capabilities that a unit's process gets, name by name.
use itzo.Base.{
  ◌≡◌, refl, sym, ap, subst, ◌∙◌, Bool, true, false, not, ◌&&◌, ◌||◌, Option, none, some, List, [],
  ◌∷◌, ◌++◌, if◌then◌else◌, ◌==◌, str_eq, str_beq, str_beq_iff, str_beq_refl, Str, Error, ◌⊎◌, inl,
  inr, arith, Bool-cases,
}
use itzo.Caps.{
  in_slice, all_capabilities, normalize, join_normalized, normalize_legacy_capabilities, without,
  choose, tweak_added, tweak_dropped, tweak_basics, validate_capabilities, custom,
  tweak_capabilities,
}

-- Whether a name is among the result, given which lists it is in.
abbrev pub granted : Bool → Bool → Bool → Bool → Bool → Bool → Bool
granted in_known in_basics in_add in_drop add_all drop_all =
    if add_all
    then in_known && not in_drop
    else if drop_all
    then in_add
    else (in_basics && not in_drop) || in_add

in_slice-append :
    (xs ys : List Str) (s : Str) → in_slice (xs ++ ys) s ≡ (in_slice xs s || in_slice ys s)
unfolding in_slice
in_slice-append [] ys s = refl
in_slice-append (x ∷ xs) ys s = ground (arith, in_slice-append xs ys s)

in_slice-without :
    (cs drops : List Str) (s : Str)
    → in_slice (without cs drops) s ≡ (in_slice cs s && not (in_slice drops s))
unfolding without in_slice
in_slice-without [] drops s = refl
in_slice-without (c ∷ cs) drops s = elim (Bool-cases (s == c)) [
  | inl h ↦
      let e = (str_beq_iff s c).0 h in
      rw e (ground (arith, str_beq_refl c, in_slice-without cs drops c))
  | inr h ↦ ground (arith, in_slice-without cs drops s)
]

module _ (known : List Str) where
  in_slice-choose :
      (basics cap_add cap_drop : List Str) (s : Str)
      → in_slice (choose known basics cap_add cap_drop) s
        ≡ granted
            (in_slice known s)
            (in_slice basics s)
            (in_slice cap_add s)
            (in_slice cap_drop s)
            (in_slice cap_add all_capabilities)
            (in_slice cap_drop all_capabilities)
  unfolding choose
  in_slice-choose basics cap_add cap_drop s = ground (
    arith,
    in_slice-without known cap_drop s,
    in_slice-without basics cap_drop s,
    in_slice-append (without basics cap_drop) cap_add s,
  )

  tweak_dropped-choose :
      (basics adds drops cap_add cap_drop : List Str)
      → normalize_legacy_capabilities known adds ≡ inr cap_add
      → normalize_legacy_capabilities known drops ≡ inr cap_drop
      → tweak_dropped known basics adds (normalize_legacy_capabilities known drops)
        ≡ inr (choose known basics cap_add cap_drop)
  unfolding tweak_dropped tweak_added
  tweak_dropped-choose basics adds drops cap_add cap_drop a d =
      ap (tweak_dropped known basics adds) d ∙ ap (tweak_added known basics cap_drop) a

  choose-nothing :
      (basics : List Str) (s : Str) → in_slice basics s ≡ in_slice (choose known basics [] []) s
  unfolding in_slice
  choose-nothing basics s = sym (in_slice-choose basics [] [] s ∙ plain (in_slice basics s))
    where
      plain : (b : Bool) → granted (in_slice known s) b false false false false ≡ b
      plain true = refl
      plain false = refl

  tweak_basics-choose :
      (basics adds drops cap_add cap_drop : List Str)
      → normalize_legacy_capabilities known adds ≡ inr cap_add
      → normalize_legacy_capabilities known drops ≡ inr cap_drop
      → (result : List Str) × (tweak_basics known basics adds drops ≡ inr result)
        × ((s : Str) → in_slice result s ≡ in_slice (choose known basics cap_add cap_drop) s)
  unfolding tweak_basics
  tweak_basics-choose basics [] [] cap_add cap_drop a d =
      let no_add : [] ≡ cap_add = cc in
      let no_drop : [] ≡ cap_drop = cc in
      (basics, refl, λ s. rw (← no_add, ← no_drop) (choose-nothing basics s))
  tweak_basics-choose basics (x ∷ adds) drops cap_add cap_drop a d = (
    choose known basics cap_add cap_drop,
    tweak_dropped-choose basics (x ∷ adds) drops cap_add cap_drop a d,
    λ s. refl,
  )
  tweak_basics-choose basics [] (x ∷ drops) cap_add cap_drop a d = (
    choose known basics cap_add cap_drop,
    tweak_dropped-choose basics [] (x ∷ drops) cap_add cap_drop a d,
    λ s. refl,
  )

  -- For a unit that is not privileged and has no list of its own, whose adds and drops are all known
  -- names: the tweak is made, and a name is granted exactly as follows. With ALL among the adds, if
  -- the kernel knows it and it is not dropped; else, with ALL among the drops, if it is added; else
  -- if it is added, or is among the basic ones and not dropped.
  pub tweak_capabilities_lem :
      (basics adds drops cap_add cap_drop : List Str)
      → normalize_legacy_capabilities known adds ≡ inr cap_add
      → normalize_legacy_capabilities known drops ≡ inr cap_drop
      → (result : List Str) × (tweak_capabilities known basics adds drops none false ≡ inr result)
        × ((s : Str)
            → in_slice result s
              ≡ granted
                  (in_slice known s)
                  (in_slice basics s)
                  (in_slice cap_add s)
                  (in_slice cap_drop s)
                  (in_slice cap_add all_capabilities)
                  (in_slice cap_drop all_capabilities))
  unfolding tweak_capabilities
  tweak_capabilities_lem basics adds drops cap_add cap_drop a d =
      let (result, e, h) = tweak_basics-choose basics adds drops cap_add cap_drop a d in
      (result, e, λ s. h s ∙ in_slice-choose basics cap_add cap_drop s)

  -- The names of a list are known, or ALL.
  abbrev AreKnown : List Str → Type 0
  AreKnown cs =
      (s : Str) → in_slice cs s ≡ true → (s ≡ all_capabilities) ⊎ (in_slice known s ≡ true)

  normalize-known :
      (name c : Str)
      → normalize known name ≡ inr c
      → (c ≡ all_capabilities) ⊎ (in_slice known c ≡ true)
  unfolding normalize
  normalize-known name c h = ground arith

  join_normalized-inr :
      (r : Error ⊎ Str) (rs : Error ⊎ List Str) (cs : List Str)
      → join_normalized known r rs ≡ inr cs
      → (c : Str) × (rest : List Str) × (r ≡ inr c) × (rs ≡ inr rest) × (cs ≡ c ∷ rest)
  unfolding join_normalized
  join_normalized-inr (inl e) rs cs h = cc
  join_normalized-inr (inr c) (inl e) cs h = cc
  join_normalized-inr (inr c) (inr rest) cs h = (c, rest, refl, refl, cc)

  normalize-AreKnown :
      (names cs : List Str) → normalize_legacy_capabilities known names ≡ inr cs → AreKnown cs
  unfolding normalize_legacy_capabilities in_slice
  normalize-AreKnown [] cs h s m =
      let e : [] ≡ cs = cc in let m' : in_slice [] s ≡ true = rw (← e) at m in cc
  normalize-AreKnown (name ∷ names) cs h s m =
      let (c, rest, e, e', same) = join_normalized-inr _ _ cs h in
      let known_c = normalize-known name c e in
      let m' : (str_beq s c || in_slice rest s) ≡ true = subst (λ l. in_slice l s ≡ true) same m in
      elim (Bool-cases (str_beq s c)) [
        | inl h' ↦ rw ((str_beq_iff s c).0 h') known_c
        | inr h' ↦ normalize-AreKnown names rest e' s (rw h' at m')
      ]

  validate-AreKnown :
      (cs : List Str) (s : Str)
      → validate_capabilities known cs ≡ none
      → in_slice cs s ≡ true
      → in_slice known s ≡ true
  unfolding validate_capabilities in_slice
  validate-AreKnown [] s h m = cc
  validate-AreKnown (c ∷ cs) s h m = ground (arith, str_beq_iff s c, validate-AreKnown cs s)

  choose-known :
      (basics cap_add cap_drop : List Str) (s : Str)
      → AreKnown cap_add
      → in_slice (choose known basics cap_add cap_drop) s ≡ true
      → (in_slice known s || in_slice basics s) ≡ true
  choose-known basics cap_add cap_drop s k m =
      ground (arith, in_slice-choose basics cap_add cap_drop s, k s)

  tweak_added-inr :
      (basics cap_drop : List Str) (a : Error ⊎ List Str) (result : List Str)
      → tweak_added known basics cap_drop a ≡ inr result
      → (cap_add : List Str) × (a ≡ inr cap_add) × (choose known basics cap_add cap_drop ≡ result)
  unfolding tweak_added
  tweak_added-inr basics cap_drop (inl e) result h = cc
  tweak_added-inr basics cap_drop (inr cap_add) result h = (cap_add, refl, cc)

  tweak_dropped-known :
      (basics adds : List Str) (d : Error ⊎ List Str) (result : List Str) (s : Str)
      → tweak_dropped known basics adds d ≡ inr result
      → in_slice result s ≡ true
      → (in_slice known s || in_slice basics s) ≡ true
  unfolding tweak_dropped
  tweak_dropped-known basics adds (inl e) result s h m = cc
  tweak_dropped-known basics adds (inr cap_drop) result s h m =
      let (cap_add, e, same) = tweak_added-inr basics cap_drop _ result h in
      choose-known basics cap_add cap_drop s (normalize-AreKnown adds cap_add e)
        (subst (λ l. in_slice l s ≡ true) (sym same) m)

  tweak_basics-known :
      (basics adds drops result : List Str) (s : Str)
      → tweak_basics known basics adds drops ≡ inr result
      → in_slice result s ≡ true
      → (in_slice known s || in_slice basics s) ≡ true
  unfolding tweak_basics
  tweak_basics-known basics [] [] result s h m = let e : basics ≡ result = cc in ground arith
  tweak_basics-known basics (x ∷ adds) drops result s h m =
      tweak_dropped-known basics (x ∷ adds) _ result s h m
  tweak_basics-known basics [] (x ∷ drops) result s h m =
      tweak_dropped-known basics [] _ result s h m

  custom-known :
      (basics capabilities : List Str) (v : Option Error) (result : List Str) (s : Str)
      → validate_capabilities known capabilities ≡ v
      → custom known capabilities v ≡ inr result
      → in_slice result s ≡ true
      → (in_slice known s || in_slice basics s) ≡ true
  unfolding custom
  custom-known basics capabilities (some e) result s v h m = cc
  custom-known basics capabilities none result s v h m =
      let e : capabilities ≡ result = cc in ground (arith, validate-AreKnown capabilities s v)

  -- Whatever a unit asks for: if the tweak is made, every name in its result is a capability that the
  -- kernel knows or one of the basic ones; ALL is no such name.
  tweak_capabilities-known :
      (basics adds drops : List Str) (capabilities : Option (List Str)) (privileged : Bool)
      (result : List Str) (s : Str)
      → tweak_capabilities known basics adds drops capabilities privileged ≡ inr result
      → in_slice result s ≡ true
      → (in_slice known s || in_slice basics s) ≡ true
  unfolding tweak_capabilities
  tweak_capabilities-known basics adds drops capabilities true result s h m =
      let e : known ≡ result = cc in ground arith
  tweak_capabilities-known basics adds drops none false result s h m =
      tweak_basics-known basics adds drops result s h m
  tweak_capabilities-known basics adds drops (some capabilities) false result s h m =
      custom-known basics capabilities _ result s refl h m
