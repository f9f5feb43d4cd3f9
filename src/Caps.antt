-- ===== src/Caps.antt =====
-- pkg/caps/caps.go: which capabilities a unit's process gets.
pub mod Laws
mod Tests
use itzo.Base.{
  Bool, true, false, not, ◌||◌, Option, none, some, List, [], ◌∷◌, ◌++◌, map, if◌then◌else◌, ◌==◌,
  str_eq, str_beq, Str, lit, to_upper, has_prefix, Error, ◌⊎◌, inl, inr,
}

unfoldable pub in_slice : List Str → Str → Bool
unfolding str_beq
in_slice [] s = false
in_slice (ss ∷ slice) s = s == ss || in_slice slice s

-- The members of the first list that are not in the second.
unfoldable pub without : List Str → List Str → List Str
unfolding in_slice
without [] drops = []
without (c ∷ cs) drops = let rest = without cs drops in if in_slice drops c then rest else c ∷ rest

abbrev pub all_capabilities : Str
all_capabilities = lit "ALL"

-- Every error stands for a name that is not known.
abbrev pub unknown : Str → Error
unknown c = Error.errorf "unknown capability: %q" (c ∷ [])

with_prefix : Str → Str
unfolding lit has_prefix
with_prefix c = if has_prefix c (lit "CAP_") then c else lit "CAP_" ++ c

-- `known` is what `GetAllCapabilities` returns, the names of the kernel's capabilities.
module _ (known : List Str) where
  -- One round of `NormalizeLegacyCapabilities`.
  unfoldable pub normalize : Str → Error ⊎ Str
  unfolding with_prefix to_upper in_slice lit
  normalize name =
      let c = to_upper name in
      if c == all_capabilities
      then inr c
      else if in_slice known (with_prefix c)
      then inr (with_prefix c)
      else inl (unknown (with_prefix c))

  join_normalized : Error ⊎ Str → Error ⊎ List Str → Error ⊎ List Str
  join_normalized (inl e) rest = inl e
  join_normalized (inr c) (inl e) = inl e
  join_normalized (inr c) (inr cs) = inr (c ∷ cs)

  unfoldable pub normalize_legacy_capabilities : List Str → Error ⊎ List Str
  unfolding join_normalized normalize
  normalize_legacy_capabilities [] = inr []
  normalize_legacy_capabilities (c ∷ caps) =
      join_normalized (normalize c) (normalize_legacy_capabilities caps)

  unfoldable pub validate_capabilities : List Str → Option Error
  unfolding in_slice
  validate_capabilities [] = none
  validate_capabilities (c ∷ caps) =
      let rest = validate_capabilities caps in if in_slice known c then rest else some (unknown c)

  choose : List Str → List Str → List Str → List Str
  unfolding without in_slice
  choose basics cap_add cap_drop =
      if in_slice cap_add all_capabilities
      then without known cap_drop
      else if in_slice cap_drop all_capabilities
      then cap_add
      else without basics cap_drop ++ cap_add

  -- The drops are read before the adds.
  tweak_added : List Str → List Str → Error ⊎ List Str → Error ⊎ List Str
  unfolding choose
  tweak_added basics cap_drop (inl e) = inl e
  tweak_added basics cap_drop (inr cap_add) = inr (choose basics cap_add cap_drop)

  tweak_dropped : List Str → List Str → Error ⊎ List Str → Error ⊎ List Str
  unfolding tweak_added normalize_legacy_capabilities
  tweak_dropped basics adds (inl e) = inl e
  tweak_dropped basics adds (inr cap_drop) =
      tweak_added basics cap_drop (normalize_legacy_capabilities adds)

  custom : List Str → Option Error → Error ⊎ List Str
  custom capabilities none = inr capabilities
  custom capabilities (some e) = inl e

  tweak_basics : List Str → List Str → List Str → Error ⊎ List Str
  unfolding tweak_dropped normalize_legacy_capabilities
  tweak_basics basics [] [] = inr basics
  tweak_basics basics (a ∷ adds) drops =
      tweak_dropped basics (a ∷ adds) (normalize_legacy_capabilities drops)
  tweak_basics basics [] (d ∷ drops) =
      tweak_dropped basics [] (normalize_legacy_capabilities (d ∷ drops))

  -- A nil list of capabilities is `none`.
  unfoldable pub tweak_capabilities :
      List Str → List Str → List Str → Option (List Str) → Bool → Error ⊎ List Str
  unfolding tweak_basics custom validate_capabilities
  tweak_capabilities basics adds drops capabilities true = inr known
  tweak_capabilities basics adds drops none false = tweak_basics basics adds drops
  tweak_capabilities basics adds drops (some capabilities) false =
      custom capabilities (validate_capabilities capabilities)
