-- ===== src/Base/Strings.antt =====
-- Go strings as lists of bytes, and the functions of package `strings` that the source calls.
use Prim.Native.Nat.{ℕ, ◌+◌, ◌-◌}
use Prim.Native.Char.{code}
use Prim.Native.String.{String}
use mathlib.Core.Path.{◌≡◌, refl, sym, ap, ap₂, ◌∙◌}
use mathlib.Core.Logic.{◌↔◌, inl, inr}
use mathlib.Core.Bool.{Bool, true, false, ◌&&◌, ◌||◌}
use mathlib.Core.List.{List, [], ◌∷◌, ◌++◌}
use mathlib.Core.Option.{Option, none, some}
use native.Mathlib.Omega.{arith}
use itzo.Base.Tests.{nat_beq, leb, if◌then◌else◌, Eq, ◌==◌, nat_eq, Bool-cases}

abbrev pub Str : Type 0
Str = List ℕ

-- The bytes of an ASCII literal.
unfoldable pub lit : String → Str
lit String.[] = []
lit (String.◌∷◌ c s) = code c ∷ lit s

unfoldable pub str_beq : Str → Str → Bool
str_beq [] [] = true
str_beq [] (b ∷ t) = false
str_beq (a ∷ s) [] = false
str_beq (a ∷ s) (b ∷ t) = nat_beq a b && str_beq s t

pub str_beq_iff : (s t : Str) → (str_beq s t ≡ true) ↔ (s ≡ t)
unfolding str_beq
str_beq_iff [] [] = ground arith
str_beq_iff [] (b ∷ t) = ground arith
str_beq_iff (a ∷ s) [] = ground arith
str_beq_iff (a ∷ s) (b ∷ t) = ground (arith, str_beq_iff s t)

instance abbrev pub str_eq : Eq Str
str_eq = record { test = str_beq; test_iff = str_beq_iff }

pub str_beq_refl : (s : Str) → str_beq s s ≡ true
str_beq_refl s = (str_beq_iff s s).1 refl

-- `strings.SplitN(s, sep, 2)` at a one-byte separator: what stands before its first occurrence,
-- and what stands behind it if it occurs.
unfoldable pub split2 : ℕ → Str → Str × Option Str
split2 sep [] = ([], none)
split2 sep (c ∷ s) =
    let (before, after) = split2 sep s in if c == sep then ([], some s) else (c ∷ before, after)

unfoldable pub contains_byte : ℕ → Str → Bool
contains_byte sep [] = false
contains_byte sep (c ∷ s) = c == sep || contains_byte sep s

pub split2-append :
    (sep : ℕ) (k v : Str) → contains_byte sep k ≡ false → split2 sep (k ++ sep ∷ v) ≡ (k, some v)
unfolding split2 contains_byte
split2-append sep [] v h = ground arith
split2-append sep (c ∷ k) v h = ground (arith, split2-append sep k v)

unfoldable pub has_prefix : Str → Str → Bool
has_prefix s [] = true
has_prefix [] (p ∷ ps) = false
has_prefix (c ∷ s) (p ∷ ps) = c == p && has_prefix s ps

-- `strings.ToLower` and `strings.ToUpper` on ASCII text.
unfoldable pub to_lower : Str → Str
to_lower [] = []
to_lower (c ∷ s) = (if leb b'A' c && leb c b'Z' then c + 32 else c) ∷ to_lower s

unfoldable pub to_upper : Str → Str
to_upper [] = []
to_upper (c ∷ s) = (if leb b'a' c && leb c b'z' then c - 32 else c) ∷ to_upper s

-- `strings.Split` at one byte: the first part and the others.
unfoldable pub split : ℕ → Str → Str × List Str
split sep [] = ([], [])
split sep (c ∷ s) =
    let (part, parts) = split sep s in if c == sep then ([], part ∷ parts) else (c ∷ part, parts)

-- `strings.Join`
unfoldable pub join : ℕ → Str → List Str → Str
join sep part [] = part
join sep part (next ∷ parts) = part ++ sep ∷ join sep next parts

join-cons :
    (sep c : ℕ) (part : Str) (parts : List Str)
    → join sep (c ∷ part) parts ≡ c ∷ join sep part parts
unfolding join
join-cons sep c part [] = refl
join-cons sep c part (next ∷ parts) = refl

pub join-split : (sep : ℕ) (s : Str) → join sep (split sep s).0 (split sep s).1 ≡ s
unfolding join split
join-split sep [] = refl
join-split sep (c ∷ s) = elim (Bool-cases (c == sep)) [
  | inl h ↦ simp h (ap₂ (λ b t. b ∷ t) (sym ((nat_eq.test_iff c sep).0 h)) (join-split sep s))
  | inr h ↦ simp h (join-cons sep c _ _ ∙ ap (λ t. c ∷ t) (join-split sep s))
]

pub one_part :
    (sep : ℕ) (s : Str)
    → (split sep s).1 ≡ []
    → (contains_byte sep s ≡ false) × ((split sep s).0 ≡ s)
unfolding split contains_byte
one_part sep [] h = (refl, refl)
one_part sep (c ∷ s) h = ground (arith, one_part sep s, h)
