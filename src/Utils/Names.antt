-- ===== src/Utils/Names.antt =====
-- pkg/util/naming.go: names of the form `namespace_name`.
use itzo.Base.{
  ℕ, zero, suc, ◌≡◌, refl, ap, ap₂, ◌∙◌, drop-eq-nil, false, Option, none, some, [], ◌∷◌, ◌++◌,
  if◌then◌else◌, ◌==◌, nat_eq, ltb, length, take, drop, Str, split2, split2-append, contains_byte,
  arith, ◌-◌, ◌≤◌, Bool-cases, ◌⊎◌, inl, inr,
}

-- `NamespaceSeparator`
abbrev pub separator : ℕ
separator = b'_'

-- `strings.IndexByte`, with `none` for -1.
index_byte : Str → ℕ → Option ℕ
index_byte [] b = none
index_byte (c ∷ s) b =
    let i = index_byte s b in
    if c == b then some 0 else elim i [ none ↦ none | some n ↦ some (suc n) ]

unfoldable pub get_namespace_from_string : Str → Str
unfolding index_byte
get_namespace_from_string n = elim (index_byte n separator) [
  | none ↦ []
  | some i ↦ if ltb 0 i then take i n else []
]

-- With no separator, `i` is -1, which is `len(n)-1` for the empty name.
unfoldable pub get_name_from_string : Str → Str
unfolding index_byte
get_name_from_string n = elim (index_byte n separator) [
  | none ↦ if length n == 0 then [] else n
  | some i ↦ if ltb i (length n - 1) then drop (suc i) n else if i == length n - 1 then [] else n
]

unfoldable pub with_namespace : Str → Str → Str
with_namespace ns name = ns ++ separator ∷ name

-- `SplitN` never returns an empty list for the limit 2.
two_parts : Str × Option Str → Str × Str
two_parts (first, none) = ([], first)
two_parts (first, some second) = (first, second)

unfoldable pub split_namespace_and_name : Str → Str × Str
unfolding split2 two_parts
split_namespace_and_name n = two_parts (split2 separator n)

module _ (b : ℕ) where
  -- The index and the two parts of a text, together.
  abbrev Parts : Str → Type 0
  Parts s =
      ((index_byte s b ≡ none) × (split2 b s ≡ (s, none)))
      ⊎ ((i : ℕ) × (index_byte s b ≡ some i)
          × (split2 b s ≡ (take i s, some (drop (suc i) s)))
          × (suc i ≤ length s))

  parts : (s : Str) → Parts s
  unfolding index_byte split2
  parts [] = inl (refl, refl)
  parts (c ∷ s) = elim (Bool-cases (c == b)) [
    | inl e ↦ inr (0, simp e, simp e, omega arith)
    | inr e ↦ elim (parts s) [
      | inl (i, p) ↦ inl (simp (e, i), simp (e, p))
      | inr (k, i, p, h) ↦ inr (suc k, simp (e, i), simp (e, p), omega arith)
    ]
  ]

no_separator : (n : Str) → n ≡ (if length n == 0 then [] else n)
no_separator [] = refl
no_separator (c ∷ n) = ground arith

before : (k : ℕ) (n : Str) → take k n ≡ (if ltb 0 k then take k n else [])
before zero n = refl
before (suc k) n = ground arith

behind :
    (k : ℕ) (n : Str)
    → suc k ≤ length n
    → drop (suc k) n
      ≡ (if ltb k (length n - 1) then drop (suc k) n else if k == length n - 1 then [] else n)
behind k n h = ground (arith, drop-eq-nil n (suc k))

-- Splitting a name gives what the two functions for its parts give.
split_namespace_and_name-eq :
    (n : Str) → split_namespace_and_name n ≡ (get_namespace_from_string n, get_name_from_string n)
unfolding split_namespace_and_name two_parts get_namespace_from_string get_name_from_string
split_namespace_and_name-eq n = elim (parts separator n) [
  | inl (i, p) ↦
      ap two_parts p
      ∙ rw (i, get_namespace_from_string, get_name_from_string) (ap (λ s. ([], s)) (no_separator n))
  | inr (k, i, p, h) ↦
      ap two_parts p
      ∙ rw (i, get_namespace_from_string, get_name_from_string)
          (ap₂ (λ s t. (s, t)) (before k n) (behind k n h))
]

-- A name put together from a namespace without the separator is split into the two again.
split_namespace_and_name-with_namespace :
    (ns name : Str)
    → contains_byte separator ns ≡ false
    → split_namespace_and_name (with_namespace ns name) ≡ (ns, name)
unfolding split_namespace_and_name two_parts with_namespace
split_namespace_and_name-with_namespace ns name h = ap two_parts (split2-append separator ns name h)
