-- ===== src/Io/Paths/Laws.antt =====
-- A path that is joined to a directory stays below it if no part of it is `..`.
use itzo.Base.{
  ℕ, ◌≡◌, refl, sym, ap, ◌∙◌, ◌≢◌, Bool, false, ◌||◌, List, [], ◌∷◌, ◌++◌, append-nil, All,
  Bool-cases, str_eq, str_beq_iff, nat_eq, ◌==◌, Str, lit, contains_byte, split, join, ◌⊎◌, inl,
  inr,
}
use itzo.Io.Paths.{
  slash, parts_of, reverse_onto, keep_part, clean_parts, print_path, is_rooted, clean, join_path,
}

-- A name of a file: it has no slash and is not `..`.
abbrev pub IsName : Str → Type 0
IsName part = (part ≢ lit "..") × (contains_byte slash part ≡ false)

abbrev pub NotUp : Str → Type 0
NotUp part = part ≢ lit ".."

abbrev NoSlash : Str → Type 0
NoSlash part = contains_byte slash part ≡ false

split-NoSlash : (path : Str) → All NoSlash ((split slash path).0 ∷ (split slash path).1)
unfolding split contains_byte
split-NoSlash [] = (refl, tt)
split-NoSlash (c ∷ path) = elim (Bool-cases (c == slash)) [
  | inl h ↦ simp h (refl, split-NoSlash path)
  | inr h ↦ simp h (split-NoSlash path)
]

both : (parts : List Str) → All NotUp parts → All NoSlash parts → All IsName parts
both [] h k = tt
both (part ∷ parts) h k = ((h.0, k.0), both parts h.1 k.1)

parts_of-IsName : (path : Str) → All NotUp (parts_of path) → All IsName (parts_of path)
unfolding parts_of
parts_of-IsName path h = both (parts_of path) h (split-NoSlash path)

-- The parts of the directory, as `clean` leaves them, with further names.
pub IsUnder : Str → Str → Type 0
unfolding is_rooted
IsUnder dir path =
    (names : List Str) × (path
      ≡ print_path (is_rooted dir) (clean_parts (is_rooted dir) [] (parts_of dir) ++ names))
    × All IsName names

reverse_onto-append :
    (parts kept names : List Str)
    → reverse_onto parts kept ++ names ≡ reverse_onto parts (kept ++ names)
unfolding reverse_onto
reverse_onto-append [] kept names = refl
reverse_onto-append (p ∷ parts) kept names = reverse_onto-append parts (p ∷ kept) names

split-append :
    (a b : Str)
    → split slash (a ++ slash ∷ b) ≡ ((split slash a).0, (split slash a).1 ++ parts_of b)
unfolding parts_of split
split-append [] b = refl
split-append (c ∷ a) b = elim (Bool-cases (c == slash)) [
  | inl h ↦ simp (h, split-append a b)
  | inr h ↦ simp (h, split-append a b)
]

parts_of-append : (a b : Str) → parts_of (a ++ slash ∷ b) ≡ parts_of a ++ parts_of b
unfolding parts_of
parts_of-append a b = ap (λ r. r.0 ∷ r.1) (split-append a b)

keep_part-name :
    (rooted : Bool) (kept : List Str) (part : Str)
    → IsName part
    → (keep_part rooted kept part ≡ kept) ⊎ (keep_part rooted kept part ≡ part ∷ kept)
unfolding keep_part
keep_part-name rooted kept part h = elim (Bool-cases (part == [] || part == lit ".")) [
  | inl e ↦ inl (simp e)
  | inr e ↦ elim (Bool-cases (part == lit "..")) [
    | inl k ↦ absurd (h.0 ((str_beq_iff part (lit "..")).0 k))
    | inr k ↦ inr (simp (e, k))
  ]
]

-- What is left of parts that are all names.
Left : Bool → List Str → List Str → Type 0
unfolding clean_parts reverse_onto
Left rooted parts kept =
    (names : List Str) × (clean_parts rooted kept parts ≡ reverse_onto kept [] ++ names)
    × All IsName names

clean_parts-names :
    (rooted : Bool) (parts kept : List Str) → All IsName parts → Left rooted parts kept
unfolding Left clean_parts reverse_onto
clean_parts-names rooted [] kept h = ([], sym (append-nil (reverse_onto kept [])), tt)
clean_parts-names rooted (part ∷ parts) kept h = elim (keep_part-name rooted kept part h.0) [
  | inl e ↦
      let (names, same, n) = clean_parts-names rooted parts kept h.1 in
      (names, ap (λ k. clean_parts rooted k parts) e ∙ same, n)
  | inr e ↦
      let (names, same, n) = clean_parts-names rooted parts (part ∷ kept) h.1 in
      (
        part ∷ names,
        ap (λ k. clean_parts rooted k parts) e
            ∙ same
            ∙ reverse_onto-append kept (part ∷ []) names
            ∙ sym (reverse_onto-append kept [] (part ∷ names)),
        (h.0, n),
      )
]

-- The parts of a path after the parts of another one.
clean_parts-append :
    (rooted : Bool) (parts more kept : List Str)
    → All IsName more
    → (names : List Str) × (clean_parts rooted kept (parts ++ more)
        ≡ clean_parts rooted kept parts ++ names)
      × All IsName names
unfolding clean_parts Left
clean_parts-append rooted [] more kept h = clean_parts-names rooted more kept h
clean_parts-append rooted (part ∷ parts) more kept h =
    clean_parts-append rooted parts more (keep_part rooted kept part) h

pub join_path-IsUnder :
    (c : ℕ) (dir rest : Str)
    → All NotUp (parts_of rest)
    → IsUnder (c ∷ dir) (join_path ((c ∷ dir) ∷ rest ∷ []))
unfolding IsUnder join_path clean join is_rooted
join_path-IsUnder c dir rest h =
    let rooted = c == slash in
    let (names, same, n) =
      clean_parts-append rooted (parts_of (c ∷ dir)) (parts_of rest) [] (parts_of-IsName rest h) in
    (
      names,
      ap (print_path rooted) (ap (clean_parts rooted []) (parts_of-append (c ∷ dir) rest) ∙ same),
      n,
    )
