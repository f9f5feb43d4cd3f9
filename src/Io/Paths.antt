-- ===== src/Io/Paths.antt =====
-- The functions of path/filepath that the source calls, on a system whose separator is a slash.
pub mod Laws
use itzo.Base.{
  ℕ, Bool, true, false, ◌||◌, List, [], ◌∷◌, if◌then◌else◌, str_eq, nat_eq, ◌==◌, Str, lit,
  contains_byte, split, join,
}

abbrev pub slash : ℕ
slash = b'/'

-- `strings.Split(path, "/")`
unfoldable pub parts_of : Str → List Str
unfolding split
parts_of path = (split slash path).0 ∷ (split slash path).1

join_parts : List Str → Str
unfolding join
join_parts [] = []
join_parts (part ∷ parts) = join slash part parts

reverse_onto : List Str → List Str → List Str
reverse_onto [] kept = kept
reverse_onto (part ∷ parts) kept = reverse_onto parts (part ∷ kept)

-- What `..` does to the parts kept so far, the last one first: it takes a name away, stays above
-- an unrooted path, and is dropped at the root.
go_up : Bool → List Str → List Str
unfolding lit
go_up true [] = []
go_up false [] = lit ".." ∷ []
go_up rooted (part ∷ kept) = if part == lit ".." then lit ".." ∷ part ∷ kept else kept

unfoldable pub keep_part : Bool → List Str → Str → List Str
unfolding lit go_up
keep_part rooted kept part =
    if part == [] || part == lit "."
    then kept
    else if part == lit ".."
    then go_up rooted kept
    else part ∷ kept

unfoldable pub clean_parts : Bool → List Str → List Str → List Str
unfolding keep_part reverse_onto
clean_parts rooted kept [] = reverse_onto kept []
clean_parts rooted kept (part ∷ parts) = clean_parts rooted (keep_part rooted kept part) parts

unfoldable pub print_path : Bool → List Str → Str
unfolding join_parts lit
print_path true parts = slash ∷ join_parts parts
print_path false [] = lit "."
print_path false (part ∷ parts) = join_parts (part ∷ parts)

unfoldable pub is_rooted : Str → Bool
is_rooted [] = false
is_rooted (c ∷ path) = c == slash

-- `filepath.Clean`
unfoldable pub clean : Str → Str
unfolding is_rooted print_path clean_parts parts_of
clean path = print_path (is_rooted path) (clean_parts (is_rooted path) [] (parts_of path))

-- `filepath.Join`: empty elements before the first other one are passed over.
unfoldable pub join_path : List Str → Str
unfolding clean join
join_path [] = []
join_path ([] ∷ elems) = join_path elems
join_path ((c ∷ elem) ∷ elems) = clean (join slash (c ∷ elem) elems)

-- The path up to its last slash, which it ends in.
upto_slash : Str → Str
unfolding contains_byte
upto_slash [] = []
upto_slash (c ∷ path) =
    let rest = upto_slash path in if contains_byte slash (c ∷ path) then c ∷ rest else []

-- `filepath.Dir`
unfoldable pub dir_of : Str → Str
unfolding upto_slash clean
dir_of path = clean (upto_slash path)
