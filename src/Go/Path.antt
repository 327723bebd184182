-- ===== src/Go/Path.antt =====
-- Packages `path` and `path/filepath` of Go's library: Join, Clean and Ext, on slash-separated paths.
use wl2k_go.Prelude.{Bool, true, false, List, [], ◌∷◌, ◌++◌, Bytes, ◌==◌, if◌then◌else◌}
use wl2k_go.Go.Strings.{codes, bytes_eq, split}

abbrev is_rooted : Bytes → Bool
is_rooted [] = false
is_rooted (c ∷ s) = c == b'/'

-- The element "..", behind the elements so far, the last of them first.
abbrev parent : Bool → List Bytes → List Bytes
parent true [] = []
parent false [] = codes ".." ∷ []
parent rooted (x ∷ xs) = if bytes_eq x (codes "..") then codes ".." ∷ x ∷ xs else xs

abbrev push_element : Bool → Bytes → List Bytes → List Bytes
push_element rooted [] xs = xs
push_element rooted (c ∷ s) xs =
    if bytes_eq (c ∷ s) (codes ".")
    then xs
    else (if bytes_eq (c ∷ s) (codes "..") then parent rooted xs else (c ∷ s) ∷ xs)

abbrev push_elements : Bool → List Bytes → List Bytes → List Bytes
push_elements rooted [] xs = xs
push_elements rooted (e ∷ es) xs = push_elements rooted es (push_element rooted e xs)

-- The elements with slashes between them, in front of a text.
abbrev slashed : List Bytes → Bytes → Bytes
slashed [] tail = tail
slashed (x ∷ []) tail = x ++ tail
slashed (x ∷ y ∷ xs) tail = slashed (y ∷ xs) (b'/' ∷ (x ++ tail))

abbrev path_text : Bool → Bytes → Bytes
path_text true s = b'/' ∷ s
path_text false [] = codes "."
path_text false (c ∷ s) = c ∷ s

-- `path.Clean`.
unfoldable pub clean : Bytes → Bytes
unfolding split
clean s = path_text (is_rooted s) (slashed (push_elements (is_rooted s) (split b'/' s) []) [])

abbrev join_elements : List Bytes → Bytes
join_elements [] = []
join_elements ([] ∷ es) = join_elements es
join_elements ((c ∷ s) ∷ es) = c ∷ (s ++ elim (join_elements es) [ [] ↦ [] | d ∷ t ↦ b'/' ∷ d ∷ t ])

-- `path.Join`.
unfoldable pub path_join : List Bytes → Bytes
unfolding clean
path_join es = elim (join_elements es) [ [] ↦ [] | c ∷ s ↦ clean (c ∷ s) ]

-- `filepath.Ext`, of a name that has no slash: the text from its last '.'.
unfoldable pub extension : Bytes → Bytes
extension [] = []
extension (c ∷ s) = elim (extension s) [ [] ↦ if c == b'.' then c ∷ s else [] | d ∷ t ↦ d ∷ t ]
