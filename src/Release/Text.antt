-- ===== src/Release/Text.antt =====
-- Texts of hack/check-go-release-age/main.go as lists of code points, and the functions of Go's package
-- strings that it uses.
pub mod Laws
use garlic.Common.{
  ℕ, ◌+◌, ◌≡◌, Bool, true, false, ◌&&◌, ◌||◌, List, [], ◌∷◌, ◌++◌, ◌==◌, leb, if◌then◌else◌,
}

abbrev pub Text : Type 0
Text = List ℕ

abbrev pub text_eq : Text → Text → Bool
text_eq [] [] = true
text_eq [] (d ∷ t) = false
text_eq (c ∷ s) [] = false
text_eq (c ∷ s) (d ∷ t) = (c == d) && text_eq s t

-- `unicode.IsSpace`.
unfoldable pub is_space : ℕ → Bool
is_space c =
    (leb 9 c && leb c 13)
    || (c == 32)
    || (c == 0x85)
    || (c == 0xa0)
    || (c == 0x1680)
    || (leb 0x2000 c && leb c 0x200a)
    || (c == 0x2028)
    || (c == 0x2029)
    || (c == 0x202f)
    || (c == 0x205f)
    || (c == 0x3000)

abbrev pub close : Text → List Text → List Text
close [] rest = rest
close (c ∷ word) rest = (c ∷ word) ∷ rest

abbrev pub extend : Bool → ℕ → Text → List Text → Text × List Text
extend true c word rest = ([], close word rest)
extend false c word rest = (c ∷ word, rest)

-- The word that the text starts with, if any, and the words behind it.
unfoldable pub words : Text → Text × List Text
unfolding is_space
words [] = ([], [])
words (c ∷ s) = extend (is_space c) c (words s).0 (words s).1

-- `strings.Fields`.
unfoldable pub fields : Text → List Text
unfolding words
fields s = close (words s).0 (words s).1

-- `strings.TrimSuffix`, for a suffix that is not empty.
unfoldable pub trim_suffix : Text → Text → Text
trim_suffix [] suffix = []
trim_suffix (c ∷ s) suffix = if text_eq (c ∷ s) suffix then [] else c ∷ trim_suffix s suffix

abbrev pub all_slashes : Text → Bool
all_slashes [] = true
all_slashes (c ∷ s) = (c == b'/') && all_slashes s

-- `strings.TrimRight(s, "/")`.
unfoldable pub trim_right_slashes : Text → Text
trim_right_slashes [] = []
trim_right_slashes (c ∷ s) = if all_slashes (c ∷ s) then [] else c ∷ trim_right_slashes s

-- `escapePath`: a capital letter is a mark and the small letter.
unfoldable pub escape_path : Text → Text
escape_path [] = []
escape_path (c ∷ s) =
    if leb b'A' c && leb c b'Z' then b'!' ∷ (c + 32) ∷ escape_path s else c ∷ escape_path s
