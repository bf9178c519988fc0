-- ===== src/Host/Names.antt =====
-- crates/kobako/src/snippet.rs and catalog.rs: the names that the registries accept. A name is its
-- UTF-8 bytes; a character past ASCII has only bytes from 128 on, which every test refuses as the
-- source refuses the character.
use kobako.Common.{
  ℕ, Bool, true, false, List, [], ◌∷◌, ◌++◌, ◌&&◌, ◌||◌, length, leb, ◌==◌, bytes_eq, codes,
}

abbrev pub max_symbol_len : ℕ
max_symbol_len = 65534

abbrev pub reserved_namespace : List ℕ
reserved_namespace = codes "Kobako"

abbrev pub is_ascii_uppercase : ℕ → Bool
is_ascii_uppercase c = leb 65 c && leb c 90

abbrev pub is_ascii_lowercase : ℕ → Bool
is_ascii_lowercase c = leb 97 c && leb c 122

abbrev pub is_ascii_digit : ℕ → Bool
is_ascii_digit c = leb 48 c && leb c 57

abbrev pub is_ascii_alphanumeric : ℕ → Bool
is_ascii_alphanumeric c = is_ascii_uppercase c || is_ascii_lowercase c || is_ascii_digit c

abbrev pub all {ℓ} : {A : Type ℓ} → (A → Bool) → List A → Bool
all f [] = true
all f (x ∷ xs) = f x && all f xs

abbrev pub word_char : ℕ → Bool
word_char c = is_ascii_alphanumeric c || c == 95

abbrev pub starts_upper : List ℕ → Bool
starts_upper [] = false
starts_upper (c ∷ cs) = is_ascii_uppercase c && all word_char cs

unfoldable pub is_constant_name : List ℕ → Bool
is_constant_name name = leb (length name) max_symbol_len && starts_upper name

abbrev pub push_front : ℕ → List (List ℕ) → List (List ℕ)
push_front c [] = (c ∷ []) ∷ []
push_front c (segment ∷ rest) = (c ∷ segment) ∷ rest

-- `split("::")`: the separators are taken from the left.
unfoldable pub split : List ℕ → List (List ℕ)
split [] = [] ∷ []
split (c ∷ []) = (c ∷ []) ∷ []
split (c ∷ d ∷ rest) = elim (c == 58 && d == 58) [
  | true ↦ [] ∷ split rest
  | false ↦ push_front c (split (d ∷ rest))
]

unfoldable pub is_constant_path : List ℕ → Bool
unfolding split is_constant_name
is_constant_path path = all is_constant_name (split path)

abbrev pub head_is : List ℕ → List (List ℕ) → Bool
head_is name [] = false
head_is name (segment ∷ rest) = bytes_eq segment name

unfoldable pub is_reserved : List ℕ → Bool
unfolding split
is_reserved path = head_is reserved_namespace (split path)

-- `str::starts_with`
abbrev pub starts_with : List ℕ → List ℕ → Bool
starts_with xs [] = true
starts_with [] (y ∷ ys) = false
starts_with (x ∷ xs) (y ∷ ys) = x == y && starts_with xs ys

-- `{path}::`
abbrev pub under : List ℕ → List ℕ
under path = path ++ codes "::"
