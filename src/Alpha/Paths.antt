-- ===== src/Alpha/Paths.antt =====
-- The path and name patterns of src/alpha/contract.mjs, each regular expression as a test.
use code_fleet.Prelude.{
  ℕ, Bool, false, not, ◌&&◌, ◌||◌, none, some, List, [], ◌∷◌, ◌++◌, Text, text, ◌==◌, elem, any,
  all, length, nat_eq, between, is_digit, is_alpha, is_word, is_space, lower, starts_with,
  ends_with, strip_prefix, cut, contains, split, if◌then◌else◌,
}

-- `/^(con|prn|aux|nul|com[0-9]|lpt[0-9])(\.|$)/i`, on the text before the first dot
reserved_stem : Text → Bool
reserved_stem stem =
    let s = lower stem in
    elem (text "con" ∷ text "prn" ∷ text "aux" ∷ text "nul" ∷ []) s
    || any (λ d. s == text "com" ++ d ∷ [] || s == text "lpt" ++ d ∷ []) (text "0123456789")

stem : Text → Text
stem p = elim (split b'.' p) [ [] ↦ [] | s ∷ rest ↦ s ]

abbrev path_char : ℕ → Bool
path_char c = is_word c || nat_eq c b'.' || nat_eq c b'/' || nat_eq c b'-'

good_segment : Text → Bool
good_segment p = not (
    p == []
    || p == text "."
    || p == text ".."
    || starts_with (text ".") p
    || ends_with (text ".") p
    || reserved_stem (stem p))

-- `filePath` throws unless this holds.
unfoldable pub file_path : Text → Bool
unfolding good_segment reserved_stem stem
file_path v =
    not (v == [])
    && all path_char v
    && not (starts_with (text "/") v)
    && all good_segment (split b'/' v)

abbrev is_hex : ℕ → Bool
is_hex c = is_digit c || between b'a' b'f' c

-- `/^sha256:[a-f0-9]{64}$/`
unfoldable pub image_id : Text → Bool
image_id t = elim (strip_prefix (text "sha256:") t) [
  | some hex ↦ nat_eq (length hex) 64 && all is_hex hex
  | none ↦ false
]

abbrev script_endings : List Text
script_endings = text ".mjs" ∷ text ".cjs" ∷ text ".js" ∷ text ".ts" ∷ []

-- `/(^|\/)(test|tests|__tests__)(\/|$)|\.(test|spec)\./i`
test_like : Text → Bool
test_like f =
    let l = lower f in
    any (elem (text "test" ∷ text "tests" ∷ text "__tests__" ∷ [])) (split b'/' l)
    || contains (text ".test.") l
    || contains (text ".spec.") l

unfoldable pub editable_file : Bool → Text → Text → Bool
unfolding test_like
editable_file java prefix file =
    if java
    then starts_with (prefix ++ text "src/main/java/") file && ends_with (text ".java") file
    else starts_with (text "src/") file
      && any (λ e. ends_with e file) script_endings
      && not (test_like file)

-- `[A-Za-z_$][\w$]*`
java_name : Text → Bool
java_name [] = false
java_name (c ∷ s) =
    (is_alpha c || nat_eq c b'_' || nat_eq c b'$') && all (λ d. is_word d || nat_eq d b'$') s

java_test : Text → Bool
unfolding java_name
java_test rest = elim (cut (text ".java") rest) [
  | some (path, []) ↦ all java_name (split b'/' path)
  | other ↦ false
]

-- `/^(test|tests)\/.*\.(test|spec)\.(mjs|cjs|js|ts)$/`
script_test : Text → Bool
script_test t =
    any
      (λ dir. elim (strip_prefix dir t) [
        | none ↦ false
        | some rest ↦
            any (λ e. ends_with (text ".test" ++ e) rest || ends_with (text ".spec" ++ e) rest)
              script_endings
      ])
      (text "test/" ∷ text "tests/" ∷ [])

unfoldable pub test_file : Bool → Text → Text → Bool
unfolding java_test script_test java_name
test_file java prefix test =
    if java
    then elim (strip_prefix (prefix ++ text "src/test/java/") test) [
      | some rest ↦ java_test rest
      | none ↦ false
    ]
    else script_test test

-- `/^[A-Za-z0-9_.-]+\/[A-Za-z0-9_.-]+$/`
unfoldable pub repository_name : Text → Bool
repository_name t = elim (split b'/' t) [ a ∷ b ∷ [] ↦ all repo_part (a ∷ b ∷ []) | other ↦ false ]
  where
    repo_part : Text → Bool
    repo_part p = not (p == []) && all (λ c. is_word c || nat_eq c b'.' || nat_eq c b'-') p

-- `/^[A-Za-z0-9][A-Za-z0-9_/-]*$/`, and no `..`
unfoldable pub base_name : Text → Bool
base_name [] = false
base_name (c ∷ s) =
    (is_alpha c || is_digit c)
    && all (λ d. is_word d || nat_eq d b'/' || nat_eq d b'-') s
    && not (contains (text "..") (c ∷ s))

-- `/^[^\s<>@]+@[^\s<>@]+\.[^\s<>@]+$/`
mail_char : ℕ → Bool
unfolding is_space
mail_char c = not (is_space c || nat_eq c b'<' || nat_eq c b'>' || nat_eq c b'@')

inner_dot : Text → Bool
inner_dot (a ∷ s) = elim s [ b ∷ c ∷ r ↦ nat_eq b b'.' || inner_dot s | other ↦ false ]
inner_dot [] = false

unfoldable pub mail_address : Text → Bool
unfolding mail_char inner_dot
mail_address t = elim (split b'@' t) [
  | a ∷ d ∷ [] ↦ not (a == []) && all mail_char a && all mail_char d && inner_dot d
  | other ↦ false
]
