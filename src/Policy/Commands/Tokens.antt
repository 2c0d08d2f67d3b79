-- ===== src/Policy/Commands/Tokens.antt =====
-- When a command matches an entry.
use code_fleet.Prelude.{
  ◌≤◌, ◌≡◌, ◌≢◌, ◌↔◌, refl, sym, ap, ◌∙◌, Bool, true, false, List, [], ◌∷◌, ◌++◌, Text, ==_iff,
  length, length-append, arith,
}
use code_fleet.Policy.Commands.{
  MatchMode, prefix, exact, CommandMatcher, every_token, is_exact, mode_of, folded, matches_tokens,
  matches_command,
}

every_token_iff :
    (pattern target : List Text)
    → (every_token pattern target ≡ true) ↔ ((rest : List Text) × (target ≡ pattern ++ rest))
unfolding every_token
every_token_iff [] target = (λ h. (target, refl), λ h. refl)
every_token_iff (t ∷ ts) [] = (λ h. cc, λ h. cc)
every_token_iff (t ∷ ts) (u ∷ us) =
    let (to, from) = every_token_iff ts us in
    let (same_to, same_from) = ==_iff u t in
    (
      λ h. let (rest, e) = to (ground arith) in let same = same_to (ground arith) in (rest, cc),
      λ h. let (rest, e) = h in let k = from (rest, cc) in let same = same_from cc in ground arith,
    )

length_le : (pattern rest : List Text) → length pattern ≤ length (pattern ++ rest)
length_le pattern rest = omega (arith, length-append pattern rest)

rest_nil : (pattern rest : List Text) → length (pattern ++ rest) ≡ length pattern → rest ≡ []
rest_nil pattern [] h = refl
rest_nil pattern (r ∷ rest) h = absurd (omega (arith, length-append pattern (r ∷ rest)))

-- The target is the pattern, which is not empty, followed by any tokens, by none if the mode is EXACT.
abbrev pub Invokes : MatchMode → List Text → List Text → Type 0
Invokes mode pattern target =
    (pattern ≢ []) × (rest : List Text) × (target ≡ pattern ++ rest) × (mode ≡ exact → rest ≡ [])

matches_tokens-exact :
    (mode : MatchMode) (t : Text) (ts target rest : List Text)
    → matches_tokens mode (t ∷ ts) target ≡ true
    → target ≡ (t ∷ ts) ++ rest
    → mode ≡ exact
    → rest ≡ []
unfolding matches_tokens is_exact
matches_tokens-exact prefix t ts target rest h e m = cc
matches_tokens-exact exact t ts target rest h e m =
    let same : length target ≡ length (t ∷ ts) = ground arith in
    rest_nil (t ∷ ts) rest (ap length (sym e) ∙ same)

matches_tokens-every :
    (mode : MatchMode) (pattern target : List Text)
    → matches_tokens mode pattern target ≡ true
    → every_token pattern target ≡ true
unfolding matches_tokens
matches_tokens-every mode pattern target h = ground arith

matches_tokens-intro :
    (mode : MatchMode) (t : Text) (ts target rest : List Text)
    → target ≡ (t ∷ ts) ++ rest
    → (mode ≡ exact → rest ≡ [])
    → matches_tokens mode (t ∷ ts) target ≡ true
unfolding matches_tokens is_exact
matches_tokens-intro prefix t ts target rest e m =
    let fits = (every_token_iff (t ∷ ts) target).1 (rest, e) in
    let long = length_le (t ∷ ts) rest in let same = ap length e in ground arith
matches_tokens-intro exact t ts target rest e m =
    let fits = (every_token_iff (t ∷ ts) target).1 (rest, e) in
    let long = length_le (t ∷ ts) rest in
    let same = ap length e in
    let none_left = m refl in
    let all = length-append (t ∷ ts) rest in
    let zero_left : length rest ≡ 0 = ap length none_left in ground arith

matches_tokens_iff :
    (mode : MatchMode) (pattern target : List Text)
    → (matches_tokens mode pattern target ≡ true) ↔ Invokes mode pattern target
matches_tokens_iff mode [] target =
    (λ h. let never : false ≡ true = unfold matches_tokens in h in cc, λ h. absurd (h.0 refl))
matches_tokens_iff mode (t ∷ ts) target = (
  λ h.
      let (rest, e) =
        (every_token_iff (t ∷ ts) target).0 (matches_tokens-every mode (t ∷ ts) target h) in
      (λ d. cc, rest, e, matches_tokens-exact mode t ts target rest h e),
  λ h. let (given, rest, e, m) = h in matches_tokens-intro mode t ts target rest e m,
)

module _ (to_lower : Text → Text) where
  -- The tokens of the command invoke those of the entry, all in lower case unless the comparison is
  -- case-sensitive.
  abbrev pub MatchesEntry : Bool → List Text → CommandMatcher → Type 0
  MatchesEntry case_sensitive argv entry =
      Invokes (mode_of entry) (folded to_lower case_sensitive entry.argv)
        (folded to_lower case_sensitive argv)

  -- `matchesCommand` holds exactly when the tokens of the command are those of the entry, which has at
  -- least one, followed by any others, by none if the entry is exact; compared in lower case unless
  -- the comparison is case-sensitive.
  pub matches_command_iff :
      (argv : List Text) (entry : CommandMatcher) (case_sensitive : Bool)
      → (matches_command to_lower argv entry case_sensitive ≡ true)
        ↔ MatchesEntry case_sensitive argv entry
  unfolding matches_command
  matches_command_iff argv entry case_sensitive =
      matches_tokens_iff (mode_of entry) (folded to_lower case_sensitive entry.argv)
        (folded to_lower case_sensitive argv)
