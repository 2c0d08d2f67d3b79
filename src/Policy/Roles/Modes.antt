-- ===== src/Policy/Roles/Modes.antt =====
-- The ranks of the four modes, and the meet of two of them.
use mathlib.Core.Bool.{false≢true}
use code_fleet.Prelude.{
  ℕ, ◌≤◌, ◌≡◌, ◌⊎◌, ◌↔◌, refl, sym, subst, ◌∙◌, inl, inr, Bool, true, false, ◌&&◌, ◌||◌, [], ◌∷◌,
  Text, text, ◌==◌, ==_iff, elem, pos, Bool-cases, arith,
}
use code_fleet.Policy.Roles.{lookup, harness_modes, rank, mode_rank, at_most, exceeds, meet_mode}

-- A mode of the harness has one of the four ranks.
pub mode_rank-known :
    (mode : Text)
    → elem harness_modes mode ≡ true
    → (n : ℕ) × (mode_rank mode ≡ rank (pos n)) × (n ≤ 3)
unfolding elem mode_rank lookup
mode_rank-known mode h = elim (Bool-cases (text "DRY_RUN" == mode)) [
  | inl is ↦ (0, ground arith, omega arith)
  | inr a ↦ elim (Bool-cases (text "SUGGEST_ONLY" == mode)) [
    | inl is ↦ (1, ground arith, omega arith)
    | inr b ↦ elim (Bool-cases (text "WORKSPACE_EDIT" == mode)) [
      | inl is ↦ (2, ground arith, omega arith)
      | inr c ↦ (3, ground arith, omega arith)
    ]
  ]
]

-- Where each mode is at least as narrow as the bound: DRY_RUN, then SUGGEST_ONLY, then WORKSPACE_EDIT,
-- then COMMAND_EXEC.
abbrev pub is_within : Text → Text → Bool
is_within mode bound =
    (mode == text "DRY_RUN" && elem harness_modes bound)
    || (mode == text "SUGGEST_ONLY"
        && elem (text "SUGGEST_ONLY" ∷ text "WORKSPACE_EDIT" ∷ text "COMMAND_EXEC" ∷ []) bound)
    || (mode == text "WORKSPACE_EDIT"
        && elem (text "WORKSPACE_EDIT" ∷ text "COMMAND_EXEC" ∷ []) bound)
    || (mode == text "COMMAND_EXEC" && bound == text "COMMAND_EXEC")

-- The mode is a mode of the harness that is no wider than the bound, which is one too.
abbrev pub Within : Text → Text → Type 0
Within mode bound = is_within mode bound ≡ true

-- The mode is of rank at most that of the bound.
abbrev pub Ranked : Text → Text → Type 0
Ranked mode bound = at_most (mode_rank mode) (mode_rank bound) ≡ true

pub mode_cases :
    (P : Text → Type 0)
    → P (text "DRY_RUN")
    → P (text "SUGGEST_ONLY")
    → P (text "WORKSPACE_EDIT")
    → P (text "COMMAND_EXEC")
    → (mode : Text) → elem harness_modes mode ≡ true
    → P mode
unfolding elem
mode_cases P p q r s mode h = elim (Bool-cases (text "DRY_RUN" == mode)) [
  | inl is ↦ subst P ((==_iff (text "DRY_RUN") mode).0 is) p
  | inr a ↦ elim (Bool-cases (text "SUGGEST_ONLY" == mode)) [
    | inl is ↦ subst P ((==_iff (text "SUGGEST_ONLY") mode).0 is) q
    | inr b ↦ elim (Bool-cases (text "WORKSPACE_EDIT" == mode)) [
      | inl is ↦ subst P ((==_iff (text "WORKSPACE_EDIT") mode).0 is) r
      | inr c ↦ subst P ((==_iff (text "COMMAND_EXEC") mode).0 (ground arith)) s
    ]
  ]
]

-- The order of the ranks is that of the modes.
rank-is_within :
    (a b : Text)
    → elem harness_modes a ≡ true
    → elem harness_modes b ≡ true
    → at_most (mode_rank a) (mode_rank b) ≡ is_within a b
unfolding at_most mode_rank lookup elem ◌==◌
rank-is_within a b ka kb =
    mode_cases (λ x. at_most (mode_rank x) (mode_rank b) ≡ is_within x b)
      (mode_cases
        (λ y. at_most (mode_rank (text "DRY_RUN")) (mode_rank y) ≡ is_within (text "DRY_RUN") y)
        refl refl refl refl b kb)
      (mode_cases
        (λ y.
          at_most (mode_rank (text "SUGGEST_ONLY")) (mode_rank y)
          ≡ is_within (text "SUGGEST_ONLY") y)
        refl refl refl refl b kb)
      (mode_cases
        (λ y.
          at_most (mode_rank (text "WORKSPACE_EDIT")) (mode_rank y)
          ≡ is_within (text "WORKSPACE_EDIT") y)
        refl refl refl refl b kb)
      (mode_cases
        (λ y.
          at_most (mode_rank (text "COMMAND_EXEC")) (mode_rank y)
          ≡ is_within (text "COMMAND_EXEC") y)
        refl refl refl refl b kb)
      a ka

Ranked-Within :
    (a b : Text)
    → elem harness_modes a ≡ true
    → elem harness_modes b ≡ true
    → (Ranked a b) ↔ Within a b
Ranked-Within a b ka kb = let e = rank-is_within a b ka kb in (λ h. sym e ∙ h, λ h. e ∙ h)

at_most-known : (m n : ℕ) → (at_most (rank (pos m)) (rank (pos n)) ≡ true) ↔ (m ≤ n)
unfolding at_most
at_most-known m n = (λ h. ground arith, λ h. ground arith)

ranks_iff :
    (a b : Text) (m n : ℕ)
    → mode_rank a ≡ rank (pos m)
    → mode_rank b ≡ rank (pos n)
    → (Ranked a b) ↔ (m ≤ n)
ranks_iff a b m n e f =
    let (to, from) = at_most-known m n in
    let same : at_most (mode_rank a) (mode_rank b) ≡ at_most (rank (pos m)) (rank (pos n)) = cc in
    (λ h. to (sym same ∙ h), λ h. same ∙ from h)

pub Within-refl : (a : Text) → elem harness_modes a ≡ true → Within a a
Within-refl a k =
    let (m, e, bound) = mode_rank-known a k in
    (Ranked-Within a a k k).0 ((ranks_iff a a m m e e).1 (omega arith))

pub Within-trans :
    (a b c : Text)
    → elem harness_modes a ≡ true
    → elem harness_modes b ≡ true
    → elem harness_modes c ≡ true
    → Within a b
    → Within b c
    → Within a c
Within-trans a b c ka kb kc h k =
    let (m, em, lm) = mode_rank-known a ka in
    let (n, en, ln) = mode_rank-known b kb in
    let (o, eo, lo) = mode_rank-known c kc in
    let first = (ranks_iff a b m n em en).0 ((Ranked-Within a b ka kb).1 h) in
    let second = (ranks_iff b c n o en eo).0 ((Ranked-Within b c kb kc).1 k) in
    (Ranked-Within a c ka kc).0 ((ranks_iff a c m o em eo).1 (omega arith))

-- A mode that does not exceed the bound is within it.
pub exceeds-Within :
    (a b : Text)
    → elem harness_modes a ≡ true
    → elem harness_modes b ≡ true
    → (exceeds (mode_rank a) (mode_rank b) ≡ false) ↔ Within a b
unfolding exceeds at_most
exceeds-Within a b ka kb =
    let (m, em, lm) = mode_rank-known a ka in
    let (n, en, ln) = mode_rank-known b kb in
    let same = Ranked-Within a b ka kb in
    (λ h. same.0 (ground arith), λ h. let r = same.1 h in ground arith)

flip_le : (m n : ℕ) → ¬ (m ≤ n) → n ≤ m
flip_le m n h = ground arith

pub meet_mode-cases :
    (a b : Text)
    → ((meet_mode a b ≡ a) × Ranked a b)
      ⊎ ((meet_mode a b ≡ b) × (at_most (mode_rank a) (mode_rank b) ≡ false))
unfolding meet_mode
meet_mode-cases a b = elim (Bool-cases (at_most (mode_rank a) (mode_rank b))) [
  | inl left ↦ inl (ground arith, left)
  | inr right ↦ inr (ground arith, right)
]

-- The meet of two modes of the harness is one of them, and within both.
pub meet_mode-Within :
    (a b : Text)
    → elem harness_modes a ≡ true
    → elem harness_modes b ≡ true
    → (elem harness_modes (meet_mode a b) ≡ true)
      × Within (meet_mode a b) a
      × Within (meet_mode a b) b
meet_mode-Within a b ka kb =
    let (m, em, lm) = mode_rank-known a ka in
    let (n, en, ln) = mode_rank-known b kb in
    elim (meet_mode-cases a b) [
      | inl (e, w) ↦
          let self = Within-refl a ka in
          subst (λ x. (elem harness_modes x ≡ true) × Within x a × Within x b) (sym e)
            (ka, self, (Ranked-Within a b ka kb).0 w)
      | inr (e, off) ↦
          let self = Within-refl b kb in
          let (to, from) = ranks_iff a b m n em en in
          let more : n ≤ m = flip_le m n (λ h. false≢true (sym off ∙ from h)) in
          subst (λ x. (elem harness_modes x ≡ true) × Within x a × Within x b) (sym e)
            (kb, (Ranked-Within b a kb ka).0 ((ranks_iff b a n m en em).1 more), self)
    ]
