-- ===== src/Policy/Roles/Exec.antt =====
-- Which modes reach COMMAND_EXEC, for the feasibility of a contract.
use mathlib.Core.Bool.{false≢true}
use code_fleet.Prelude.{
  ◌≡◌, ◌↔◌, refl, sym, subst, ◌∙◌, inl, inr, true, false, Text, text, ◌==◌, elem, pos, Bool-cases,
  arith,
}
use code_fleet.Policy.Roles.{lookup, harness_modes, rank, mode_rank, at_most, meet_mode}
use code_fleet.Policy.Roles.Modes.{mode_cases, meet_mode-cases}

rank_of_exec : mode_rank (text "COMMAND_EXEC") ≡ rank (pos 3)
unfolding mode_rank lookup ◌==◌
rank_of_exec = refl

exec_self : at_most (mode_rank (text "COMMAND_EXEC")) (mode_rank (text "COMMAND_EXEC")) ≡ true
unfolding at_most mode_rank lookup ◌==◌
exec_self = refl

mode_rank-exec :
    (mode : Text)
    → elem harness_modes mode ≡ true
    → at_most (rank (pos 3)) (mode_rank mode) ≡ true
    → mode ≡ text "COMMAND_EXEC"
unfolding at_most mode_rank lookup ◌==◌
mode_rank-exec mode known =
    mode_cases (λ x. at_most (rank (pos 3)) (mode_rank x) ≡ true → x ≡ text "COMMAND_EXEC")
      (λ h. absurd (false≢true h)) (λ h. absurd (false≢true h)) (λ h. absurd (false≢true h))
      (λ h. refl) mode known

below_exec :
    (mode : Text)
    → elem harness_modes mode ≡ true
    → at_most (mode_rank mode) (mode_rank (text "COMMAND_EXEC")) ≡ true
unfolding at_most mode_rank lookup ◌==◌
below_exec mode known =
    mode_cases (λ x. at_most (mode_rank x) (mode_rank (text "COMMAND_EXEC")) ≡ true) refl refl refl
      refl mode known

meet_of_exec :
    (a b : Text)
    → a ≡ text "COMMAND_EXEC"
    → b ≡ text "COMMAND_EXEC"
    → meet_mode a b ≡ text "COMMAND_EXEC"
meet_of_exec a b p q = elim (meet_mode-cases a b) [
  | inl (same, w) ↦ same ∙ p
  | inr (same, off) ↦ same ∙ q
]

other_rank :
    (mode : Text)
    → elem harness_modes mode ≡ false
    → at_most (rank (pos 3)) (mode_rank mode) ≡ false
unfolding elem at_most mode_rank lookup
other_rank mode h = ground arith

-- Only COMMAND_EXEC has the rank of COMMAND_EXEC.
exec_rank :
    (mode : Text) → at_most (rank (pos 3)) (mode_rank mode) ≡ true → mode ≡ text "COMMAND_EXEC"
exec_rank mode h = elim (Bool-cases (elem harness_modes mode)) [
  | inr unknown ↦ absurd (false≢true (sym (other_rank mode unknown) ∙ h))
  | inl known ↦ mode_rank-exec mode known h
]

exec_rank_iff :
    (mode : Text)
    → (at_most (mode_rank (text "COMMAND_EXEC")) (mode_rank mode) ≡ true)
      ↔ (mode ≡ text "COMMAND_EXEC")
exec_rank_iff mode = (
  λ h. exec_rank mode (subst (λ r. at_most r (mode_rank mode) ≡ true) rank_of_exec h),
  λ e.
      subst (λ x. at_most (mode_rank (text "COMMAND_EXEC")) (mode_rank x) ≡ true) (sym e) exec_self,
)

-- The meet of a mode of the harness with another mode reaches COMMAND_EXEC exactly when both are it.
pub exec_meet_iff :
    (a b : Text)
    → elem harness_modes a ≡ true
    → (at_most (mode_rank (text "COMMAND_EXEC")) (mode_rank (meet_mode a b)) ≡ true)
      ↔ ((a ≡ text "COMMAND_EXEC") × (b ≡ text "COMMAND_EXEC"))
exec_meet_iff a b k = (
  λ h.
      let exec = (exec_rank_iff (meet_mode a b)).0 h in
      elim (meet_mode-cases a b) [
        | inl (same, w) ↦
            let first : a ≡ text "COMMAND_EXEC" = sym same ∙ exec in
            (
              first,
              (exec_rank_iff b).0 (subst (λ x. at_most (mode_rank x) (mode_rank b) ≡ true) first w),
            )
        | inr (same, off) ↦
            let second : b ≡ text "COMMAND_EXEC" = sym same ∙ exec in
            absurd (
              false≢true (
                sym (subst (λ x. at_most (mode_rank a) (mode_rank x) ≡ false) second off)
                ∙ below_exec a k))
      ],
  λ both.
      let same : meet_mode a b ≡ text "COMMAND_EXEC" = meet_of_exec a b both.0 both.1 in
      (exec_rank_iff (meet_mode a b)).1 same,
)
