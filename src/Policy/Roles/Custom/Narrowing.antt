-- ===== src/Policy/Roles/Custom/Narrowing.antt =====
-- A custom role without findings narrows a core role.
use mathlib.Core.Bool.{false≢true}
use code_fleet.Prelude.{
  ◌≡◌, ◌≢◌, inl, inr, refl, sym, subst, ap, ◌∙◌, true, not, none, some, List, [], ◌∷◌, ◌++◌, Text,
  text, elem, keep, append-nil_iff, All, Option-cases, Result, ok, ◌>>=◌, >>=-eq-ok, arith,
}
use code_fleet.Prelude.Json.{
  Json, null, boolean, number, string, array, object, Fields, keys_of, get,
}
use code_fleet.Policy.Roles.{
  Property, own, inherited, lookup, core_destructive_categories, AgentRole, agent_role_fields,
  core_agent_roles, harness_modes,
}
use code_fleet.Policy.Roles.Modes.{Within, exceeds-Within}
use code_fleet.Policy.Roles.Custom.{
  unknown_base, unexpected_keys, finding, unexpected_findings, mode_findings, categories_of,
  TypeError, denied_findings, guidance_findings, base_mode, base_denied, base_of,
  validate_custom_role,
}
use code_fleet.Policy.Roles.Custom.Stages.{
  core_mode-known, listed-nil, keep-not_nil, mode_findings-string, undefined_exceeded,
  denied_findings-own, base_of-some,
}

-- A role of exactly the expected fields, based on a core role: with a mode within that of the base, with
-- core categories that include those of the base, and with guidance, if any, that is text.
pub record Narrows (j : Json) (base : AgentRole) : Type 0 where
  pub role : Fields
  pub is_object : j ≡ object role
  pub fields_known :
      All (λ k. elem (agent_role_fields ++ text "baseRole" ∷ []) k ≡ true) (keys_of role)
  pub base_name : Text
  pub base_given : get (text "baseRole") role ≡ some (string base_name)
  pub base_core : lookup base_name core_agent_roles ≡ some (own base)
  pub max_mode : Text
  pub mode_given : get (text "defaultMaxMode") role ≡ some (string max_mode)
  pub mode_known : elem harness_modes max_mode ≡ true
  pub mode_within : Within max_mode base.default_max_mode
  pub denied : List Text
  pub denied_given : categories_of (get (text "deniedCommandCategories") role) ≡ some denied
  pub denied_core : All (λ c. elem core_destructive_categories c ≡ true) denied
  pub denied_superset : All (λ c. elem denied c ≡ true) base.denied_command_categories

ok_inj : {A : Type 0} {a b : A} → ◌≡◌ {A = Result TypeError A} (ok a) (ok b) → a ≡ b
ok_inj h = cc

-- The findings of a role whose base was found
found_base :
    (role : Fields) (pointer : Text) (base : Property AgentRole)
    → base_of (get (text "baseRole") role) ≡ some base
    → validate_custom_role (object role) pointer ≡ ok []
    → (unexpected_findings pointer role ≡ [])
      × (mode_findings pointer (base_mode base) (get (text "defaultMaxMode") role) ≡ [])
      × (denied_findings pointer (base_denied base) (get (text "deniedCommandCategories") role)
          ≡ ok [])
unfolding validate_custom_role
found_base role pointer base e h =
    let block : (denied_findings pointer (base_denied base)
            (get (text "deniedCommandCategories") role)
          >>= λ denied. ok (
              unexpected_findings pointer role
              ++ (mode_findings pointer (base_mode base) (get (text "defaultMaxMode") role)
                  ++ (denied ++ guidance_findings pointer (get (text "roleGuidance") role)))))
        ≡ ok [] =
      ground arith in
    let (denied, done, rest) =
      >>=-eq-ok
        (denied_findings pointer (base_denied base) (get (text "deniedCommandCategories") role))
        (λ denied. ok (
          unexpected_findings pointer role
          ++ (mode_findings pointer (base_mode base) (get (text "defaultMaxMode") role)
              ++ (denied ++ guidance_findings pointer (get (text "roleGuidance") role)))))
        block in
    let (unexpected, later) =
      (append-nil_iff (unexpected_findings pointer role) (
          mode_findings pointer (base_mode base) (get (text "defaultMaxMode") role)
          ++ (denied ++ guidance_findings pointer (get (text "roleGuidance") role)))).0
        (ok_inj rest) in
    let (mode, last) =
      (append-nil_iff (mode_findings pointer (base_mode base) (get (text "defaultMaxMode") role))
          (denied ++ guidance_findings pointer (get (text "roleGuidance") role))).0
        later in
    let (none_denied, guidance) =
      (append-nil_iff denied (guidance_findings pointer (get (text "roleGuidance") role))).0 last in
    (unexpected, mode, done ∙ ap ok none_denied)

no_base :
    (role : Fields) (pointer : Text)
    → base_of (get (text "baseRole") role) ≡ none
    → validate_custom_role (object role) pointer ≢ ok []
unfolding validate_custom_role finding
no_base role pointer e h =
    let all : unexpected_findings pointer role ++ finding (pointer ++ text "/baseRole") unknown_base
        ≡ [] =
      ground arith in
    let (a, b) =
      (append-nil_iff (unexpected_findings pointer role)
          (finding (pointer ++ text "/baseRole") unknown_base)).0
        all in
    cc

not_object :
    (j : Json) (pointer : Text)
    → validate_custom_role j pointer ≡ ok []
    → (role : Fields) × (j ≡ object role)
unfolding validate_custom_role finding
not_object null pointer h = cc
not_object (boolean b) pointer h = cc
not_object (number n) pointer h = cc
not_object (string s) pointer h = cc
not_object (array js) pointer h = cc
not_object (object role) pointer h = (role, refl)

object-Narrows :
    (role : Fields) (pointer : Text) (found : Property AgentRole)
    → base_of (get (text "baseRole") role) ≡ some found
    → validate_custom_role (object role) pointer ≡ ok []
    → (base : AgentRole) × Narrows (object role) base
unfolding unexpected_findings base_mode base_denied
object-Narrows role pointer inherited e h =
    let (unexpected, mode_ok, denied_ok) = found_base role pointer inherited e h in
    let (mode, given, known, within) =
      mode_findings-string pointer (text "undefined") (get (text "defaultMaxMode") role) mode_ok in
    absurd (false≢true (sym within ∙ undefined_exceeded mode known))
object-Narrows role pointer (own base) e h =
    let (unexpected, mode_ok, denied_ok) = found_base role pointer (own base) e h in
    let (mode, given, known, within) =
      mode_findings-string pointer base.default_max_mode (get (text "defaultMaxMode") role)
        mode_ok in
    let (denied, d_given, d_core, d_superset) =
      denied_findings-own pointer base.denied_command_categories
        (get (text "deniedCommandCategories") role) denied_ok in
    let (name, n_given, n_core) = base_of-some (get (text "baseRole") role) (own base) e in
    (
      base,
      record {
        role = role;
        is_object = refl;
        fields_known =
            keep-not_nil (elem (agent_role_fields ++ text "baseRole" ∷ [])) (keys_of role) (
              listed-nil pointer unexpected_keys
                (keep (λ k. not (elem (agent_role_fields ++ text "baseRole" ∷ []) k))
                  (keys_of role))
                unexpected);
        base_name = name;
        base_given = n_given;
        base_core = n_core;
        max_mode = mode;
        mode_given = given;
        mode_known = known;
        mode_within =
            (exceeds-Within mode base.default_max_mode known (core_mode-known name base n_core)).0
              within;
        denied = denied;
        denied_given = d_given;
        denied_core = d_core;
        denied_superset = d_superset;
      },
    )

-- If a custom role is validated without findings, it has only the expected fields, names a core role as
-- its base, has a mode of the harness within that of the base, and denies only core categories, those
-- of the base included.
pub validate_custom_role-Narrows :
    (value : Json) (pointer : Text)
    → validate_custom_role value pointer ≡ ok []
    → (base : AgentRole) × Narrows value base
validate_custom_role-Narrows value pointer h =
    let (role, e) = not_object value pointer h in
    let at_role : validate_custom_role (object role) pointer ≡ ok [] =
      subst (λ j. validate_custom_role j pointer ≡ ok []) e h in
    elim (Option-cases (base_of (get (text "baseRole") role))) [
      | inl absent ↦ absurd (no_base role pointer absent at_role)
      | inr (found, given) ↦
          let (base, n) = object-Narrows role pointer found given at_role in
          (base, subst (λ j. Narrows j base) (sym e) n)
    ]
