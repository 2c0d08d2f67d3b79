-- ===== src/Policy/Roles/Guardrails.antt =====
-- `resolveGuardrails` of src/agent-role.ts, and the bound on the mode that it gives.
mod Tests
use code_fleet.Prelude.{
  ◌≡◌, ◌↔◌, refl, sym, subst, ◌∙◌, Bool, true, false, not, Option, none, some, List, [], ◌∷◌, Text,
  text, ◌==◌, elem, Bool-cases, inl, inr, arith, if◌then◌else◌,
}
use code_fleet.Prelude.Json.{Json, null, boolean, number, string, array, object, Fields, get}
use code_fleet.Policy.Roles.{harness_modes, mode_rank, exceeds, meet_mode}
use code_fleet.Policy.Roles.Modes.{
  Within, Within-refl, Within-trans, exceeds-Within, meet_mode-Within,
}

pub data GuardrailBlock : Type 0 where
  mode_not_concrete mode_exceeds_ceiling : GuardrailBlock

pub record GuardrailResolution : Type 0 where
  pub mode : Text
  pub guardrail_block : Option GuardrailBlock

refused_mode : GuardrailBlock → GuardrailResolution
refused_mode reason = record { mode = []; guardrail_block = some reason }

granted_mode : Text → GuardrailResolution
granted_mode mode = record { mode = mode; guardrail_block = none }

-- `guardrails?.mode`
pub declared_mode : Option Fields → Option Json
declared_mode none = none
declared_mode (some guardrails) = get (text "mode") guardrails

pub resolve_declared : Option Json → Text → GuardrailResolution
unfolding refused_mode granted_mode
resolve_declared none ceiling = granted_mode ceiling
resolve_declared (some (string declared)) ceiling =
    if declared == text "REQUIRE_EXPLICIT"
    then refused_mode mode_not_concrete
    else if not (elem harness_modes declared)
    then refused_mode mode_not_concrete
    else if exceeds (mode_rank declared) (mode_rank ceiling)
    then refused_mode mode_exceeds_ceiling
    else granted_mode declared
resolve_declared (some _) ceiling = refused_mode mode_not_concrete

-- `resolveGuardrails`
pub resolve_guardrails :
    Option Fields → (role_max_mode profile_max_mode : Text) → GuardrailResolution
unfolding declared_mode
resolve_guardrails guardrails role_max_mode profile_max_mode =
    resolve_declared (declared_mode guardrails) (meet_mode role_max_mode profile_max_mode)

resolve_declared-string :
    (declared ceiling : Text)
    → (resolve_declared (some (string declared)) ceiling).guardrail_block ≡ none
    → (elem harness_modes declared ≡ true)
      × (exceeds (mode_rank declared) (mode_rank ceiling) ≡ false)
      × ((resolve_declared (some (string declared)) ceiling).mode ≡ declared)
unfolding resolve_declared refused_mode granted_mode
resolve_declared-string declared ceiling h = (ground arith, ground arith, ground arith)

-- What a guardrail that is granted says: nothing, which leaves the ceiling, or a mode within it.
abbrev pub Grants : Option Json → Text → Text → Type 0
Grants none ceiling granted = granted ≡ ceiling
Grants (some (string declared)) ceiling granted =
    (granted ≡ declared) × (elem harness_modes declared ≡ true) × Within declared ceiling
Grants (some _) ceiling granted = ⊥

resolve_declared-Grants :
    (declared : Option Json) (ceiling : Text)
    → elem harness_modes ceiling ≡ true
    → (resolve_declared declared ceiling).guardrail_block ≡ none
    → Grants declared ceiling ((resolve_declared declared ceiling).mode)
unfolding resolve_declared refused_mode granted_mode
resolve_declared-Grants none ceiling k h = refl
resolve_declared-Grants (some null) ceiling k h = cc
resolve_declared-Grants (some (boolean b)) ceiling k h = cc
resolve_declared-Grants (some (number n)) ceiling k h = cc
resolve_declared-Grants (some (array js)) ceiling k h = cc
resolve_declared-Grants (some (object fs)) ceiling k h = cc
resolve_declared-Grants (some (string declared)) ceiling k h =
    let (known, bound, same) = resolve_declared-string declared ceiling h in
    (same, known, (exceeds-Within declared ceiling known k).0 bound)

Grants-Within :
    (declared : Option Json) (ceiling granted : Text)
    → elem harness_modes ceiling ≡ true
    → Grants declared ceiling granted
    → (elem harness_modes granted ≡ true) × Within granted ceiling
Grants-Within none ceiling granted k h =
    subst (λ x. (elem harness_modes x ≡ true) × Within x ceiling) (sym h) (k, Within-refl ceiling k)
Grants-Within (some null) ceiling granted k h = absurd h
Grants-Within (some (boolean b)) ceiling granted k h = absurd h
Grants-Within (some (number n)) ceiling granted k h = absurd h
Grants-Within (some (array js)) ceiling granted k h = absurd h
Grants-Within (some (object fs)) ceiling granted k h = absurd h
Grants-Within (some (string declared)) ceiling granted k (same, known, within) =
    subst (λ x. (elem harness_modes x ≡ true) × Within x ceiling) (sym same) (known, within)

-- When the modes of the role and of the profile are modes of the harness and the guardrails are not
-- refused, the mode that they give is a mode of the harness within both, in the order DRY_RUN,
-- SUGGEST_ONLY, WORKSPACE_EDIT, COMMAND_EXEC, and it is the declared one, or the meet of the two if
-- none is declared.
pub resolve_guardrails-Within :
    (guardrails : Option Fields) (role_max_mode profile_max_mode : Text)
    → elem harness_modes role_max_mode ≡ true
    → elem harness_modes profile_max_mode ≡ true
    → (resolve_guardrails guardrails role_max_mode profile_max_mode).guardrail_block ≡ none
    → (elem harness_modes ((resolve_guardrails guardrails role_max_mode profile_max_mode).mode)
        ≡ true)
      × Within ((resolve_guardrails guardrails role_max_mode profile_max_mode).mode) role_max_mode
      × Within
          ((resolve_guardrails guardrails role_max_mode profile_max_mode).mode)
          profile_max_mode
      × Grants
          (declared_mode guardrails)
          (meet_mode role_max_mode profile_max_mode)
          ((resolve_guardrails guardrails role_max_mode profile_max_mode).mode)
unfolding resolve_guardrails
resolve_guardrails-Within guardrails role_max_mode profile_max_mode r p h =
    let ceiling = meet_mode role_max_mode profile_max_mode in
    let (known, of_role, of_profile) = meet_mode-Within role_max_mode profile_max_mode r p in
    let grants = resolve_declared-Grants (declared_mode guardrails) ceiling known h in
    let granted = (resolve_declared (declared_mode guardrails) ceiling).mode in
    let (mode_known, within) =
      Grants-Within (declared_mode guardrails) ceiling granted known grants in
    (
      mode_known,
      Within-trans granted ceiling role_max_mode mode_known known r within of_role,
      Within-trans granted ceiling profile_max_mode mode_known known p within of_profile,
      grants,
    )
