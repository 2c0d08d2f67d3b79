-- ===== src/Policy/Roles/Resolved.antt =====
-- `resolveAgentRole` of src/agent-role.ts, and when it gives a role.
mod Tests
use code_fleet.Prelude.{
  ◌≡◌, ◌≢◌, ◌⊎◌, ◌↔◌, refl, sym, ap, ◌∙◌, inl, inr, Bool, true, false, not, ◌&&◌, Option, none,
  some, List, [], ◌∷◌, Text, text, ◌==◌, ==_iff, elem, All, Bool-cases, not_true, Option-cases,
  arith, if◌then◌else◌,
}
use code_fleet.Prelude.Json.{}
use code_fleet.Policy.Roles.{
  Property, own, inherited, lookup, object_members, AgentRole, core_agent_roles,
}
use code_fleet.Policy.Roles.Lookup.{
  Entry, Missing, differs_iff, lookup-own, Entry-lookup, lookup-inherited, lookup-none,
  Missing-lookup,
}

pub record CustomRole : Type 0 where
  pub role : AgentRole
  pub base_role : Text

pub data RoleSource : Type 0 where
  core profile_custom unresolved : RoleSource

pub data RoleBlock : Type 0 where
  no_concrete_role unknown_role not_allowed_role : RoleBlock

pub record RoleResolution : Type 0 where
  pub role_id : Text
  pub resolved_role : Option (Property AgentRole)
  pub source : RoleSource
  pub blocked_reason : Option RoleBlock

unresolved_role : Text → RoleBlock → RoleResolution
unresolved_role id reason = record {
  role_id = id;
  resolved_role = none;
  source = unresolved;
  blocked_reason = some reason;
}

resolved_as : Text → RoleSource → Property AgentRole → RoleResolution
resolved_as id source role = record {
  role_id = id;
  resolved_role = some role;
  source = source;
  blocked_reason = none;
}

-- A custom role is an agent role too.
pub as_role : Property CustomRole → Property AgentRole
as_role (own custom) = own custom.role
as_role inherited = inherited

-- `custom ?? core`, with its source
pub role_named : Text → List (Text × CustomRole) → Option (RoleSource × Property AgentRole)
unfolding as_role
role_named id custom_roles = elim (lookup id custom_roles) [
  | some custom ↦ some (profile_custom, as_role custom)
  | none ↦ elim (lookup id core_agent_roles) [ none ↦ none | some role ↦ some (core, role) ]
]

is_nil : List Text → Bool
is_nil [] = true
is_nil (_ ∷ _) = false

-- `resolveAgentRole`
pub resolve_agent_role : Option Text → List Text → List (Text × CustomRole) → RoleResolution
unfolding unresolved_role resolved_as is_nil
resolve_agent_role none allowed custom_roles = unresolved_role [] no_concrete_role
resolve_agent_role (some task_role) allowed custom_roles =
    if task_role == []
    then unresolved_role task_role no_concrete_role
    else if task_role == text "REQUIRE_EXPLICIT"
    then unresolved_role task_role no_concrete_role
    else elim (role_named task_role custom_roles) [
      | none ↦ unresolved_role task_role unknown_role
      | some (source, role) ↦
          if not (is_nil allowed) && not (elem allowed task_role)
          then unresolved_role task_role not_allowed_role
          else resolved_as task_role source role
    ]

-- The role that a name stands for: an entry of the custom roles; or, for a name that is not one but a
-- member that every object inherits, that member, which is no role; or else a core role.
abbrev pub Names : List (Text × CustomRole) → Text → Property AgentRole → Type 0
Names custom_roles name role =
    ((custom : CustomRole) × (Entry name custom_roles custom × (role ≡ own custom.role)))
    ⊎ (Missing name custom_roles × (elem object_members name ≡ true) × (role ≡ inherited))
    ⊎ (Missing name custom_roles
        × (elem object_members name ≡ false)
        × ((core_role : AgentRole) × (Entry name core_agent_roles core_role
              × (role ≡ own core_role))))

role_named-Names :
    (name : Text) (custom_roles : List (Text × CustomRole)) (source : RoleSource)
    (role : Property AgentRole)
    → role_named name custom_roles ≡ some (source, role)
    → Names custom_roles name role
unfolding role_named as_role
role_named-Names name custom_roles source role h = elim (Option-cases (lookup name custom_roles)) [
  | inr (own custom, e) ↦ inl (custom, (lookup-own name custom_roles custom e, ground arith))
  | inr (inherited, e) ↦
      let (missing, member) = lookup-inherited name custom_roles e in
      inr (inl (missing, member, ground arith))
  | inl absent ↦ elim (Option-cases (lookup name core_agent_roles)) [
    | inl none_core ↦ absurd (ground arith)
    | inr (own found, e) ↦
        let (missing, not_member) = lookup-none name custom_roles absent in
        inr (
          inr (
            missing,
            not_member,
            (found, (lookup-own name core_agent_roles found e, ground arith)),
          ))
    | inr (inherited, e) ↦
        let (missing, not_member) = lookup-none name custom_roles absent in
        let (missing_core, member) = lookup-inherited name core_agent_roles e in absurd cc
  ]
]

Names-role_named :
    (name : Text) (custom_roles : List (Text × CustomRole)) (role : Property AgentRole)
    → Names custom_roles name role
    → (source : RoleSource) × (role_named name custom_roles ≡ some (source, role))
unfolding role_named as_role
Names-role_named name custom_roles role (inl (custom, (e, same))) =
    let found = Entry-lookup name custom_roles custom e in (profile_custom, ground arith)
Names-role_named name custom_roles role (inr (inl (missing, member, same))) =
    let found = Missing-lookup name custom_roles missing in (profile_custom, ground arith)
Names-role_named name custom_roles role (inr (inr (missing, not_member, (found, (e, same))))) =
    let absent = Missing-lookup name custom_roles missing in
    let core_found = Entry-lookup name core_agent_roles found e in (core, ground arith)

-- The role is concrete, stands for this role, and is among the allowed ones, if there are any.
abbrev pub Resolves :
    Option Text → List Text → List (Text × CustomRole) → Property AgentRole → Type 0
Resolves none allowed custom_roles role = ⊥
Resolves (some name) allowed custom_roles role =
    (name ≢ [])
    × (name ≢ text "REQUIRE_EXPLICIT")
    × Names custom_roles name role
    × ((allowed ≡ []) ⊎ (elem allowed name ≡ true))

resolve-stages :
    (name : Text) (allowed : List Text) (custom_roles : List (Text × CustomRole))
    (role : Property AgentRole)
    → (resolve_agent_role (some name) allowed custom_roles).resolved_role ≡ some role
    → ((name == []) ≡ false)
      × ((name == text "REQUIRE_EXPLICIT") ≡ false)
      × ((not (is_nil allowed) && not (elem allowed name)) ≡ false)
      × ((source : RoleSource) × (role_named name custom_roles ≡ some (source, role)))
unfolding resolve_agent_role unresolved_role resolved_as
resolve-stages name allowed custom_roles role h =
    elim (Option-cases (role_named name custom_roles)) [
      | inl absent ↦ absurd (ground arith)
      | inr ((source, found), e) ↦ (
        ground arith,
        ground arith,
        ground arith,
        (source, e ∙ ap (λ r. some (source, r)) (ground arith)),
      )
    ]

resolve-back :
    (name : Text) (allowed : List Text) (custom_roles : List (Text × CustomRole))
    (role : Property AgentRole) (source : RoleSource)
    → (name == []) ≡ false
    → (name == text "REQUIRE_EXPLICIT") ≡ false
    → (not (is_nil allowed) && not (elem allowed name)) ≡ false
    → role_named name custom_roles ≡ some (source, role)
    → (resolve_agent_role (some name) allowed custom_roles).resolved_role ≡ some role
unfolding resolve_agent_role unresolved_role resolved_as
resolve-back name allowed custom_roles role source a b c e = ground arith

within_iff :
    (allowed : List Text) (name : Text)
    → ((not (is_nil allowed) && not (elem allowed name)) ≡ false)
      ↔ ((allowed ≡ []) ⊎ (elem allowed name ≡ true))
unfolding is_nil
within_iff [] name = (λ h. inl refl, λ h. refl)
within_iff (a ∷ allowed) name =
    (λ h. inr (ground arith), λ h. elim h [ inl empty ↦ cc | inr listed ↦ ground arith ])

-- A resolution with a role is not blocked.
pub resolved-unblocked :
    (task_role : Option Text) (allowed : List Text) (custom_roles : List (Text × CustomRole))
    (role : Property AgentRole)
    → (resolve_agent_role task_role allowed custom_roles).resolved_role ≡ some role
    → (resolve_agent_role task_role allowed custom_roles).blocked_reason ≡ none
unfolding resolve_agent_role unresolved_role resolved_as
resolved-unblocked none allowed custom_roles role h = cc
resolved-unblocked (some name) allowed custom_roles role h =
    elim (Option-cases (role_named name custom_roles)) [
      | inl absent ↦ absurd (ground arith)
      | inr ((source, found), e) ↦ ground arith
    ]

-- The task's role is resolved to a role exactly when it is given, not empty and not REQUIRE_EXPLICIT, is
-- in the list of the allowed roles if that is not empty, and names what is found: the custom role of
-- that name; or for a name that is not a custom role but a member of Object.prototype, such as
-- "constructor", that member, although it is no role; or else the core role of that name.
pub resolve_agent_role_iff :
    (task_role : Option Text) (allowed : List Text) (custom_roles : List (Text × CustomRole))
    (role : Property AgentRole)
    → ((resolve_agent_role task_role allowed custom_roles).resolved_role ≡ some role)
      ↔ Resolves task_role allowed custom_roles role
resolve_agent_role_iff none allowed custom_roles role = (
  λ h. let k : none ≡ some role = unfold resolve_agent_role unresolved_role in h in cc,
  λ h. absurd h,
)
resolve_agent_role_iff (some name) allowed custom_roles role =
    let (empty_to, empty_from) = differs_iff name [] in
    let (explicit_to, explicit_from) = differs_iff name (text "REQUIRE_EXPLICIT") in
    let (within_to, within_from) = within_iff allowed name in
    (
      λ h.
          let (a, b, c, (source, e)) = resolve-stages name allowed custom_roles role h in
          (
            empty_to a,
            explicit_to b,
            role_named-Names name custom_roles source role e,
            within_to c,
          ),
      λ h.
          let (a, b, n, c) = h in
          let (source, e) = Names-role_named name custom_roles role n in
          resolve-back name allowed custom_roles role source (empty_from a) (explicit_from b)
            (within_from c) e,
    )
