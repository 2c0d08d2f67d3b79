-- ===== src/Policy/Risk/Rules/Conditions.antt =====
-- What validateCondition accepts.
use code_fleet.Prelude.{
  ℕ, suc, ◌≡◌, ◌≢◌, refl, inl, inr, Bool, true, false, not, Option, none, some, List, [], ◌∷◌, ◌++◌,
  Text, text, elem, keep, All, append-nil_iff, Bool-cases, Option-cases, arith,
}
use code_fleet.Prelude.Json.{
  Json, null, boolean, number, string, array, object, Items, no_items, item, elements, Fields,
  keys_of, get,
}
use code_fleet.Policy.Paths.{validate_pattern}
use code_fleet.Policy.Risk.{
  MatchTarget, on_path, on_command, on_agent_role, on_task_scope, on_diff, on_file_content,
  on_run_evidence, on_human_override, on_llm_signal,
}
use code_fleet.Policy.Risk.Rules.{
  Step, RuleProblem, field_missing, any_of_missing, argv_malformed, match_mode_unknown,
  pattern_missing, nesting_key, negation_key, index_step, target_keys, negation_keys, nesting_keys,
  found_at, at_key, found_if, forbidden_keys, is_extra, extra_keys, has_text, has_strings,
  has_items, is_mode, glob_findings, field_findings, target_findings, target_of, validate_condition,
  validate_conditions,
}

-- The key is one of the target's, and forms no negation and no nesting.
abbrev pub IsKey : MatchTarget → Text → Type 0
IsKey target key =
    (elem (text "matchTarget" ∷ target_keys target) key ≡ true)
    × (elem negation_keys key ≡ false)
    × (elem nesting_keys key ≡ false)

abbrev pub HasGlob : Option Json → Type 0
HasGlob (some (string g)) = (g ≢ []) × (validate_pattern g ≡ none)
HasGlob _ = ⊥

abbrev pub HasField : Fields → Type 0
HasField fields =
    (has_text (get (text "field") fields) ≡ true) × (has_items (get (text "anyOf") fields) ≡ true)

-- What the matcher of each target needs
abbrev pub Suits : MatchTarget → Fields → Type 0
Suits on_path fields = HasGlob (get (text "glob") fields)
Suits on_task_scope fields = HasGlob (get (text "glob") fields)
Suits on_diff fields = HasGlob (get (text "glob") fields)
Suits on_command fields =
    (has_strings (get (text "argv") fields) ≡ true)
    × (is_mode (get (text "matchMode") fields) ≡ true)
Suits on_file_content fields = has_text (get (text "pattern") fields) ≡ true
Suits on_agent_role fields = HasField fields
Suits on_run_evidence fields = HasField fields
Suits on_human_override fields = HasField fields
Suits on_llm_signal fields = HasField fields

abbrev pub IsCondition : Json → Type 0
IsCondition (object fields) =
    (target : MatchTarget) × ((target_of (get (text "matchTarget") fields) ≡ some target)
      × All (IsKey target) (keys_of fields)
      × Suits target fields)
IsCondition _ = ⊥

pub found_if-nil :
    (test : Bool) (pointer : List Step) (p : RuleProblem)
    → found_if (not test) pointer p ≡ []
    → test ≡ true
unfolding found_if found_at
found_if-nil true pointer p h = refl
found_if-nil false pointer p h = cc

found_if-off :
    (test : Bool) (pointer : List Step) (p : RuleProblem)
    → found_if test pointer p ≡ []
    → test ≡ false
unfolding found_if found_at
found_if-off false pointer p h = refl
found_if-off true pointer p h = cc

glob-HasGlob : (pointer : List Step) (o : Option Json) → glob_findings pointer o ≡ [] → HasGlob o
unfolding glob_findings found_at
glob-HasGlob pointer none h = cc
glob-HasGlob pointer (some null) h = cc
glob-HasGlob pointer (some (boolean b)) h = cc
glob-HasGlob pointer (some (number n)) h = cc
glob-HasGlob pointer (some (array js)) h = cc
glob-HasGlob pointer (some (object fs)) h = cc
glob-HasGlob pointer (some (string [])) h = cc
glob-HasGlob pointer (some (string (c ∷ s))) h = elim (Option-cases (validate_pattern (c ∷ s))) [
  | inl valid ↦ (λ e. cc, valid)
  | inr (p, e) ↦ absurd (ground arith)
]

field-HasField :
    (pointer : List Step) (fields : Fields) → field_findings pointer fields ≡ [] → HasField fields
unfolding field_findings
field-HasField pointer fields h =
    let (a, b) =
      (append-nil_iff
          (found_if (not (has_text (get (text "field") fields))) (at_key pointer (text "field"))
            field_missing)
          (found_if (not (has_items (get (text "anyOf") fields))) (at_key pointer (text "anyOf"))
            any_of_missing)).0
        h in
    (
      found_if-nil (has_text (get (text "field") fields)) (at_key pointer (text "field"))
          field_missing a,
      found_if-nil (has_items (get (text "anyOf") fields)) (at_key pointer (text "anyOf"))
          any_of_missing b,
    )

target-Suits :
    (pointer : List Step) (target : MatchTarget) (fields : Fields)
    → target_findings pointer target fields ≡ []
    → Suits target fields
unfolding target_findings
target-Suits pointer on_path fields h = glob-HasGlob pointer (get (text "glob") fields) h
target-Suits pointer on_task_scope fields h = glob-HasGlob pointer (get (text "glob") fields) h
target-Suits pointer on_diff fields h = glob-HasGlob pointer (get (text "glob") fields) h
target-Suits pointer on_command fields h =
    let (a, b) =
      (append-nil_iff
          (found_if (not (has_strings (get (text "argv") fields))) (at_key pointer (text "argv"))
            argv_malformed)
          (found_if (not (is_mode (get (text "matchMode") fields)))
            (at_key pointer (text "matchMode")) match_mode_unknown)).0
        h in
    (
      found_if-nil (has_strings (get (text "argv") fields)) (at_key pointer (text "argv"))
          argv_malformed a,
      found_if-nil (is_mode (get (text "matchMode") fields)) (at_key pointer (text "matchMode"))
          match_mode_unknown b,
    )
target-Suits pointer on_file_content fields h =
    found_if-nil (has_text (get (text "pattern") fields)) (at_key pointer (text "pattern"))
      pattern_missing h
target-Suits pointer on_agent_role fields h = field-HasField pointer fields h
target-Suits pointer on_run_evidence fields h = field-HasField pointer fields h
target-Suits pointer on_human_override fields h = field-HasField pointer fields h
target-Suits pointer on_llm_signal fields h = field-HasField pointer fields h

extra-off :
    (pointer : List Step) (extra : Text → Bool) (keys : List Text)
    → extra_keys pointer (keep extra keys) ≡ []
    → All (λ k. extra k ≡ false) keys
unfolding extra_keys found_at
extra-off pointer extra [] h = tt
extra-off pointer extra (k ∷ ks) h = elim (Bool-cases (extra k)) [
  | inl on ↦ absurd (ground arith)
  | inr off ↦ (off, extra-off pointer extra ks (ground arith))
]

one-IsKey :
    (target : MatchTarget) (key : Text)
    → elem nesting_keys key ≡ false
    → elem negation_keys key ≡ false
    → is_extra target key ≡ false
    → IsKey target key
unfolding is_extra
one-IsKey target key nesting negation extra = (ground arith, negation, nesting)

keys-IsKey :
    (pointer : List Step) (target : MatchTarget) (keys : List Text)
    → forbidden_keys pointer keys ≡ []
    → All (λ k. is_extra target k ≡ false) keys
    → All (IsKey target) keys
unfolding forbidden_keys
keys-IsKey pointer target [] h e = tt
keys-IsKey pointer target (k ∷ ks) h e =
    let (a, rest) =
      (append-nil_iff (found_if (elem nesting_keys k) (at_key pointer k) nesting_key) (
          found_if (elem negation_keys k) (at_key pointer k) negation_key
          ++ forbidden_keys pointer ks)).0
        h in
    let (b, later) =
      (append-nil_iff (found_if (elem negation_keys k) (at_key pointer k) negation_key)
          (forbidden_keys pointer ks)).0
        rest in
    (
      one-IsKey target k (found_if-off (elem nesting_keys k) (at_key pointer k) nesting_key a)
          (found_if-off (elem negation_keys k) (at_key pointer k) negation_key b) e.0,
      keys-IsKey pointer target ks later e.1,
    )

condition_fields :
    (fields : Fields) (pointer : List Step)
    → validate_condition (object fields) pointer ≡ []
    → (target : MatchTarget) × ((target_of (get (text "matchTarget") fields) ≡ some target)
        × (forbidden_keys pointer (keys_of fields)
              ++ (extra_keys pointer (keep (is_extra target) (keys_of fields))
                  ++ target_findings pointer target fields)
            ≡ []))
unfolding validate_condition found_at
condition_fields fields pointer h =
    elim (Option-cases (target_of (get (text "matchTarget") fields))) [
      | inl absent ↦ absurd (ground arith)
      | inr (target, e) ↦ (target, (e, ground arith))
    ]

json-IsCondition :
    (j : Json) (pointer : List Step) → validate_condition j pointer ≡ [] → IsCondition j
unfolding validate_condition found_at
json-IsCondition null pointer h = cc
json-IsCondition (boolean b) pointer h = cc
json-IsCondition (number n) pointer h = cc
json-IsCondition (string s) pointer h = cc
json-IsCondition (array js) pointer h = cc
json-IsCondition (object fields) pointer h =
    let (target, (e, all)) = condition_fields fields pointer h in
    let (forbidden, rest) =
      (append-nil_iff (forbidden_keys pointer (keys_of fields)) (
          extra_keys pointer (keep (is_extra target) (keys_of fields))
          ++ target_findings pointer target fields)).0
        all in
    let (extra, suited) =
      (append-nil_iff (extra_keys pointer (keep (is_extra target) (keys_of fields)))
          (target_findings pointer target fields)).0
        rest in
    (
      target,
      (
        e,
        keys-IsKey pointer target (keys_of fields) forbidden
            (extra-off pointer (is_extra target) (keys_of fields) extra),
        target-Suits pointer target fields suited,
      ),
    )

pub conditions-IsCondition :
    (pointer : List Step) (index : ℕ) (js : Items)
    → validate_conditions pointer index js ≡ []
    → All IsCondition (elements js)
unfolding validate_conditions elements
conditions-IsCondition pointer index no_items h = tt
conditions-IsCondition pointer index (item j js) h =
    let (here, later) =
      (append-nil_iff (validate_condition j (pointer ++ index_step index ∷ []))
          (validate_conditions pointer (suc index) js)).0
        h in
    (
      json-IsCondition j (pointer ++ index_step index ∷ []) here,
      conditions-IsCondition pointer (suc index) js later,
    )
