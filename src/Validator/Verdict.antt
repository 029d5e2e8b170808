-- ===== src/Validator/Verdict.antt =====
-- clientScripts/validate_file.py: which rules a validation applies, and when a file is valid.
use ccp.Prelude.{
  ◌≡◌, refl, ap, sym, ◌∙◌, String, Bool, true, false, List, [], ◌∷◌, ◌&&◌, ◌||◌, not, str_eq, all,
  if◌then◌else◌, arith, inl, inr, Bool-cases,
}
use ccp.Prelude.Int.{ℤ, is_zero}
use ccp.Prelude.Raise.{Result, ok, raised, ◌>>=◌}
use ccp.Validator.{
  Environment, Rule, Validator, Get, found, missing, failing, get_rules, rules_of, or_default,
  was_found, access_of, file_is_derivative,
}
use ccp.Validator.Validate.{validate, validate_unless, validate_with, is_skipped}
use ccp.Validator.Passes.{rule_passes, ok-inj, execute_rules_iff-all_pass}

-- The rules of the file's format, or the default rules if it has no format or its format no rules.
abbrev rules_of_format : Environment → Get String → List Rule
rules_of_format env (failing e) = []
rules_of_format env missing = env.default_rules
rules_of_format env (found format) = elim (env.rules_for format) [
  | [] ↦ env.default_rules
  | rule ∷ rules ↦ rule ∷ rules
]

abbrev is_found : Get (Unit {0}) → Bool
is_found (found u) = true
is_found missing = false
is_found (failing e) = false

abbrev is_access : Get String → Bool
is_access (found group) = str_eq group "access"
is_access missing = false
is_access (failing e) = false

-- A preservation derivative has a derivation by a normalization, an access derivative is of the group
-- access and has a derivation without an event.
abbrev has_derivation : Environment → String → String → Bool
has_derivation env type file_uuid =
    if str_eq type "preservation"
    then is_found (env.normalization_derivation file_uuid)
    else is_access (env.file_group_use file_uuid) && is_found (env.eventless_derivation file_uuid)

-- The rules that a validation applies: none for a file that is skipped as no derivative.
abbrev pub applied : Environment → Validator → List Rule
applied env v =
    if (str_eq v.file_type "preservation" || str_eq v.file_type "access")
      && not (has_derivation env v.file_type v.file_uuid)
    then []
    else rules_of_format env (env.format_of v.file_uuid)

rules_of-applied :
    (env : Environment) (g : Get String) (rules : List Rule)
    → rules_of env g ≡ ok rules
    → rules ≡ rules_of_format env g
rules_of-applied env (failing e) rules h = absurd (ground (arith, h))
rules_of-applied env missing rules h = sym (ok-inj h)
rules_of-applied env (found format) rules h = sym (ok-inj h) ∙ defaulted (env.rules_for format)
  where
    defaulted :
        (r : List Rule)
        → or_default env r
          ≡ elim r as (λ _. List Rule) [ [] ↦ env.default_rules | rule ∷ rules ↦ rule ∷ rules ]
    defaulted [] = refl
    defaulted (rule ∷ rules) = refl

found-is_found : (g : Get (Unit {0})) (b : Bool) → was_found g ≡ ok b → b ≡ is_found g
found-is_found (found u) b h = sym (ok-inj h)
found-is_found missing b h = sym (ok-inj h)
found-is_found (failing e) b h = absurd (ground (arith, h))

access-is_access :
    (group : Get String) (g : Get (Unit {0})) (b : Bool)
    → access_of group g ≡ ok b
    → b ≡ (is_access group && is_found g)
access-is_access (failing e) g b = λ h. absurd (ground (arith, h))
access-is_access missing g b = λ h. sym (ok-inj h)
access-is_access (found group) g b = elim (Bool-cases (str_eq group "access")) [
  | inl e ↦ rw e (found-is_found g b)
  | inr e ↦ rw e (λ h. sym (ok-inj h))
]

derivative-is_derivative :
    (env : Environment) (type uuid : String) (b : Bool)
    → file_is_derivative env type uuid ≡ ok b
    → b ≡ has_derivation env type uuid
unfolding file_is_derivative
derivative-is_derivative env type uuid b = elim (Bool-cases (str_eq type "preservation")) [
  | inl e ↦ rw e (found-is_found (env.normalization_derivation uuid) b)
  | inr e ↦ rw e (access-is_access (env.file_group_use uuid) (env.eventless_derivation uuid) b)
]

skipped-is_derivative :
    (env : Environment) (type uuid : String) (b : Bool)
    → is_skipped env type uuid ≡ ok b
    → b
      ≡ ((str_eq type "preservation" || str_eq type "access") && not (has_derivation env type uuid))
unfolding is_skipped
skipped-is_derivative env type uuid b =
    elim (Bool-cases (str_eq type "preservation" || str_eq type "access")) [
      | inl e ↦
          rw e (negated (file_is_derivative env type uuid) (derivative-is_derivative env type uuid))
      | inr e ↦ rw e (λ h. sym (ok-inj h))
    ]
  where
    negated :
        (r : Result Bool)
        → ((b : Bool) → r ≡ ok b → b ≡ has_derivation env type uuid)
        → ◌≡◌ {A = Result Bool} (r >>= (λ has_derivation. ok (not has_derivation))) (ok b)
        → b ≡ not (has_derivation env type uuid)
    negated (raised e) means h = absurd (ground (arith, h))
    negated (ok d) means h = sym (ok-inj h) ∙ ap not (means d refl)

-- If a validation ends with no exception, its code is 0 exactly if each of its rules leaves the
-- code 0 with an outcome of pass or partial pass: the rules of the file's format or, without any,
-- the default rules, and none for a file that is skipped as no derivative.
pub validate_iff-all_pass :
    (env : Environment) (v : Validator) (code : ℤ)
    → (validate env v).0 ≡ ok code
    → is_zero code ≡ all (rule_passes env v) (applied env v)
unfolding validate get_rules
validate_iff-all_pass env v code =
    chosen (is_skipped env v.file_type v.file_uuid)
      (skipped-is_derivative env v.file_type v.file_uuid)
  where
    abbreviated : Bool → List Rule
    abbreviated b = if b then [] else rules_of_format env (env.format_of v.file_uuid)

    ruled :
        (r : Result (List Rule))
        → ((rules : List Rule)
            → r ≡ ok rules
            → rules ≡ rules_of_format env (env.format_of v.file_uuid))
        → (validate_with env r v).0 ≡ ok code
        → is_zero code ≡ all (rule_passes env v) (rules_of_format env (env.format_of v.file_uuid))
    ruled (raised e) means h = absurd (ground (arith, h))
    ruled (ok []) means h =
        ap is_zero (sym (ok-inj h)) ∙ ap (all (rule_passes env v)) (means [] refl)
    ruled (ok (r ∷ rs)) means h =
        execute_rules_iff-all_pass env (r ∷ rs) v code h
        ∙ ap (all (rule_passes env v)) (means (r ∷ rs) refl)

    chosen :
        (s : Result Bool)
        → ((b : Bool)
            → s ≡ ok b
            → b ≡ (
                (str_eq v.file_type "preservation" || str_eq v.file_type "access")
                && not (has_derivation env v.file_type v.file_uuid)))
        → (validate_unless env s v).0 ≡ ok code
        → is_zero code ≡ all (rule_passes env v) (applied env v)
    chosen (raised e) means h = absurd (ground (arith, h))
    chosen (ok true) means h =
        ap is_zero (sym (ok-inj h))
        ∙ ap (λ b. all (rule_passes env v) (abbreviated b)) (means true refl)
    chosen (ok false) means h =
        ruled (rules_of env (env.format_of v.file_uuid))
          (rules_of-applied env (env.format_of v.file_uuid)) h
        ∙ ap (λ b. all (rule_passes env v) (abbreviated b)) (means false refl)
