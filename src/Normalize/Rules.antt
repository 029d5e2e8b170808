-- ===== src/Normalize/Rules.antt =====
-- clientScripts/normalize.py: the derivations of an earlier run, the rule of a file, and the default
-- rule after a rule that failed.
use ccp.Prelude.{
  ◌<>◌, String, Bool, false, Option, none, some, [], ◌∷◌, any, select, not, ◌&&◌, ◌||◌, str_eq,
  if◌then◌else◌,
}
use ccp.Prelude.Int.{ℤ, is_zero}
use ccp.Prelude.Paths.{basename}
use ccp.Prelude.Script.{◌>>=◌, pure, get, modify, lift, skip, when, for_each}
use ccp.Rows.{
  Derivation, FileFormatVersion, World, Got, one, does_not_exist, multiple_objects, only, has_uuid,
  update_files, raise_got,
}
use ccp.Database.{event_at, insert_into_events}
use ccp.Normalize.{NormalizeArgs, FpRule, Trace, Act, Registry, success_code, no_rule_found}
use ccp.Normalize.Manual.{say}
use ccp.Normalize.Linker.{Attempt, link_rule}

-- A derivation of a file whose derived file is of a purpose.
abbrev pub is_derivative : World Trace → String → String → Derivation → Bool
is_derivative w source purpose d =
    str_eq d.source_file source
    && any (λ f. str_eq f.uuid d.derived_file && str_eq f.filegrpuse purpose) w.files

abbrev pub mark_deleted : Registry → String → Derivation → Act (Unit {0})
mark_deleted reg purpose d = do
  _ ← say (purpose ∷ "derivative" ∷ d.derived_file ∷ "already exists, marking as deleted" ∷ [])
  _ ← modify (update_files (has_uuid d.derived_file) (λ f. record f { filegrpuse = "deleted" }))
  when (not (str_eq purpose "thumbnail")) (
      insert_into_events reg.site d.derived_file (event_at "deletion" none "" "" "")
      >>= (λ _. skip))

-- The derivations of a file for a purpose go, and their files are marked.
unfoldable pub remove_derivatives : Registry → String → String → Act (Unit {0})
remove_derivatives reg source purpose = do
  w ← get
  _ ← for_each (select (is_derivative w source purpose) w.derivations) (mark_deleted reg purpose)
  modify (λ v. record v {
    derivations = select (λ d. not (is_derivative w source purpose d)) v.derivations;
  })

-- The last rule of a search, and what it says when there is none.
abbrev pub fall_back : Registry → NormalizeArgs → String → Got FpRule → Act (Option FpRule)
fall_back reg opts location (one rule) =
    say (
      basename location
      ∷ "not identified or without rule"
      ∷ "- Falling back to default"
      ∷ opts.purpose
      ∷ "rule"
      ∷ [])
    >>= (λ _. pure (some rule))
fall_back reg opts location does_not_exist =
    say (
      "Not normalizing"
      ∷ basename location
      ∷ " - No rule or default rule found to normalize for"
      ∷ opts.purpose
      ∷ [])
    >>= (λ _. pure none)
fall_back reg opts location multiple_objects = lift (raise_got multiple_objects)

-- Which rule is run, or the code that `main` returns with none.
pub data Choice : Type 0 where
  run_rule : FpRule → Choice
  return_code : ℤ → Choice

abbrev pub choice_of : Option FpRule → Choice
choice_of none = return_code no_rule_found
choice_of (some rule) = run_rule rule

abbrev pub default_choice : Registry → NormalizeArgs → String → Act Choice
default_choice reg opts location =
    fall_back reg opts location (reg.default_rule ("default_" <> opts.purpose))
    >>= (λ rule. pure (choice_of rule))

abbrev pub rule_for : Registry → NormalizeArgs → String → Got FpRule → Act Choice
rule_for reg opts location (one rule) = pure (run_rule rule)
rule_for reg opts location does_not_exist =
    if str_eq opts.purpose "thumbnail" && str_eq opts.thumbnail_mode "generate_non_default"
    then say ("Thumbnail not generated as no rule found for format" ∷ [])
      >>= (λ _. pure (return_code success_code))
    else default_choice reg opts location
rule_for reg opts location multiple_objects = lift (raise_got multiple_objects)

abbrev pub choose_for : Registry → NormalizeArgs → String → Got FileFormatVersion → Act Choice
choose_for reg opts location (one version) =
    say ("File format:" ∷ version.format_version ∷ [])
    >>= (λ _. rule_for reg opts location (reg.active_rule version.format_version opts.purpose))
choose_for reg opts location does_not_exist = default_choice reg opts location
choose_for reg opts location multiple_objects = lift (raise_got multiple_objects)

unfoldable pub choose_rule : Registry → NormalizeArgs → String → Act Choice
choose_rule reg opts location = do
  w ← get
  choose_for reg opts location (only (select (λ v. str_eq v.file opts.file_uuid) w.formats))

abbrev is_given : Option String → Bool
is_given none = false
is_given (some location) = not (str_eq location "")

abbrev is_written : Registry → Trace → Option String → Bool
is_written reg trace none = false
is_written reg trace (some location) = reg.is_file location trace

-- Whether the default rule is run after a rule that failed.
unfoldable pub needs_fallback : Registry → NormalizeArgs → Attempt → Trace → Bool
needs_fallback reg opts a trace =
    not (is_zero a.code)
    && (str_eq opts.purpose "access" || str_eq opts.purpose "thumbnail")
    && is_given a.location
    && not (is_written reg trace a.location)

abbrev pub announce_rule : String → String → FpRule → Act (Unit {0})
announce_rule rule_label command_label rule =
    say (rule_label ∷ rule.text ∷ []) >>= (λ _. say (command_label ∷ rule.command.description ∷ []))

abbrev pub retry : Registry → NormalizeArgs → String → Attempt → Got FpRule → Act Attempt
retry reg opts location a (one rule) = do
  _ ←
      say (
        opts.purpose ∷ "normalization failed, falling back to default" ∷ opts.purpose ∷ "rule" ∷ [])
  if str_eq rule.command.uuid a.command.uuid
      then pure a
      else announce_rule "Fallback Format Policy Rule:" "Fallback Format Policy Command" rule
        >>= (λ _. link_rule reg opts rule a.values)
retry reg opts location a does_not_exist =
    say (
      "Not retrying normalizing for"
      ∷ basename location
      ∷ " - No default rule found to normalize for"
      ∷ opts.purpose
      ∷ [])
    >>= (λ _. pure a)
retry reg opts location a multiple_objects = lift (raise_got multiple_objects)

-- The attempt that counts: the first, or that of the default rule.
unfoldable pub attempt_with : Registry → NormalizeArgs → String → Attempt → Act Attempt
attempt_with reg opts location a = do
  w ← get
  if needs_fallback reg opts a w.disk
      then retry reg opts location a (reg.default_rule ("default_" <> opts.purpose))
      else pure a
