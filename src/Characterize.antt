-- ===== src/Characterize.antt =====
-- clientScripts/characterize_file.py: the commands that characterize a file, and the XML of them that
-- is kept. The registry, the run of a command, the rows that variables are read from and the XML
-- parser are the fields of `Characterizer`.
pub mod Done
use ccp.Prelude.Dict.{Dict}
use ccp.Prelude.{
  ◌<>◌, String, Bool, true, false, Option, none, some, List, [], ◌∷◌, any, ◌||◌, str_eq,
  if◌then◌else◌,
}
use ccp.Prelude.Int.{ℤ, pos, is_zero}
use ccp.Prelude.Decimal.{show_code}
use ccp.Prelude.Raise.{Result, ok, raised}
use ccp.Prelude.Script.{Script, ◌>>=◌, pure, get, lift}
use ccp.Job.{write_output, write_error, Job}
use ccp.ExecuteOrRun.{Triple}
use ccp.ReplacementDict.{
  Config, UnitRow, FileRow, of_file, frommodel, replace_string_values, to_gnu_options,
}
use ccp.Rows.{World, Site, Got, one, does_not_exist, multiple_objects, raise_got}
use ccp.Database.{insert_into_fp_command_output}
use ccp.FileOperations.{in_job, on_disk}

-- A rule with its command. `output_pronom` is the PRONOM identifier of the format that it writes.
pub record Rule : Type 0 where
  pub uuid : String
  pub command_uuid : String
  pub description : String
  pub script_type : String
  pub command : String
  pub output_pronom : Option String

pub record Characterizer (D : Type 0) : Type 0 where
  pub site : Site D
  pub config : Config
  pub execute_or_run : String → String → List String → D → Result Triple × D
  pub format_of : World D → String → Got String
  pub rules_for : String → List Rule
  pub default_rules : List Rule
  pub file_model : World D → String → Result FileRow
  pub sip_model : World D → String → Result UnitRow
  pub is_xml : String → Bool

abbrev is_templated : String → Bool
is_templated type = str_eq type "bashScript" || str_eq type "command"

-- Whether the output of a rule is to be kept.
abbrev pub writes_xml : Rule → Bool
writes_xml rule = elim rule.output_pronom [ none ↦ false | some puid ↦ str_eq puid "fmt/101" ]

abbrev named : String → Rule → String → String
named start rule rest =
    start <> " for command \"" <> rule.description <> "\" (" <> rule.command_uuid <> ") " <> rest

abbrev pub saved_text : Rule → String
saved_text rule =
    "Saved XML output for command \"" <> rule.description <> "\" (" <> rule.command_uuid <> ")"

abbrev pub failure_text : Rule → ℤ → String
failure_text rule code =
    "Command " <> rule.description <> " failed with exit status " <> show_code code <> "; stderr:"

abbrev or_default : List Rule → List Rule → List Rule
or_default [] defaults = defaults
or_default (r ∷ rs) defaults = r ∷ rs

abbrev pub code_of : Bool → ℤ
code_of failed = if failed then pos 255 else pos 0

abbrev text_words : Result String → Result (String × List String)
text_words (raised e) = raised e
text_words (ok text) = ok (text, [])

abbrev option_words : String → Result (Dict String) → Result (String × List String)
option_words command (raised e) = raised e
option_words command (ok rd) = ok (command, to_gnu_options rd)

unfoldable pub words_of : Config → FileRow → UnitRow → Rule → Result (String × List String)
words_of config f s rule =
    if is_templated rule.script_type
    then text_words (replace_string_values config of_file (some s) (some f) rule.command)
    else option_words rule.command (frommodel config of_file (some s) (some f) true)

module _ {D : Type 0} where
  -- `FPRule.active.filter(...)`, by the format of the file, or the default rules.
  unfoldable pub rules_of : Characterizer D → Got String → Result (List Rule)
  rules_of env (one format) = ok (or_default (env.rules_for format) env.default_rules)
  rules_of env does_not_exist = ok env.default_rules
  rules_of env multiple_objects = raise_got multiple_objects

  -- The text and the arguments of a rule's command.
  unfoldable pub arguments_of :
      Characterizer D → String → String → Rule → Script (World D) (String × List String)
  arguments_of env file sip rule = do
    w ← get
    f ← lift (env.file_model w file)
    s ← lift (env.sip_model w sip)
    lift (words_of env.config f s rule)

  -- A line for the job, and whether the command failed.
  unfoldable pub reported : (Job → Job) → Bool → Script (World D) Bool
  reported f failed w = (ok failed, record w { job = f w.job })

  abbrev pub save_xml : Characterizer D → String → Rule → String → Script (World D) Bool
  save_xml env file rule stdout =
      if env.is_xml stdout
      then insert_into_fp_command_output env.site file stdout rule.uuid
        >>= (λ _. reported (write_output (saved_text rule)) false)
      else reported
          (write_error (named "XML output" rule "was not valid XML; not saving to database")) true

  -- What follows the run of a command. The result tells whether it failed.
  unfoldable pub record_output : Characterizer D → String → Rule → Triple → Script (World D) Bool
  record_output env file rule t =
      if is_zero t.retcode
      then if writes_xml rule
        then save_xml env file rule t.std_out
        else reported (write_error (named "Tool output" rule "is not XML; not saving to database"))
            false
      else reported (write_error (failure_text rule t.retcode)) true

  unfoldable pub run_rule : Characterizer D → String → String → Rule → Script (World D) Bool
  run_rule env file sip rule = do
    words ← arguments_of env file sip rule
    t ← on_disk (env.execute_or_run rule.script_type words.0 words.1)
    _ ← in_job (write_output t.std_out)
    _ ← in_job (write_error t.std_error)
    record_output env file rule t

  -- The loop over the rules, each of which may fail on its own.
  unfoldable pub run_rules :
      Characterizer D → String → String → List Rule → Bool → Script (World D) Bool
  run_rules env file sip [] failed = pure failed
  run_rules env file sip (rule ∷ rules) failed =
      run_rule env file sip rule >>= (λ b. run_rules env file sip rules (failed || b))

  abbrev pub is_characterized : String → World D → Bool
  is_characterized file w = any (λ o. str_eq o.file file) w.outputs

  abbrev pub characterize : Characterizer D → String → String → Script (World D) ℤ
  characterize env file sip = do
    w ← get
    rules ← lift (rules_of env (env.format_of w file))
    failed ← run_rules env file sip rules false
    pure (code_of failed)

  -- `main`
  unfoldable pub main : Characterizer D → String → String → Script (World D) ℤ
  main env file sip = do
    w ← get
    if is_characterized file w then pure (pos 0) else characterize env file sip
