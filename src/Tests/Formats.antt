-- ===== src/Tests/Formats.antt =====
-- The normalization, the identification and the characterization of files on concrete data.
use ccp.Database.{insert_into_fp_command_output}
use mathlib.Core.List.{Mem}
use ccp.Prelude.{◌++◌, ◌≡◌, refl, String, true, false, none, some, List, [], ◌∷◌, str_eq, ◌||◌}
use ccp.Prelude.Int.{pos}
use ccp.Prelude.Raise.{Result, ok}
use ccp.ReplacementDict.{Config, FileRow, UnitRow, replace_string_values, frommodel}
use ccp.Transcoder.{no_command, fp_command}
use ccp.Rows.{File, World, one, does_not_exist, create}
use ccp.Database.Growth.{HasPrimaryKey}
use ccp.Database.Keys.{IsRaised}
use ccp.Normalize.{NormalizeArgs, FpCommand, FpRule, Trace, Registry, once_normalized, outputs_of}
use ccp.Normalize.Outputs.{once_normalized-several}
use ccp.Normalize.Manual.{precedes, least}
use ccp.Normalize.Results.{IsBefore, location, least-none_before}
use ccp.Normalize.Codes.{is_return_code, main-code}
use ccp.IdentifyFormat.{
  Identifier, IdCommand, FormatVersion, error_code, set_format, save_id_preference,
}
use ccp.IdentifyFormat.Errors.{main-leaves_formats}
use ccp.IdentifyFormat.Formats.{format_of, set_format-format_of}
use ccp.Characterize.{
  Rule, Characterizer, rules_of, run_rules, run_rule, arguments_of, words_of, record_output,
  reported,
}
use ccp.Characterize.Done.{kept_outputs, main-done}
use ccp.Tests.Files.{file_at, world_with, site_with, refuse_taken, refuse_taken-HasPrimaryKey}

abbrev config : Config
config = record {
  shared_directory = "/s/";
  processing_directory = "/p/";
  rejected_directory = "/r/";
  watch_directory = "/w/";
  abspath = λ path. path;
}

abbrev still : {D : Type 0} → String → String → D → Result (Unit {0}) × D
still source destination d = (ok tt, d)

abbrev convert : FpCommand
convert = record {
  uuid = "c";
  description = "convert";
  output_format = "tiff";
  format_description = "TIFF";
  command =
      fp_command
        (record {
          description = "convert";
          command = "convert";
          script_type = "command";
          output_location = some "/out/a.tif";
        })
        no_command no_command;
}

abbrev rule : FpRule
rule = record { text = "rule"; command = convert }

abbrev unit : UnitRow
unit = record { uuid = "s"; relative_location = "/sip/" }

abbrev file_row : FileRow
file_row = record {
  uuid = "a";
  sip = some unit;
  transfer = none;
  original_location = "%SIPDirectory%objects/a.png";
  current_location = "%SIPDirectory%objects/a.png";
  filegrpuse = "original";
}

-- A registry with one default rule, whose command fails, and a directory of two files.
abbrev registry : Registry
registry = record {
  site = record (site_with refuse_taken still) { is_dir = λ path d. true };
  config = config;
  file_model = λ w uuid. ok file_row;
  run = λ trace i. ok (record { exit_code = pos 1; std_out = ""; std_err = "no" });
  is_file = λ path trace. str_eq path "/out/1" || str_eq path "/out/2";
  walk = λ path trace. "/out/1" ∷ "/out/2" ∷ [];
  csv = λ path trace. none;
  format_exc = λ n. "";
  iendswith = λ suffix path. false;
  active_rule = λ format purpose. does_not_exist;
  default_rule = λ purpose. one rule;
  make_thumbnail_dir = λ uuid trace. ok tt;
  store_thumbnail = λ source destination trace. ok tt;
}

abbrev opts : String → NormalizeArgs
opts purpose = record {
  purpose = purpose;
  file_uuid = "a";
  file_path = "/sip/objects/a.png";
  sip_path = "/sip/";
  sip_uuid = "s";
  task_uuid = "t";
  normalize_file_grp_use = "original";
  thumbnail_mode = "generate";
}

abbrev world : World Trace
world = world_with [] (file_at "a" "%SIPDirectory%objects/a.png" ∷ [])

once_normalized-several_example :
    IsRaised (once_normalized registry (opts "access") convert none "/out" world)
unfolding outputs_of HasPrimaryKey
once_normalized-several_example =
    once_normalized-several registry (refuse_taken-HasPrimaryKey still) (opts "access") convert none
      "/out" "/out/1" "/out/2" [] world refl refl

-- "abc-1.tif" comes before "abc.tif", which is shorter.
abbrev shorter : File
shorter = file_at "b" "/a/abc.tif"

abbrev longer : File
longer = file_at "c" "/a/abc-1.tif"

least-none_before_example :
    Mem (least shorter (longer ∷ [])) (shorter ∷ longer ∷ [])
    × ((¬ IsBefore (location shorter) (location (least shorter (longer ∷ []))))
        × ((¬ IsBefore (location longer) (location (least shorter (longer ∷ [])))) × Unit {0}))
least-none_before_example = least-none_before shorter (longer ∷ [])

longer_is_least : least shorter (longer ∷ []) ≡ longer
unfolding least precedes
longer_is_least = refl

-- There is no such file.
main-code_example : is_return_code (pos 2) ≡ true
unfolding ccp.Normalize.Main.main
main-code_example = main-code registry (opts "access") (world_with [] []) refl

abbrev identifier : Identifier (List String)
identifier = record {
  site = site_with refuse_taken still;
  command = some (record {
    uuid = "i";
    description = "identify";
    config = "PUID";
    script = "siegfried";
    script_type = "command";
    tool_uuid = "k";
    tool_description = "siegfried";
    tool_version = "1";
  });
  execute_or_run =
      λ type text arguments d. (ok (record { retcode = pos 1; std_out = ""; std_error = "no" }), d);
  strip = λ s. s;
  version_of_puid = λ puid. does_not_exist;
  rule_format = λ output command. does_not_exist;
}

abbrev listed : World (List String)
listed = world_with [] (file_at "a" "%transferDirectory%objects/a.png" ∷ [])

main-leaves_formats_example :
    ((ccp.IdentifyFormat.main identifier "True" "/a.png" "a" false listed).1.formats ≡ [])
    × ((ccp.IdentifyFormat.main identifier "True" "/a.png" "a" false listed).1.ids ≡ [])
unfolding ccp.IdentifyFormat.main save_id_preference create
main-leaves_formats_example = main-leaves_formats identifier "True" "/a.png" "a" false listed refl

set_format-format_of_example :
    format_of identifier "a" (set_format identifier "a" "png" listed).1
    ≡ one (record { file = "a"; format_version = "png" })
unfolding set_format create
set_format-format_of_example = set_format-format_of identifier "a" "png" listed refl

abbrev fits : Rule
fits = record {
  uuid = "r";
  command_uuid = "f";
  description = "fits";
  script_type = "command";
  command = "fits";
  output_pronom = some "fmt/101";
}

abbrev characterizer : Characterizer (List String)
characterizer = record {
  site = site_with refuse_taken still;
  config = config;
  execute_or_run = λ type text arguments d.
      (ok (record { retcode = pos 0; std_out = "<a/>"; std_error = "" }), text ∷ d);
  format_of = λ w uuid. does_not_exist;
  rules_for = λ format. [];
  default_rules = fits ∷ [];
  file_model = λ w uuid. ok file_row;
  sip_model = λ w uuid. ok unit;
  is_xml = λ s. true;
}

-- One row of the XML that the command printed.
kept_rows :
    kept_outputs characterizer "a" "s" (fits ∷ []) listed
    ≡ record { file = "a"; content = "<a/>"; rule = "r" } ∷ []
unfolding kept_outputs arguments_of words_of replace_string_values frommodel
kept_rows = refl

main-done_example :
    (ccp.Characterize.main characterizer "a" "s" listed).1.outputs
    ≡ [] ++ kept_outputs characterizer "a" "s" (fits ∷ []) listed
unfolding ccp.Characterize.main rules_of run_rules run_rule arguments_of words_of
    replace_string_values frommodel record_output insert_into_fp_command_output create reported
main-done_example = main-done characterizer "a" "s" listed refl refl refl
