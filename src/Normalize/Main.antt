-- ===== src/Normalize/Main.antt =====
-- clientScripts/normalize.py: `main` and `call`. The result of argparse is an argument of `call_job`.
use ccp.Prelude.{◌<>◌, String, Option, none, some, List, [], ◌∷◌, not, ◌&&◌, str_eq, if◌then◌else◌}
use ccp.Prelude.Int.{ℤ, pos, is_zero}
use ccp.Prelude.Text.{contains, starts_with}
use ccp.Prelude.Paths.{basename, extension}
use ccp.Prelude.Raise.{Exception, exception, Result, ok, raised}
use ccp.Prelude.Script.{◌>>=◌, pure, throw, get, lift, when}
use ccp.Job.{print_output, print_error, set_status, success}
use ccp.Rows.{
  File, World, Got, one, does_not_exist, multiple_objects, has_uuid, get_file, raise_got, draw_uuid,
}
use ccp.FileOperations.{in_job, read_disk}
use ccp.Normalize.{
  NormalizeArgs, FpRule, Trace, Act, Registry, get_replacement_dict, insert_derivation_event,
  success_code, rule_failed, no_rule_found,
}
use ccp.Normalize.Manual.{check_manual_normalization, say}
use ccp.Normalize.Linker.{Attempt, link_with}
use ccp.Normalize.Rules.{
  remove_derivatives, Choice, run_rule, return_code, choose_rule, announce_rule, attempt_with,
}

abbrev no_decode : Exception
no_decode = exception "'NoneType' object has no attribute 'decode'"

-- `location.decode()`
abbrev pub decoded : Option String → Result String
decoded none = raised no_decode
decoded (some location) = ok location

abbrev pub copy_thumbnail : Registry → NormalizeArgs → Option String → Act (Unit {0})
copy_thumbnail reg opts none =
    throw (exception "expected str, bytes or os.PathLike object, not NoneType")
copy_thumbnail reg opts (some location) =
    read_disk (reg.store_thumbnail location (opts.file_uuid <> extension location))

abbrev pub store_thumbnails : Registry → NormalizeArgs → Attempt → Act (Unit {0})
store_thumbnails reg opts a =
    when (contains "thumbnail" opts.purpose) (
      read_disk (reg.make_thumbnail_dir opts.sip_uuid)
      >>= (λ _. copy_thumbnail reg opts a.location))

abbrev pub verdict : NormalizeArgs → Attempt → Act ℤ
verdict opts a =
    if is_zero a.code
    then say ("Successfully normalized " ∷ basename opts.file_path ∷ "for" ∷ opts.purpose ∷ [])
      >>= (λ _. pure success_code)
    else in_job (print_error ("Command" ∷ a.command.description ∷ "failed!" ∷ []))
      >>= (λ _. pure rule_failed)

unfoldable pub run_chosen : Registry → NormalizeArgs → String → FpRule → Act ℤ
run_chosen reg opts location rule = do
  _ ← announce_rule "Format Policy Rule:" "Format Policy Command" rule
  rd ← get_replacement_dict reg opts
  first ← link_with reg opts rule rd
  last ← attempt_with reg opts location first
  _ ← store_thumbnails reg opts last
  verdict opts last

abbrev pub follow : Registry → NormalizeArgs → String → Choice → Act ℤ
follow reg opts location (run_rule rule) = run_chosen reg opts location rule
follow reg opts location (return_code code) = pure code

-- A file that was normalized by hand, or the search of a rule.
unfoldable pub normalize_unless : Registry → NormalizeArgs → String → Option File → Act ℤ
normalize_unless reg opts location none = choose_rule reg opts location >>= follow reg opts location
normalize_unless reg opts location (some manual) = do
  place ← lift (decoded manual.currentlocation)
  _ ← say (basename opts.file_path ∷ "was already manually normalized into" ∷ place ∷ [])
  _ ← when (contains "preservation" opts.purpose) (
      draw_uuid reg.site >>= (λ id.
        insert_derivation_event reg opts.file_uuid manual.uuid id "manual normalization" "" none))
  pure success_code

-- Why a file is passed over, if it is.
unfoldable pub skipped : NormalizeArgs → File → String → Option (List String)
skipped opts f location =
    if not (str_eq opts.normalize_file_grp_use "submissionDocumentation")
      && starts_with "%SIPDirectory%objects/submissionDocumentation" location
    then some
        ("File" ∷ basename opts.file_path ∷ "in objects/submissionDocumentation, skipping" ∷ [])
    else if str_eq f.filegrpuse opts.normalize_file_grp_use
    then none
    else some (
        basename opts.file_path
        ∷ "is file group usage"
        ∷ f.filegrpuse
        ∷ "instead of "
        ∷ opts.normalize_file_grp_use
        ∷ " - skipping"
        ∷ [])

abbrev pub go_on : Registry → NormalizeArgs → String → Option (List String) → Act ℤ
go_on reg opts location (some words) = say words >>= (λ _. pure success_code)
go_on reg opts location none = do
  _ ← remove_derivatives reg opts.file_uuid opts.purpose
  manual ← check_manual_normalization reg opts
  normalize_unless reg opts location manual

abbrev pub main_found : Registry → NormalizeArgs → Got File → Act ℤ
main_found reg opts (one f) = do
  location ← lift (decoded f.currentlocation)
  _ ← say ("File found:" ∷ f.uuid ∷ location ∷ [])
  go_on reg opts location (skipped opts f location)
main_found reg opts does_not_exist =
    in_job (print_error ("File with uuid" ∷ opts.file_uuid ∷ "does not exist in database." ∷ []))
    >>= (λ _. pure no_rule_found)
main_found reg opts multiple_objects = lift (raise_got multiple_objects)

-- `main`
unfoldable pub main : Registry → NormalizeArgs → Act ℤ
main reg opts = do w ← get; main_found reg opts (get_file (has_uuid opts.file_uuid) w)

abbrev pub set_result : Result ℤ × World Trace → World Trace
set_result (ok code, w) = record w { job = set_status code success w.job }
set_result (raised e, w) = record w {
  job = set_status (pos 1) success (print_error (e.message ∷ []) w.job);
}

-- One round of the loop of `call`.
unfoldable pub call_job : Registry → NormalizeArgs → World Trace → World Trace
call_job reg opts w =
    if str_eq opts.purpose "thumbnail" && str_eq opts.thumbnail_mode "do_not_generate"
    then record w {
      job =
          set_status success_code success
            (print_output ("Thumbnail generation has been disabled" ∷ []) w.job);
    }
    else set_result (main reg opts w)
