-- ===== src/IdentifyFormat/Errors.antt =====
-- clientScripts/identify_file_format.py: an identification that fails leaves the formats of the files,
-- and one that succeeds gives the file its format.
use ccp.Prelude.{
  ◌<>◌, String, Bool, true, false, Option, none, some, [], ◌∷◌, ◌&&◌, str_eq, if◌then◌else◌, ◌≡◌,
  refl, sym,
}
use ccp.Prelude.Int.{ℤ, is_zero}
use ccp.Prelude.Raise.{ok, raised}
use ccp.Prelude.Script.{
  Script, ◌>>=◌, Respects, Returns-pure, Returns->>=, Within, Within-Respects, Within-never,
  Within->>=, pure, throw, get, lift,
}
use ccp.Job.{print_output, print_error, write_error}
use ccp.ExecuteOrRun.{Triple}
use ccp.Rows.{File, World, get_file, has_uuid, raise_got}
use ccp.FileOperations.{in_job, on_disk}
use ccp.IdentifyFormat.{
  Identifier, IdCommand, FormatVersion, Found, format_found, unknown, search_raised, search_format,
  success_code, error_code, save_id_preference, write_identification_event, write_file_id,
  set_format, record_format, conclude, recognise, report_failure, after_command, identify_unless,
  was_identified, announce, identify_with, main, no_command_text, unit_of, save_unit,
}
use ccp.IdentifyFormat.SameFormats.{
  SameFormats, SameFormats-IsTransitive, Same-in_job, Same-lift, Same-read, Same-on_disk, two,
  Same-draw_uuid, Same-now, Same-create, Same-insert_into_events,
}

module _ {D : Type 0} (env : Identifier D) where
  abbrev Quiet : {A : Type 0} → Script (World D) A → Type 0
  Quiet {A} m = Respects {A = A} (SameFormats D) m

  -- The formats are left when the code is the error code.
  abbrev Failing : Script (World D) ℤ → Type 0
  Failing m = Within (SameFormats D) error_code m

  quiet : (m : Script (World D) ℤ) → Quiet m → Failing m
  quiet = Within-Respects (SameFormats D) (SameFormats-IsTransitive D) error_code

  chained :
      {A : Type 0}
      → (m : Script (World D) A) (k : A → Script (World D) ℤ) → Quiet m
      → ((a : A) → Failing (k a))
      → Failing (m >>= k)
  chained = Within->>= (SameFormats D) (SameFormats-IsTransitive D) error_code

  Quiet-event :
      (uuid : String) (command : IdCommand) (format : Option String) (positive : Bool)
      → Quiet (write_identification_event env uuid command format positive)
  unfolding write_identification_event
  Quiet-event uuid command format positive = two D _ _ (Same-now env.site) (λ date.
      two D _ _ (Same-draw_uuid env.site)
        (λ id. two D _ _ (Same-insert_into_events env.site uuid _) (λ _. Same-lift D _)))

  Quiet-unit : (unit : Option String) → Quiet (save_unit env unit)
  Quiet-unit none = Same-lift D _
  Quiet-unit (some unit) = Same-create env.site _ (λ w. record { formats = refl; ids = refl })

  Quiet-preference : (f : File) → Quiet (save_id_preference env f)
  unfolding save_id_preference
  Quiet-preference f = Quiet-unit (unit_of f)

  record_format-Failing :
      (path uuid : String) (command : IdCommand) (output : String) (format : FormatVersion)
      → Failing (record_format env path uuid command output format)
  record_format-Failing path uuid command output format =
      Within-never (SameFormats D) (SameFormats-IsTransitive D) error_code is_zero _ refl (
        Returns->>= (World D) is_zero (set_format env uuid format.key) _ (λ _.
          Returns->>= (World D) is_zero
            (in_job (print_output ((path <> " identified as a " <> format.description) ∷ []))) _
            (λ _.
              Returns->>= (World D) is_zero
                (write_identification_event env uuid command format.pronom_id true) _
                (λ _.
                  Returns->>= (World D) is_zero (write_file_id env uuid format output) _
                    (λ _. Returns-pure (World D) is_zero success_code refl)))))

  conclude-Failing :
      (path uuid : String) (command : IdCommand) (output : String) (found : Found)
      → Failing (conclude env path uuid command output found)
  conclude-Failing path uuid command output (format_found format) =
      record_format-Failing path uuid command output format
  conclude-Failing path uuid command output (unknown message) =
      chained (in_job (print_error (message ∷ []))) _ (Same-in_job D _) (λ _.
        chained (write_identification_event env uuid command none false) _
          (Quiet-event uuid command none false)
          (λ _. quiet (pure error_code) (Same-lift D (ok error_code))))
  conclude-Failing path uuid command output (search_raised e) =
      quiet (throw e) (Same-lift D (raised e))

  after_command-Failing :
      (path uuid : String) (command : IdCommand) (t : Triple)
      → Failing (after_command env path uuid command t)
  after_command-Failing path uuid command t = branch (is_zero t.retcode)
    where
      branch :
          (b : Bool)
          → Failing (
              if b
              then recognise env path uuid command (env.strip t.std_out)
              else report_failure command t.std_error)
      branch true =
          chained (in_job (print_output ("Command output:" ∷ env.strip t.std_out ∷ []))) _
            (Same-in_job D _)
            (λ _.
              conclude-Failing path uuid command (env.strip t.std_out)
                (search_format env command (env.strip t.std_out)))
      branch false = quiet (report_failure command t.std_error) (
          two D
            (in_job (
              print_error
                (("Error: IDCommand with UUID " <> command.uuid <> " exited non-zero.") ∷ [])))
            _ (Same-in_job D _)
            (λ _.
              two D (in_job (print_error (("Error: " <> t.std_error) ∷ []))) _ (Same-in_job D _)
                (λ _. Same-lift D (ok error_code))))

  identify_unless-Failing :
      (path uuid : String) (command : IdCommand) (f : File) (b : Bool)
      → Failing (identify_unless env path uuid command f b)
  identify_unless-Failing path uuid command f true =
      chained
        (in_job (
          print_output (
            "This file has already been identified, and re-identification is disabled. Skipping."
            ∷ [])))
        _ (Same-in_job D _) (λ _. quiet (pure success_code) (Same-lift D (ok success_code)))
  identify_unless-Failing path uuid command f false =
      chained (save_id_preference env f) _ (Quiet-preference f) (λ _.
        chained (on_disk (env.execute_or_run command.script_type command.script (path ∷ []))) _
          (Same-on_disk D _) (λ t. after_command-Failing path uuid command t))

  Quiet-announce : (command : IdCommand) (path uuid : String) → Quiet (announce command path uuid)
  Quiet-announce command path uuid = Same-in_job D _

  identify_with-Failing :
      (path uuid : String) (disabled : Bool) (command : Option IdCommand)
      → Failing (identify_with env path uuid disabled command)
  identify_with-Failing path uuid disabled none =
      chained (in_job (write_error no_command_text)) _ (Same-in_job D _)
        (λ _. quiet (pure error_code) (Same-lift D (ok error_code)))
  identify_with-Failing path uuid disabled (some command) =
      chained (announce command path uuid) _ (Quiet-announce command path uuid) (λ _.
        chained get _ (Same-read D ok) (λ w.
          chained (lift (raise_got (get_file (has_uuid uuid) w))) _ (Same-lift D _)
            (λ f. identify_unless-Failing path uuid command f (disabled && was_identified uuid w))))

  -- An identification that returns the error code leaves the tables of formats and of
  -- identifications as they were.
  pub main-leaves_formats :
      (enabled path uuid : String) (disabled : Bool) (w : World D)
      → (main env enabled path uuid disabled w).0 ≡ ok error_code
      → ((main env enabled path uuid disabled w).1.formats ≡ w.formats)
        × ((main env enabled path uuid disabled w).1.ids ≡ w.ids)
  unfolding main Within
  main-leaves_formats enabled path uuid disabled w h =
      let k = branch (str_eq enabled "True") w h in (sym k.formats, sym k.ids)
    where
      branch :
          (b : Bool)
          → Failing (
              if b
              then identify_with env path uuid disabled env.command
              else (in_job (print_output ("Skipping file format identification" ∷ []))
                  >>= (λ _. pure success_code)))
      branch true = identify_with-Failing path uuid disabled env.command
      branch false =
          chained (in_job (print_output ("Skipping file format identification" ∷ []))) _
            (Same-in_job D _) (λ _. quiet (pure success_code) (Same-lift D (ok success_code)))
