-- ===== src/Normalize/Outputs.antt =====
-- clientScripts/normalize.py: what `once_normalized` leaves of the rows that are there, and of the
-- files of a command that wrote more than one.
use ccp.Prelude.{ℕ, String, true, false, Option, none, some, List, [], ◌∷◌, not, ◌≡◌, refl}
use ccp.Prelude.Int.{ℤ}
use ccp.Prelude.Raise.{Result, ok, raised}
use ccp.Prelude.Text.{contains, replace_first}
use ccp.Prelude.Script.{◌>>=◌, Respects, Respects-for_each, continue, for_each, get}
use ccp.Job.{print_error}
use ccp.Rows.{World, format_row, id_row, create, now, or_now, draw_uuid}
use ccp.Database.{EventFields, event_at, insert_into_events}
use ccp.Database.Growth.{Keeps, Keeps-IsTransitive, HasPrimaryKey, Keeps-create}
use ccp.Database.Operations.{
  both, chosen, Keeps-lift, Keeps-now, Keeps-or_now, Keeps-draw_uuid, Keeps-insert_into_events,
  Keeps-insert_into_derivations,
}
use ccp.Database.Keys.{
  is_taken, IsRaised, IsRaised-first, taken-next, insert_into_files-taken, insert_into_files-enters,
  enters-first, enters-next,
}
use ccp.FileOperations.{add_file_to_sip, update_size_and_checksum, in_job}
use ccp.FileOperations.Entries.{
  Keeps-when, Keeps-in_job, Keeps-add_file_to_sip, Keeps-update_size_and_checksum,
}
use ccp.Normalize.{
  NormalizeArgs, FpCommand, Trace, Registry, insert_derivation_event, transcoded_files,
  link_derivative, enter_file, detail_of, once_normalized, outputs_of, report_outputs, Act,
}

Keeps-get : Respects (Keeps Trace) get
unfolding Respects
Keeps-get = Keeps-IsTransitive.same

Keeps-report_outputs :
    (location : String) (found : List String × Option ℤ)
    → Respects (Keeps Trace) (report_outputs location found)
Keeps-report_outputs location (files, none) = Keeps-lift Trace _
Keeps-report_outputs location (files, some code) =
    both (in_job (print_error ("Error - output file does not exist [" ∷ location ∷ "]" ∷ []))) _
      (Keeps-in_job Trace _) (λ _. Keeps-lift Trace (ok (files, some code)))

module _ (reg : Registry) (key : HasPrimaryKey reg.site) (opts : NormalizeArgs)
    (command : FpCommand) where
  Keeps-insert_derivation_event :
      (original output derivation detail note : String) (today : Option ℕ)
      → Respects
          (Keeps Trace)
          (insert_derivation_event reg original output derivation detail note today)
  unfolding insert_derivation_event
  Keeps-insert_derivation_event original output derivation detail note today =
      both (or_now reg.site today) _ (Keeps-or_now reg.site key today) (λ t.
        both (insert_into_events reg.site original (event t)) _
          (Keeps-insert_into_events reg.site key original (event t))
          (λ _. Keeps-insert_into_derivations reg.site key original output (some derivation)))
    where
      event : ℕ → EventFields
      event t = record (event_at "normalization" (some t) detail "" note) {
        identifier = derivation;
      }

  Keeps-link_derivative :
      (derivation detail path : String) (today : ℕ)
      → Respects (Keeps Trace) (link_derivative reg opts derivation detail path today)
  Keeps-link_derivative derivation detail path today =
      chosen (contains "preservation" opts.purpose) _ _ (Keeps-insert_derivation_event _ _ _ _ _ _)
        (Keeps-create reg.site key _)

  -- What follows the entry of the file itself.
  abbrev rest_of : String → String → String → ℕ → Act (Unit {0})
  rest_of derivation detail path today = do
    let relative = replace_first path opts.sip_path "%SIPDirectory%"
    _ ← draw_uuid reg.site
    _ ← update_size_and_checksum reg.site opts.task_uuid path (some today) none "" "" true
    _ ← link_derivative reg opts derivation detail relative today
    _ ←
        create reg.site
          (format_row (record { file = opts.task_uuid; format_version = command.output_format }))
    create reg.site (
        id_row (record {
          file = opts.task_uuid;
          format_name = command.format_description;
          format_version = "";
          format_registry_name = "";
          format_registry_key = "";
        }))

  Keeps-link :
      (derivation detail path : String) (today : ℕ)
      → Respects (Keeps Trace) (rest_of derivation detail path today)
  Keeps-link derivation detail path today = both _ _ (Keeps-draw_uuid reg.site key) (λ _.
      both _ _ (Keeps-update_size_and_checksum reg.site key _ _ _ _ _ _ _) (λ _.
        both _ _ (Keeps-link_derivative derivation detail _ today)
          (λ _. both _ _ (Keeps-create reg.site key _) (λ _. Keeps-create reg.site key _))))

  Keeps-enter_file :
      (derivation detail path : String)
      → Respects (Keeps Trace) (enter_file reg opts command derivation detail path)
  unfolding enter_file
  Keeps-enter_file derivation detail path = both _ _ (Keeps-now reg.site key) (λ today.
      both _ _ (Keeps-add_file_to_sip reg.site key _ _ _ _ _ _)
        (λ _. Keeps-link derivation detail path today))

  Keeps-transcoded_files :
      (location : String) → Respects (Keeps Trace) (transcoded_files reg location)
  unfolding transcoded_files
  Keeps-transcoded_files location = both get _ Keeps-get (λ w. Keeps-report_outputs location _)

  Keeps-once_normalized :
      (printed : Option String) (location : String)
      → Respects (Keeps Trace) (once_normalized reg opts command printed location)
  unfolding once_normalized
  Keeps-once_normalized printed location = both _ _ (Keeps-transcoded_files location) (λ found.
      both _ _ (Keeps-draw_uuid reg.site key) (λ derivation.
        both _ _
          (Respects-for_each (Keeps Trace) Keeps-IsTransitive found.0 _ (λ path.
            Keeps-when Trace (not (contains "thumbnails" opts.purpose)) _
              (Keeps-enter_file derivation (detail_of command printed) path)))
          (λ _. Keeps-lift Trace _)))

  -- The key of a file whose rows were entered is taken.
  entered-is_taken :
      (derivation detail path : String) (w : World Trace)
      → (enter_file reg opts command derivation detail path w).0 ≡ ok tt
      → is_taken opts.task_uuid (enter_file reg opts command derivation detail path w).1 ≡ true
  unfolding enter_file add_file_to_sip
  entered-is_taken derivation detail path w =
      enters-next opts.task_uuid (now reg.site w) _ tt (λ today.
        enters-first opts.task_uuid _ _
          (λ u.
            enters-first opts.task_uuid _ _
              (λ f e. insert_into_files-enters reg.site key opts.task_uuid _ _ _ _ _ _ _ e)
              (λ f. both _ _ (Keeps-insert_into_events reg.site key _ _) (λ _. Keeps-lift Trace _))
              u)
          (λ _. Keeps-link derivation detail path today) tt)

  taken-raises :
      (derivation detail path : String) (w : World Trace)
      → is_taken opts.task_uuid w ≡ true
      → IsRaised (enter_file reg opts command derivation detail path w)
  unfolding enter_file add_file_to_sip
  taken-raises derivation detail path w h =
      taken-next opts.task_uuid (now reg.site) _ w (Keeps-now reg.site key) h (λ today v k.
        IsRaised-first _ _ (
          IsRaised-first _ _ (insert_into_files-taken reg.site key opts.task_uuid _ _ _ _ _ _ v k)))

  raises-twice :
      (derivation detail path path' : String) (rest : List String) (w : World Trace)
      (o : Result (Unit {0}) × World Trace)
      → (o.0 ≡ ok tt → is_taken opts.task_uuid o.1 ≡ true)
      → IsRaised (
          continue o (λ _. for_each (path' ∷ rest) (enter_file reg opts command derivation detail)))
  raises-twice derivation detail path path' rest w (raised e, v) h = (e, refl)
  raises-twice derivation detail path path' rest w (ok u, v) h =
      IsRaised-first _ _ (taken-raises derivation detail path' v (h refl))

  -- A command that wrote two files or more ends the record of its files with an exception, unless
  -- the purpose has the word thumbnails in it, where the database refuses files whose key is
  -- taken: every file gets the identifier of the task.
  pub once_normalized-several :
      (printed : Option String) (location path path' : String) (rest : List String)
      (w : World Trace)
      → contains "thumbnails" opts.purpose ≡ false
      → outputs_of reg location w.disk ≡ (path ∷ path' ∷ rest, none)
      → IsRaised (once_normalized reg opts command printed location w)
  unfolding once_normalized transcoded_files draw_uuid
  once_normalized-several printed location path path' rest w h k = rw k (
      rw h
        (IsRaised-first _ _ (raises-twice _ _ path path' rest w _ (entered-is_taken _ _ path _))))
