-- ===== src/FileOperations.antt =====
-- utils/fileOperations.py: files entered in the database, their sizes and checksums, their removal
-- and their location groups. The disk is an argument of what the `Site` answers, and `executeOrRun`,
-- the only program that is called here, is the parameter `execute_or_run` of `rename`.
pub mod Locations
pub mod Csv
pub mod Saves
pub mod Entries
use ccp.Prelude.{
  ℕ, zero, suc, ◌<>◌, String, Bool, true, false, Option, none, some, List, [], ◌∷◌, str_eq,
  if◌then◌else◌,
}
use ccp.Prelude.Int.{ℤ, pos, is_zero}
use ccp.Prelude.Decimal.{show_code}
use ccp.Prelude.Raise.{Exception, exception, Result, ok, raised}
use ccp.Prelude.Script.{Script, ◌>>=◌, pure, throw, get, modify, lift, skip, when}
use ccp.Job.{Job, print_output, print_error}
use ccp.ExecuteOrRun.{Triple}
use ccp.Rows.{File, EventRow, World, Site, has_uuid, update_files, or_else, is_value}
use ccp.Database.{event_at, insert_into_files, insert_into_events}

abbrev or_zero : Option ℕ → ℕ
or_zero none = 0
or_zero (some n) = n

abbrev pub measured : ℕ → String → String → File → File
measured size checksum type f = record f {
  size = some size;
  checksum = checksum;
  checksumtype = type;
}

abbrev pub digest_detail : String → String
digest_detail type = "program=\"python\"; module=\"hashlib." <> type <> "()\""

module _ {D : Type 0} where
  abbrev pub read_disk : {A : Type 0} → (D → Result A) → Script (World D) A
  read_disk f w = (f w.disk, w)

  -- A call that changes the disk.
  abbrev pub on_disk : {A : Type 0} → (D → Result A × D) → Script (World D) A
  on_disk f w = let (r, disk) = f w.disk in (r, record w { disk = disk })

  abbrev pub size_of : Site D → String → ℕ → Script (World D) ℕ
  size_of site path zero = read_disk (site.get_size path)
  size_of site path (suc n) = pure (suc n)

  abbrev pub digest_of : Site D → String → String → String → Script (World D) String
  digest_of site path type given =
      if str_eq given "" then read_disk (site.file_checksum path type) else pure given

  -- `get_size_and_checksum`: a size of 0 is measured again, and an empty text is no checksum.
  unfoldable pub get_size_and_checksum :
      Site D → String → Option ℕ → String → String → Script (World D) (ℕ × (String × String))
  get_size_and_checksum site path size checksum type = do
    n ← size_of site path (or_zero size)
    let kind = or_else type (site.setting "checksum_type" "sha256")
    digest ← digest_of site path kind checksum
    pure (n, (digest, kind))

  -- `updateSizeAndChecksum`
  unfoldable pub update_size_and_checksum :
      Site D
      → String
      → String
      → Option ℕ
      → Option ℕ
      → String
      → String
      → Bool
      → Script (World D) (Unit {0})
  update_size_and_checksum site uuid path date size checksum type add_event = do
    found ← get_size_and_checksum site path size checksum type
    _ ← modify (update_files (has_uuid uuid) (measured found.0 found.1.0 found.1.1))
    when add_event (
        insert_into_events site uuid
          (event_at "message digest calculation" date (digest_detail found.1.1) "" found.1.0)
        >>= (λ _. skip))

  -- The accession number of a transfer, if the transfer is there: the row is `Transfer.accessionid`.
  abbrev pub accession_event : Option ℕ → String → Site D → String → Script (World D) (Unit {0})
  accession_event date accession site uuid =
      if str_eq accession ""
      then skip
      else insert_into_events site uuid
          (event_at "registration" date "" "" ("accession#" <> accession))
        >>= (λ _. skip)

  -- `addAccessionEvent`
  unfoldable pub add_accession_event :
      Site D → String → String → Option ℕ → Script (World D) (Unit {0})
  add_accession_event site uuid transfer date = do
    accession ← lift (site.accessionid transfer)
    accession_event date accession site uuid

  -- `addFileToTransfer`
  unfoldable pub add_file_to_transfer :
      Site D
      → String
      → String
      → String
      → Option ℕ
      → String
      → String
      → String
      → String
      → Script (World D) File
  add_file_to_transfer site path uuid transfer date source detail group original = do
    f ← insert_into_files site uuid path date transfer "" group (or_else original path)
    _ ← insert_into_events site uuid (event_at source date detail "" "")
    _ ← add_accession_event site uuid transfer date
    pure f

  -- `addFileToSIP`
  unfoldable pub add_file_to_sip :
      Site D → String → String → String → Option ℕ → String → String → Script (World D) (Unit {0})
  add_file_to_sip site path uuid sip date source group = do
    _ ← insert_into_files site uuid path date "" sip group ""
    _ ← insert_into_events site uuid (event_at source date "" "" "")
    skip

  -- `updateFileGrpUsefileGrpUUID` and `updateFileGrpUse`
  unfoldable pub update_file_grp_use_file_grp_uuid :
      String → String → String → Script (World D) (Unit {0})
  update_file_grp_use_file_grp_uuid uuid group group_uuid = modify (
      update_files (has_uuid uuid) (λ f. record f { filegrpuse = group; filegrpuuid = group_uuid }))

  unfoldable pub update_file_grp_use : String → String → Script (World D) (Unit {0})
  update_file_grp_use uuid group =
      modify (update_files (has_uuid uuid) (λ f. record f { filegrpuse = group }))

  abbrev pub in_job : (Job → Job) → Script (World D) (Unit {0})
  in_job f = modify (λ w. record w { job = f w.job })

  abbrev report_rename : Bool → Triple → Script (World D) ℤ
  report_rename should_exit t = do
    _ ← in_job (print_error ("exitCode:" ∷ show_code t.retcode ∷ []))
    _ ← in_job (print_error (t.std_out ∷ []))
    _ ← in_job (print_error (t.std_error ∷ []))
    if should_exit then throw (exception (show_code t.retcode)) else pure t.retcode

  abbrev renamed : Bool → Triple → Script (World D) ℤ
  renamed should_exit t = if is_zero t.retcode then pure t.retcode else report_rename should_exit t

  -- `rename`: `exit` raises SystemExit, whose text is the code.
  unfoldable pub rename :
      (List String → D → Result Triple × D) → String → String → Bool → Script (World D) ℤ
  rename execute_or_run source destination should_exit =
      if str_eq source destination
      then in_job (print_output ("Source and destination are the same, nothing to do." ∷ []))
        >>= (λ _. pure (pos 0))
      else on_disk (execute_or_run ("mv" ∷ source ∷ destination ∷ [])) >>= renamed should_exit
