-- ===== src/FileOperations/Entries.antt =====
-- utils/fileOperations.py: entering a file keeps the rows that are there.
use ccp.Prelude.{ℕ, ◌<>◌, zero, suc, String, Bool, true, false, Option, str_eq, refl}
use ccp.Prelude.Raise.{ok}
use ccp.Prelude.Script.{Script, ◌>>=◌, lift, Respects, when, skip}
use ccp.Job.{Job}
use ccp.Rows.{World, Site, has_uuid}
use ccp.Database.{EventFields, event_at, insert_into_events}
use ccp.Database.Growth.{
  Keeps, Keeps-IsTransitive, Keeps-update_files, keeps_same_keys, HasPrimaryKey, prefix_refl,
}
use ccp.Database.Operations.{
  both, chosen, Keeps-lift, Keeps-read, Keeps-insert_into_files, Keeps-insert_into_events,
}
use ccp.FileOperations.{
  get_size_and_checksum, update_size_and_checksum, add_accession_event, accession_event,
  digest_detail, add_file_to_transfer, add_file_to_sip, in_job, size_of, measured,
}

module _ (D : Type 0) where
  pub Keeps-when :
      (b : Bool) (m : Script (World D) (Unit {0}))
      → Respects {A = Unit {0}} (Keeps D) m
      → Respects {A = Unit {0}} (Keeps D) (when b m)
  unfolding Respects
  Keeps-when true m h = h
  Keeps-when false m h = Keeps-IsTransitive.same

  pub Keeps-in_job : (f : Job → Job) → Respects {A = Unit {0}} (Keeps D) (in_job f)
  unfolding Respects
  Keeps-in_job f = λ w.
      keeps_same_keys w (record w { job = f w.job }) refl (prefix_refl w.events)
        (prefix_refl w.derivations) (prefix_refl w.outputs)

module _ {D : Type 0} (site : Site D) where
  Keeps-size_of : (path : String) (n : ℕ) → Respects (Keeps D) (size_of site path n)
  Keeps-size_of path zero = Keeps-read D _
  Keeps-size_of path (suc n) = Keeps-lift D _

  pub Keeps-get_size_and_checksum :
      (path : String) (size : Option ℕ) (checksum type : String)
      → Respects (Keeps D) (get_size_and_checksum site path size checksum type)
  unfolding get_size_and_checksum
  Keeps-get_size_and_checksum path size checksum type = both _ _ (Keeps-size_of path _) (λ n.
      both _ _ (chosen (str_eq checksum "") _ _ (Keeps-read D _) (Keeps-lift D _))
        (λ digest. Keeps-lift D _))

module _ {D : Type 0} (site : Site D) (key : HasPrimaryKey site) where
  pub Keeps-event :
      (uuid : String) (fields : EventFields)
      → Respects {A = Unit {0}} (Keeps D) (insert_into_events site uuid fields >>= (λ _. skip))
  Keeps-event uuid fields =
      both (insert_into_events site uuid fields) (λ _. skip)
        (Keeps-insert_into_events site key uuid fields) (λ _. Keeps-lift D (ok tt))

  pub Keeps-update_size_and_checksum :
      (uuid path : String) (date size : Option ℕ) (checksum type : String) (event : Bool)
      → Respects (Keeps D) (update_size_and_checksum site uuid path date size checksum type event)
  unfolding update_size_and_checksum
  Keeps-update_size_and_checksum uuid path date size checksum type event =
      both _ _ (Keeps-get_size_and_checksum site path size checksum type) (λ found.
        both _ _
          (Keeps-update_files D (has_uuid uuid) (measured found.0 found.1.0 found.1.1)
            (λ f h. refl))
          (λ _. Keeps-when D event _ (
            Keeps-event uuid
              (event_at "message digest calculation" date (digest_detail found.1.1) "" found.1.0))))

  pub Keeps-add_file_to_sip :
      (path uuid sip : String) (date : Option ℕ) (source group : String)
      → Respects (Keeps D) (add_file_to_sip site path uuid sip date source group)
  unfolding add_file_to_sip
  Keeps-add_file_to_sip path uuid sip date source group =
      both _ _ (Keeps-insert_into_files site key uuid path date "" sip group "")
        (λ f. both _ _ (Keeps-insert_into_events site key uuid _) (λ _. Keeps-lift D _))

  Keeps-add_accession_event :
      (uuid transfer : String) (date : Option ℕ)
      → Respects (Keeps D) (add_accession_event site uuid transfer date)
  unfolding add_accession_event
  Keeps-add_accession_event uuid transfer date =
      both (lift (site.accessionid transfer))
        (λ accession. accession_event date accession site uuid)
        (Keeps-lift D (site.accessionid transfer))
        (λ accession.
          chosen (str_eq accession "") _ _ (Keeps-lift D (ok tt))
            (Keeps-event uuid (event_at "registration" date "" "" ("accession#" <> accession))))

  Keeps-add_file_to_transfer :
      (path uuid transfer : String) (date : Option ℕ) (source detail group original : String)
      → Respects
          (Keeps D)
          (add_file_to_transfer site path uuid transfer date source detail group original)
  unfolding add_file_to_transfer
  Keeps-add_file_to_transfer path uuid transfer date source detail group original =
      both _ _ (Keeps-insert_into_files site key uuid path date transfer "" group _) (λ f.
        both _ _ (Keeps-insert_into_events site key uuid _)
          (λ _. both _ _ (Keeps-add_accession_event uuid transfer date) (λ _. Keeps-lift D _)))
