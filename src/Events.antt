-- ===== src/Events.antt =====
-- utils/databaseFunctions.py: the PREMIS events that the scripts insert, by the columns that they
-- give; the identifiers that the function makes up when they are missing are not modelled, nor is
-- the time of the save, which replaces the date that is given.
use ccp.Prelude.{String}

pub record Event : Type 0 where
  pub file_uuid : String
  pub event_type : String
  pub event_date_time : String
  pub event_detail : String
  pub event_outcome : String
  pub event_outcome_detail_note : String
