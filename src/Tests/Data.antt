-- ===== src/Tests/Data.antt =====
-- The values that the examples share: a schedule, an input, a store, a host of the scheduler.
use calf.Common.{◌*◌, true, false, none, some, [], ◌∷◌, pos}
use calf.Strings.{text}
use calf.VolumeExport.Time.{utc, Rfc3339, second}
use calf.VolumeExport.Names.{CivilTime}
use calf.VolumeExport.Schedule.{Schedule}
use calf.VolumeExport.Store.{kept, Disk, decoded}
use calf.Daemon.ExportScheduler.{Host}

-- Tuesdays at 09:30 and 18:00, to an archive in /tmp.
abbrev pub tuesdays : Schedule
tuesdays = record {
  id = text "s1";
  volume = text "data";
  enabled = true;
  day_times = record { day = pos 2; times = text "18:00" ∷ text "09:30" ∷ [] } ∷ [];
  type = text "local_file";
  file_name = text "{volume}_{timestamp}";
  folder = text "/tmp";
  image_ref = [];
  created_at = text "2026-01-01T00:00:00Z";
  last_run_at = [];
  next_run_at = text "2026-01-06T09:30:00Z";
  last_status = [];
  last_error = [];
}

-- A store with this schedule in the file of its volume.
abbrev pub store : Disk
store = record {
  files = (text "data.json", decoded (tuesdays ∷ [])) ∷ [];
  can_create_dir = true;
  can_write = true;
  failed_write = kept;
  can_remove = true;
}

-- Every text is read as the instant 5.
abbrev pub constant_clock : Rfc3339
constant_clock = record { format = λ t. text "now"; parse = λ s. some 5 }

abbrev pub midnight : CivilTime
midnight = record { year = 2026; month = 1; day = 6; hour = 0; minute = 0; second = 0 }

abbrev pub host : Host
host = record {
  zone = utc;
  rfc3339 = constant_clock;
  civil = λ t. midnight;
  lower = λ c. c;
  message = λ e. text "invalid schedule";
  stopped = λ s. false;
  running = λ s. true;
  export_error = λ volume request. none;
  time_after = λ s. 200 * second;
}
