-- ===== src/Admin/Transfer/Tests.antt =====
-- A file with one server, one scheduler and one listener, imported into an empty database.
use jobworkerp_conductor.Prelude.{◌≡◌, refl, false, String, some, none, [], ◌∷◌, ok, ◌+◌}
use jobworkerp_conductor.HashMap.{get, insert}
use jobworkerp_conductor.Admin.Transfer.{Urls, WorkflowSettingItem, WorkflowSettingFile, Database}
use jobworkerp_conductor.Admin.Transfer.Import.{import_toml_config}
use jobworkerp_conductor.Admin.Transfer.Sound.{IsSound}
use jobworkerp_conductor.Admin.Transfer.Integrity.{import_toml_config-IsSound}

-- Every address is a host of its own.
abbrev hosts : Urls
hosts = record {
  Url = String;
  parse = λ address. some address;
  host_str = λ url. some url;
  scheme = λ url. "http";
  port = λ url. none;
}

abbrev item : WorkflowSettingItem
item = record {
  name = "daily";
  jobworkerp = "main";
  workflow_url = "";
  channel = none;
  listen_worker_name = some "fetch";
  listen_jobworkerp = some "main";
  crontab = some "0 0 0 * * *";
  args = none;
  worker_name = some "report";
  using = some "";
}

abbrev file : WorkflowSettingFile
file = record {
  jobworkerp = record { name = "main"; address = "localhost" } ∷ [];
  listeners = some (item ∷ []);
  schedulers = some (item ∷ []);
}

abbrev empty_database : Database
empty_database = record { servers = []; crons = []; handlers = []; slack = [] }

empty-IsSound : IsSound empty_database
unfolding get
empty-IsSound = (λ id row g. cc g, λ id row g. cc g)

imported : (import_toml_config hosts (λ n. n + 1) 9 0 false file empty_database).0 ≡ ok (1, 1, 1)
unfolding import_toml_config get insert
imported = refl

import_toml_config-IsSound_example :
    IsSound (import_toml_config hosts (λ n. n + 1) 9 0 false file empty_database).1
import_toml_config-IsSound_example =
    import_toml_config-IsSound hosts (λ n. n + 1) 9 0 false file empty_database empty-IsSound
