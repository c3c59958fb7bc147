-- ===== src/Admin/Transfer/Integrity.antt =====
-- The import keeps every reference to a server and every target.
use mathlib.Core.Path.{subst}
use jobworkerp_conductor.Prelude.{
  ℕ, ◌+◌, String, ◌≡◌, refl, Bool, true, false, some, List, [], ◌∷◌, Result, ok, err, bind_ok,
  some-ok_or, both_ok, ok_or, if◌then◌else◌, inl, inr, ℕ-HasEq, String-HasEq,
}
use jobworkerp_conductor.HashMap.{HashMap, get}
use jobworkerp_conductor.Admin.Table.{Table}
use jobworkerp_conductor.Admin.Table.Kinds.{cron_kind, handler_kind, server_kind}
use jobworkerp_conductor.Admin.Transfer.{
  JobWorkerpSetting, WorkflowSettingItem, WorkflowSettingFile, Urls, TransferError, missing_crontab,
  missing_listen_worker, missing_listen_server, unknown_server, Database, or_none,
  clear_all_configs, parse_server_address, validate_items, validate_servers, validate_toml_config,
}
use jobworkerp_conductor.Admin.Transfer.Import.{
  server_map, import_servers, import_schedulers, import_listeners, import_items, import_valid,
  commit, import_toml_config,
}
use jobworkerp_conductor.Admin.Transfer.Sound.{
  HasServer, CronIsSound, HandlerIsSound, AllRows, IsSound, Grows, insert-AllRows, inserted-put,
  insert-Grows, server_map-HasServer, scheduler_columns-HasTarget, listener_columns-HasTarget,
  valid_items,
}

module _ (urls : Urls) (generate_id : ℕ → ℕ) (now : ℕ) where
  import_servers-Grows :
      (n : ℕ) (items : List JobWorkerpSetting) (t t' : Table server_kind)
      → import_servers urls generate_id now n items t ≡ ok t'
      → Grows t t'
  unfolding import_servers
  import_servers-Grows n [] t t' h =
      let same : t ≡ t' = cc h in λ id s. subst (λ u. HasServer u id) same s
  import_servers-Grows n (item ∷ rest) t t' h =
      let address = bind_ok (parse_server_address urls item.address) _ t' h in
      let put = bind_ok _ _ t' address.2 in
      let grown = inserted-put server_kind (generate_id n) t put.0 _ _ refl put.1 in
      λ id s.
        import_servers-Grows (n + 1) rest put.0 t' put.2 id
          (subst (λ u. HasServer u id) grown (insert-Grows (generate_id n) _ t id s))

  -- What the map of names says.
  abbrev Points : Table server_kind → HashMap String ℕ → Type 0
  Points servers ids = (name : String) (id : ℕ) → get name ids ≡ some id → HasServer servers id

  module _ (servers : Table server_kind) (ids : HashMap String ℕ)
      (points : Points servers ids) where
    import_schedulers-IsSound :
        (n : ℕ) (items : List WorkflowSettingItem) (t t' : Table cron_kind)
        → validate_items items ≡ ok tt
        → import_schedulers urls generate_id now ids n items t ≡ ok t'
        → AllRows (CronIsSound servers) t
        → AllRows (CronIsSound servers) t'
    unfolding import_schedulers
    import_schedulers-IsSound n [] t t' v h all =
        let same : t ≡ t' = cc h in subst (AllRows (CronIsSound servers)) same all
    import_schedulers-IsSound n (item ∷ rest) t t' v h all =
        let valid = valid_items item rest v in
        let crontab = bind_ok (ok_or (missing_crontab item.name) item.crontab) _ t' h in
        let server =
          bind_ok (ok_or (unknown_server item.jobworkerp item.name) (get item.jobworkerp ids)) _ t'
            crontab.2 in
        let put = bind_ok _ _ t' server.2 in
        let grown = inserted-put cron_kind (generate_id n) t put.0 _ _ refl put.1 in
        let found = points item.jobworkerp server.0 (some-ok_or _ _ server.0 server.1) in
        import_schedulers-IsSound (n + 1) rest put.0 t' valid.1 put.2 (
          subst (AllRows (CronIsSound servers)) grown (
            insert-AllRows (CronIsSound servers) (generate_id n) _ t
              (found, scheduler_columns-HasTarget item valid.0) all))

    import_listeners-IsSound :
        (n : ℕ) (items : List WorkflowSettingItem) (t t' : Table handler_kind)
        → validate_items items ≡ ok tt
        → import_listeners urls generate_id now ids n items t ≡ ok t'
        → AllRows (HandlerIsSound servers) t
        → AllRows (HandlerIsSound servers) t'
    unfolding import_listeners
    import_listeners-IsSound n [] t t' v h all =
        let same : t ≡ t' = cc h in subst (AllRows (HandlerIsSound servers)) same all
    import_listeners-IsSound n (item ∷ rest) t t' v h all =
        let valid = valid_items item rest v in
        let name =
          bind_ok (ok_or (missing_listen_worker item.name) item.listen_worker_name) _ t' h in
        let listen =
          bind_ok (ok_or (missing_listen_server item.name) item.listen_jobworkerp) _ t' name.2 in
        let from =
          bind_ok (ok_or (unknown_server listen.0 item.name) (get listen.0 ids)) _ t' listen.2 in
        let to =
          bind_ok (ok_or (unknown_server item.jobworkerp item.name) (get item.jobworkerp ids)) _ t'
            from.2 in
        let put = bind_ok _ _ t' to.2 in
        let grown = inserted-put handler_kind (generate_id n) t put.0 _ _ refl put.1 in
        import_listeners-IsSound (n + 1) rest put.0 t' valid.1 put.2 (
          subst (AllRows (HandlerIsSound servers)) grown (
            insert-AllRows (HandlerIsSound servers) (generate_id n) _ t
              (
                points listen.0 from.0 (some-ok_or _ _ from.0 from.1),
                points item.jobworkerp to.0 (some-ok_or _ _ to.0 to.1),
                listener_columns-HasTarget item valid.0,
              )
              all))

  grown-IsSound :
      (db : Database) (servers : Table server_kind)
      → Grows db.servers servers
      → IsSound db
      → IsSound (record db { servers = servers })
  grown-IsSound db servers grows s = (
    λ id row g. let r = s.0 id row g in (grows row.jobworkerp_server_id r.0, r.1),
    λ id row g.
        let r = s.1 id row g in
        (
          grows row.listen_jobworkerp_server_id r.0,
          grows row.process_jobworkerp_server_id r.1,
          r.2,
        ),
  )

  server_map-Points : (servers : Table server_kind) → Points servers (server_map servers [])
  unfolding get
  server_map-Points servers name id h = elim (server_map-HasServer servers [] name id h) [
    | inl s ↦ s
    | inr g ↦ cc g
  ]

  import_items-IsSound :
      (n : ℕ) (file : WorkflowSettingFile) (db db' : Database)
      → validate_items (or_none file.schedulers) ≡ ok tt
      → validate_items (or_none file.listeners) ≡ ok tt
      → import_items urls generate_id now n file db ≡ ok db'
      → IsSound db
      → IsSound db'
  unfolding import_items
  import_items-IsSound n file db db' v w h s =
      let servers =
        bind_ok (import_servers urls generate_id now n file.jobworkerp db.servers) _ db' h in
      let crons = bind_ok _ _ db' servers.2 in
      let handlers = bind_ok _ _ db' crons.2 in
      let grown =
        grown-IsSound db servers.0
          (import_servers-Grows n file.jobworkerp db.servers servers.0 servers.1) s in
      let points = server_map-Points servers.0 in
      let built : record db { servers = servers.0; crons = crons.0; handlers = handlers.0 } ≡ db' =
        cc handlers.2 in
      subst IsSound built (
        import_schedulers-IsSound servers.0 _ points _ _ _ crons.0 v crons.1 grown.0,
        import_listeners-IsSound servers.0 _ points _ _ _ handlers.0 w handlers.1 grown.1,
      )

  cleared-IsSound :
      (overwrite : Bool) (db : Database)
      → IsSound db
      → IsSound (if overwrite then clear_all_configs db else db)
  unfolding clear_all_configs get
  cleared-IsSound true db s = (λ id row g. cc g, λ id row g. cc g)
  cleared-IsSound false db s = s

  import_valid-IsSound :
      (n : ℕ) (overwrite : Bool) (file : WorkflowSettingFile) (db db' : Database)
      → import_valid urls generate_id now n overwrite file db ≡ ok db'
      → IsSound db
      → IsSound db'
  unfolding import_valid validate_toml_config
  import_valid-IsSound n overwrite file db db' h s =
      let valid = bind_ok (validate_toml_config urls file) _ db' h in
      let first = (both_ok _ _).0 valid.1 in
      let second = (both_ok (validate_servers urls [] file.jobworkerp) _).0 first.1 in
      let third = (both_ok (validate_items (or_none file.listeners)) _).0 second.1 in
      import_items-IsSound n file (if overwrite then clear_all_configs db else db) db' third.1
        third.0 valid.2 (cleared-IsSound overwrite db s)

  committed-IsSound :
      (file : WorkflowSettingFile) (db : Database) (r : Result TransferError Database)
      → IsSound db
      → ((db' : Database) → r ≡ ok db' → IsSound db')
      → IsSound (commit urls generate_id now file db r).1
  unfolding commit
  committed-IsSound file db (ok db') s next = next db' refl
  committed-IsSound file db (err e) s next = s

  -- If every cron scheduler and every result handler of the database has its servers, and a worker's
  -- name or a workflow's URL, so has every one after the import of any file, with or without the
  -- existing configuration, also when the import fails.
  pub import_toml_config-IsSound :
      (n : ℕ) (overwrite : Bool) (file : WorkflowSettingFile) (db : Database)
      → IsSound db
      → IsSound (import_toml_config urls generate_id now n overwrite file db).1
  unfolding import_toml_config
  import_toml_config-IsSound n overwrite file db s =
      committed-IsSound file db _ s (λ db' h. import_valid-IsSound n overwrite file db db' h s)
