-- ===== src/Admin/Rows/Server.antt =====
-- The row of a jobworkerp server (api/infra/src/infra/jobworkerp_server/rows.rs and rdb.rs).
use jobworkerp_conductor.Prelude.{ℕ, String, Bool, Option, some, String-HasEq}
use jobworkerp_conductor.Proto.{JobworkerpServer, JobworkerpServerData}

pub record JobworkerpServerRow : Type 0 where
  pub id : ℕ
  pub name : String
  pub host : String
  pub port : String
  pub ssl_enabled : Bool
  pub description : Option String
  pub enabled : Bool
  pub created_at : ℕ
  pub updated_at : ℕ

unfoldable pub server_to_proto : JobworkerpServerRow → JobworkerpServer
server_to_proto r = record {
  id = some r.id;
  payload = some (record {
    name = r.name;
    host = r.host;
    port = r.port;
    ssl_enabled = r.ssl_enabled;
    description = r.description;
    enabled = r.enabled;
    created_at = r.created_at;
    updated_at = r.updated_at;
  });
}

-- The bound columns of an INSERT: none, if NULL is bound to a column that is NOT NULL.
unfoldable pub server_row : ℕ → JobworkerpServerData → Option JobworkerpServerRow
server_row id d = some (record {
  id = id;
  name = d.name;
  host = d.host;
  port = d.port;
  ssl_enabled = d.ssl_enabled;
  description = d.description;
  enabled = d.enabled;
  created_at = d.created_at;
  updated_at = d.updated_at;
})
