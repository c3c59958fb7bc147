-- ===== src/Admin/Service/Operations.antt =====
-- The methods of the services of the result handlers and of the servers, by their names
-- (api/app/src/app/worker_result_handler.rs and jobworkerp_server.rs): the code of the cron
-- schedulers' service over their own tables and events.
use jobworkerp_conductor.Prelude.{ℕ, String, Bool, Option, List, Result}
use jobworkerp_conductor.Proto.{Entity, WorkerResultHandlerData, JobworkerpServerData}
use jobworkerp_conductor.Admin.Service.{
  MemoryCache, Service, ServiceError, create_entity, update_entity, delete_entity, find_entity,
  find_entity_by_name, find_entity_list,
}
use jobworkerp_conductor.Admin.Service.Services.{handler_service, server_service}

module _ (memory : MemoryCache (Entity WorkerResultHandlerData)) where
  abbrev pub create_worker_result_handler :
      ℕ
      → Bool
      → ℕ
      → WorkerResultHandlerData
      → Service memory handler_service
      → Result ServiceError ℕ × Service memory handler_service
  create_worker_result_handler = create_entity memory handler_service

  abbrev pub update_worker_result_handler :
      ℕ
      → Bool
      → ℕ
      → Option WorkerResultHandlerData
      → Service memory handler_service
      → Result ServiceError Bool × Service memory handler_service
  update_worker_result_handler = update_entity memory handler_service

  abbrev pub delete_worker_result_handler :
      ℕ → Bool → ℕ → Service memory handler_service → Bool × Service memory handler_service
  delete_worker_result_handler = delete_entity memory handler_service

  abbrev pub find_worker_result_handler :
      ℕ
      → Service memory handler_service
      → Option (Entity WorkerResultHandlerData) × Service memory handler_service
  find_worker_result_handler = find_entity memory handler_service

  abbrev pub find_worker_result_handler_by_name :
      String
      → Service memory handler_service
      → Option (Entity WorkerResultHandlerData) × Service memory handler_service
  find_worker_result_handler_by_name = find_entity_by_name memory handler_service

  abbrev pub find_worker_result_handler_list :
      Option ℕ → Option ℕ → Service memory handler_service → List (Entity WorkerResultHandlerData)
  find_worker_result_handler_list = find_entity_list memory handler_service

module _ (memory : MemoryCache (Entity JobworkerpServerData)) where
  abbrev pub create_jobworkerp_server :
      ℕ
      → Bool
      → ℕ
      → JobworkerpServerData
      → Service memory server_service
      → Result ServiceError ℕ × Service memory server_service
  create_jobworkerp_server = create_entity memory server_service

  abbrev pub update_jobworkerp_server :
      ℕ
      → Bool
      → ℕ
      → Option JobworkerpServerData
      → Service memory server_service
      → Result ServiceError Bool × Service memory server_service
  update_jobworkerp_server = update_entity memory server_service

  abbrev pub delete_jobworkerp_server :
      ℕ → Bool → ℕ → Service memory server_service → Bool × Service memory server_service
  delete_jobworkerp_server = delete_entity memory server_service

  abbrev pub find_jobworkerp_server :
      ℕ
      → Service memory server_service
      → Option (Entity JobworkerpServerData) × Service memory server_service
  find_jobworkerp_server = find_entity memory server_service

  abbrev pub find_jobworkerp_server_by_name :
      String
      → Service memory server_service
      → Option (Entity JobworkerpServerData) × Service memory server_service
  find_jobworkerp_server_by_name = find_entity_by_name memory server_service

  abbrev pub find_jobworkerp_server_list :
      Option ℕ → Option ℕ → Service memory server_service → List (Entity JobworkerpServerData)
  find_jobworkerp_server_list = find_entity_list memory server_service
