-- ===== src/Rest.antt =====
-- pkg/rest: the data that the BrickStor REST API exchanges (model.go) and the client's typed calls
-- (api.go). Times are kept as Unix seconds. Fields that no Go code of the driver reads or sets are
-- left out of `Snapshot`, `CreateSnapsRequest`, `DestroySnapsRequest` and the responses.
pub mod Model
pub mod Api
pub mod Duration
pub mod Client
pub mod Endpoints
