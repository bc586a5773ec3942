-- ===== src/Files/State.antt =====
-- ape/files.rs: the descriptors of a process. `FileHandle` and `FileType` only wrap the one kind of
-- handle there is; its client is the endpoint in the slot. The ring of `AsyncIoState` is memory
-- shared with the service, and is left out.
use ape.Base.{ℕ, Bool, Option, List, [], Map}
use ape.Task.Regions.{ApeFsState}
use ape.Task.Ledger.{ApeResourceLedger}

pub record AsyncIoState : Type 0 where
  pub region_id : ℕ
  pub data_vaddr : ℕ
  pub data_len : ℕ
  pub next_user_data : ℕ

pub record NormalFileHandle : Type 0 where
  pub fs_ep_slot : ℕ
  pub offset : ℕ
  pub async_io : Option AsyncIoState

-- A path is the list of its bytes.
pub record FilesState : Type 0 where
  pub fds : Map NormalFileHandle
  pub fd_paths : Map (List ℕ)
  pub fd_cloexec : Map Bool
  pub next_fd : ℕ

unfoldable pub new : FilesState
new = record { fds = []; fd_paths = []; fd_cloexec = []; next_fd = 0 }

-- What the calls on descriptors work on: the descriptors of each process, the endpoints that are
-- open at the services, the pool of regions and the ledger.
pub record Descriptors : Type 0 where
  pub files : Map FilesState
  pub open_slots : List ℕ
  pub regions : ApeFsState
  pub ledger : ApeResourceLedger
