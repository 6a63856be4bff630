-- ===== src/Types/Errors.antt =====
-- The errors of api/types/types_errors.go and api/utils/utils_errors.go that the modelled code makes
-- or tests for. Other errors are `goof` with their message.
use libstorage.Base.{Text}
use libstorage.Base.Dict.{Dict}
use libstorage.Types.Models.{VolumeMap, SnapshotMap}

-- The objects that a batch has completed before an error.
pub data Completed : Type 0 where
  volumes : VolumeMap → Completed
  service_volumes : Dict Text VolumeMap → Completed
  service_snapshots : Dict Text SnapshotMap → Completed

-- `panicked` and `endless` are no error values: a panic of the runtime ends the handler, and a loop goes
-- on for more rounds than the model is given.
pub data Error : Type 0 where
  panicked endless : Error
  goof : Text → Error
  wrapped : Text → Error → Error
  not_found : Text → Error
  missing_instance_id : Text → Error
  bad_filter : Text → Error → Error
  batch_process : Completed → Error → Error

-- goof.WithError: an error with a message in front. What is no error value passes.
abbrev pub wrap : Text → Error → Error
wrap t panicked = panicked
wrap t endless = endless
wrap t e = wrapped t e
