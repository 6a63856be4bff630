-- ===== src/Lib.antt =====
-- libStorage: a model of the storage API's server, of its client and integration drivers, and of
-- storage drivers, and proofs about it.
--
-- A client asks the server for volumes and snapshots. A route reads the request's store (a map
-- with keys in any case), compiles a filter if there is one, makes a task that calls the storage
-- driver of one service or of all, and hands the task over to the client, who waits for it or
-- not.
--
-- * Store.antt and Store/: `keyValueStore` of api/utils/utils_store.go. `get_value`, `set_value`,
--   `is_set`, `delete_key` and `cleanup` are Get, Set, IsSet, Delete and cleanup;
--   Store/Typed.antt has the getters that convert. A method takes the clock as an argument and
--   returns the store. The goroutine that calls cleanup and the locks are not modelled.
-- * Filter.antt and Filter/: CompileFilter, compileFilterSet and compileFilter of
--   api/utils/filters/filters.go. The result tells error values from panics. A text is a list of
--   bytes, and case is that of ASCII. The recursion runs on fuel, one more than the length of the
--   text; each call goes on by a byte at least, which makes the fuel enough.
-- * Types.antt and Types/: the records of api/types/types_model.go and types_instanceid.go, the
--   attachment masks of api/types/types_drivers_storage.go and the errors of
--   api/utils/utils_errors.go. A mask is a Go int, modelled by its 64-bit pattern; an attachment
--   state is a number that is not negative. A pointer that may be nil is an option; a field that
--   is a slice is a list. Types/LocalDevices.antt and Types/InstanceIds.antt have the texts of
--   types_localdevices.go and types_instanceid.go, Types/Uuids.antt and Types/Transactions.antt
--   those of types_uuid.go and types_tx.go, with the regular expressions as matchers; the base64
--   coding is a parameter.
-- * Handlers.antt and Handlers/: handlers of api/server/handlers, which a request passes before
--   its route, and handleWithMiddleware of api/server/server_middleware.go. The query parameters
--   are a list, which stands for any order of the map; the text of a number is read as the source
--   reads it. Handlers/Headers.antt has the handlers that read instance IDs, local devices and
--   transactions from headers; Handlers/Arrived.antt and Handlers/Devices.antt put the client's
--   headers before them, with net/http between them as a parameter (Handlers/Transport.antt).
-- * Router.antt and Router/: the handlers of api/server/router/volume/volume_routes.go and
--   api/server/router/snapshot/snapshot_routes.go, and WriteTask of
--   api/server/httputils/httputils.go. Router/Included.antt has handleVolAttachments,
--   Router/Filtered.antt volumesForService, and Router/Batch.antt and Router/DetachAll.antt the
--   handlers over all services. The storage driver is a record of functions, which act on a world
--   of any type: nothing is assumed about it. OnVolume is an optional function. The store of a
--   request has no time to live, so that a read of it changes nothing. A handler over all
--   services runs their tasks in the order of a list, which stands for any order of the services.
--   The name that a run of volumeDetachAll reads from the shared loop variable is an input.
--   The schemas that the results of tasks are validated against are a record of functions in the
--   request, which is absent where the validation is not enabled. Logging is left out.
-- * Task.antt and Task/: the tasks of api/server/services/services_task.go, on a heap, since a
--   task is shared by its pointer, with a map from IDs to addresses. The two locked sections of
--   taskTrack are two steps. Task/Queue.antt has the queue of a storage service, of
--   api/server/services/services_storage.go, as a relation of steps: waiting sends are received
--   in any order, and one task is executed at a time. The validation of a result against its JSON
--   schema is a parameter. The channels that wait for a task are not modelled: whether a wait
--   ends or times out is an input of a handler.
-- * Linux.antt and Linux/: the integration driver of drivers/integration/linux, which runs beside
--   the container runtime and calls the server: List, Inspect, Mount, Unmount, Path, Create and
--   Remove. The client and the operating system are a record of functions, of which nothing is
--   assumed. An attachment with no instance ID makes the search for the local one panic, as in
--   the source.
-- * Manager.antt and Manager/: the manager of api/registry/registry_integration.go, which stands
--   in front of an integration driver, counts the uses of a volume, and may keep calls back. Its
--   map of counts is a dictionary, its locks are not modelled; Manager/Linux.antt puts the driver
--   of Linux.antt behind it.
-- * Vfs.antt and Vfs/: the vfs storage driver of drivers/storage/vfs/storage, which keeps volumes
--   and snapshots in files, as a storage driver for the routes (Vfs/Driver.antt). The files of a
--   directory are a dictionary from IDs. The time, the stores that options refer to, and the
--   files that cannot be created are inputs. A nil map of fields and an empty one are one value,
--   since a file gives nil for both.
-- * Ebs.antt and Ebs/: the ebs storage driver of drivers/storage/ebs/storage, over the EC2
--   service as a record of functions. The loop that waits for a volume runs on as many rounds as
--   the driver is given, and then answers `endless`, which is no error of the source; a wait for
--   a volume that reaches its state has enough rounds when they are more than the looks that find
--   it in another state.
-- * Dobs.antt and Dobs/: the dobs storage driver of drivers/storage/dobs/storage, over the
--   DigitalOcean service as a record of functions. Its wait is bounded in the source.
-- * Gcepd.antt and Gcepd/: the gcepd storage driver of drivers/storage/gcepd/storage, over the
--   compute service as a record of functions; its wait runs on rounds, as that of ebs does.
-- * Rackspace.antt and Rackspace/: the rackspace storage driver of
--   drivers/storage/rackspace/storage, which a build tag keeps out of the builds, over the services
--   for blocks and computers as a record of functions; its waits run on rounds.
-- * Client.antt and Client/: the storage driver of drivers/storage/libstorage, which runs at the
--   client: Client/Calls.antt has the calls of the server with the caches they fill and the
--   contexts they make (Client/Contexts.antt), Client/Xcli.antt the calls of the executor under
--   its lock, Client/Dial.antt what a client does first, Client/Headers.antt the headers that
--   httpDo of api/client/client_http.go makes of a context. The server and the operating system are
--   records of functions; the wait for the lock file runs on rounds, and then answers an error
--   that is none of the source. Init is left out.
-- * Os.antt and Os/: the driver of drivers/os/linux, which mounts, unmounts and formats devices.
--   The kernel and the commands are a record of functions, of which nothing is assumed;
--   fmt.Sscanf is one of them. A word of mount flags is the set of its bits.
-- * Base.antt and Base/: texts, lists, dictionaries, integers in decimal, paths, sorting, the
--   splitting of texts, and results with a state.
--
-- Not modelled are the HTTP server and its other handlers, the rest of the contexts and of the
-- registry, the rest of the HTTP client, the command line tools, the drivers for other storage systems, which
-- call cloud libraries and commands, and the executors.
pub mod Base
pub mod Types
pub mod Store
pub mod Filter
pub mod Router
pub mod Task
pub mod Linux
pub mod Manager
pub mod Vfs
pub mod Os
pub mod Ebs
pub mod Dobs
pub mod Gcepd
pub mod Rackspace
pub mod Client
pub mod Handlers
