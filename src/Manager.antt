-- ===== src/Manager.antt =====
-- The integration driver manager of api/registry/registry_integration.go: an integration driver in
-- front of another one, with a count of the mounts under each volume name. Each locked section is a
-- part of one step. Logging is left out, and so are Attach and Detach, which only pass on.
pub mod Counts
pub mod Balance
pub mod Linux
mod Tests
use libstorage.Base.{
  ℕ, suc, ◌+◌, ◌^◌, List, [], ◌∷◌, Bool, true, false, ◌&&◌, ◌||◌, not, Option, none, some, Text,
  Result, ok, err, Exec, pure, if◌then◌else◌, ltb, text_eq, ◌==◌,
}
use libstorage.Base.Int.{ℤ, pos, negsuc, increment, decrement}
use libstorage.Base.Dict.{Dict, get, put, is_some}
use libstorage.Types.Models.{Volume, VolumeAttachment}
use libstorage.Types.Errors.{Error}
use libstorage.Store.{KeyValueStore}
use libstorage.Router.{VolumeCreateOpts, VolumeDetachOpts}
use libstorage.Linux.Volumes.{VolumeMapping}
use libstorage.Linux.Mounts.{VolumeMountOpts}

-- types.IntegrationDriver, acting on a world of type `S`. A volume that may be nil is an option.
pub record IntegrationDriver (S : Type 0) : Type 0 where
  pub list : KeyValueStore → Exec S Error (List VolumeMapping)
  pub inspect : Text → KeyValueStore → Exec S Error VolumeMapping
  pub mount : Text → Text → VolumeMountOpts → Exec S Error (Text × Volume)
  pub unmount : Text → Text → KeyValueStore → Exec S Error (Option Volume)
  pub path : Text → Text → KeyValueStore → Exec S Error Text
  pub create : Text → VolumeCreateOpts → Exec S Error (Option Volume)
  pub remove : Text → VolumeDetachOpts → Exec S Error (Unit {0})

-- The configuration that the manager reads.
pub record ManagerConfig : Type 0 where
  pub preempt : Bool
  pub disable_create : Bool
  pub disable_remove : Bool
  pub ignore_used_count : Bool
  pub path_cache_enabled : Bool

-- The map `used`, beside the world of the driver.
pub record Managed (S : Type 0) : Type 0 where
  pub used : Dict Text ℤ
  pub world : S

abbrev pub below_two : ℤ → Bool
below_two (pos n) = ltb n 2
below_two (negsuc n) = true

abbrev pub changed : (ℤ → ℤ) → Option ℤ → ℤ
changed f none = pos 1
changed f (some c) = f c

unfoldable pub init_count : Text → Dict Text ℤ → Dict Text ℤ
init_count volume_name used = put volume_name (pos 0) used

abbrev reset_found : Text → Option ℤ → Dict Text ℤ → Bool × Dict Text ℤ
reset_found volume_name none used = (false, used)
reset_found volume_name (some c) used =
    if below_two c then (true, put volume_name (pos 0) used) else (false, used)

unfoldable pub reset_count : Text → Dict Text ℤ → Bool × Dict Text ℤ
reset_count volume_name used = reset_found volume_name (get used volume_name) used

-- addCount; the change is by 1 or by -1
unfoldable pub add_count : Text → (ℤ → ℤ) → Dict Text ℤ → Dict Text ℤ
add_count volume_name f used = put volume_name (changed f (get used volume_name)) used

unfoldable pub is_counted : Text → Dict Text ℤ → Bool
is_counted volume_name used = is_some (get used volume_name)

-- Whether Unmount goes on to the driver, and the map after its tests; `||` tests no further
-- than it has to.
unfoldable pub passes_on : ManagerConfig → Text → Dict Text ℤ → Bool × Dict Text ℤ
unfolding reset_count is_counted
passes_on c volume_name used =
    if c.ignore_used_count
    then (true, used)
    else (let (reset, used') = reset_count volume_name used in
        (reset || not (is_counted volume_name used'), used'))

abbrev pub has_name : VolumeMapping → Bool
has_name vm = not (vm.name == [])

-- The two loops of List.
abbrev pub named : List VolumeMapping → List VolumeMapping
named [] = []
named (vm ∷ vms) = let rest = named vms in if has_name vm then vm ∷ rest else rest

unfoldable pub init_counts : List VolumeMapping → Dict Text ℤ → Dict Text ℤ
unfolding is_counted init_count
init_counts [] used = used
init_counts (vm ∷ vms) used = init_counts vms (
    if not (is_counted vm.name used) && not (vm.volume_mount_point == [])
    then init_count vm.name used
    else used)

-- The new mount point of the first attachment.
abbrev pub with_mount_point : Text → List VolumeAttachment → List VolumeAttachment
with_mount_point mp [] = []
with_mount_point mp (a ∷ as') = record a { mount_point = mp } ∷ as'

module _ {S : Type 0} (c : ManagerConfig) (d : IntegrationDriver S) where
  -- A call of the driver.
  abbrev pub call : {A : Type 0} → Exec S Error A → Exec (Managed S) Error A
  call m s = let (r, w) = m s.world in (r, record s { world = w })

  unfoldable pub listed :
      Result Error (List VolumeMapping) → Managed S → Result Error (List VolumeMapping) × Managed S
  unfolding init_counts
  listed (err e) s = (err e, s)
  listed (ok vms) s = (
    ok (named vms),
    if c.path_cache_enabled then record s { used = init_counts (named vms) s.used } else s,
  )

  unfoldable pub list : KeyValueStore → Exec (Managed S) Error (List VolumeMapping)
  unfolding listed
  list opts s = let (r, s') = call (d.list opts) s in listed r s'

  abbrev pub inspect : Text → KeyValueStore → Exec (Managed S) Error VolumeMapping
  inspect volume_name opts = call (d.inspect volume_name opts)

  unfoldable pub counted :
      Text → Result Error (Text × Volume) → Managed S → Result Error (Text × Volume) × Managed S
  unfolding add_count
  counted volume_name (err e) s = (err e, s)
  counted volume_name (ok (mp, vol)) s = (
    ok (mp, record vol { attachments = with_mount_point mp vol.attachments }),
    record s { used = add_count volume_name increment s.used },
  )

  unfoldable pub mount : Text → Text → VolumeMountOpts → Exec (Managed S) Error (Text × Volume)
  unfolding counted
  mount volume_id volume_name opts s =
      let (r, s') = call (d.mount volume_id volume_name (record opts { preempt = c.preempt })) s in
      counted volume_name r s'

  unfoldable pub unmount : Text → Text → KeyValueStore → Exec (Managed S) Error (Option Volume)
  unfolding passes_on init_count add_count
  unmount volume_id volume_name opts s =
      let (on, used) = passes_on c volume_name s.used in
      if on
      then call (d.unmount volume_id volume_name opts)
          (record s { used = init_count volume_name used })
      else (ok none, record s { used = add_count volume_name decrement used })

  unfoldable pub path : Text → Text → KeyValueStore → Exec (Managed S) Error Text
  unfolding is_counted
  path volume_id volume_name opts s =
      if c.path_cache_enabled && not (is_counted volume_name s.used)
      then (ok [], s)
      else call (d.path volume_id volume_name opts) s

  abbrev pub create : Text → VolumeCreateOpts → Exec (Managed S) Error (Option Volume)
  create volume_name opts = if c.disable_create then pure none else call (d.create volume_name opts)

  abbrev pub remove : Text → VolumeDetachOpts → Exec (Managed S) Error (Unit {0})
  remove volume_name opts = if c.disable_remove then pure tt else call (d.remove volume_name opts)
