-- ===== src/Manager/Linux.antt =====
-- The linux integration driver behind the manager, as api/registry sets it up. Attach and Detach of
-- both do nothing but pass on.
use libstorage.Base.{ℕ}
use libstorage.Linux.{Client, Config}
use libstorage.Linux.Volumes
use libstorage.Linux.Mounts
use libstorage.Manager.{IntegrationDriver, ManagerConfig, Managed}
use libstorage.Manager

-- All calls are at the time `now`.
abbrev pub linux_driver : {S : Type 0} → Client S → Config → ℕ → IntegrationDriver S
linux_driver c d now = record {
  list = λ opts. Volumes.list c opts now;
  inspect = λ n opts. Volumes.inspect c n opts now;
  mount = λ i n opts. Mounts.mount c d i n opts now;
  unmount = λ i n opts. Mounts.unmount c i n opts now;
  path = λ i n opts. Mounts.path c d i n opts;
  create = λ n opts. Volumes.create d c n opts now;
  remove = λ n opts. Volumes.remove c n opts;
}

-- The manager is an integration driver itself.
abbrev pub managed_driver :
    {S : Type 0} → ManagerConfig → IntegrationDriver S → IntegrationDriver (Managed S)
managed_driver c d = record {
  list = Manager.list c d;
  inspect = Manager.inspect c d;
  mount = Manager.mount c d;
  unmount = Manager.unmount c d;
  path = Manager.path c d;
  create = Manager.create c d;
  remove = Manager.remove c d;
}
