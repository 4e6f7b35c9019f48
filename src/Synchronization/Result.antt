-- ===== src/Synchronization/Result.antt =====
-- What a service under `synchronized_material_change` works on, where it returns.
use netbox_openbao.Exec.{Exec}
use netbox_openbao.World.{World}
