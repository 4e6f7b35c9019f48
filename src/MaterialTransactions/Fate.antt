-- ===== src/MaterialTransactions/Fate.antt =====
-- What an owned transaction leaves, by the way in which it ended: the body or a check raised, the
-- commit was refused, the commit was not answered, or it succeeded.
use netbox_openbao.Exec.{Exec}
use netbox_openbao.World.{World}
