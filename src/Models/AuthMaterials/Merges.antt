-- ===== src/Models/AuthMaterials/Merges.antt =====
-- Two saves of one row.
use netbox_openbao.Prelude.{ℕ, Option, List, first, ◌==◌}
use netbox_openbao.Models.AuthMaterials.{EngineAuthMaterial}

-- The row of a key.
abbrev pub row_at : ℕ → List EngineAuthMaterial → Option EngineAuthMaterial
row_at k table = first (λ other. other.pk == k) table
