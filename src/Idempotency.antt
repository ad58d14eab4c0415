-- ===== src/Idempotency.antt =====
-- pkg/control-plane/commands/idempotency.go: the in-memory store of idempotency keys. Its methods run
-- under the mutex and return no error.
use sai_aurosy.Prelude.{Bool, true, false, String, ltb, ◌-◌, is_some, if◌then◌else◌}
use sai_aurosy.Dict
use sai_aurosy.Dict.{Dict}
use sai_aurosy.Hal.{Time}

pub record MemoryEntry : Type 0 where
  pub robot_id : String
  pub created_at : Time

-- The keys afterwards, and whether this was the first use of the key.
unfoldable pub reserve : String → String → Time → Dict MemoryEntry → Dict MemoryEntry × Bool
reserve key robot_id now keys =
    if is_some (Dict.get keys key)
    then (keys, false)
    else (Dict.put keys key (record { robot_id = robot_id; created_at = now }), true)

-- The keys that are older than the duration go.
unfoldable pub cleanup : Time → Time → Dict MemoryEntry → Dict MemoryEntry
cleanup older_than now keys = Dict.delete_where (λ e. ltb e.created_at (now - older_than)) keys
