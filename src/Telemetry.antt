-- ===== src/Telemetry.antt =====
-- pkg/telemetry/bus.go, as far as commands go: the list of the commands that were published, oldest
-- first. `Link` says of which commands the NATS client accepts the publication.
use sai_aurosy.Prelude.{Bool, true, false, List, [], ◌∷◌, ◌++◌, if◌then◌else◌}
use sai_aurosy.Hal.{Command}

abbrev pub Link : Type 0
Link = Command → Bool

-- The commands on the bus afterwards, and whether the call returned no error.
unfoldable pub publish_command : Link → Command → List Command → List Command × Bool
publish_command link cmd sent = if link cmd then (sent ++ cmd ∷ [], true) else (sent, false)
