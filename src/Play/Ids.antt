-- ===== src/Play/Ids.antt =====
-- src/routing/state_machine.rs: which packets the proxy looks at, by their ids.
use frame_mc.Prelude.{ℕ, Bool, ◌||◌, ◌==◌, at_least, if◌then◌else◌}

unfoldable pub is_open_window_packet : ℕ → ℕ → Bool
is_open_window_packet id protocol_version =
    if at_least protocol_version 776
    then id == 0x3b
    else if at_least protocol_version 768
    then id == 0x35
    else if at_least protocol_version 766
    then id == 0x33
    else if at_least protocol_version 764
    then id == 0x31
    else if at_least protocol_version 762
    then id == 0x30
    else if protocol_version == 761
    then id == 0x2d
    else id == 0x2e

unfoldable pub is_sound_packet : ℕ → ℕ → Bool
is_sound_packet id protocol_version =
    if at_least protocol_version 776
    then (id == 0x75) || (id == 0x74)
    else if at_least protocol_version 768
    then (id == 0x6f) || (id == 0x6e)
    else if at_least protocol_version 766
    then (id == 0x68) || (id == 0x67)
    else if at_least protocol_version 765
    then (id == 0x66) || (id == 0x65)
    else if at_least protocol_version 764
    then (id == 0x64) || (id == 0x63)
    else (id == 0x61) || (id == 0x60)

unfoldable pub is_serverbound_close_container_packet : ℕ → ℕ → Bool
is_serverbound_close_container_packet id protocol_version =
    if at_least protocol_version 776
    then id == 0x13
    else if at_least protocol_version 768
    then id == 0x11
    else if at_least protocol_version 766
    then id == 0x0f
    else if at_least protocol_version 764
    then id == 0x0e
    else if at_least protocol_version 762
    then id == 0x0d
    else (id == 0x0c) || (id == 0x0a) || (id == 0x09)
