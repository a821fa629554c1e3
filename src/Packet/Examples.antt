-- ===== src/Packet/Examples.antt =====
-- Runs of the test for protected plugin channels.
use frame_mc.Prelude.{◌≡◌, refl, true, false}
use frame_mc.Wire.{ascii}
use frame_mc.Packet.{is_protected_name}

bungeecord_channel : is_protected_name (ascii "BungeeCord") ≡ true
unfolding is_protected_name
bungeecord_channel = refl

other_channel : is_protected_name (ascii "minecraft:brand") ≡ false
unfolding is_protected_name
other_channel = refl
