-- ===== src/Handshake/Examples.antt =====
-- Runs of the handshake.
use frame_mc.Prelude.{◌≡◌, refl, ◌∷◌, ◌++◌}
use frame_mc.Wire.{ascii}
use frame_mc.Handshake.{until_zero}

marked_hostname : until_zero (ascii "mc.example" ++ (0 ∷ ascii "FML")) ≡ ascii "mc.example"
unfolding until_zero
marked_hostname = refl
