-- ===== src/Machine/Configure/Holds.antt =====
-- How long a new backend can stay in its configuration.
use frame_mc.Prelude.{ℕ, zero, suc, List, [], ◌++◌}
use frame_mc.Stream.{Stream}

-- The same bytes so many times.
unfoldable pub copies : ℕ → List ℕ → List ℕ
copies zero bytes = []
copies (suc n) bytes = bytes ++ copies n bytes
