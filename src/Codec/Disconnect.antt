-- ===== src/Codec/Disconnect.antt =====
-- src/network/codec.rs: the Disconnect packet in its three encodings.
use frame_mc.Prelude.{ℕ, ◌≡◌, arith, List, [], ◌∷◌, ◌++◌, Bool, length, at_least, as_u16}
use frame_mc.Prelude.{if◌then◌else◌, not}
use frame_mc.Wire.{put_block, put_u16, ascii}
use frame_mc.Packet.{RawPacket, new}

pub record DisconnectPacket : Type 0 where
  pub reason : List ℕ

-- `json_text` is `serde_json::json!({ "text": reason }).to_string()`.
module _ (json_text : List ℕ → List ℕ) where
  unfoldable pub encode_login : DisconnectPacket → RawPacket
  encode_login packet = new 0x00 (put_block (json_text packet.reason))

  unfoldable pub encode_config : DisconnectPacket → ℕ → RawPacket
  encode_config packet protocol_version =
      let packet_id : ℕ = if at_least protocol_version 766 then 0x02 else 0x01 in
      if at_least protocol_version 766
      then new packet_id (
          0x0a ∷ 0x08 ∷ put_u16 4
          ++ (ascii "text"
              ++ (put_u16 (as_u16 (length packet.reason)) ++ (packet.reason ++ (0x00 ∷ [])))))
      else new packet_id (put_block (json_text packet.reason))

  unfoldable pub encode_play : DisconnectPacket → RawPacket
  encode_play packet = new 0x1b (put_block (json_text packet.reason))

  unfoldable pub encode_for_client : DisconnectPacket → ℕ → Bool → RawPacket
  encode_for_client packet protocol_version in_configuration_or_play =
      if not in_configuration_or_play
      then encode_login packet
      else if at_least protocol_version 764
      then encode_config packet protocol_version
      else encode_play packet

  -- The id that a client of each version and phase gets.
  pub encode_for_client_id :
      (packet : DisconnectPacket) (protocol_version : ℕ) (in_play : Bool)
      → (encode_for_client packet protocol_version in_play).id ≡ (
          if not in_play
          then 0x00
          else if at_least protocol_version 766
          then 0x02
          else if at_least protocol_version 764
          then 0x01
          else 0x1b)
  unfolding encode_for_client encode_login encode_config encode_play
  encode_for_client_id packet protocol_version in_play = ground arith
