-- ===== src/Login/Examples.antt =====
-- Runs of the login packets.
use frame_mc.Prelude.{◌≡◌, refl, arith, [], ◌∷◌, some}
use frame_mc.Error.{ok, err, io, invalid_data}
use frame_mc.Login.Start
use frame_mc.Login.Start.{
  LoginStartPacket, IsUsername, all_name_chars, is_name_char, decode-encode_start,
  decode_start-IsUsername,
}
use frame_mc.Login.Success.{LoginSuccessPacket, encode_with_version, decode_with_version}
use frame_mc.Login.Success.Laws.{IsLoginSuccess, decode-encode_success, decode_success_rejects}
use frame_mc.Profile.{IsUuid}
use frame_mc.Samples.{name, name-IsText, uuid, uuid_text, textures, textures-IsProperty}

abbrev start : LoginStartPacket
start = record { username = name; player_uuid = uuid }

name-IsUsername : IsUsername name
unfolding all_name_chars is_name_char
name-IsUsername = record { chars = refl; lower = omega arith; upper = omega arith }

start_read : Start.decode (Start.encode start) ≡ ok start
start_read = decode-encode_start start name-IsUsername refl

decode_start-IsUsername_example : IsUsername name × IsUuid uuid
decode_start-IsUsername_example = decode_start-IsUsername (Start.encode start) start start_read

abbrev success : LoginSuccessPacket
success = record {
  uuid = uuid;
  username = name;
  properties = textures ∷ [];
  session_id = some uuid;
}

success-IsLoginSuccess : IsLoginSuccess success
success-IsLoginSuccess = record {
  uuid = refl;
  username = name-IsText;
  properties = (textures-IsProperty, tt);
  count = omega arith;
}

decode-encode_success_example :
    decode_with_version uuid_text (encode_with_version uuid_text success 776) 776 ≡ ok success
decode-encode_success_example =
    decode-encode_success uuid_text success 776 success-IsLoginSuccess refl refl

decode_success_rejects_example :
    decode_with_version uuid_text (encode_with_version uuid_text success 758) 758
    ≡ err (io invalid_data)
decode_success_rejects_example =
    decode_success_rejects uuid_text success 758 success-IsLoginSuccess refl refl
