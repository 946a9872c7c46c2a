-- ===== src/Tests/Plant.antt =====
-- Examples for the programs of the plant.
use prism_dev.Common.{
  ℕ, ◌≡◌, arith, true, false, List, [], ◌∷◌, none, some, String, str_eq, if◌then◌else◌,
}
use prism_dev.Common.Int.{pos}
use prism_dev.Common.Latch.{obeying}
use prism_dev.Socket.{ClientNet}
use prism_dev.Simulator.Modbus.{Pdu, encode_mbap_pdu, decode_mbap_pdu}
use prism_dev.Simulator.Modbus.Codec.{IsPdu, decode_mbap_pdu-encode_mbap_pdu}
use prism_dev.Simulator.Modbus.Server.{received, read_failed, serve, handle}
use prism_dev.Simulator.Modbus.Lock.{last_command, serve-last_command}
use prism_dev.Simulator.Modbus.Answers.{is_barred, handle_lem}
use prism_dev.Simulator.Modbus.Lock.{command}
use prism_dev.Simulator.Cli.{Stoi}

abbrev write_pdu : Pdu
write_pdu = record { function = 6; address = 258; value = 772 }

write_pdu-IsPdu : IsPdu write_pdu
write_pdu-IsPdu = record {
  function_byte = omega arith;
  address_word = omega arith;
  value_word = omega arith;
}

decode_mbap_pdu-encode_mbap_pdu_example : decode_mbap_pdu (encode_mbap_pdu write_pdu) ≡ write_pdu
decode_mbap_pdu-encode_mbap_pdu_example = decode_mbap_pdu-encode_mbap_pdu write_pdu write_pdu-IsPdu

-- A write to register 258 behind a header of its own.
abbrev write_frame : List ℕ
write_frame = 9 ∷ 9 ∷ 0 ∷ 0 ∷ 0 ∷ 6 ∷ 2 ∷ 6 ∷ 1 ∷ 2 ∷ 3 ∷ 4 ∷ []

abbrev engage_frame : List ℕ
engage_frame = 1 ∷ 0 ∷ 0 ∷ 0 ∷ 6 ∷ 1 ∷ 5 ∷ 255 ∷ 255 ∷ 255 ∷ 0 ∷ []

serve-last_command_example :
    (serve false (received 0 engage_frame ∷ read_failed ∷ [])).0
    ≡ obeying (last_command (received 0 engage_frame ∷ read_failed ∷ [])) false
serve-last_command_example =
    serve-last_command false (received 0 engage_frame ∷ read_failed ∷ []) (omega arith)

handle_lem_example : handle true write_frame ≡ (true, 0 ∷ 1 ∷ 0 ∷ 0 ∷ 0 ∷ 3 ∷ 1 ∷ 134 ∷ 1 ∷ [])
unfolding is_barred command
handle_lem_example = handle_lem true write_frame (omega arith)

abbrev good_client : ClientNet
good_client = record { made = true; resolved = true; connected = true; delivered = true }

-- The numbers that the arguments below hold.
abbrev digits_of : Stoi
digits_of s = if str_eq s "502" then some (pos 502) else if str_eq s "6" then some (pos 6) else none

abbrev argv : List String
argv = "sim" ∷ "request" ∷ "modbus" ∷ "502" ∷ "6" ∷ "502" ∷ "6" ∷ []
