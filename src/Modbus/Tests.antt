-- ===== src/Modbus/Tests.antt =====
-- The Modbus client at concrete requests.
use mathlib.Core.Option
use ir.Prelude.{
  ℕ, zero, suc, ◌+◌, ◌%◌, ◌≡◌, refl, true, false, some, replicate, bit_xor, List, [], ◌∷◌, arith,
  take,
}
use ir.Prelude.Int.{ℤ, pos}
use ir.Modbus.Client.{
  Client, modbus_client_process, read_registers, send_message, modbus_crc_calc, crc_from,
  read_words, read_register, memcpy, modbus_read_holding,
}
use ir.Modbus.Bounds.{IsSized, Sound, modbus_client_process-Sound}
use ir.Modbus.Broadcast.{is_answer, modbus_client_process-is_answer}
use ir.Modbus.Transport.{Bus, modbus_rxstart, end_request}
use ir.Modbus.Transport.Answer.{end_request-cut}
use ir.Modbus.Transport.Request.{tx_times, awaiting, modbus_rxstart-awaiting}
use ir.Modbus.Read.{words, AreWords, framed, modbus_client_process-framed}

abbrev zeros : ℕ → List ℕ
zeros zero = []
zeros (suc n) = 0 ∷ zeros n

-- Some function for the check sum.
abbrev crc16 : ℕ → ℕ → ℕ
crc16 crc x = (crc + x) % 65536

abbrev registers : List ℕ
registers = 9026 ∷ 61680 ∷ 57005 ∷ 48879 ∷ zeros 7

-- A read of three registers from the second on.
abbrev client : Client
client = record { raw = 240 ∷ 3 ∷ 0 ∷ 1 ∷ 0 ∷ 3 ∷ zeros 94; holding = registers }

-- The same, to all clients.
abbrev broadcast : Client
broadcast = record { raw = 255 ∷ 3 ∷ 0 ∷ 1 ∷ 0 ∷ 3 ∷ zeros 94; holding = registers }

client-IsSized : IsSized client
client-IsSized = record { raw = refl; holding = refl }

registers-AreWords : AreWords registers
registers-AreWords = (
  omega arith,
  (
    omega arith,
    (
      omega arith,
      (
        omega arith,
        (
          omega arith,
          (
            omega arith,
            (omega arith, (omega arith, (omega arith, (omega arith, (omega arith, tt))))),
          ),
        ),
      ),
    ),
  ),
)

modbus_client_process-Sound_example :
    (r : Client × ℤ) × (modbus_client_process crc16 6 client ≡ some r) × Sound r
modbus_client_process-Sound_example =
    modbus_client_process-Sound crc16 6 client client-IsSized (omega arith)

modbus_client_process-is_answer_example :
    (r : Client × ℤ) × (modbus_client_process crc16 6 broadcast ≡ some r) × (is_answer r.1 ≡ true)
modbus_client_process-is_answer_example =
    modbus_client_process-is_answer crc16 6 broadcast record { raw = refl; holding = refl }

modbus_client_process-framed_example :
    (r : Client × ℤ) × (bytes : List ℕ) × (modbus_client_process crc16 6 client ≡ some r)
    × (words bytes ≡ 61680 ∷ 57005 ∷ 48879 ∷ [])
    × (take 11 r.0.raw ≡ framed crc16 (240 ∷ 3 ∷ 6 ∷ bytes))
    × (r.1 ≡ pos 11)
    × (r.0.holding ≡ registers)
modbus_client_process-framed_example =
    modbus_client_process-framed crc16 6 1 3 client client-IsSized registers-AreWords refl refl refl
      (omega arith)

abbrev bus : Bus
bus = record {
  caller = [];
  own = record { raw = replicate 100 0; holding = replicate 11 0 };
  own_len = 0;
  from_own = false;
  len = 0;
  sent = 0;
  crc = 0;
  crc_len = 0;
  timer = 0;
  waiting = false;
  recv_len = pos 0;
  txcie = false;
  modbus_tx = false;
  wire = [];
}

-- A request to the node 17.
modbus_rxstart-awaiting_example :
    (t : Bus) × (modbus_rxstart bit_xor (17 ∷ 3 ∷ 0 ∷ []) 3 bus ≡ some (1, t))
    × (tx_times 5 t ≡ awaiting bit_xor (17 ∷ 3 ∷ 0 ∷ []) 3 bus)
modbus_rxstart-awaiting_example =
    modbus_rxstart-awaiting bit_xor 17 (3 ∷ 0 ∷ []) bus (ground arith) (ground arith) (omega arith)
      refl

-- A read of three registers that has come over the line, with its check sum, and the client's frame.
abbrev asked_bus : Bus
asked_bus = record bus {
  own = record { raw = 240 ∷ 3 ∷ 0 ∷ 1 ∷ 0 ∷ 3 ∷ 246 ∷ 0 ∷ zeros 92; holding = registers };
  own_len = 8;
}

abbrev reply : Client
reply = record {
  raw = 240 ∷ 3 ∷ 6 ∷ 240 ∷ 240 ∷ 222 ∷ 173 ∷ 190 ∷ 239 ∷ 16 ∷ 6 ∷ zeros 89;
  holding = registers;
}

reply_made : modbus_client_process crc16 6 asked_bus.own ≡ some (reply, pos 11)
unfolding modbus_client_process read_registers send_message modbus_crc_calc crc_from read_words
    memcpy modbus_read_holding read_register Option.bind
reply_made = refl

sum_right : modbus_crc_calc crc16 (240 ∷ 3 ∷ 0 ∷ 1 ∷ 0 ∷ 3 ∷ 246 ∷ 0 ∷ zeros 92) 6 ≡ 246
unfolding modbus_crc_calc crc_from
sum_right = refl

-- Six of the eleven bytes of the frame are sent.
end_request-cut_example :
    (t : Bus) × (end_request crc16 asked_bus ≡ some t)
    × ((tx_times 6 t).wire ≡ 240 ∷ 3 ∷ 6 ∷ 240 ∷ 240 ∷ 222 ∷ [])
end_request-cut_example =
    end_request-cut crc16 5 asked_bus reply 10 refl (omega arith) sum_right refl reply_made
      (omega arith) refl
