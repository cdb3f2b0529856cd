-- ===== src/Bridge/Examples.antt =====
-- The theorems on the table of the bridge, applied at a table of two entries.
use uc_vm.Common.{
  ℕ, ◌+◌, ◌*◌, ◌≡◌, arith, some, List, [], ◌∷◌, ◌++◌, if◌then◌else◌, ltb, length, update,
}
use uc_vm.Bridge.Table.{
  IoBridge, zero_entry, io_bridge_init, io_bridge_remove, io_bridge_serialize, io_bridge_parse,
}
use uc_vm.Bridge.Entries.{bridge_list, without, io_bridge_remove-without}
use uc_vm.Bridge.RoundTrip.{io_bridge_parse-io_bridge_serialize}

-- The UART at 115200 baud, and pin 5 of port 1.
abbrev pair : IoBridge
unfolding io_bridge_init
pair = record (io_bridge_init 1 2) {
  entries =
      update
        (update (λ _. zero_entry) 0
          (record zero_entry { mcu_periph = 1; host_type = 1; host_index = 1; param = 1152 }))
        1 (record zero_entry { mcu_index = 1; mcu_pin = 5; host_index = 21 });
  num_entries = 2;
}

io_bridge_remove-without_example :
    bridge_list (io_bridge_remove pair 0).1
    ≡ (if ltb 0 pair.num_entries then without 0 (bridge_list pair) else bridge_list pair)
unfolding pair
io_bridge_remove-without_example = io_bridge_remove-without pair 0 (omega arith)

io_bridge_parse-io_bridge_serialize_example :
    (text : List ℕ) × (io_bridge_serialize pair 72 ≡ some text)
    × (length text ≡ 8 + pair.num_entries * 8)
    × ((new : IoBridge) × (io_bridge_parse (text ++ (0xFF ∷ [])) (io_bridge_init 3 4) ≡ some new)
        × (bridge_list new ≡ bridge_list pair)
        × (new.bridge_cpu ≡ (io_bridge_init 3 4).bridge_cpu)
        × (new.mcu_ops ≡ (io_bridge_init 3 4).mcu_ops))
unfolding pair
io_bridge_parse-io_bridge_serialize_example =
    io_bridge_parse-io_bridge_serialize pair (io_bridge_init 3 4) 72 (0xFF ∷ []) (omega arith)
      (omega arith)
