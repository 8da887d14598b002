-- ===== src/Cfg.antt =====
-- common/include/aer_cfg.h: the geometry of the sensor and of the bus.
use aer_handshake_firmware.Base.{ℕ, ◌+◌, ◌-◌, ◌*◌, ◌/◌, ◌^◌, leb, if◌then◌else◌}

abbrev pub rows : ℕ
rows = 32

abbrev pub cols : ℕ
cols = 32

abbrev pub index_bits : ℕ
index_bits = 5

abbrev pub pad_bits : ℕ
pad_bits = 1

abbrev pub payload_bits : ℕ
payload_bits = index_bits + pad_bits

abbrev pub symbol_bits : ℕ
symbol_bits = 2

abbrev pub group_width : ℕ
group_width = 4

abbrev pub num_groups : ℕ
num_groups = payload_bits / symbol_bits

abbrev pub data_width : ℕ
data_width = num_groups * group_width

abbrev pub raw_mask : ℕ
raw_mask = if leb 32 data_width then 0xFFFFFFFF else 2 ^ data_width - 1

abbrev pub tail_payload : ℕ
tail_payload = 2 ^ payload_bits - 1
