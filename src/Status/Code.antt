-- ===== src/Status/Code.antt =====
-- The gRPC status codes that ts/src uses by name (`Code` of ts/src/status.ts).
use grpc_dgram.Prelude.{ℕ}

abbrev pub ok : ℕ
ok = 0

abbrev pub cancelled : ℕ
cancelled = 1

abbrev pub unknown : ℕ
unknown = 2

abbrev pub deadline_exceeded : ℕ
deadline_exceeded = 4

abbrev pub resource_exhausted : ℕ
resource_exhausted = 8

abbrev pub unimplemented : ℕ
unimplemented = 12

abbrev pub internal : ℕ
internal = 13

abbrev pub unavailable : ℕ
unavailable = 14

abbrev pub data_loss : ℕ
data_loss = 15
