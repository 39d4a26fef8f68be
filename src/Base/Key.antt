-- ===== src/Base/Key.antt =====
-- The keys that the program joins from two texts.
use Prim.Native.String.{String, ◌++◌ as str_append}

-- `serviceID + ":" + endpointPath`, the key of per-endpoint state.
abbrev pub endpoint_key : String → String → String
endpoint_key service path = str_append service (str_append ":" path)
