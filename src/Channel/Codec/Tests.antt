-- ===== src/Channel/Codec/Tests.antt =====
-- Runs of the frame codec.
use origin_tools.Base.{[], ◌∷◌}
use origin_tools.Base.Bytes.{Bytes}

abbrev hello : Bytes
hello = 0x68 ∷ 0x69 ∷ []

abbrev hello_frame : Bytes
hello_frame = 0 ∷ 0 ∷ 0 ∷ 2 ∷ 0x68 ∷ 0x69 ∷ []
