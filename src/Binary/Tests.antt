-- ===== src/Binary/Tests.antt =====
-- Headers and payloads at concrete inputs, without a protocol cipher.
use nextppp.Prelude.{ℕ, ◌≡◌, arith, List, [], ◌∷◌}
use nextppp.Prelude.{none}
use nextppp.Samples.{plain_backend, least_rng}
use nextppp.Binary.{flags_safest, payload_obfuscate, payload_deobfuscate}
use nextppp.Binary.Payload.{payload_deobfuscate-payload_obfuscate}
use nextppp.Binary.HeaderTrip.{HeaderRead, header_decrypt-header_encrypt}

abbrev payload : List ℕ
payload = 104 ∷ 101 ∷ 108 ∷ 108 ∷ 111 ∷ []

payload_deobfuscate-payload_obfuscate_example :
    payload_deobfuscate (payload_obfuscate payload flags_safest 77 1234) flags_safest 77 1234
    ≡ payload
payload_deobfuscate-payload_obfuscate_example =
    payload_deobfuscate-payload_obfuscate payload flags_safest 77 1234
      (omega arith, (omega arith, (omega arith, (omega arith, (omega arith, tt))))) (omega arith)
      (omega arith)

header_decrypt-header_encrypt_example :
    HeaderRead plain_backend least_rng 0 154_543_927 none none 65536
header_decrypt-header_encrypt_example =
    header_decrypt-header_encrypt plain_backend least_rng 0 154_543_927 none none 65536
      (omega arith) (omega arith) (omega arith) tt
