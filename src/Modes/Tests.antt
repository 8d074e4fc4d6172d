-- ===== src/Modes/Tests.antt =====
-- The block modes at concrete inputs, over a block cipher that adds to the bytes of a block.
use nextppp.Prelude.{ℕ, ◌+◌, ◌%◌, ◌≡◌, arith, ◌∙◌, length-map, List, map, replicate}
use nextppp.Modes.{cfb_encrypt, cfb_decrypt, cfb_decrypt_batches, ctr_apply, from_be_bytes}
use nextppp.Modes.Cfb.{cfb_decrypt-cfb_encrypt, cfb_decrypt_batches-serial, cfb_decrypt_serial}
use nextppp.Modes.Serial.{ctr_serial, ctr_apply-serial}

abbrev add_three : List ℕ → List ℕ
add_three = map (λ b. (b + 3) % 256)

abbrev initial : List ℕ
initial = replicate 16 9

abbrev text : List ℕ
text = replicate 21 65

cfb_decrypt-cfb_encrypt_example :
    cfb_decrypt add_three initial (cfb_encrypt add_three initial text) ≡ text
cfb_decrypt-cfb_encrypt_example = cfb_decrypt-cfb_encrypt add_three initial text

cfb_decrypt_batches-serial_example :
    cfb_decrypt_batches add_three 1 1 initial text ≡ cfb_decrypt_serial add_three 1 initial text
cfb_decrypt_batches-serial_example =
    cfb_decrypt_batches-serial add_three 1 1 initial text (omega arith)

ctr_apply-serial_example :
    ctr_apply add_three initial text ≡ ctr_serial add_three 2 (from_be_bytes 0 initial) text
ctr_apply-serial_example =
    ctr_apply-serial add_three (λ block whole. length-map (λ b. (b + 3) % 256) block ∙ whole)
      initial text
