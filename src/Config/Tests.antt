-- ===== src/Config/Tests.antt =====
-- Configurations at concrete inputs, the source's own tests among them.
use nextppp.Prelude.{◌≡◌, ◌↔◌, refl, some, none, ok, err, [], false}
use nextppp.Cipher.{
  codes, from_name, text_eq, trim, trim_start, is_whitespace, to_ascii_lowercase, method_name,
}
use nextppp.Key.{default_key, validate}
use nextppp.Config.{
  default_obfuscation, to_key, empty_password, effective_pool_size, default_mux, method,
}
use nextppp.Config.Keys.{IsKeyOf, to_key_iff}

defaults_run : to_key default_obfuscation none ≡ ok default_key
unfolding to_key method from_name text_eq trim trim_start is_whitespace to_ascii_lowercase validate
    method_name
defaults_run = refl

empty_run :
    to_key (record default_obfuscation { protocol_key = some [] }) none
    ≡ err (empty_password "protocol_key")
unfolding to_key
empty_run = refl

disabled_run : effective_pool_size (record default_mux { enabled = false }) ≡ 0
unfolding effective_pool_size
disabled_run = refl

to_key_iff_example :
    (to_key default_obfuscation (some (codes "sekrit"))
      ≡ ok (record default_key { protocol_key = codes "sekrit"; transport_key = codes "sekrit" }))
    ↔ IsKeyOf default_obfuscation
        (some (codes "sekrit"))
        (record default_key { protocol_key = codes "sekrit"; transport_key = codes "sekrit" })
to_key_iff_example =
    to_key_iff default_obfuscation (some (codes "sekrit"))
      (record default_key { protocol_key = codes "sekrit"; transport_key = codes "sekrit" })
