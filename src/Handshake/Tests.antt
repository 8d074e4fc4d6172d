-- ===== src/Handshake/Tests.antt =====
-- The handshake packets at concrete inputs.
use nextppp.Prelude.{◌*◌, ◌%◌, ◌^◌, ◌≤◌, ◌≡◌, ◌↔◌, arith, refl, bit_or, [], ◌∷◌, ok, err}
use nextppp.Samples.{least_rng}
use nextppp.Errors.{invalid_session_id}
use nextppp.Key.{default_key, validate}
use nextppp.Handshake.{bond_link, role_tag, role_from_ivv, flag_canary, nop_rounds}
use nextppp.Handshake.{max_nop_packets, pack_session_id, unpack_session_id}
use nextppp.Handshake.{parse_decimal, is_digit}
use nextppp.Handshake.Canary.{role_from_ivv-role_tag, flag_canary_iff}
use nextppp.Handshake.Nops.{nop_rounds_bounds}
use nextppp.Handshake.SessionIds.{announced, unpack_session_id-pack_session_id}

-- A number past 128 bits is refused.
overflow_run :
    parse_decimal 34_028_236_692_093_846_346_337_460_743_176_821_145 2 (b'6' ∷ [])
    ≡ err invalid_session_id
unfolding parse_decimal is_digit
overflow_run = refl

role_from_ivv-role_tag_example : role_from_ivv (bit_or (role_tag bond_link * 2 ^ 64) 99) ≡ bond_link
role_from_ivv-role_tag_example = role_from_ivv-role_tag bond_link 99 (omega arith)

flag_canary_iff_example : (flag_canary default_key ≡ flag_canary default_key) ↔ (
    (default_key.masked ≡ default_key.masked)
    × (default_key.plaintext ≡ default_key.plaintext)
    × (default_key.delta_encode ≡ default_key.delta_encode)
    × (default_key.shuffle_data ≡ default_key.shuffle_data)
    × (default_key.kf % 2 ^ 12 ≡ default_key.kf % 2 ^ 12))
flag_canary_iff_example = flag_canary_iff default_key default_key

nop_rounds_bounds_example :
    (1 ≤ (nop_rounds least_rng default_key 0).0)
    × ((nop_rounds least_rng default_key 0).0 ≤ max_nop_packets default_key)
nop_rounds_bounds_example = nop_rounds_bounds least_rng default_key 0 (unfold validate in refl)

unpack_session_id-pack_session_id_example :
    unpack_session_id default_key (pack_session_id least_rng default_key 987_654_321 0).0
    ≡ ok (announced 987_654_321)
unpack_session_id-pack_session_id_example =
    unpack_session_id-pack_session_id least_rng default_key default_key 987_654_321 0 (omega arith)
