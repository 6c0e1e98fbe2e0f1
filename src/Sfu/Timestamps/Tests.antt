-- ===== src/Sfu/Timestamps/Tests.antt =====
-- Times, and the theorems at them.
use rsfu.Prelude.{◌+◌, ◌≤◌, arith}
use rsfu.Sfu.Timestamps.{ntp_to_millis_since_epoch, to_ntp_time}
use rsfu.Sfu.Timestamps.Ntp.{ntp_to_millis_since_epoch-to_ntp_time}

ntp_to_millis_example :
    (ntp_to_millis_since_epoch (to_ntp_time 1700000000999999999) ≤ 1700000000999)
    × (1700000000999 ≤ ntp_to_millis_since_epoch (to_ntp_time 1700000000999999999) + 1)
ntp_to_millis_example =
    ntp_to_millis_since_epoch-to_ntp_time 1700000000 999999999 (omega arith) (omega arith)
