-- ===== src/Tests/Session.antt =====
-- The rate of the stream and the delays of a link at concrete inputs.
use deskhub.Base.{◌≤◌, ◌<◌, ◌≡◌, ◌*◌, min, true, false, List, [], ◌∷◌, arith}
use deskhub.Protocol.Wire.Control.{Feedback}
use deskhub.Control.BitrateController.{new_controller, update}
use deskhub.Control.BitrateController.Bounds.{
  IsValid, Decides, update-Decides, Report, run, run-new_controller,
}
use deskhub.Session.LinkRecovery.{
  keepalive_interval_us, reconnect_delay_us, reconnect_first_delay_us, reconnect_max_delay_us,
}
use deskhub.Session.LinkRecovery.Delays.{
  doubled, reconnect_delay_us-doubled, keepalive_interval_us-within,
}

abbrev lossy : Feedback
lossy = record { loss_pct = 7; rtt_ms = 20; recv_bitrate_kbps = 9000 }

new_controller-IsValid : IsValid (new_controller 10000000 1000000)
unfolding new_controller
new_controller-IsValid = record { low = omega arith; high = omega arith; fits = omega arith }

update-Decides_example :
    Decides
      (new_controller 10000000 1000000)
      lossy
      50
      (update (new_controller 10000000 1000000) lossy 50 3000000).0
update-Decides_example =
    update-Decides (new_controller 10000000 1000000) lossy 50 3000000 new_controller-IsValid

abbrev reports : List Report
reports =
    record { feedback = lossy; frame_age_ms = 50; now_us = 3000000; taken = true }
    ∷ record {
      feedback = record lossy { loss_pct = 0 };
      frame_age_ms = 20;
      now_us = 9000000;
      taken = false;
    }
    ∷ []

run-new_controller_example :
    let b = run (new_controller 10000000 1000000) reports in (1000000 ≤ b.cur) × (b.cur ≤ 10000000)
run-new_controller_example = run-new_controller 10000000 1000000 reports (omega arith) (omega arith)

reconnect_delay_us-doubled_example :
    reconnect_delay_us 2 ≡ min reconnect_max_delay_us (doubled 2 reconnect_first_delay_us)
reconnect_delay_us-doubled_example = reconnect_delay_us-doubled 2

keepalive_interval_us-within_example :
    (0 < keepalive_interval_us 30000) × (2 * keepalive_interval_us 30000 ≤ 30000 * 1000)
keepalive_interval_us-within_example =
    keepalive_interval_us-within 30000 (omega arith) (omega arith)
