-- ===== src/Tests/Pausing.antt =====
-- A collector whose token is refused.
use on_watch.Base.{◌≡◌, refl, false, none, arith}
use on_watch.Collector.Spool.{remove_acked, save_state, set_error}
use on_watch.Collector.Upload.{upload_fails, upload_once}
use on_watch.Collector.Heartbeat.{Heartbeat, HeartbeatReply, answered, heartbeat_once}
use on_watch.Collector.Heartbeat.Pause.{upload_fails-pause}
use on_watch.Tests.Collecting.{letters, no_config, accept_all, plain_text, collector}

abbrev hear_all : Heartbeat → HeartbeatReply
hear_all h = answered (record { config_revision = 0; desired_config = no_config })

refused_removal : (remove_acked (upload_fails (λ d. d) 7 401 "refused" collector).1.spool).0 ≡ none
unfolding upload_fails set_error save_state remove_acked
refused_removal = refl

upload_fails-pause_example :
    (upload_once plain_text letters
        (λ d. d)
        accept_all
        99
        (upload_fails (λ d. d) 7 401 "refused" collector).1
      ≡ (none, (upload_fails (λ d. d) 7 401 "refused" collector).1))
    × (heartbeat_once plain_text hear_all letters 60
          (upload_fails (λ d. d) 7 401 "refused" collector).1
        ≡ (none, (upload_fails (λ d. d) 7 401 "refused" collector).1))
    × ((heartbeat_once plain_text hear_all letters 900000000007
          (upload_fails (λ d. d) 7 401 "refused" collector).1).1.auth_paused
        ≡ false)
upload_fails-pause_example =
    upload_fails-pause plain_text letters (λ d. d) accept_all hear_all 7 401 "refused" collector 99
      60 900000000007 refl (λ h. (record { config_revision = 0; desired_config = no_config }, refl))
      refused_removal (omega arith) (omega arith)
