-- ===== src/Collector/Heartbeat/Pause.antt =====
-- How a refused token pauses the collector, and how a heartbeat ends the pause
-- (internal/collector/runtime.go).
use on_watch.Base.{
  ℕ, ◌+◌, ◌≤◌, ◌<◌, ◌≡◌, refl, ◌∙◌, true, false, ◌||◌, ◌&&◌, Option, none, some, String, List, ltb,
  ◌==◌, arith, Bool-cases, Option-cases, inl, inr,
}
use on_watch.Ingest.{Event}
use on_watch.Ingest.Desired.{GoText, validate_desired_config}
use on_watch.Collector.Spool.{Codec, Spool, SpoolError, remove_acked}
use on_watch.Collector.Status.{SpoolStatus, status}
use on_watch.Collector.Status.Measures.{status-same}
use on_watch.Collector.Upload.{
  Reply, Runtime, UploadError, auth_pause, upload_fails, save_local_state, upload_once,
}
use on_watch.Collector.Upload.Refusal.{save_local_state-paused, upload_fails-paused}
use on_watch.Collector.Heartbeat.{
  HeartbeatResponse, HeartbeatReply, answered, Heartbeat, saved_with, heartbeat_of, adopt, hear,
  beat, heartbeat_once,
}

saved_with-paused :
    (res : Option UploadError × Runtime) → (saved_with res).1.auth_paused ≡ res.1.auth_paused
saved_with-paused (none, r) = refl
saved_with-paused (some e, r) = refl

adopt-paused :
    (text : GoText) (now : ℕ) (response : HeartbeatResponse) (r : Runtime)
    → (adopt text now response r).1.auth_paused ≡ false
unfolding adopt
adopt-paused text now response r =
    let awake : Runtime = record r { auth_paused = false; auth_pause_until = 0 } in
    let told : Runtime = record awake {
      revision = response.config_revision;
      desired = response.desired_config;
    } in
    elim (Bool-cases (response.config_revision == r.revision)) [
      | inl known ↦
          rw known
            (saved_with-paused (save_local_state now awake) ∙ (save_local_state-paused now awake).0)
      | inr new ↦ elim (Option-cases (validate_desired_config text response.desired_config)) [
        | inr (e, invalid) ↦ rw (new, invalid) refl
        | inl valid ↦
            elim (Bool-cases (response.desired_config.revision == response.config_revision)) [
              | inl same ↦
                  rw (new, valid, same)
                    (saved_with-paused (save_local_state now told)
                      ∙ (save_local_state-paused now told).0)
              | inr other ↦ rw (new, valid, other) refl
            ]
      ]
    ]

beat-paused :
    (text : GoText) (reply : Heartbeat → HeartbeatReply) (now : ℕ) (error : Option SpoolError)
    (s : SpoolStatus) (spool : Spool) (r : Runtime)
    → error ≡ none
    → ((h : Heartbeat) → (response : HeartbeatResponse) × (reply h ≡ answered response))
    → (beat text reply now ((error, s), spool) r).1.auth_paused ≡ false
unfolding beat hear
beat-paused text reply now (some e) s spool r fine answers = absurd (cc)
beat-paused text reply now none s spool r fine answers =
    let r' : Runtime = record r { spool = spool } in
    let (response, answer) = answers (heartbeat_of s r') in
    rw answer (adopt-paused text now response r')

-- After the server has refused the token of an upload, an upload at any time changes nothing, and a
-- heartbeat before fifteen minutes are over changes nothing either; a heartbeat from then on that the
-- server answers ends the pause, if the removal of read files returns no error.
pub upload_fails-pause :
    (text : GoText) (codec : Codec) (scale : ℕ → ℕ) (reply : List Event → ℕ → Reply)
    (hears : Heartbeat → HeartbeatReply) (refused_at code : ℕ) (message : String) (r : Runtime)
    (any early late : ℕ)
    → (code == 401 || code == 403) ≡ true
    → ((h : Heartbeat) → (response : HeartbeatResponse) × (hears h ≡ answered response))
    → (remove_acked (upload_fails scale refused_at code message r).1.spool).0 ≡ none
    → early < refused_at + auth_pause
    → refused_at + auth_pause ≤ late
    → let p = (upload_fails scale refused_at code message r).1 in
      (upload_once text codec scale reply any p ≡ (none, p))
      × (heartbeat_once text hears codec early p ≡ (none, p))
      × ((heartbeat_once text hears codec late p).1.auth_paused ≡ false)
unfolding upload_once heartbeat_once
upload_fails-pause text codec scale reply hears refused_at code message r any early late refused
      answers works before after =
    let p = (upload_fails scale refused_at code message r).1 in
    let paused = upload_fails-paused scale refused_at code message r refused in
    let asleep : (p.auth_paused || ltb any p.retry_until) ≡ true = ground (arith, paused.0) in
    let waits : (p.auth_paused && ltb early p.auth_pause_until) ≡ true =
      ground (arith, paused.0, paused.1) in
    let goes : (p.auth_paused && ltb late p.auth_pause_until) ≡ false =
      ground (arith, paused.0, paused.1) in
    let ((error, measured), spool) = status codec late p.spool in
    let fine = (status-same codec late p.spool).1 ∙ works in
    (
      rw asleep refl,
      rw waits refl,
      rw goes (beat-paused text hears late error measured spool p fine answers),
    )
