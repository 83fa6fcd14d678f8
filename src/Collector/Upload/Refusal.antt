-- ===== src/Collector/Upload/Refusal.antt =====
-- What an upload with a refused token leaves (internal/collector/runtime.go).
use on_watch.Base.{ℕ, ◌+◌, ◌≡◌, refl, ◌∙◌, true, ◌||◌, ◌==◌, String, arith}
use on_watch.Collector.Upload.{
  Runtime, auth_pause, delay_upload, mark_error, upload_fails, save_local_state,
}

pub save_local_state-paused :
    (now : ℕ) (r : Runtime)
    → let t = (save_local_state now r).1 in
      (t.auth_paused ≡ r.auth_paused) × (t.auth_pause_until ≡ r.auth_pause_until)
unfolding save_local_state
save_local_state-paused now r = ground arith

pub upload_fails-paused :
    (scale : ℕ → ℕ) (now status : ℕ) (message : String) (r : Runtime)
    → (status == 401 || status == 403) ≡ true
    → let t = (upload_fails scale now status message r).1 in
      (t.auth_paused ≡ true) × (t.auth_pause_until ≡ now + auth_pause)
unfolding upload_fails delay_upload
upload_fails-paused scale now status message r refused =
    let kept = save_local_state-paused now (mark_error message (delay_upload scale now status r)) in
    (kept.0 ∙ rw refused refl, kept.1 ∙ rw refused refl)
