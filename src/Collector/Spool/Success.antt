-- ===== src/Collector/Spool/Success.antt =====
-- While no write fails, the spool returns no error (internal/collector/spool.go).
use on_watch.Base.{
  ℕ, ◌≡◌, refl, Bool, true, false, Option, none, some, List, [], ◌∷◌, String, Dict, inl, inr,
}
use on_watch.Collector.Lines.{Bytes}
use on_watch.Collector.Spool.{
  Spool, SpoolError, SpoolRecord, forget, used, remove_acked_loop, remove_acked, save_if_changed,
  save_state, ack, acked, after_save,
}
use on_watch.Collector.Spool.Removal.{remove_acked_loop_step, save_state-works}

-- An operation that returns no error and leaves no fault to come.
abbrev pub Works : Option SpoolError → Spool → Type 0
Works error s = (error ≡ none) × (s.faults ≡ [])

remove_acked_loop-Works :
    (rest : Dict String Bytes) (changed : Bool) (s : Spool)
    → s.faults ≡ []
    → let r = remove_acked_loop rest changed s in Works r.0 r.2
unfolding remove_acked_loop
remove_acked_loop-Works [] changed s h = (refl, h)
remove_acked_loop-Works ((name, content) ∷ rest) changed s h =
    elim (remove_acked_loop_step name content rest changed s) [
      | inl (e, _) ↦ rw e (remove_acked_loop-Works rest changed s h)
      | inr (inl (e, fails)) ↦ absurd (cc (rw h at fails))
      | inr (inr (e, _)) ↦ rw e (remove_acked_loop-Works rest true (forget name s) (rw h refl))
    ]

save_state-Works : (s : Spool) → s.faults ≡ [] → Works (save_state s).0 (save_state s).1
save_state-Works s h = rw (save_state-works s (rw h refl)) (refl, rw h refl)

save_if_changed-Works :
    (error : Option SpoolError) (changed : Bool) (s : Spool)
    → Works error s
    → let r = save_if_changed (error, changed, s) in Works r.0 r.1
unfolding save_if_changed
save_if_changed-Works (some e) changed s h = h
save_if_changed-Works none true s h = save_state-Works s h.1
save_if_changed-Works none false s h = h

pub remove_acked-Works : (s : Spool) → s.faults ≡ [] → Works (remove_acked s).0 (remove_acked s).1
unfolding remove_acked
remove_acked-Works s h =
    let (error, changed, t) = remove_acked_loop s.files false s in
    save_if_changed-Works error changed t (remove_acked_loop-Works s.files false s h)

pub ack-Works :
    (rs : List SpoolRecord) (now : ℕ) (s : Spool)
    → s.faults ≡ []
    → Works (ack rs now s).0 (ack rs now s).1
unfolding ack after_save
ack-Works rs now s h =
    let s' = acked rs now s in
    rw (save_state-works s' (rw h refl))
      (remove_acked-Works (record (used s') { saved = s'.state }) (rw h refl))
