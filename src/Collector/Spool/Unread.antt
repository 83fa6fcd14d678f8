-- ===== src/Collector/Spool/Unread.antt =====
-- After `removeAckedClosedFilesLocked` has returned no error, every file has something unread, and
-- the directory has not grown (internal/collector/spool.go).
use text.Mathlib.TextEquality.{eq_iff}
use on_watch.Base.{
  ◌≤◌, ◌<◌, ◌≡◌, ◌≢◌, refl, sym, ◌∙◌, Bool, true, false, Option, none, some, [], ◌∷◌, String, arith,
  length, Dict, lookup, erase, lookup-erase, string_eq, Bool-cases, inl, inr, ◌⊎◌,
}
use on_watch.Collector.Lines.{Bytes}
use on_watch.Collector.Spool.{
  Spool, SpoolError, offset_of, forget, remove_acked_loop, remove_acked, save_if_changed,
  save_state, next_fails, disk_bytes,
}
use on_watch.Collector.Spool.Cursors.{offset_of-erase_other}
use on_watch.Collector.Spool.Removal.{remove_acked_loop_step, save_state-fails, save_state-works}

abbrev pub Unread : Spool → Type 0
Unread s =
    (name : String) (content : Bytes)
    → lookup name s.files ≡ some content
    → offset_of name s.state.offsets < length content

-- What the loop has not looked at yet may be read to its end.
abbrev UnreadBut : Dict String Bytes → Spool → Type 0
UnreadBut rest s =
    (name : String) (content : Bytes)
    → lookup name s.files ≡ some content
    → (offset_of name s.state.offsets < length content) ⊎ (lookup name rest ≡ some content)

forget-UnreadBut :
    (name : String) (c : Bytes) (rest : Dict String Bytes) (s : Spool)
    → UnreadBut ((name, c) ∷ rest) s
    → UnreadBut rest (forget name s)
forget-UnreadBut name c rest s h k content there = elim (Bool-cases (string_eq.beq name k)) [
  | inl same ↦ absurd (ground (arith, lookup-erase name k s.files))
  | inr other ↦
      let apart : name ≢ k = λ e. ground (arith, eq_iff name k) in
      let there' : lookup k s.files ≡ some content = ground (arith, lookup-erase name k s.files) in
      let kept = offset_of-erase_other name k s.state.offsets apart in
      elim (h k content there') [
        | inl unread ↦ inl (rw kept unread)
        | inr listed ↦ inr (ground arith)
      ]
]

keep-UnreadBut :
    (name : String) (c : Bytes) (rest : Dict String Bytes) (s : Spool)
    → offset_of name s.state.offsets < length c
    → UnreadBut ((name, c) ∷ rest) s
    → UnreadBut rest s
keep-UnreadBut name c rest s unread h k content there = elim (h k content there) [
  | inl already ↦ inl already
  | inr listed ↦ elim (Bool-cases (string_eq.beq name k)) [
    | inl same ↦
        let same' : name ≡ k = (eq_iff name k).0 same in
        let it : c ≡ content = ground arith in inl (rw (sym same', sym it) unread)
    | inr other ↦ inr (ground arith)
  ]
]

pub remove_acked_loop-nil :
    (changed : Bool) (s : Spool) → remove_acked_loop [] changed s ≡ (none, changed, s)
unfolding remove_acked_loop
remove_acked_loop-nil changed s = refl

remove_acked_loop-Unread :
    (rest : Dict String Bytes) (changed : Bool) (s : Spool)
    → UnreadBut rest s
    → (remove_acked_loop rest changed s).0 ≡ none
    → Unread (remove_acked_loop rest changed s).2
remove_acked_loop-Unread [] changed s h done =
    rw (remove_acked_loop-nil changed s) (λ name content there. elim (h name content there) [
      | inl unread ↦ unread
      | inr listed ↦ absurd (cc)
    ])
remove_acked_loop-Unread ((name, c) ∷ rest) changed s h done =
    elim (remove_acked_loop_step name c rest changed s) [
      | inl (e, unread) ↦ rw e (
          remove_acked_loop-Unread rest changed s (keep-UnreadBut name c rest s unread h)
            (rw e at done))
      | inr (inl (e, _)) ↦ absurd (cc (rw e at done))
      | inr (inr (e, past)) ↦
          let s' = forget name s in
          rw e (
            remove_acked_loop-Unread rest true s' (forget-UnreadBut name c rest s h) (rw e at done))
    ]

save_if_changed-Unread :
    (error : Option SpoolError) (changed : Bool) (s : Spool)
    → (error ≡ none → Unread s)
    → (save_if_changed (error, changed, s)).0 ≡ none
    → Unread (save_if_changed (error, changed, s)).1
unfolding save_if_changed
save_if_changed-Unread (some e) changed s h done = absurd (cc)
save_if_changed-Unread none false s h done = h refl
save_if_changed-Unread none true s h done = elim (Bool-cases (next_fails s.faults)) [
  | inl fails ↦ absurd (cc (rw (save_state-fails s fails) at done))
  | inr works ↦ rw (save_state-works s works) (h refl)
]

-- Once the removal has returned no error, no file is left that is read to its end.
pub remove_acked-Unread : (s : Spool) → (remove_acked s).0 ≡ none → Unread (remove_acked s).1
unfolding remove_acked
remove_acked-Unread s =
    let (error, changed, t) = remove_acked_loop s.files false s in
    save_if_changed-Unread error changed t
      (remove_acked_loop-Unread s.files false s (λ name content there. inr there))

-- The bytes of the directory.
disk_bytes-erase :
    (name : String) (files : Dict String Bytes) → disk_bytes (erase name files) ≤ disk_bytes files
disk_bytes-erase name [] = omega arith
disk_bytes-erase name ((j, c) ∷ files) = ground (arith, disk_bytes-erase name files)

save_state-files :
    (s : Spool) → ((save_state s).1.files ≡ s.files) × ((save_state s).1.max_bytes ≡ s.max_bytes)
unfolding save_state
save_state-files s = ground arith

remove_acked_loop-disk_bytes :
    (rest : Dict String Bytes) (changed : Bool) (s : Spool)
    → let t = (remove_acked_loop rest changed s).2 in
      (disk_bytes t.files ≤ disk_bytes s.files) × (t.max_bytes ≡ s.max_bytes)
remove_acked_loop-disk_bytes [] changed s = rw (remove_acked_loop-nil changed s) (omega arith, refl)
remove_acked_loop-disk_bytes ((name, c) ∷ rest) changed s =
    elim (remove_acked_loop_step name c rest changed s) [
      | inl (e, unread) ↦ rw e (remove_acked_loop-disk_bytes rest changed s)
      | inr (inl (e, _)) ↦ rw e (omega arith, refl)
      | inr (inr (e, past)) ↦
          let ih = remove_acked_loop-disk_bytes rest true (forget name s) in
          rw e (omega (arith, ih.0, disk_bytes-erase name s.files), ih.1)
    ]

pub save_if_changed-files :
    (error : Option SpoolError) (changed : Bool) (s : Spool)
    → let t = (save_if_changed (error, changed, s)).1 in
      (t.files ≡ s.files) × (t.max_bytes ≡ s.max_bytes)
unfolding save_if_changed
save_if_changed-files (some e) changed s = (refl, refl)
save_if_changed-files none true s = save_state-files s
save_if_changed-files none false s = (refl, refl)

-- The removal does not let the directory grow.
pub remove_acked-disk_bytes :
    (s : Spool)
    → (disk_bytes (remove_acked s).1.files ≤ disk_bytes s.files)
      × ((remove_acked s).1.max_bytes ≡ s.max_bytes)
unfolding remove_acked
remove_acked-disk_bytes s =
    let (error, changed, t) = remove_acked_loop s.files false s in
    let kept = save_if_changed-files error changed t in
    let h = remove_acked_loop-disk_bytes s.files false s in (rw kept.0 h.0, kept.1 ∙ h.1)
