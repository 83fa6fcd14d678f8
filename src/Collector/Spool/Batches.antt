-- ===== src/Collector/Spool/Batches.antt =====
-- `Batch` and the cursors that acknowledging its records gives (internal/collector/spool.go).
use mathlib.Core.List.{append_assoc, append-nil, map-append}
use mathlib.Core.Path.{subst}
use text.Mathlib.TextEquality.{eq_iff}
use on_watch.Base.{
  ℕ, ◌≤◌, ◌<◌, ◌≡◌, ◌≢◌, refl, sym, ap, ◌∙◌, true, ◌||◌, none, some, List, [], ◌∷◌, ◌++◌, map,
  String, arith, Dict, lookup, string_eq, IsMap, All, All-imp, All-append, leb, Bool-cases,
  Option-cases, inl, inr, ◌⊎◌,
}
use on_watch.Collector.Lines.{Bytes, seek, complete_lines}
use on_watch.Collector.Spool.{
  Codec, SpoolRecord, WalkEnd, at_end, stopped, bad, Walk, walk_lines, walk_files, offset_of,
  ack_offsets,
}
use on_watch.Collector.Spool.Cursors.{
  queue, queue-cons, queue-nil, waiting, events, Agree, queue-Agree, Agree-other, Agree-trans,
  ack_offsets-other, ack_offsets-append,
}
use on_watch.Collector.Spool.Reading.{walk_lines-file, walk_lines-ack}

regroup {ℓ} :
    {A : Type ℓ} (es ls : List A) {xs q q' : List A}
    → xs ≡ es ++ ls
    → q ≡ q'
    → xs ++ q ≡ es ++ (ls ++ q')
regroup es ls {q' = q'} e f = rw (e, f) (append_assoc es ls q')

regroup_last {ℓ} :
    {A : Type ℓ} (es ls ms q' : List A) {xs q : List A}
    → xs ≡ es ++ ls
    → ls ≡ []
    → q ≡ ms ++ q'
    → xs ++ q ≡ (es ++ ms) ++ (ls ++ q')
regroup_last es ls ms q' e last f = rw (e, last, f, append-nil es) (sym (append_assoc es ms q'))

or_le : (l m c t : ℕ) → (leb l c || leb m t) ≡ true → (l ≤ c) ⊎ (m ≤ t)
or_le l m c t h = elim (Bool-cases (leb l c)) [
  | inl full ↦ inl (ground arith)
  | inr room ↦ inr (ground arith)
]

pub WalkEnd-cases : (e : WalkEnd) → (e ≡ at_end) ⊎ ((e ≡ stopped) ⊎ (e ≡ bad))
WalkEnd-cases at_end = inl refl
WalkEnd-cases stopped = inr (inl refl)
WalkEnd-cases bad = inr (inr refl)

events-append : (rs more : List SpoolRecord) → events (rs ++ more) ≡ events rs ++ events more
events-append rs more = map-append _ rs more

module _ (codec : Codec) (limit max_bytes : ℕ) (o : Dict String ℕ) where
  abbrev pub read_file : ℕ → List String → ℕ → String → Bytes → Walk
  read_file count seen total name content =
      walk_lines codec limit max_bytes name (offset_of name o) count seen total
        (complete_lines (seek (offset_of name o) content))

  -- A batch ends with the file, or goes on with the next ones.
  pub walk_files_step :
      (count : ℕ) (seen : List String) (total : ℕ) (name : String) (content : Bytes)
      (files : Dict String Bytes) (rs : List SpoolRecord)
      → walk_files codec limit max_bytes o count seen total ((name, content) ∷ files) ≡ some rs
      → let w = read_file count seen total name content in
        ((w.records ≡ rs) × (w.ended ≡ at_end → (limit ≤ w.count) ⊎ (max_bytes ≤ w.total)))
        ⊎ ((more : List SpoolRecord) × (w.ended ≡ at_end)
            × (w.count < limit)
            × (w.total < max_bytes)
            × (walk_files codec limit max_bytes o w.count w.seen w.total files ≡ some more)
            × (w.records ++ more ≡ rs))
  unfolding walk_files
  walk_files_step count seen total name content files rs h =
      let w = read_file count seen total name content in
      elim (WalkEnd-cases w.ended) [
        | inl ended ↦ elim (Bool-cases (leb limit w.count || leb max_bytes w.total)) [
          | inl enough ↦ inl (ground arith, λ e. or_le limit max_bytes w.count w.total enough)
          | inr room ↦
              elim (Option-cases
                (walk_files codec limit max_bytes o w.count w.seen w.total files)) [
                  | inl failed ↦ absurd (ground arith)
                  | inr (more, found) ↦
                      inr (more, ended, ground arith, ground arith, found, ground arith)
                ]
        ]
        | inr (inl ended) ↦ inl (ground arith, λ e. absurd (cc))
        | inr (inr ended) ↦ absurd (ground arith)
      ]

  -- An error comes from an invalid record of the file, or of a later one.
  pub walk_files_fails :
      (count : ℕ) (seen : List String) (total : ℕ) (name : String) (content : Bytes)
      (files : Dict String Bytes)
      → walk_files codec limit max_bytes o count seen total ((name, content) ∷ files) ≡ none
      → let w = read_file count seen total name content in
        (w.ended ≡ bad) ⊎ (walk_files codec limit max_bytes o w.count w.seen w.total files ≡ none)
  unfolding walk_files
  walk_files_fails count seen total name content files h =
      let w = read_file count seen total name content in
      elim (WalkEnd-cases w.ended) [
        | inr (inr ended) ↦ inl ended
        | inr (inl ended) ↦ absurd (ground arith)
        | inl ended ↦
            elim (Option-cases (walk_files codec limit max_bytes o w.count w.seen w.total files)) [
              | inl failed ↦ inr failed
              | inr (more, found) ↦ absurd (ground arith)
            ]
      ]

  pub walk_files-nil :
      (count : ℕ) (seen : List String) (total : ℕ)
      → walk_files codec limit max_bytes o count seen total [] ≡ some []
  unfolding walk_files
  walk_files-nil count seen total = refl

  -- No record comes from a file that is not there.
  walk_files-file :
      (name : String) (count : ℕ) (seen : List String) (total : ℕ) (files : Dict String Bytes)
      (rs : List SpoolRecord)
      → lookup name files ≡ none
      → walk_files codec limit max_bytes o count seen total files ≡ some rs
      → All (λ r. SpoolRecord.file r ≢ name) rs
  walk_files-file name count seen total [] rs absent h =
      let empty : rs ≡ [] = cc (walk_files-nil count seen total) in rw empty tt
  walk_files-file name count seen total ((other, content) ∷ files) rs absent h =
      let w = read_file count seen total other content in
      let apart : other ≢ name = λ e. ground (arith, eq_iff other name) in
      let absent' : lookup name files ≡ none = ground (arith, eq_iff other name) in
      let here =
        All-imp _ (λ r. SpoolRecord.file r ≢ name) w.records (λ r e f. apart (sym e ∙ f))
          (walk_lines-file codec limit max_bytes other (offset_of other o) count seen total _) in
      elim (walk_files_step count seen total other content files rs h) [
        | inl (same, _) ↦ rw (sym same) here
        | inr (more, _, _, _, found, same) ↦ rw (sym same) (
            All-append _ w.records more here
              (walk_files-file name w.count w.seen w.total files more absent' found))
      ]

  -- What was queued is the batch, followed by what is queued once it is acknowledged.
  pub walk_files-ack :
      (count : ℕ) (seen : List String) (total : ℕ) (files : Dict String Bytes)
      (rs : List SpoolRecord) (p : Dict String ℕ)
      → IsMap files
      → Agree o p files
      → walk_files codec limit max_bytes o count seen total files ≡ some rs
      → queue codec o files ≡ events rs ++ queue codec (ack_offsets rs p) files
  walk_files-ack count seen total [] rs p unique same h =
      let empty : rs ≡ [] = cc (walk_files-nil count seen total) in
      rw (empty, queue-nil codec o, queue-nil codec (ack_offsets [] p)) refl
  walk_files-ack count seen total ((name, content) ∷ files) rs p unique same h =
      let w = read_file count seen total name content in
      let p' = ack_offsets w.records p in
      let here = walk_lines-file codec limit max_bytes name (offset_of name o) count seen total _ in
      let read =
        walk_lines-ack codec limit max_bytes name content (offset_of name o) count seen total _ p
          (sym same.0) refl in
      let others : Agree p p' files =
        Agree-other name p p' files
          (λ j apart.
            ack_offsets-other j w.records p
              (All-imp _ (λ r. SpoolRecord.file r ≢ j) w.records (λ r e f. apart (sym e ∙ f)) here))
          unique.0 in
      let same' = Agree-trans o p p' files same.1 others in
      elim (walk_files_step count seen total name content files rs h) [
        | inl (all, _) ↦
            subst
              (λ rs.
                queue codec o ((name, content) ∷ files)
                ≡ events rs ++ queue codec (ack_offsets rs p) ((name, content) ∷ files))
              all
              (queue-cons codec o name content files
                ∙ regroup (events w.records) (waiting codec p' name content) read.0
                    (queue-Agree codec o p' files same')
                ∙ ap (λ q. events w.records ++ q) (sym (queue-cons codec p' name content files)))
        | inr (more, ended, below, _, found, all) ↦
            let p'' = ack_offsets more p' in
            let ih = walk_files-ack w.count w.seen w.total files more p' unique.1 same' found in
            let kept : offset_of name p'' ≡ offset_of name p' =
              ack_offsets-other name more p'
                (walk_files-file name w.count w.seen w.total files more unique.0 found) in
            let read' : waiting codec o name content
                ≡ events w.records ++ waiting codec p'' name content =
              rw kept read.0 in
            let last : waiting codec p'' name content ≡ [] =
              rw kept (ap (map codec.unmarshal) (read.1 ended below)) in
            subst
              (λ rs.
                queue codec o ((name, content) ∷ files)
                ≡ events rs ++ queue codec (ack_offsets rs p) ((name, content) ∷ files))
              all
              (rw (ack_offsets-append w.records more p, events-append w.records more)
                (queue-cons codec o name content files
                  ∙ regroup_last (events w.records) (waiting codec p'' name content) (events more)
                      (queue codec p'' files) read' last ih
                  ∙ ap (λ q. (events w.records ++ events more) ++ q)
                      (sym (queue-cons codec p'' name content files))))
      ]
