-- ===== src/Collector/Recovery/Truncation.antt =====
-- A file cut after its last newline (internal/collector/spool.go).
use on_watch.Base.{
  ℕ, zero, suc, ◌+◌, ◌-◌, ◌<◌, ◌≡◌, ◌≢◌, refl, sym, ap, ◌∙◌, true, false, [], ◌∷◌, ◌++◌, arith,
  length, ◌==◌, Bool-cases, inl, inr, ◌⊎◌,
}
use on_watch.Collector.Lines.{
  Bytes, newline, seek, seek-nil, complete_lines, complete_lines-nil, complete_lines-newline,
  complete_lines-other, extend_first, ends_clean,
}
use on_watch.Collector.Spool.{first_bytes}
use on_watch.Collector.Recovery.{cut_after_last}

-- The part of a file that is kept.
abbrev pub kept : Bytes → Bytes
kept content = first_bytes (cut_after_last content) content

kept-cons : (b : ℕ) (bs : Bytes) → cut_after_last bs ≢ 0 → kept (b ∷ bs) ≡ b ∷ kept bs
kept-cons b bs more =
    let rest : (cut_after_last bs == 0) ≡ false = ground arith in
    let past : (cut_after_last bs + 1 == 0) ≡ false = ground arith in
    let back : cut_after_last bs + 1 - 1 ≡ cut_after_last bs = omega arith in
    rw (rest, past, back) refl

first_bytes_zero : (bs : Bytes) → first_bytes 0 bs ≡ []
first_bytes_zero [] = refl
first_bytes_zero (b ∷ bs) = refl

kept-last : (bs : Bytes) → cut_after_last bs ≡ 0 → kept (newline ∷ bs) ≡ newline ∷ []
kept-last bs none_left = rw none_left (ap (λ l. newline ∷ l) (first_bytes_zero bs))

kept-none :
    (b : ℕ) (bs : Bytes) → cut_after_last bs ≡ 0 → (b == newline) ≡ false → kept (b ∷ bs) ≡ []
kept-none b bs none_left other = rw (none_left, other) refl

no_newline :
    (b : ℕ) (bs : Bytes)
    → cut_after_last (b ∷ bs) ≡ 0
    → (cut_after_last bs ≡ 0) × ((b == newline) ≡ false)
no_newline b bs h = (ground arith, ground arith)

-- Bytes without a newline have no complete line.
no_lines : (n : ℕ) (bs : Bytes) → cut_after_last bs ≡ 0 → complete_lines (seek n bs) ≡ []
unfolding seek
no_lines zero [] h = complete_lines-nil
no_lines zero (b ∷ bs) h =
    let (none_left, other) = no_newline b bs h in
    complete_lines-other b bs other ∙ ap (extend_first b) (no_lines zero bs none_left)
no_lines (suc n) [] h = complete_lines-nil
no_lines (suc n) (b ∷ bs) h = no_lines n bs (no_newline b bs h).0

-- How the last newline lies in a file of at least one byte.
cut-cases :
    (b : ℕ) (bs : Bytes)
    → (cut_after_last bs ≢ 0)
      ⊎ (((cut_after_last bs ≡ 0) × (b ≡ newline))
          ⊎ ((cut_after_last bs ≡ 0) × ((b == newline) ≡ false)))
cut-cases b bs = elim (Bool-cases (cut_after_last bs == 0)) [
  | inr more ↦ inl (λ e. ground arith)
  | inl last ↦ elim (Bool-cases (b == newline)) [
    | inl ends ↦ inr (inl (ground arith, ground arith))
    | inr other ↦ inr (inr (ground arith, other))
  ]
]

complete_lines-cons :
    (b : ℕ) (xs ys : Bytes)
    → complete_lines xs ≡ complete_lines ys
    → complete_lines (b ∷ xs) ≡ complete_lines (b ∷ ys)
complete_lines-cons b xs ys h = elim (Bool-cases (b == newline)) [
  | inl ends ↦ rw (complete_lines-newline b xs ends, complete_lines-newline b ys ends, h) refl
  | inr more ↦ rw (complete_lines-other b xs more, complete_lines-other b ys more, h) refl
]

-- Cutting keeps every complete line, from any position on.
pub kept-lines :
    (n : ℕ) (bs : Bytes) → complete_lines (seek n (kept bs)) ≡ complete_lines (seek n bs)
unfolding seek
kept-lines n [] = refl
kept-lines zero (b ∷ bs) = elim (cut-cases b bs) [
  | inl more ↦ rw (kept-cons b bs more) (complete_lines-cons b (kept bs) bs (kept-lines zero bs))
  | inr (inl (last, ends)) ↦
      rw (ends, kept-last bs last)
        (complete_lines-cons newline [] bs (complete_lines-nil ∙ sym (no_lines zero bs last)))
  | inr (inr (last, other)) ↦ rw (kept-none b bs last other) (
      complete_lines-nil
      ∙ sym (complete_lines-other b bs other ∙ ap (extend_first b) (no_lines zero bs last)))
]
kept-lines (suc n) (b ∷ bs) = elim (cut-cases b bs) [
  | inl more ↦ rw (kept-cons b bs more) (kept-lines n bs)
  | inr (inl (last, ends)) ↦
      rw (ends, kept-last bs last, seek-nil n) (complete_lines-nil ∙ sym (no_lines n bs last))
  | inr (inr (last, other)) ↦
      rw (kept-none b bs last other) (complete_lines-nil ∙ sym (no_lines n bs last))
]

ends_clean-cons : (b : ℕ) (xs : Bytes) → xs ≢ [] → ends_clean xs ≡ true → ends_clean (b ∷ xs) ≡ true
unfolding ends_clean
ends_clean-cons b [] some_left clean = absurd (some_left refl)
ends_clean-cons b (x ∷ xs) some_left clean = clean

kept-ne-nil : (bs : Bytes) → cut_after_last bs ≢ 0 → kept bs ≢ []
kept-ne-nil [] h = absurd (h refl)
kept-ne-nil (b ∷ bs) h = elim (cut-cases b bs) [
  | inl more ↦ rw (kept-cons b bs more) (λ e. cc)
  | inr (inl (last, ends)) ↦ rw (ends, kept-last bs last) (λ e. cc)
  | inr (inr (last, other)) ↦ absurd (h (rw (last, other) refl))
]

-- What is kept ends with a newline, or is empty.
pub kept-clean : (bs : Bytes) → ends_clean (kept bs) ≡ true
unfolding ends_clean
kept-clean [] = refl
kept-clean (b ∷ bs) = elim (cut-cases b bs) [
  | inl more ↦
      rw (kept-cons b bs more) (ends_clean-cons b (kept bs) (kept-ne-nil bs more) (kept-clean bs))
  | inr (inl (last, ends)) ↦ rw (ends, kept-last bs last) refl
  | inr (inr (last, other)) ↦ rw (kept-none b bs last other) refl
]

-- A newline near the end is found without reading the rest.
pub cut-seek :
    (n : ℕ) (bs : Bytes)
    → cut_after_last (seek n bs) ≢ 0
    → cut_after_last bs ≡ n + cut_after_last (seek n bs)
unfolding seek
cut-seek zero bs h = omega arith
cut-seek (suc n) [] h = absurd (h refl)
cut-seek (suc n) (b ∷ bs) h =
    let ih = cut-seek n bs h in
    let pos : 0 < cut_after_last (seek n bs) = ground arith in
    let more : (cut_after_last bs == 0) ≡ false = ground (arith, ih) in rw more (omega (arith, ih))

-- What is cut off and what is kept are the file.
pub first_bytes-seek : (n : ℕ) (bs : Bytes) → first_bytes n bs ++ seek n bs ≡ bs
unfolding seek
first_bytes-seek zero bs = rw (first_bytes_zero bs) refl
first_bytes-seek (suc n) [] = refl
first_bytes-seek (suc n) (b ∷ bs) =
    let left : (suc n == 0) ≡ false = ground arith in
    let back : suc n - 1 ≡ n = omega arith in
    rw (left, back) (ap (λ l. b ∷ l) (first_bytes-seek n bs))

-- A file whose end is clean is clean.
pub seek-clean_back :
    (n : ℕ) (bs : Bytes) → n < length bs → ends_clean (seek n bs) ≡ true → ends_clean bs ≡ true
unfolding seek
seek-clean_back zero bs h clean = clean
seek-clean_back (suc n) [] h clean = absurd (omega arith)
seek-clean_back (suc n) (b ∷ []) h clean = absurd (omega arith)
seek-clean_back (suc n) (b ∷ c ∷ bs) h clean =
    ends_clean-cons b (c ∷ bs) (λ e. cc) (seek-clean_back n (c ∷ bs) (omega arith) clean)
