-- ===== src/Collector/Lines.antt =====
-- Bytes, and the lines that `bufio.Reader.ReadBytes('\n')` returns until the end of a file.
use on_watch.Base.{
  ℕ, zero, suc, ◌+◌, ◌≤◌, ◌<◌, ◌≡◌, refl, sym, ap, ◌∙◌, Bool, true, false, List, [], ◌∷◌, ◌++◌,
  ◌==◌, List-cases, All, if◌then◌else◌, arith, length, if_true, if_false, Bool-cases, inl, inr,
}

abbrev pub Bytes : Type 0
Bytes = List ℕ

abbrev pub newline : ℕ
newline = 10

-- The rest of a file after a seek; nothing past its end.
unfoldable pub seek : ℕ → Bytes → Bytes
seek zero bs = bs
seek (suc n) [] = []
seek (suc n) (b ∷ bs) = seek n bs

abbrev pub extend_first : ℕ → List Bytes → List Bytes
extend_first b [] = []
extend_first b (l ∷ ls) = (b ∷ l) ∷ ls

-- The lines that end with a newline, each with it. What stands after the last newline is read as
-- the end of the file.
unfoldable pub complete_lines : Bytes → List Bytes
complete_lines [] = []
complete_lines (b ∷ bs) =
    let rest = complete_lines bs in
    if b == newline then (newline ∷ []) ∷ rest else extend_first b rest

-- `last[0] == '\n'`, or an empty file.
unfoldable pub ends_clean : Bytes → Bool
ends_clean [] = true
ends_clean (b ∷ []) = b == newline
ends_clean (b ∷ c ∷ bs) = ends_clean (c ∷ bs)

pub seek_past : (n : ℕ) (bs : Bytes) → length bs ≤ n → seek n bs ≡ []
unfolding seek
seek_past zero [] h = refl
seek_past zero (b ∷ bs) h = absurd (omega arith)
seek_past (suc n) [] h = refl
seek_past (suc n) (b ∷ bs) h = seek_past n bs (omega arith)

pub seek-nil : (n : ℕ) → seek n [] ≡ []
unfolding seek
seek-nil zero = refl
seek-nil (suc n) = refl

pub seek_add : (n m k : ℕ) (bs : Bytes) → k ≡ n + m → seek k bs ≡ seek m (seek n bs)
unfolding seek
seek_add zero m k bs e = let e' : k ≡ m = omega arith in rw e' refl
seek_add (suc n) m k [] e = seek-nil k ∙ sym (seek-nil m)
seek_add (suc n) m zero (b ∷ bs) e = absurd (omega arith)
seek_add (suc n) m (suc k) (b ∷ bs) e = seek_add n m k bs (omega arith)

pub seek_front : (n : ℕ) (bs cs : Bytes) → n ≤ length bs → seek n (bs ++ cs) ≡ seek n bs ++ cs
unfolding seek
seek_front zero bs cs h = refl
seek_front (suc n) [] cs h = absurd (omega arith)
seek_front (suc n) (b ∷ bs) cs h = seek_front n bs cs (omega arith)

pub complete_lines-newline :
    (b : ℕ) (bs : Bytes)
    → (b == newline) ≡ true
    → complete_lines (b ∷ bs) ≡ (newline ∷ []) ∷ complete_lines bs
unfolding complete_lines
complete_lines-newline b bs ends = if_true (b == newline) _ _ ends

pub complete_lines-other :
    (b : ℕ) (bs : Bytes)
    → (b == newline) ≡ false
    → complete_lines (b ∷ bs) ≡ extend_first b (complete_lines bs)
unfolding complete_lines
complete_lines-other b bs more = if_false (b == newline) _ _ more

pub complete_lines-nil : complete_lines [] ≡ []
unfolding complete_lines
complete_lines-nil = refl

-- The file after its first line has the other lines.
pub complete_lines-seek :
    (bs line : Bytes) (lines : List Bytes)
    → complete_lines bs ≡ line ∷ lines
    → (complete_lines (seek (length line) bs) ≡ lines) × (0 < length line)
unfolding seek
complete_lines-seek [] line lines h = let e = complete_lines-nil in absurd cc
complete_lines-seek (b ∷ bs) line lines h = elim (Bool-cases (b == newline)) [
  | inl ends ↦
      let e = complete_lines-newline b bs ends in
      let first : line ≡ newline ∷ [] = cc in
      let others : complete_lines bs ≡ lines = cc in rw first (others, omega arith)
  | inr more ↦ elim (List-cases (complete_lines bs)) [
    | inl none_left ↦
        let e = complete_lines-other b bs more ∙ ap (extend_first b) none_left in absurd cc
    | inr (l, (ls, read)) ↦
        let e = complete_lines-other b bs more ∙ ap (extend_first b) read in
        let first : line ≡ b ∷ l = cc in
        let others : ls ≡ lines = cc in
        let ih = complete_lines-seek bs l ls read in rw first (ih.0 ∙ others, omega arith)
  ]
]

clean_has_line :
    (b : ℕ) (bs : Bytes)
    → ends_clean (b ∷ bs) ≡ true
    → (l : Bytes) × ((ls : List Bytes) × (complete_lines (b ∷ bs) ≡ l ∷ ls))
unfolding ends_clean
clean_has_line b [] clean = (newline ∷ [], (complete_lines [], complete_lines-newline b [] clean))
clean_has_line b (c ∷ bs) clean =
    let (l, (ls, found)) = clean_has_line c bs clean in
    elim (Bool-cases (b == newline)) [
      | inl ends ↦ (newline ∷ [], (complete_lines (c ∷ bs), complete_lines-newline b (c ∷ bs) ends))
      | inr more ↦ (b ∷ l, (ls, complete_lines-other b (c ∷ bs) more ∙ ap (extend_first b) found))
    ]

-- Appending to a file that ends with a newline adds the lines of what is appended.
pub complete_lines-append :
    (bs cs : Bytes)
    → ends_clean bs ≡ true
    → complete_lines (bs ++ cs) ≡ complete_lines bs ++ complete_lines cs
unfolding ends_clean
complete_lines-append [] cs clean = rw complete_lines-nil refl
complete_lines-append (b ∷ []) cs clean =
    rw (complete_lines-newline b cs clean, complete_lines-newline b [] clean, complete_lines-nil)
      refl
complete_lines-append (b ∷ c ∷ bs) cs clean =
    let ih = complete_lines-append (c ∷ bs) cs clean in
    let (l, (ls, found)) = clean_has_line c bs clean in
    elim (Bool-cases (b == newline)) [
      | inl ends ↦
          rw
            (
              complete_lines-newline b ((c ∷ bs) ++ cs) ends,
              complete_lines-newline b (c ∷ bs) ends,
              ih,
            )
            refl
      | inr more ↦
          rw
            (
              complete_lines-other b ((c ∷ bs) ++ cs) more,
              complete_lines-other b (c ∷ bs) more,
              ih,
              found,
            )
            refl
    ]

-- The rest of a clean file is clean.
pub seek-clean : (n : ℕ) (bs : Bytes) → ends_clean bs ≡ true → ends_clean (seek n bs) ≡ true
unfolding seek ends_clean
seek-clean zero bs clean = clean
seek-clean (suc n) [] clean = refl
seek-clean (suc n) (b ∷ []) clean = rw (seek-nil n) refl
seek-clean (suc n) (b ∷ c ∷ bs) clean = seek-clean n (c ∷ bs) clean

-- A text without a newline, ended by one, is one line.
pub complete_lines_one :
    (text : Bytes)
    → All (λ b. (b == newline) ≡ false) text
    → complete_lines (text ++ newline ∷ []) ≡ (text ++ newline ∷ []) ∷ []
complete_lines_one [] plain = complete_lines-newline newline [] refl ∙ rw complete_lines-nil refl
complete_lines_one (b ∷ text) plain =
    complete_lines-other b (text ++ newline ∷ []) plain.0
    ∙ rw (complete_lines_one text plain.1) refl
