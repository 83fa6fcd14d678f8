-- ===== src/Collector/Spool/Cursors.antt =====
-- What is queued in a directory of event files, given cursors, and what acknowledging records does
-- to it.
use text.Mathlib.TextEquality.{eq_iff}
use on_watch.Base.{
  ℕ, ◌<◌, ◌≡◌, ◌≢◌, refl, sym, ◌∙◌, Option, none, some, List, [], ◌∷◌, ◌++◌, map, String, arith,
  Dict, lookup, insert, erase, lookup-insert, lookup-erase, string_eq, All, beq_refl, ltb, true,
  Bool-cases, inl, inr,
}
use on_watch.Ingest.{Event}
use on_watch.Collector.Lines.{Bytes, seek, complete_lines}
use on_watch.Collector.Spool.{Codec, SpoolRecord, offset_of, ack_offsets}

-- The records that wait, in the order in which they are read; `none` is an invalid one.
unfoldable pub queue : Codec → Dict String ℕ → Dict String Bytes → List (Option Event)
queue codec offsets [] = []
queue codec offsets ((name, content) ∷ files) =
    map codec.unmarshal (complete_lines (seek (offset_of name offsets) content))
    ++ queue codec offsets files

-- What waits in one file.
abbrev pub waiting : Codec → Dict String ℕ → String → Bytes → List (Option Event)
waiting codec offsets name content =
    map codec.unmarshal (complete_lines (seek (offset_of name offsets) content))

pub queue-cons :
    (codec : Codec) (o : Dict String ℕ) (name : String) (content : Bytes)
    (files : Dict String Bytes)
    → queue codec o ((name, content) ∷ files) ≡ waiting codec o name content ++ queue codec o files
unfolding queue
queue-cons codec o name content files = refl

pub queue-nil : (codec : Codec) (o : Dict String ℕ) → queue codec o [] ≡ []
unfolding queue
queue-nil codec o = refl

abbrev pub events : List SpoolRecord → List (Option Event)
events rs = map (λ r. some (SpoolRecord.event r)) rs

-- Two maps of cursors agree on every file.
abbrev pub Agree : Dict String ℕ → Dict String ℕ → Dict String Bytes → Type 0
Agree o o' [] = Unit
Agree o o' ((name, content) ∷ files) = (offset_of name o ≡ offset_of name o') × Agree o o' files

pub offset_of-insert_self :
    (k : String) (n : ℕ) (o : Dict String ℕ) → offset_of k (insert k n o) ≡ n
offset_of-insert_self k n o = ground (arith, lookup-insert k k n o, beq_refl k)

pub offset_of-insert_other :
    (k j : String) (n : ℕ) (o : Dict String ℕ) → k ≢ j → offset_of j (insert k n o) ≡ offset_of j o
offset_of-insert_other k j n o h = ground (arith, lookup-insert k j n o, eq_iff k j)

pub offset_of-erase_other :
    (k j : String) (o : Dict String ℕ) → k ≢ j → offset_of j (erase k o) ≡ offset_of j o
offset_of-erase_other k j o h = ground (arith, lookup-erase k j o, eq_iff k j)

-- Acknowledging records of one file leaves the cursors of the others.
pub ack_offsets-other :
    (name : String) (rs : List SpoolRecord) (o : Dict String ℕ)
    → All (λ r. SpoolRecord.file r ≢ name) rs
    → offset_of name (ack_offsets rs o) ≡ offset_of name o
unfolding ack_offsets
ack_offsets-other name [] o h = refl
ack_offsets-other name (r ∷ rs) o h = elim (Bool-cases (ltb (offset_of r.file o) r.end_offset)) [
  | inl later ↦ rw later (
      ack_offsets-other name rs (insert r.file r.end_offset o) h.1
      ∙ offset_of-insert_other r.file name r.end_offset o h.0)
  | inr known ↦ rw known (ack_offsets-other name rs o h.1)
]

pub ack_offsets-nil : (o : Dict String ℕ) → ack_offsets [] o ≡ o
unfolding ack_offsets
ack_offsets-nil o = refl

-- A record that ends past the cursor moves it to its end.
pub ack_offsets-cons :
    (r : SpoolRecord) (rs : List SpoolRecord) (o : Dict String ℕ)
    → offset_of r.file o < r.end_offset
    → ack_offsets (r ∷ rs) o ≡ ack_offsets rs (insert r.file r.end_offset o)
unfolding ack_offsets
ack_offsets-cons r rs o h =
    let past : ltb (offset_of r.file o) r.end_offset ≡ true = ground arith in rw past refl

pub ack_offsets-append :
    (rs more : List SpoolRecord) (o : Dict String ℕ)
    → ack_offsets (rs ++ more) o ≡ ack_offsets more (ack_offsets rs o)
unfolding ack_offsets
ack_offsets-append [] more o = refl
ack_offsets-append (r ∷ rs) more o = ack_offsets-append rs more _

pub queue-Agree :
    (codec : Codec) (o o' : Dict String ℕ) (files : Dict String Bytes)
    → Agree o o' files
    → queue codec o files ≡ queue codec o' files
unfolding queue
queue-Agree codec o o' [] h = refl
queue-Agree codec o o' ((name, content) ∷ files) h = rw (h.0, queue-Agree codec o o' files h.1) refl

-- A change of one file's cursor is not seen by files of other names.
pub Agree-other :
    (name : String) (o o' : Dict String ℕ) (files : Dict String Bytes)
    → ((j : String) → name ≢ j → offset_of j o' ≡ offset_of j o)
    → lookup name files ≡ none
    → Agree o o' files
Agree-other name o o' [] same new = tt
Agree-other name o o' ((j, content) ∷ files) same new =
    let apart : name ≢ j = λ e. ground (arith, eq_iff j name) in
    let others : lookup name files ≡ none = ground (arith, eq_iff j name) in
    (sym (same j apart), Agree-other name o o' files same others)

pub Agree-trans :
    (o p q : Dict String ℕ) (files : Dict String Bytes)
    → Agree o p files
    → Agree p q files
    → Agree o q files
Agree-trans o p q [] h k = tt
Agree-trans o p q (f ∷ files) h k = (h.0 ∙ k.0, Agree-trans o p q files h.1 k.1)

pub Agree-refl : (o : Dict String ℕ) (files : Dict String Bytes) → Agree o o files
Agree-refl o [] = tt
Agree-refl o (f ∷ files) = (refl, Agree-refl o files)
