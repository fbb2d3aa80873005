-- ===== src/Http/Workers/Sound.antt =====
-- What holds of each goroutine of a segmented transfer whenever another may take its turn
-- (backend/internal/protocol/http/segmented_downloader.go).
pub mod Turns
use downpeed_fluter.Base.{
  dec_lt, on_test, ltb_ℤ, ℕ, suc, ◌+◌, ◌-◌, ◌≤◌, ◌<◌, ◌≡◌, ◌∙◌, ◌⊎◌, inl, inr, refl, sym, ap, subst,
  arith, true, false, List, [], ◌∷◌, length, Option, none, some, if◌then◌else◌, ◌==◌, pos, ℤ, ◌+64◌,
  +64-pos, pos_part, take, on_option,
}
use downpeed_fluter.Http.Segment.{File, write_at, put, take_bytes, written}
use downpeed_fluter.Http.Segment.Whole.{write_at-outside}
use downpeed_fluter.Http.Workers.{
  Worker, read_turn, report_turn, after_read, Turn, Read, TransferError, reading, reporting,
}
use downpeed_fluter.Http.Segment.Exact.{length-take-le}

-- The bytes are those of the file on the server from a place on.
abbrev pub Sent : (ℕ → ℕ) → ℕ → List ℕ → Type 0
Sent resource at [] = Unit {0}
Sent resource at (b ∷ bytes) = (b ≡ resource at) × Sent resource (suc at) bytes

-- So are those of a sequence of calls of Read, with a buffer of 64 KiB.
abbrev pub Serves : (ℕ → ℕ) → ℕ → List Read → Type 0
Serves resource at [] = Unit {0}
Serves resource at (r ∷ reads) =
    Sent resource at r.bytes
    × (length r.bytes ≤ 65536)
    × Serves resource (at + length r.bytes) reads

-- The file has the server's bytes from place `from` up to place `to`.
abbrev pub Has : (ℕ → ℕ) → File → ℕ → ℕ → Type 0
Has resource file from to = (i : ℕ) → from ≤ i → i < to → file i ≡ resource i

-- A goroutine whose segment goes from place s up to place e.
pub record Sound (resource : ℕ → ℕ) (file : File) (s e : ℕ) (w : Worker) : Type 0 where
  pub completed : ℕ
  pub unreported : ℕ
  pub base : ℕ
  pub received : ℕ
  pub order : s < e
  pub starts : w.segment.start ≡ pos s
  pub ends : w.segment.end ≡ pos (e - 1)
  pub completes : w.segment.completed ≡ pos completed
  pub waits : w.unreported ≡ pos unreported
  pub based : w.start ≡ pos base
  pub asked : w.remaining ≡ pos (e - base)
  pub receives : w.received ≡ pos received
  pub balance : base + received ≡ s + completed + unreported
  pub within : base + received ≤ e
  pub has : Has resource file s (base + received)
  pub serves : Serves resource (base + received) w.reads

pub Sent-written :
    (resource : ℕ → ℕ) (at : ℕ) (bytes : List ℕ) (file : File)
    → Sent resource at bytes
    → Has resource (write_at at bytes file) at (at + length bytes)
unfolding write_at
Sent-written resource at [] file h i low high = absurd (omega arith)
Sent-written resource at (b ∷ bytes) file (same, h) i low high = elim (dec_lt at i) [
  | yes k ↦ Sent-written resource (suc at) bytes (put at b file) h i k (omega arith)
  | no k ↦
      write_at-outside (suc at) bytes (put at b file) i (inl (omega arith))
      ∙ ap (λ t. if t then b else file i) (there at i low k)
      ∙ same
      ∙ ap resource (omega arith)
]
  where
    there : (at i : ℕ) → at ≤ i → ¬ (at < i) → (i == at) ≡ true
    there at i low k = ground arith

pub Sound-elsewhere :
    (resource : ℕ → ℕ) (file file' : File) (s e : ℕ) (w : Worker)
    → ((i : ℕ) → s ≤ i → i < e → file' i ≡ file i)
    → Sound resource file s e w
    → Sound resource file' s e w
Sound-elsewhere resource file file' s e w same h = record {
  completed = h.completed;
  unreported = h.unreported;
  base = h.base;
  received = h.received;
  order = h.order;
  starts = h.starts;
  ends = h.ends;
  completes = h.completes;
  waits = h.waits;
  based = h.based;
  asked = h.asked;
  receives = h.receives;
  balance = h.balance;
  within = h.within;
  has = λ i low high. same i low (omega (arith, h.within)) ∙ h.has i low high;
  serves = h.serves;
}

pub report-Sound :
    (resource : ℕ → ℕ) (file : File) (s e : ℕ) (w : Worker)
    → e + 65537 < 9223372036854775808
    → Sound resource file s e w
    → Sound resource file s e (report_turn w)
unfolding report_turn
report-Sound resource file s e w small h = record {
  completed = h.completed + h.unreported;
  unreported = 0;
  base = h.base;
  received = h.received;
  order = h.order;
  starts = h.starts;
  ends = h.ends;
  completes =
      ap (λ x. x +64 w.unreported) h.completes
      ∙ ap (λ x. pos h.completed +64 x) h.waits
      ∙ +64-pos h.completed h.unreported (omega (arith, h.balance, h.within));
  waits = refl;
  based = h.based;
  asked = h.asked;
  receives = h.receives;
  balance = omega (arith, h.balance);
  within = h.within;
  has = h.has;
  serves = h.serves;
}
