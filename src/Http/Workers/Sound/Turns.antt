-- ===== src/Http/Workers/Sound/Turns.antt =====
-- The turns of the goroutines of a segmented transfer, each on its own segment
-- (backend/internal/protocol/http/segmented_downloader.go).
use downpeed_fluter.Base.{
  dec_lt, on_test, ltb_ℤ, ℕ, ◌+◌, ◌-◌, ◌≤◌, ◌<◌, ◌≡◌, ◌∙◌, ◌⊎◌, inl, inr, refl, sym, ap, subst,
  arith, true, false, List, [], ◌∷◌, length, Option, none, some, ◌==◌, pos, ℤ, ◌+64◌, pos_part,
  on_option, +64-pos, take,
}
use downpeed_fluter.Http.Segment.{File, write_at, take_bytes, written}
use downpeed_fluter.Http.Segment.Whole.{write_at-outside}
use downpeed_fluter.Http.Workers.{
  Worker, read_turn, after_read, Turn, reading, Read, reporting, TransferError,
}
use downpeed_fluter.Http.Workers.Sound.{
  Sound, Has, Sent, Serves, Sent-written, report-Sound, length-take-le,
}

module _ (resource : ℕ → ℕ) (file : File) (s e : ℕ) (w : Worker) (h : Sound resource file s e w)
    (idle : w.unreported ≡ pos 0) where
  -- The goroutine has received k bytes more, and told nobody.
  advanced :
      (k : ℕ) (got waiting : ℤ) (reads : List Read) (file' : File)
      → got ≡ pos (h.received + k)
      → waiting ≡ pos k
      → h.base + h.received + k ≤ e
      → Has resource file' s (h.base + h.received + k)
      → Serves resource (h.base + h.received + k) reads
      → Sound resource file' s e (record w { received = got; unreported = waiting; reads = reads })
  advanced k got waiting reads file' counts waits within has serves = record {
    completed = h.completed;
    unreported = k;
    base = h.base;
    received = h.received + k;
    order = h.order;
    starts = h.starts;
    ends = h.ends;
    completes = h.completes;
    waits = waits;
    based = h.based;
    asked = h.asked;
    receives = counts;
    balance = omega (arith, h.balance, ap pos_part (sym h.waits ∙ idle));
    within = omega (arith, within);
    has = λ i low high. has i low (omega arith);
    serves = subst (λ (n : ℕ). Serves resource n reads) (omega arith) serves;
  }

  -- What a turn is allowed to do.
  abbrev pub Turned : File × Worker → Type 0
  Turned (file', w') =
      Sound resource file' s e w' × ((i : ℕ) → (i < s) ⊎ (e ≤ i) → file' i ≡ file i)

  -- It stops without having received anything.
  stopped :
      (file' : File) (reads : List Read)
      → Has resource file' s (h.base + h.received)
      → Serves resource (h.base + h.received) reads
      → Sound resource file' s e (record w { reads = reads })
  stopped file' reads has serves =
      advanced 0 w.received w.unreported reads file' (h.receives ∙ ap pos (omega arith)) idle
        (omega (arith, h.within)) (λ i low high. has i low (omega arith))
        (subst (λ (n : ℕ). Serves resource n reads) (omega arith) serves)

  -- Writing at the goroutine's place touches nothing before it and nothing behind the segment.
  unchanged :
      (bytes : List ℕ) (i : ℕ)
      → h.base + h.received + length bytes ≤ e
      → (i < h.base + h.received) ⊎ (e ≤ i)
      → write_at (h.base + h.received) bytes file i ≡ file i
  unchanged bytes i within where_it_is =
      write_at-outside (h.base + h.received) bytes file i
        (elim where_it_is [ inl k ↦ inl k | inr k ↦ inr (omega arith) ])

  from_start : s ≤ h.base + h.received
  from_start = omega (arith, h.balance)

  place :
      h.base + h.received + 65536 < 9223372036854775808
      → pos_part (w.start +64 w.received) ≡ h.base + h.received
  place small =
      ap (λ x. pos_part (x +64 w.received)) h.based
      ∙ ap (λ x. pos_part (pos h.base +64 x)) h.receives
      ∙ ap pos_part (+64-pos h.base h.received (omega arith))

  kept_reads :
      (r : Read) (reads : List Read)
      → Serves resource (h.base + h.received + length r.bytes) reads
      → Serves resource
          (h.base + h.received + length r.bytes)
          (elim r.context_error [ some e ↦ [] | none ↦ reads ])
  kept_reads r reads serves =
      on_option (Serves resource (h.base + h.received + length r.bytes))
        (λ o. elim o [ some e ↦ [] | none ↦ reads ]) r.context_error serves (λ _ _. tt)

  none_read : (n : ℕ) → (n == 0) ≡ true → n ≡ 0
  none_read n k = ground arith

  written-Turned :
      (r : Read) (reads : List Read) (o : Option (ℕ × TransferError))
      → e + 65537 < 9223372036854775808
      → h.base + h.received + length r.bytes ≤ e
      → length r.bytes ≤ 65536
      → Sent resource (h.base + h.received) r.bytes
      → Serves resource (h.base + h.received + length r.bytes) reads
      → Turned (
          after_read r reads w
            (written w.start r (record { file = file; received = w.received }) o))
  written-Turned r reads (some (count, failure)) small fits few sent serves =
      subst
        (λ (place : ℕ). Turned (write_at place (take count r.bytes) file, record w { reads = [] }))
        (sym (place (omega (arith, h.within))))
        (
          stopped _ []
              (λ i low high.
                unchanged (take count r.bytes) i cut_fits (inl high) ∙ h.has i low high)
              tt,
          λ i outside.
              unchanged (take count r.bytes) i cut_fits
                (elim outside [ inl k ↦ inl (omega (arith, from_start)) | inr k ↦ inr k ]),
        )
    where
      cut_fits : h.base + h.received + length (take count r.bytes) ≤ e
      cut_fits = omega (arith, fits, length-take-le count r.bytes)
  written-Turned r reads none small fits few sent serves =
      subst
        (λ (place : ℕ). Turned (
          write_at place r.bytes file,
          record w {
            received = w.received +64 pos (length r.bytes);
            unreported = pos (length r.bytes);
            reads = elim r.context_error [ some e ↦ [] | none ↦ reads ];
          },
        ))
        (sym (place (omega (arith, h.within))))
        (
          advanced (length r.bytes) _ _ _ _
              (ap (λ x. x +64 pos (length r.bytes)) h.receives
                ∙ +64-pos h.received (length r.bytes) (omega (arith, fits)))
              refl fits
              (λ i low high. elim (dec_lt i (h.base + h.received)) [
                | yes k ↦ unchanged r.bytes i fits (inl k) ∙ h.has i low k
                | no k ↦
                    Sent-written resource (h.base + h.received) r.bytes file sent i (omega arith)
                      high
              ])
              (kept_reads r reads serves),
          λ i outside.
              unchanged r.bytes i fits
                (elim outside [ inl k ↦ inl (omega (arith, from_start)) | inr k ↦ inr k ]),
        )

  -- The limit of the segment holds back what would stand behind it.
  fitting :
      (n : ℕ)
      → e + 65537 < 9223372036854775808
      → n ≤ 65536
      → ltb_ℤ w.remaining (w.received +64 pos n) ≡ false
      → h.base + h.received + n ≤ e
  fitting n small few fits = bounded h.base h.received n h.within (
      ap (λ x. ltb_ℤ x (pos (h.received + n))) (sym h.asked)
      ∙ ap (λ x. ltb_ℤ w.remaining x)
          (sym (ap (λ x. x +64 pos n) h.receives ∙ +64-pos h.received n (omega (arith, h.within))))
      ∙ fits)
    where
      bounded : (b r n : ℕ) → b + r ≤ e → ltb_ℤ (pos (e - b)) (pos (r + n)) ≡ false → b + r + n ≤ e
      bounded b r n room k = ground arith

  read-Turned :
      (r : Read) (reads : List Read)
      → e + 65537 < 9223372036854775808
      → Serves resource (h.base + h.received) (r ∷ reads)
      → Turned (read_turn r reads file w)
  unfolding read_turn take_bytes
  read-Turned r reads small (sent, few, serves) =
      on_test (λ x. Turned (after_read r reads w x)) (length r.bytes == 0)
        (λ nothing. (
          advanced (length r.bytes) w.received _ _ file
              (h.receives ∙ ap pos (omega (arith, none_read (length r.bytes) nothing))) refl
              (omega (arith, h.within, none_read (length r.bytes) nothing))
              (λ i low high. h.has i low (omega (arith, none_read (length r.bytes) nothing)))
              (kept_reads r reads serves),
          λ i outside. refl,
        ))
        (λ _.
          on_test (λ x. Turned (after_read r reads w x))
            (ltb_ℤ w.remaining (w.received +64 pos (length r.bytes)))
            (λ _. (stopped file [] h.has tt, λ i outside. refl))
            (λ fits.
              on_option (λ x. Turned (after_read r reads w x))
                (λ o. elim o [
                  | some e ↦ (record { file = file; received = w.received }, some e)
                  | none ↦
                      written w.start r (record { file = file; received = w.received })
                        r.write_fails
                ])
                r.limited
                (written-Turned r reads r.write_fails small
                  (fitting (length r.bytes) small few fits) few sent serves)
                (λ e _. (stopped file [] h.has tt, λ i outside. refl))))

-- Any turn of a goroutine keeps what holds of it, and changes its segment's places only.
pub Turn-Sound :
    (resource : ℕ → ℕ) (s e : ℕ) {file : File} {w : Worker} {file' : File} {w' : Worker}
    → e + 65537 < 9223372036854775808
    → Turn file w file' w'
    → Sound resource file s e w
    → Sound resource file' s e w' × ((i : ℕ) → (i < s) ⊎ (e ≤ i) → file' i ≡ file i)
Turn-Sound resource s e {file} {w = w} small (reading r reads due idle) h =
    read-Turned resource file s e w h idle r reads small
      (subst (λ (l : List Read). Serves resource (h.base + h.received) l) due h.serves)
Turn-Sound resource s e {file} {w = w} small reporting h =
    (report-Sound resource file s e w small h, λ i outside. refl)
