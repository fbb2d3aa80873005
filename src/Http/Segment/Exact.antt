-- ===== src/Http/Segment/Exact.antt =====
-- What downloadSegment writes (backend/internal/protocol/http/segmented_downloader.go).
use downpeed_fluter.Base.{
  on_test, All, ltb_ℤ, length-append, ℕ, zero, suc, ◌+◌, ◌≤◌, ◌<◌, ◌≡◌, ◌∙◌, sym, ap, subst, arith,
  true, false, List, [], ◌∷◌, ◌++◌, length, Option, none, some, ◌==◌, pos, take, pos_part, ◌+64◌,
  +64-pos, on_option,
}
use mathlib.Core.List.{append-nil, append_assoc}
use downpeed_fluter.Http.Segment.{
  File, write_at, Progress, Read, take_bytes, put, TransferError, written, or_else, read_loop,
}

write_at-append :
    (at : ℕ) (b c : List ℕ) (file : File)
    → write_at at (b ++ c) file ≡ write_at (at + length b) c (write_at at b file)
unfolding write_at
write_at-append at [] c file = ap (λ n. write_at n c file) (omega arith)
write_at-append at (x ∷ b) c file =
    write_at-append (suc at) b c (put at x file)
    ∙ ap (λ n. write_at n c (write_at (suc at) b (put at x file))) (omega arith)

pub length-take-le : (n : ℕ) (xs : List ℕ) → length (take n xs) ≤ length xs
length-take-le zero xs = omega arith
length-take-le (suc n) [] = omega arith
length-take-le (suc n) (x ∷ xs) = omega (arith, length-take-le n xs)

-- The bytes of a body.
abbrev pub body_of : List Read → Read → List ℕ
body_of [] last = last.bytes
body_of (r ∷ reads) last = r.bytes ++ body_of reads last

-- The buffer holds 64 KiB.
abbrev pub Fits : Read → Type 0
Fits r = length r.bytes ≤ 65536

pub added_nothing : (b c : List ℕ) → (length c == 0) ≡ true → b ≡ b ++ c
added_nothing b [] h = sym (append-nil b)
added_nothing b (x ∷ c) h = absurd (ground arith)

not_past : (n k : ℕ) → ltb_ℤ (pos n) (pos k) ≡ false → k ≤ n
not_past n k h = ground arith

module _ (s n : ℕ) (file : File) (small : s + n + 65536 < 9223372036854775808) where
  -- The bytes so far stand in the file from the segment's start on, and nothing else was written.
  pub record Holds (b : List ℕ) (p : Progress) : Type 0 where
    pub writes : p.file ≡ write_at s b file
    pub counts : p.received ≡ pos (length b)
    pub within : length b ≤ n

  -- All that was written lies within the segment.
  abbrev pub Within : Progress → Type 0
  Within p = (b : List ℕ) × (p.file ≡ write_at s b file) × (length b ≤ n)

  Took : List ℕ → Progress × Option TransferError → Type 0
  Took b (p, none) = Holds b p
  Took b (p, some e) = Within p

  place : (b : List ℕ) (p : Progress) → Holds b p → pos_part (pos s +64 p.received) ≡ s + length b
  place b p h =
      ap (λ x. pos_part (pos s +64 x)) h.counts
      ∙ ap pos_part (+64-pos s (length b) (omega (arith, h.within)))

  counted :
      (b : List ℕ) (p : Progress) (k : ℕ)
      → Holds b p
      → k ≤ 65536
      → p.received +64 pos k ≡ pos (length b + k)
  counted b p k h few =
      ap (λ x. x +64 pos k) h.counts ∙ +64-pos (length b) k (omega (arith, h.within))

  continued :
      (b c : List ℕ) (p : Progress)
      → Holds b p
      → write_at (pos_part (pos s +64 p.received)) c p.file ≡ write_at s (b ++ c) file
  continued b c p h =
      ap (λ at. write_at at c p.file) (place b p h)
      ∙ ap (write_at (s + length b) c) h.writes
      ∙ sym (write_at-append s b c file)

  written-Took :
      (b : List ℕ) (r : Read) (p : Progress) (o : Option (ℕ × TransferError))
      → Holds b p
      → Fits r
      → length b + length r.bytes ≤ n
      → Took (b ++ r.bytes) (written (pos s) r p o)
  unfolding Took
  written-Took b r p (some (count, e)) h few fits = (
    b ++ take count r.bytes,
    continued b (take count r.bytes) p h,
    omega (arith, length-append b (take count r.bytes), length-take-le count r.bytes),
  )
  written-Took b r p none h few fits = record {
    writes = continued b r.bytes p h;
    counts = counted b p (length r.bytes) h few ∙ ap pos (sym (length-append b r.bytes));
    within = omega (arith, length-append b r.bytes);
  }

  take_bytes-Took :
      (b : List ℕ) (r : Read) (p : Progress)
      → Holds b p
      → Fits r
      → Took (b ++ r.bytes) (take_bytes (pos s) (pos n) r p)
  unfolding take_bytes Took
  take_bytes-Took b r p h few =
      on_test (Took (b ++ r.bytes)) (length r.bytes == 0)
        (λ nothing. record {
          writes = h.writes ∙ ap (λ c. write_at s c file) (added_nothing b r.bytes nothing);
          counts = h.counts ∙ ap (λ c. pos (length c)) (added_nothing b r.bytes nothing);
          within = subst (λ (c : List ℕ). length c ≤ n) (added_nothing b r.bytes nothing) h.within;
        })
        (λ _.
          on_test (Took (b ++ r.bytes)) (ltb_ℤ (pos n) (p.received +64 pos (length r.bytes)))
            (λ _. (b, h.writes, h.within))
            (λ fits.
              on_option (Took (b ++ r.bytes))
                (λ o. elim o [ some e ↦ (p, some e) | none ↦ written (pos s) r p r.write_fails ])
                r.limited
                (written-Took b r p r.write_fails h few (
                  not_past n _
                    (ap (λ x. ltb_ℤ (pos n) x) (sym (counted b p (length r.bytes) h few)) ∙ fits)))
                (λ e _. (b, h.writes, h.within))))

  abbrev pub Looped : List ℕ → Progress × Option TransferError → Type 0
  Looped body (p, none) = Holds body p
  Looped body (p, some e) = Within p

  last_step :
      (body : List ℕ) (read_error : Option TransferError) (x : Progress × Option TransferError)
      → Took body x
      → Looped body (x.0, or_else x.1 read_error)
  unfolding Took
  last_step body none (p, none) h = h
  last_step body (some e) (p, none) h = (body, h.writes, h.within)
  last_step body o (p, some e) h = h

  next_step :
      (b body : List ℕ) (context_error : Option TransferError) (x : Progress × Option TransferError)
      (rest : Progress → Progress × Option TransferError)
      → Took b x
      → ((p : Progress) → Holds b p → Looped body (rest p))
      → Looped body (elim (or_else x.1 context_error) [ some e ↦ (x.0, some e) | none ↦ rest x.0 ])
  unfolding Took
  next_step b body none (p, none) rest h later = later p h
  next_step b body (some e) (p, none) rest h later = (b, h.writes, h.within)
  next_step b body o (p, some e) rest h later = h

  pub loop-Looped :
      (b : List ℕ) (reads : List Read) (last : Read) (read_error : Option TransferError)
      (p : Progress)
      → Holds b p
      → All Fits reads
      → Fits last
      → Looped (b ++ body_of reads last) (read_loop (pos s) (pos n) reads last read_error p)
  unfolding read_loop
  loop-Looped b [] last read_error p h few few' =
      last_step (b ++ last.bytes) read_error (take_bytes (pos s) (pos n) last p)
        (take_bytes-Took b last p h few')
  loop-Looped b (r ∷ reads) last read_error p h (few, fews) few' =
      next_step (b ++ r.bytes) (b ++ (r.bytes ++ body_of reads last)) r.context_error
        (take_bytes (pos s) (pos n) r p) (read_loop (pos s) (pos n) reads last read_error)
        (take_bytes-Took b r p h few)
        (λ q k.
          subst (λ (c : List ℕ). Looped c (read_loop (pos s) (pos n) reads last read_error q))
            (append_assoc b r.bytes (body_of reads last))
            (loop-Looped (b ++ r.bytes) reads last read_error q k fews few'))
