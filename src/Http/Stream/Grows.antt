-- ===== src/Http/Stream/Grows.antt =====
-- What the loop over the body appends (backend/internal/protocol/http/downloader.go).
use downpeed_fluter.Base.{
  on_test, length-append, ℕ, ◌<◌, ◌≡◌, ◌∙◌, sym, ap, subst, arith, List, [], ◌∷◌, ◌++◌, length,
  Option, none, some, ◌==◌, pos, ◌+64◌, +64-pos, take, on_option,
}
use mathlib.Core.List.{append_assoc}
use downpeed_fluter.Http.Stream.{Stream, append_bytes, stream_loop, or_else, Read, appended}
use downpeed_fluter.Errors.{TransferError}
use downpeed_fluter.Http.Segment.Exact.{body_of, added_nothing}

module _ (before : List ℕ) where
  -- The bytes so far stand behind those that were there before.
  pub record Grows (b : List ℕ) (s : Stream) : Type 0 where
    pub holds : s.bytes ≡ before ++ b
    pub counts : s.downloaded ≡ pos (length (before ++ b))

  abbrev pub Extends : Stream → Type 0
  Extends s = (part : List ℕ) × (s.bytes ≡ before ++ part)

  abbrev pub Grown : List ℕ → Stream × Option TransferError → Type 0
  Grown b (s, none) = Grows b s
  Grown b (s, some e) = Extends s

  longer :
      (b c : List ℕ) (s : Stream)
      → Grows b s
      → length (before ++ (b ++ c)) < 9223372036854775808
      → s.downloaded +64 pos (length c) ≡ pos (length (before ++ (b ++ c)))
  longer b c s g small =
      ap (λ x. x +64 pos (length c)) g.counts
      ∙ +64-pos (length (before ++ b)) (length c)
          (omega (arith, length-append before (b ++ c), length-append before b, length-append b c))
      ∙ ap pos
          (omega (arith, length-append before (b ++ c), length-append before b, length-append b c))

  appended-Grown :
      (b : List ℕ) (r : Read) (s : Stream) (o : Option (ℕ × TransferError))
      → Grows b s
      → length (before ++ (b ++ r.bytes)) < 9223372036854775808
      → Grown (b ++ r.bytes) (appended r s o)
  appended-Grown b r s (some (count, e)) g small = (
    b ++ take count r.bytes,
    ap (λ x. x ++ take count r.bytes) g.holds ∙ append_assoc before b (take count r.bytes),
  )
  appended-Grown b r s none g small = record {
    holds = ap (λ x. x ++ r.bytes) g.holds ∙ append_assoc before b r.bytes;
    counts = longer b r.bytes s g small;
  }

  append_bytes-Grown :
      (b : List ℕ) (r : Read) (s : Stream)
      → Grows b s
      → length (before ++ (b ++ r.bytes)) < 9223372036854775808
      → Grown (b ++ r.bytes) (append_bytes r s)
  unfolding append_bytes
  append_bytes-Grown b r s g small =
      on_test (Grown (b ++ r.bytes)) (length r.bytes == 0)
        (λ nothing. record {
          holds = g.holds ∙ ap (λ c. before ++ c) (added_nothing b r.bytes nothing);
          counts =
              g.counts ∙ ap (λ c. pos (length (before ++ c))) (added_nothing b r.bytes nothing);
        })
        (λ _.
          on_option (Grown (b ++ r.bytes))
            (λ o. elim o [ some e ↦ (s, some e) | none ↦ appended r s r.write_fails ]) r.limited
            (appended-Grown b r s r.write_fails g small) (λ e _. (b, g.holds)))

  Grown-last :
      (body : List ℕ) (read_error : Option TransferError) (x : Stream × Option TransferError)
      → Grown body x
      → Grown body (x.0, or_else x.1 read_error)
  Grown-last body none (s, none) g = g
  Grown-last body (some e) (s, none) g = (body, g.holds)
  Grown-last body o (s, some e) g = g

  Grown-next :
      (b body : List ℕ) (context_error : Option TransferError) (x : Stream × Option TransferError)
      (rest : Stream → Stream × Option TransferError)
      → Grown b x
      → ((s : Stream) → Grows b s → Grown body (rest s))
      → Grown body (elim (or_else x.1 context_error) [ some e ↦ (x.0, some e) | none ↦ rest x.0 ])
  Grown-next b body none (s, none) rest g later = later s g
  Grown-next b body (some e) (s, none) rest g later = (b, g.holds)
  Grown-next b body o (s, some e) rest g later = g

  pub stream_loop-Grown :
      (b : List ℕ) (reads : List Read) (last : Read) (read_error : Option TransferError)
      (s : Stream)
      → Grows b s
      → length (before ++ (b ++ body_of reads last)) < 9223372036854775808
      → Grown (b ++ body_of reads last) (stream_loop reads last read_error s)
  unfolding stream_loop
  stream_loop-Grown b [] last read_error s g small =
      Grown-last (b ++ last.bytes) read_error (append_bytes last s)
        (append_bytes-Grown b last s g small)
  stream_loop-Grown b (r ∷ reads) last read_error s g small =
      Grown-next (b ++ r.bytes) (b ++ (r.bytes ++ body_of reads last)) r.context_error
        (append_bytes r s) (stream_loop reads last read_error)
        (append_bytes-Grown b r s g (shorter b r.bytes (body_of reads last) small))
        (λ q k.
          subst (λ (c : List ℕ). Grown c (stream_loop reads last read_error q))
            (append_assoc b r.bytes (body_of reads last))
            (stream_loop-Grown (b ++ r.bytes) reads last read_error q k (
              subst (λ (c : List ℕ). length (before ++ c) < 9223372036854775808)
                (sym (append_assoc b r.bytes (body_of reads last))) small)))
    where
      shorter :
          (b c d : List ℕ)
          → length (before ++ (b ++ (c ++ d))) < 9223372036854775808
          → length (before ++ (b ++ c)) < 9223372036854775808
      shorter b c d h = omega (
        arith,
        length-append before (b ++ (c ++ d)),
        length-append before (b ++ c),
        length-append b (c ++ d),
        length-append b c,
        length-append c d,
      )
