-- ===== src/Http/Workers/Resumable.antt =====
-- Whenever a segmented transfer is stopped, its checkpoint can be resumed
-- (backend/internal/protocol/http/segmented_downloader.go).
use downpeed_fluter.Base.{
  dec_lt, on_test, All, map, eqb_ℤ, ℕ, suc, ◌+◌, ◌-◌, ◌≤◌, ◌<◌, ◌≡◌, ◌∙◌, ◌⊎◌, inl, inr, refl, sym,
  ap, subst, arith, List, [], ◌∷◌, pos, pos_part, +64-pos, ◌-64◌, ◌+64◌, -64-pos,
}
use downpeed_fluter.Checkpoint.{SegmentProgress}
use downpeed_fluter.Checkpoint.Layout.{Tiles, Tiles-le}
use downpeed_fluter.Http.Segment.{File, segment_remaining}
use downpeed_fluter.Http.Workers.{Worker, Step, Reach, launch, Read, first, next, later, start}
use downpeed_fluter.Http.Workers.Sound.Turns.{Turn-Sound}
use downpeed_fluter.Http.Workers.Sound.{Sound, Has, Serves, Sound-elsewhere}

before_first : (b : ℕ) → suc b < 9223372036854775808 → (pos b -64 pos (suc b)) +64 pos 1 ≡ pos 0
unfolding ◌-64◌ ◌+64◌
before_first b small = ground arith

left_over :
    (from b : ℕ)
    → from ≤ suc b
    → suc b < 9223372036854775808
    → (pos b -64 pos from) +64 pos 1 ≡ pos (suc b - from)
left_over from b fits small = elim (dec_lt b from) [
  | yes k ↦
      ap (λ n. (pos b -64 pos n) +64 pos 1) (omega arith)
      ∙ before_first b small
      ∙ ap pos (omega arith)
  | no k ↦
      ap (λ x. x +64 pos 1) (-64-pos b from (omega arith) (omega arith))
      ∙ +64-pos (b - from) 1 (omega arith)
      ∙ ap pos (omega arith)
]

module _ (resource : ℕ → ℕ) where
  -- The goroutines' segments follow one another from place s up to place t.
  abbrev pub Tiled : File → ℕ → ℕ → List Worker → Type 0
  Tiled file s t [] = s ≡ t
  Tiled file s t (w ∷ ws) = (e : ℕ) × Sound resource file s e w × Tiled file e t ws

  Tiled-le : (file : File) (s t : ℕ) (ws : List Worker) → Tiled file s t ws → s ≤ t
  Tiled-le file s t [] h = omega arith
  Tiled-le file s t (w ∷ ws) (e, h, rest) = omega (arith, h.order, Tiled-le file e t ws rest)

  Tiled-elsewhere :
      (file file' : File) (s t : ℕ) (ws : List Worker)
      → ((i : ℕ) → s ≤ i → i < t → file' i ≡ file i)
      → Tiled file s t ws
      → Tiled file' s t ws
  Tiled-elsewhere file file' s t [] same h = h
  Tiled-elsewhere file file' s t (w ∷ ws) same (e, h, rest) = (
    e,
    Sound-elsewhere resource file file' s e w
        (λ i low high. same i low (omega (arith, Tiled-le file e t ws rest))) h,
    Tiled-elsewhere file file' e t ws (λ i low high. same i (omega (arith, h.order)) high) rest,
  )

  Step-Tiled :
      (s t : ℕ) {file : File} {ws : List Worker} {file' : File} {ws' : List Worker}
      → t + 65537 < 9223372036854775808
      → Step file ws file' ws'
      → Tiled file s t ws
      → Tiled file' s t ws' × ((i : ℕ) → (i < s) ⊎ (t ≤ i) → file' i ≡ file i)
  Step-Tiled s t {file} {file' = file'} small (first ws turn) (e, h, rest) =
      let (h', outside) =
        Turn-Sound resource s e (omega (arith, Tiled-le file e t ws rest)) turn h in
      (
        (e, h', Tiled-elsewhere file file' e t ws (λ i low high. outside i (inr low)) rest),
        λ i away.
            outside i (elim away [
              | inl k ↦ inl k
              | inr k ↦ inr (omega (arith, Tiled-le file e t ws rest))
            ]),
      )
  Step-Tiled s t {file} {file' = file'} small (later {ws = ws} w step) (e, h, rest) =
      let (rest', outside) = Step-Tiled e t small step rest in
      (
        (
          e,
          Sound-elsewhere resource file file' s e w (λ i low high. outside i (inl high)) h,
          rest',
        ),
        λ i away. outside i (elim away [ inl k ↦ inl (omega (arith, h.order)) | inr k ↦ inr k ]),
      )

  pub Reach-Tiled :
      (t : ℕ) {file : File} {ws : List Worker} {file' : File} {ws' : List Worker}
      → t + 65537 < 9223372036854775808
      → Reach file ws file' ws'
      → Tiled file 0 t ws
      → Tiled file' 0 t ws'
  Reach-Tiled t small start h = h
  Reach-Tiled t small (next reach step) h =
      (Step-Tiled 0 t small step (Reach-Tiled t small reach h)).0

  -- The file has the bytes that the segment counts.
  abbrev pub Kept : File → SegmentProgress → Type 0
  Kept file segment =
      Has resource file (pos_part segment.start)
        (pos_part segment.start + pos_part segment.completed)

  -- Where the segment goes on, what is read is what the server has there.
  abbrev pub Honest : (SegmentProgress → List Read) → SegmentProgress → Type 0
  Honest reads segment =
      Serves resource (pos_part segment.start + pos_part segment.completed) (reads segment)

  launch-Sound :
      (reads : SegmentProgress → List Read) (file : File) (s b c : ℕ)
      → s ≤ b
      → s + c ≤ suc b
      → b + 65538 < 9223372036854775808
      → Kept file (record { start = pos s; end = pos b; completed = pos c })
      → Honest reads (record { start = pos s; end = pos b; completed = pos c })
      → Sound resource file s
          (suc b)
          (launch reads (record { start = pos s; end = pos b; completed = pos c }))
  unfolding launch segment_remaining
  launch-Sound reads file s b c order fits small kept honest = record {
    completed = c;
    unreported = 0;
    base = s + c;
    received = 0;
    order = omega arith;
    starts = refl;
    ends = ap pos (omega arith);
    completes = refl;
    waits = refl;
    based = +64-pos s c (omega arith);
    asked =
        ap (λ x. (pos b -64 x) +64 pos 1) (+64-pos s c (omega arith))
        ∙ left_over (s + c) b fits (omega arith);
    receives = refl;
    balance = omega arith;
    within = omega arith;
    has = λ i low high. kept i low (omega arith);
    serves =
        on_test (Serves resource (s + c + 0)) (eqb_ℤ (pos c) ((pos b -64 pos s) +64 pos 1))
          (λ _. tt)
          (λ _.
            subst
              (λ (n : ℕ).
                Serves resource n
                  (reads (record { start = pos s; end = pos b; completed = pos c })))
              (omega arith) honest);
  }

  pub launched-Tiled :
      (reads : SegmentProgress → List Read) (file : File) (a t : ℕ)
      (segments : List SegmentProgress)
      → t + 65537 < 9223372036854775808
      → Tiles a t segments
      → All (Kept file) segments
      → All (Honest reads) segments
      → Tiled file a t (map (launch reads) segments)
  launched-Tiled reads file a t [] small tiles kept honest = tiles
  launched-Tiled reads file a t (segment ∷ segments) small (b, c, same, order, fits, tiles)
        (kept, all_kept) (honest, all_honest) =
      (
        suc b,
        subst (λ (x : SegmentProgress). Sound resource file a (suc b) (launch reads x)) (sym same)
            (launch-Sound reads file a b c order fits
              (omega (arith, Tiles-le (suc b) t segments tiles)) (subst (Kept file) same kept)
              (subst (Honest reads) same honest)),
        launched-Tiled reads file (suc b) t segments small tiles all_kept all_honest,
      )

  pub Tiled-Tiles :
      (file : File) (s t : ℕ) (ws : List Worker)
      → Tiled file s t ws
      → Tiles s t (map (λ w. w.segment) ws)
  Tiled-Tiles file s t [] h = h
  Tiled-Tiles file s t (w ∷ ws) (e, h, rest) = (
    e - 1,
    h.completed,
    ap (λ x. record { start = x; end = w.segment.end; completed = w.segment.completed }) h.starts
        ∙ ap (λ x. record { start = pos s; end = x; completed = w.segment.completed }) h.ends
        ∙ ap (λ x. record { start = pos s; end = pos (e - 1); completed = x }) h.completes,
    omega (arith, h.order),
    omega (arith, h.order, h.balance, h.within),
    subst (λ (n : ℕ). Tiles n t (map (λ w. w.segment) ws)) (omega (arith, h.order))
        (Tiled-Tiles file e t ws rest),
  )

  pub Tiled-Kept :
      (file : File) (s t : ℕ) (ws : List Worker)
      → Tiled file s t ws
      → All (Kept file) (map (λ w. w.segment) ws)
  Tiled-Kept file s t [] h = tt
  Tiled-Kept file s t (w ∷ ws) (e, h, rest) = (
    (λ i low high.
        h.has i (omega (arith, ap pos_part h.starts, low))
          (omega (arith, ap pos_part h.starts, ap pos_part h.completes, h.balance, high))),
    Tiled-Kept file e t ws rest,
  )
