-- ===== src/Frames/Scan.antt =====
-- Where the two loops of the allocator stop.
use operating_systems_cs.Base.{
  ℕ, zero, suc, ◌+◌, ◌-◌, ◌*◌, ◌≡◌, ◌<◌, ◌≤◌, Bool, true, false, ◌&&◌, ltb, arith, Bool-cases, inl,
  inr, ap, ◌∙◌, sym,
}
use native.Mathlib.Decide.{dec_lt, ℕ_discrete}
use operating_systems_cs.Frames.{bit_loop, word_full, scan_loop}

-- The first clear bit of a part of a word, or its end.
pub record StopsAt (bitmap : ℕ → Bool) (from to stop : ℕ) : Type 0 where
  pub start : from ≤ stop
  pub end : stop ≤ to
  pub full : (i : ℕ) → from ≤ i → i < stop → bitmap i ≡ true
  pub clear : stop < to → bitmap stop ≡ false

pub bit_loop-StopsAt :
    (n bit base : ℕ) (bitmap : ℕ → Bool)
    → StopsAt bitmap (base + bit) (base + bit + n) (base + bit_loop n bit base bitmap)
unfolding bit_loop
bit_loop-StopsAt zero bit base bitmap = record {
  start = omega arith;
  end = omega arith;
  full = λ i a b. absurd (omega arith);
  clear = λ a. absurd (omega arith);
}
bit_loop-StopsAt (suc n) bit base bitmap = elim (Bool-cases (bitmap (base + bit))) [
  | inl used ↦
      let ih = bit_loop-StopsAt n (bit + 1) base bitmap in
      rw used (record {
        start = omega (arith, ih.start);
        end = omega (arith, ih.end);
        full = λ i a b. elim (ℕ_discrete (base + bit) i) [
          | yes here ↦ ap bitmap (sym here) ∙ used
          | no later ↦ ih.full i (omega arith) b
        ];
        clear = λ a. ih.clear (omega arith);
      })
  | inr free ↦ rw free (record {
    start = omega arith;
    end = omega arith;
    full = λ i a b. absurd (omega arith);
    clear = λ a. free;
  })
]

-- A word that is not full has a clear bit.
pub word_stop :
    (bitmap : ℕ → Bool) (word : ℕ)
    → StopsAt bitmap (word * 32) (word * 32 + 32) (word * 32 + bit_loop 32 0 (word * 32) bitmap)
word_stop bitmap word = record {
  start = omega arith;
  end = omega (arith, s.end);
  full = λ i a b. s.full i (omega arith) b;
  clear = λ a. s.clear (omega arith);
}
  where
    s :
        StopsAt bitmap
          (word * 32 + 0)
          (word * 32 + 0 + 32)
          (word * 32 + bit_loop 32 0 (word * 32) bitmap)
    s = bit_loop-StopsAt 32 0 (word * 32) bitmap

-- The scan passes full words, and ends at a word that is not full or at the limit.
pub record Scanned (bitmap : ℕ → Bool) (pos limit stop : ℕ) : Type 0 where
  pub start : pos ≤ stop
  pub end : stop ≤ limit
  pub full : (i : ℕ) → pos * 32 ≤ i → i < stop * 32 → bitmap i ≡ true
  pub not_full : stop < limit → word_full bitmap stop ≡ false

pub scan_loop-Scanned :
    (fuel pos limit : ℕ) (bitmap : ℕ → Bool)
    → pos ≤ limit
    → limit - pos < fuel
    → Scanned bitmap pos limit (scan_loop fuel pos limit bitmap)
unfolding scan_loop
scan_loop-Scanned zero pos limit bitmap le enough = absurd (omega arith)
scan_loop-Scanned (suc fuel) pos limit bitmap le enough =
    elim (Bool-cases (word_full bitmap pos && ltb pos limit)) [
      | inl more ↦
          let ih = scan_loop-Scanned fuel (pos + 1) limit bitmap (ground arith) (ground arith) in
          let word = word_stop bitmap pos in
          let whole : bit_loop 32 0 (pos * 32) bitmap ≡ 32 = ground arith in
          rw more (record {
            start = omega (arith, ih.start);
            end = ih.end;
            full = λ i a b. elim (dec_lt i (pos * 32 + 32)) [
              | yes here ↦ word.full i a (omega (arith, whole))
              | no later ↦ ih.full i (omega arith) b
            ];
            not_full = ih.not_full;
          })
      | inr stops ↦ rw stops (record {
        start = omega arith;
        end = le;
        full = λ i a b. absurd (omega arith);
        not_full = λ lt. ground arith;
      })
    ]
