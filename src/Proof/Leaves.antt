-- ===== src/Proof/Leaves.antt =====
-- The leaves of the Merkle tree.
use frost_substrate.Prelude.{
  drop-append_of_le, take-append_of_le, drop_all, take_all, ℕ, zero, suc, ◌+◌, ◌-◌, ◌/◌, ◌%◌, ◌≤◌,
  ◌<◌, ◌≡◌, ◌≢◌, refl, ap, ◌∙◌, sym, List, [], ◌∷◌, ◌++◌, Bytes, All, length, take, drop, replicate,
  length-append, length-take, length-drop, length-replicate, take-append-drop, take-append,
  append_assoc, append-nil, arith,
}
use mathlib.Core.Path.{ap₂}
use native.Mathlib.Decide.{dec_lt}
use frost_substrate.Proof.Merkle.{pad, leaves_from, merkle_leaves}

abbrev pub joined : List Bytes → Bytes
joined [] = []
joined (c ∷ rest) = c ++ joined rest

length-pad : (c : Bytes) → length c ≤ 32 → length (pad c) ≡ 32
length-pad c h = omega (
  arith,
  length-append c (replicate (32 - length c) 0),
  length-replicate {A = ℕ} (32 - length c) 0,
)

leaves_from-All : (fuel : ℕ) (bytes : Bytes) → All (λ c. length c ≡ 32) (leaves_from fuel bytes)
unfolding leaves_from
leaves_from-All zero bytes = tt
leaves_from-All (suc fuel) [] = tt
leaves_from-All (suc fuel) (b ∷ bytes) = (
  length-pad (take 32 (b ∷ bytes)) (omega (arith, length-take 32 (b ∷ bytes))),
  leaves_from-All fuel (drop 32 (b ∷ bytes)),
)

length-leaves_from :
    (fuel : ℕ) (bytes : Bytes)
    → length bytes ≤ fuel
    → length (leaves_from fuel bytes) ≡ (length bytes + 31) / 32
unfolding leaves_from
length-leaves_from zero [] h = omega arith
length-leaves_from zero (b ∷ bytes) h = absurd (omega arith)
length-leaves_from (suc fuel) [] h = omega arith
length-leaves_from (suc fuel) (b ∷ bytes) h = omega (
  arith,
  length-drop 32 (b ∷ bytes),
  length-leaves_from fuel (drop 32 (b ∷ bytes)) (omega (arith, length-drop 32 (b ∷ bytes))),
)

-- There are as many leaves as blocks of 32 bytes are begun, and each leaf has 32 bytes.
pub merkle_leaves_shape :
    (bytes : Bytes)
    → (length (merkle_leaves bytes) ≡ (length bytes + 31) / 32)
      × All (λ c. length c ≡ 32) (merkle_leaves bytes)
merkle_leaves_shape bytes =
    (length-leaves_from (length bytes) bytes (omega arith), leaves_from-All (length bytes) bytes)

leaves_from_nil : (fuel : ℕ) → leaves_from fuel [] ≡ []
unfolding leaves_from
leaves_from_nil zero = refl
leaves_from_nil (suc fuel) = refl

-- A whole block is not padded.
pad_full : (c : Bytes) → length c ≡ 32 → pad c ≡ c
pad_full c h = rw h (append-nil c)

joined-leaves_from :
    (fuel : ℕ) (bytes : Bytes)
    → length bytes ≤ fuel
    → (k : ℕ) × (joined (leaves_from fuel bytes) ≡ bytes ++ replicate k 0)
unfolding leaves_from
joined-leaves_from zero [] h = (0, refl)
joined-leaves_from zero (b ∷ bytes) h = absurd (omega arith)
joined-leaves_from (suc fuel) [] h = (0, refl)
joined-leaves_from (suc fuel) (b ∷ bytes) h =
    let all : Bytes = b ∷ bytes in
    elim (dec_lt 32 (length all)) [
      | yes many ↦
          let (k, e) = joined-leaves_from fuel (drop 32 all) (omega (arith, length-drop 32 all)) in
          (
            k,
            ap₂ ◌++◌ (pad_full (take 32 all) (omega (arith, length-take 32 all))) e
                ∙ sym (append_assoc (take 32 all) (drop 32 all) (replicate k 0))
                ∙ ap (λ l. l ++ replicate k 0) (take-append-drop 32 all),
          )
      | no few ↦
          let short : length all ≤ 32 = omega arith in
          (
            32 - length all,
            ap₂ (λ c l. pad c ++ joined (leaves_from fuel l)) (take_all 32 all short)
                  (drop_all 32 all short)
                ∙ ap (λ l. pad all ++ joined l) (leaves_from_nil fuel)
                ∙ append-nil (pad all),
          )
    ]

-- No byte is lost: the leaves one after another begin with the bytes.
pub take-merkle_leaves :
    (bytes : Bytes) → take (length bytes) (joined (merkle_leaves bytes)) ≡ bytes
take-merkle_leaves bytes =
    let (k, e) = joined-leaves_from (length bytes) bytes (omega arith) in
    rw e (take-append bytes (replicate k 0))

pad_zero : (c : Bytes) → length c < 32 → pad (c ++ 0 ∷ []) ≡ pad c
pad_zero c h =
    let rest : 32 - length c ≡ suc (32 - length (c ++ 0 ∷ [])) =
      omega (arith, length-append c (0 ∷ [])) in
    rw (rest) (append_assoc c (0 ∷ []) (replicate (32 - length (c ++ 0 ∷ [])) 0))

leaves_from_zero :
    (fuel fuel' : ℕ) (bytes : Bytes)
    → length bytes ≤ fuel
    → length bytes < fuel'
    → length bytes % 32 ≢ 0
    → leaves_from fuel' (bytes ++ 0 ∷ []) ≡ leaves_from fuel bytes
unfolding leaves_from
leaves_from_zero fuel fuel' [] h h' m = absurd (m refl)
leaves_from_zero zero fuel' (b ∷ bytes) h h' m = absurd (omega arith)
leaves_from_zero (suc fuel) zero (b ∷ bytes) h h' m = absurd (omega arith)
leaves_from_zero (suc fuel) (suc fuel') (b ∷ bytes) h h' m =
    let all : Bytes = b ∷ bytes in
    elim (dec_lt (length all) 32) [
      | yes few ↦
          let short : length all ≤ 32 = omega arith in
          let short' : length (all ++ 0 ∷ []) ≤ 32 = omega (arith, length-append all (0 ∷ [])) in
          ap₂ (λ c l. pad c ∷ leaves_from fuel' l) (take_all 32 (all ++ 0 ∷ []) short')
            (drop_all 32 (all ++ 0 ∷ []) short')
          ∙ ap₂ ◌∷◌ (pad_zero all few) (leaves_from_nil fuel' ∙ sym (leaves_from_nil fuel))
          ∙ sym (
              ap₂ (λ c l. pad c ∷ leaves_from fuel l) (take_all 32 all short)
                (drop_all 32 all short))
      | no many ↦
          let long : 32 ≤ length all = omega arith in
          ap₂ (λ c l. pad c ∷ l) (take-append_of_le 32 all (0 ∷ []) long)
            (ap (leaves_from fuel') (drop-append_of_le 32 all (0 ∷ []) long)
              ∙ leaves_from_zero fuel fuel' (drop 32 all) (omega (arith, length-drop 32 all))
                  (omega (arith, length-drop 32 all)) (omega (arith, length-drop 32 all)))
    ]

-- The padding is ambiguous: bytes that do not fill their last block have the leaves, and so the root,
-- of the same bytes with a zero behind them.
pub merkle_leaves_zero :
    (bytes : Bytes) → length bytes % 32 ≢ 0 → merkle_leaves (bytes ++ 0 ∷ []) ≡ merkle_leaves bytes
merkle_leaves_zero bytes m =
    leaves_from_zero (length bytes) (length (bytes ++ 0 ∷ [])) bytes (omega arith)
      (omega (arith, length-append bytes (0 ∷ []))) m
