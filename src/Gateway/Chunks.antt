-- ===== src/Gateway/Chunks.antt =====
-- A file that is streamed in chunks is the file.
use pigeon_oj.Base.{
  ℕ, zero, suc, ◌≤◌, ◌≡◌, refl, ap, ◌∙◌, false, List, [], ◌∷◌, ◌++◌, length, take, drop, All,
  take-drop, length-take, length-drop_lt, arith, ◌==◌,
}
use pigeon_oj.Gateway.{chunks_from, iter_chunks}

-- the bytes of the chunks, in order
abbrev pub concat : List (List ℕ) → List ℕ
concat [] = []
concat (c ∷ cs) = c ++ concat cs

chunks_from-concat :
    (fuel size : ℕ) (content : List ℕ)
    → 1 ≤ size
    → length content ≤ fuel
    → (concat (chunks_from fuel size content) ≡ content)
      × All (λ c. length c ≤ size) (chunks_from fuel size content)
unfolding chunks_from
chunks_from-concat zero size [] hs h = (refl, tt)
chunks_from-concat zero size (x ∷ xs) hs h = ground (arith, h)
chunks_from-concat (suc fuel) size [] hs h = (refl, tt)
chunks_from-concat (suc fuel) size (x ∷ xs) hs h =
    let rest =
      chunks_from-concat fuel size (drop size (x ∷ xs)) hs
        (length-drop_lt size (x ∷ xs) fuel hs h) in
    let some : (suc (length xs) == 0) ≡ false = ground arith in
    rw some (
      ap (λ l. take size (x ∷ xs) ++ l) rest.0 ∙ take-drop size (x ∷ xs),
      (omega (arith, length-take size (x ∷ xs)), rest.1),
    )

-- For every chunk size but 0 and every content, the empty one included: the chunks put together are the
-- content, and no chunk is larger than the size.
pub chunks_round_trip :
    (size : ℕ) (content : List ℕ)
    → 1 ≤ size
    → (concat (iter_chunks size content) ≡ content)
      × All (λ c. length c ≤ size) (iter_chunks size content)
unfolding iter_chunks
chunks_round_trip size [] hs = (refl, (omega arith, tt))
chunks_round_trip size (x ∷ xs) hs =
    let some : (suc (length xs) == 0) ≡ false = ground arith in
    rw some (chunks_from-concat (suc (length xs)) size (x ∷ xs) hs (omega arith))
