-- ===== src/Node/Pipes.antt =====
-- Reading a pipe up to a limit, whatever pieces the pipe gives.
use pigeon_oj.Base.{
  append_assoc, append_nil, ℕ, zero, suc, ◌+◌, ◌-◌, ◌≤◌, ◌<◌, min, ◌≡◌, refl, ap, ◌∙◌, some, List,
  [], ◌∷◌, ◌++◌, length, take, drop, length-append, take-drop, length-take, take-drop, length-take,
  arith, ltb, ◌==◌, Bool-cases, inl, inr, ==→eq, lt→ltb,
}
use pigeon_oj.Node.{pipe_read_chunk, read_loop, read_limited}

take-exact : (n : ℕ) (xs ys : List ℕ) → length xs ≡ n → take n (xs ++ ys) ≡ xs
take-exact zero [] ys h = refl
take-exact zero (x ∷ xs) ys h = ground (arith, h)
take-exact (suc n) [] ys h = ground (arith, h)
take-exact (suc n) (x ∷ xs) ys h = ap (λ l. x ∷ l) (take-exact n xs ys (omega (arith, h)))

take-long : (n : ℕ) (xs : List ℕ) → length xs ≤ n → take n xs ≡ xs
take-long zero [] h = refl
take-long (suc n) [] h = refl
take-long zero (x ∷ xs) h = ground (arith, h)
take-long (suc n) (x ∷ xs) h = ap (λ l. x ∷ l) (take-long n xs (omega (arith, h)))

nil-of_length : (xs : List ℕ) → length xs ≡ 0 → xs ≡ []
nil-of_length [] h = refl
nil-of_length (x ∷ xs) h = ground (arith, h)

read_loop-exact :
    (fuel limit : ℕ) (gives : ℕ → ℕ) (i : ℕ) (buf rest : List ℕ)
    → length buf ≤ limit + 1
    → limit + 1 - length buf < fuel
    → read_loop fuel limit gives i buf rest
      ≡ some (take (limit + 1) (buf ++ rest), ltb limit (length (buf ++ rest)))
unfolding read_loop
read_loop-exact zero limit gives i buf rest h hf = ground (arith, hf)
read_loop-exact (suc fuel) limit gives i buf rest h hf =
    let room : ℕ = limit + 1 - length buf in
    let size : ℕ = min (suc (gives i)) (min pipe_read_chunk room) in
    elim (Bool-cases (room == 0)) [
      | inl e ↦
          let full : length buf ≡ limit + 1 = omega (arith, h, ==→eq room 0 e) in
          rw
            (
              e,
              take-exact (limit + 1) buf rest full,
              lt→ltb limit (length (buf ++ rest)) (omega (arith, length-append buf rest, full)),
            )
            refl
      | inr e ↦ rw e (elim (Bool-cases (length rest == 0)) [
        | inl e1 ↦
            rw
              (
                e1,
                nil-of_length rest (==→eq (length rest) 0 e1),
                append_nil buf,
                take-long (limit + 1) buf h,
              )
              refl
        | inr e1 ↦
            let grown = length-append buf (take size rest) in
            let taken = length-take size rest in
            let same : (buf ++ take size rest) ++ drop size rest ≡ buf ++ rest =
              append_assoc buf (take size rest) (drop size rest)
              ∙ ap (λ l. buf ++ l) (take-drop size rest) in
            rw e1 (
              read_loop-exact fuel limit gives (suc i) (buf ++ take size rest) (drop size rest)
                (ground (arith, h, grown, taken)) (ground (arith, hf, grown, taken, e, e1))
              ∙ ap (λ l. some (take (limit + 1) l, ltb limit (length l))) same)
      ])
    ]

-- Whatever pieces the pipe gives at each read, and whatever it holds: after at most two reads more than the
-- limit has bytes, `_read_limited` returns the first limit + 1 bytes (all of them where there are fewer),
-- and says that the limit is exceeded exactly when the pipe holds more bytes than that.
pub read_limited_exact :
    (fuel limit : ℕ) (gives : ℕ → ℕ) (bytes : List ℕ)
    → limit + 2 ≤ fuel
    → read_limited fuel limit gives bytes ≡ some (take (limit + 1) bytes, ltb limit (length bytes))
unfolding read_limited
read_limited_exact fuel limit gives bytes h =
    read_loop-exact fuel limit gives 0 [] bytes (omega arith) (omega (arith, h))
