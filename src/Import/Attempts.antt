-- ===== src/Import/Attempts.antt =====
-- How many problems of a batch are tried.
use pigeon_oj.Base.{ℕ, zero, suc, min, ◌≡◌, List, [], ◌∷◌, length, arith, ltb}
use pigeon_oj.Import.{Parsed}
use pigeon_oj.Import.Cases.{Storage}
use pigeon_oj.Import.Entering.{World}
use pigeon_oj.Import.Batches.{SpjMode, attempt, import_parsed_problems}

-- Every problem of a batch is tried, in one of the ways it can end, up to the limit, and the batch is marked as
-- truncated exactly where there are more problems than the limit.
pub length-import_parsed_problems :
    (storage : Storage) (owner now : ℕ) (mode : SpjMode) (limit : ℕ) (items : List Parsed)
    (known : List (List ℕ)) (w : World)
    → (length (import_parsed_problems storage owner now mode limit items known w).outcomes
        ≡ min limit (length items))
      × ((import_parsed_problems storage owner now mode limit items known w).truncated
          ≡ ltb limit (length items))
unfolding import_parsed_problems
length-import_parsed_problems storage owner now mode zero [] known w = (omega arith, ground arith)
length-import_parsed_problems storage owner now mode (suc left) [] known w =
    (omega arith, ground arith)
length-import_parsed_problems storage owner now mode zero (p ∷ ps) known w =
    (omega arith, ground arith)
length-import_parsed_problems storage owner now mode (suc left) (p ∷ ps) known w =
    let a = attempt storage owner now mode p known w in
    let rest = length-import_parsed_problems storage owner now mode left ps a.known a.world in
    (omega (arith, rest.0), ground (arith, rest.1))
