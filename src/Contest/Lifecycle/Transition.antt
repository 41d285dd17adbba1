-- ===== src/Contest/Lifecycle/Transition.antt =====
-- What a tick of `ContestService.transition` settles.
use pigeon_oj.Base.{
  ℕ, ◌≡◌, refl, Bool, true, not, ◌&&◌, List, [], ◌∷◌, map, arith, filter, elem, leb, All, All-map,
}
use pigeon_oj.Model.{Contest}
use pigeon_oj.Contest.{ContestDb, invalidate_board_cache}
use pigeon_oj.Contest.Edit.{is_scheduled}
use pigeon_oj.Contest.Lifecycle.{
  is_running, freeze_due, start_due, freeze_candidate, freeze_listed, finish_due, freeze_all,
  invalidate_all, freezing, transition,
}

-- nothing is due: the contest has not begun or is running before its end, and where it is running and its
-- moment of freezing has passed, it is frozen
abbrev pub is_settled : ℕ → Contest → Bool
is_settled now c =
    not (is_scheduled c.status && leb c.start_time now)
    && (not (is_running c.status && leb c.end_time now)
        && not (is_running c.status && (freeze_due c.freeze_time now && not c.board_frozen)))

elem-ids :
    (now q : ℕ) (c : Contest) (cs : List Contest)
    → c.id ≡ q
    → freeze_candidate now c ≡ true
    → elem q (map (λ x. x.id) (filter (freeze_candidate now) (c ∷ cs))) ≡ true
elem-ids now q c cs e h = ground (arith, e, h)

elem_mono :
    (q : ℕ) (now : ℕ) (d : Contest) (cs : List Contest)
    → elem q (map (λ x. x.id) (filter (freeze_candidate now) cs)) ≡ true
    → elem q (map (λ x. x.id) (filter (freeze_candidate now) (d ∷ cs))) ≡ true
elem_mono q now d cs h = ground (arith, h)

-- every candidate is among the ids
Listed : ℕ → List ℕ → Contest → Type 0
Listed now ids c = freeze_candidate now (start_due now c) ≡ true → elem c.id ids ≡ true

start_due-id : (now : ℕ) (c : Contest) → (start_due now c).id ≡ c.id
unfolding start_due
start_due-id now c = ground arith

freezing-Listed : (now : ℕ) (cs : List Contest) → All (Listed now (freezing now cs)) cs
unfolding Listed freezing
freezing-Listed now [] = tt
freezing-Listed now (c ∷ cs) = (
  λ h. elem-ids now c.id (start_due now c) (map (start_due now) cs) (start_due-id now c) h,
  All-map (λ x hx h. elem_mono x.id now (start_due now c) (map (start_due now) cs) (hx h)) cs
      (freezing-Listed now cs),
)

settles :
    (now : ℕ) (ids : List ℕ) (c : Contest)
    → Listed now ids c
    → is_settled now (finish_due now (freeze_listed ids now (start_due now c))) ≡ true
unfolding Listed finish_due freeze_listed start_due freeze_candidate
settles now ids c h = ground (arith, h)

settles_each :
    (now : ℕ) (ids : List ℕ) (cs : List Contest)
    → All (Listed now ids) cs
    → All
        (λ c. is_settled now c ≡ true)
        (map (finish_due now) (map (freeze_listed ids now) (map (start_due now) cs)))
settles_each now ids [] h = tt
settles_each now ids (c ∷ cs) h = (settles now ids c h.0, settles_each now ids cs h.1)

pub contests-invalidate_all :
    (ids : List ℕ) (db : ContestDb) → (invalidate_all ids db).contests ≡ db.contests
unfolding invalidate_all invalidate_board_cache
contests-invalidate_all [] db = refl
contests-invalidate_all (i ∷ ids) db = contests-invalidate_all ids (invalidate_board_cache i db)

-- After a tick at a moment, for every database, nothing is due at that moment: no contest is scheduled
-- with its start reached, none is running with its end reached, and none is running, past the moment of
-- its freezing, with a scoreboard that is not frozen.
pub transition_settles :
    (now : ℕ) (db : ContestDb) → All (λ c. is_settled now c ≡ true) (transition now db).contests
unfolding transition
transition_settles now db =
    rw (contests-invalidate_all (freezing now db.contests) _)
      (settles_each now (freezing now db.contests) db.contests (freezing-Listed now db.contests))

settled-fixed : (now : ℕ) (c : Contest) → is_settled now c ≡ true → start_due now c ≡ c
unfolding start_due
settled-fixed now c h = ground (arith, h)

settled-none :
    (now : ℕ) (cs : List Contest) → All (λ c. is_settled now c ≡ true) cs → freezing now cs ≡ []
unfolding freezing freeze_candidate start_due
settled-none now [] h = refl
settled-none now (c ∷ cs) h = ground (arith, h.0, settled-none now cs h.1)

settled-same :
    (now : ℕ) (cs : List Contest)
    → All (λ c. is_settled now c ≡ true) cs
    → map (finish_due now) (map (freeze_listed [] now) (map (start_due now) cs)) ≡ cs
unfolding finish_due freeze_listed
settled-same now [] h = refl
settled-same now (c ∷ cs) h =
    rw (settled-fixed now c h.0, settled-same now cs h.1) (ground (arith, h.0))

settled-transition :
    (now : ℕ) (d : ContestDb) → All (λ c. is_settled now c ≡ true) d.contests → transition now d ≡ d
unfolding transition freeze_all invalidate_all
settled-transition now d h = rw (settled-none now d.contests h, settled-same now d.contests h) refl

-- A second tick at the same moment changes nothing, in the contests, the scoreboards and the cache.
pub transition_idempotent :
    (now : ℕ) (db : ContestDb) → transition now (transition now db) ≡ transition now db
transition_idempotent now db =
    settled-transition now (transition now db) (transition_settles now db)
