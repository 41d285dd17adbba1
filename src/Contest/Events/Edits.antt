-- ===== src/Contest/Events/Edits.antt =====
-- The order of the times of a contest, when it is edited, extended, frozen and unfrozen.
use pigeon_oj.Base.{
  ℕ, ◌≡◌, refl, ◌⊎◌, true, false, not, ◌&&◌, Option, none, some, List, [], ◌∷◌, arith, ltb, leb,
  ◌==◌, Bool-cases, Option-cases, inl, inr, All, ok,
}
use pigeon_oj.Base.Integers.{ℤ}
use pigeon_oj.Model.{Contest}
use pigeon_oj.Contest.{ContestDb, get_contest, invalidate_board_cache}
use pigeon_oj.Contest.Recompute.{recompute_rankings}
use pigeon_oj.Contest.Access.{find_contest, require_manage}
use pigeon_oj.Contest.Edit.{
  ContestPatch, bad_freeze, validate_times, replace_problems, set_contest, set_row, patched,
  replace_sent, update,
}
use pigeon_oj.Contest.Lifecycle.{extended, extend, freeze_now, update_freeze_time, unfreeze}
use pigeon_oj.Contest.Events.Ranges.{TimesOk, set-ok, times_ok}

-- the row of the contest that a request edits is the one that its guards have read
pub Edited : ContestDb → ContestDb → ℕ → (Contest → Contest) → Type 0
Edited db after cid f =
    (c : Contest) × (get_contest cid db ≡ some c)
    × (times_ok c ≡ true → times_ok (f c) ≡ true)
    × (after.contests ≡ set_row cid f db.contests)

pub Edited-TimesOk :
    (db after : ContestDb) (cid : ℕ) (f : Contest → Contest)
    → Edited db after cid f
    → TimesOk db
    → TimesOk after
unfolding Edited get_contest
Edited-TimesOk db after cid f (c, hc, hf, he) ht = rw he (set-ok cid f c db.contests hc hf ht)

checked-times :
    (c : Contest)
    → validate_times c.start_time c.end_time c.register_start_time c.register_end_time ≡ ok tt
    → bad_freeze c.start_time c.end_time c.freeze_time ≡ false
    → times_ok c ≡ true
unfolding validate_times
checked-times c h hf = rw hf (ground (arith, h))

update-checks :
    (db after : ContestDb) (u cid : ℕ) (b : ContestPatch) (c : Contest)
    → get_contest cid db ≡ some c
    → update db u cid b ≡ ok after
    → (times_ok (patched b c) ≡ true) × (after.contests ≡ set_row cid (patched b) db.contests)
unfolding update require_manage find_contest
update-checks db after u cid b c hc h =
    checks (patched b c) (ground (arith, h, hc))
      (unfold set_contest replace_sent replace_problems in ground (arith, h, hc))
  where
    checks :
        (n : Contest)
        → (validate_times n.start_time n.end_time n.register_start_time n.register_end_time ≡ ok tt)
          × (bad_freeze n.start_time n.end_time n.freeze_time ≡ false)
        → after.contests ≡ set_row cid (patched b) db.contests
        → (times_ok n ≡ true) × (after.contests ≡ set_row cid (patched b) db.contests)
    checks n k e = (checked-times n k.0 k.1, e)

pub update-Edited :
    (db after : ContestDb) (u cid : ℕ) (b : ContestPatch)
    → update db u cid b ≡ ok after
    → Edited db after cid (patched b)
unfolding Edited
update-Edited db after u cid b h = elim (Option-cases (get_contest cid db)) [
  | inl e ↦ (unfold update require_manage find_contest in ground (arith, h, e))
  | inr (c, e) ↦ let k = update-checks db after u cid b c e h in (c, e, (λ _. k.0), k.1)
]

later :
    (s e rs re n : ℕ) (f : Option ℕ)
    → leb n e ≡ false
    → (ltb s e && (leb rs re && (leb re e && not (bad_freeze s e f)))) ≡ true
    → (ltb s n && (leb rs re && (leb re n && not (bad_freeze s n f)))) ≡ true
later s e rs re n none h k = ground (arith, h, k)
later s e rs re n (some f) h k = ground (arith, h, k)

extended-times :
    (new_end : ℕ) (c : Contest)
    → leb new_end c.end_time ≡ false
    → times_ok c ≡ true
    → times_ok (extended new_end c) ≡ true
unfolding extended
extended-times n c h k =
    later c.start_time c.end_time c.register_start_time c.register_end_time n c.freeze_time h k

pub extend-Edited :
    (db after : ContestDb) (now u cid new_end : ℕ)
    → extend db now u cid new_end ≡ ok after
    → Edited db after cid (extended new_end)
unfolding Edited extend require_manage find_contest set_contest
extend-Edited db after now u cid new_end h = elim (Option-cases (get_contest cid db)) [
  | inl e ↦ ground (arith, h, e)
  | inr (c, e) ↦ (c, e, extended-times new_end c (ground (arith, h, e)), ground (arith, h, e))
]

pub unfreeze-Edited :
    (db after : ContestDb) (factor : ℤ) (u cid : ℕ)
    → unfreeze db factor u cid ≡ ok after
    → Edited db after cid (λ x. record x { board_frozen = false })
unfolding Edited unfreeze require_manage find_contest set_contest recompute_rankings
    invalidate_board_cache
unfreeze-Edited db after factor u cid h = elim (Option-cases (get_contest cid db)) [
  | inl e ↦ ground (arith, h, e)
  | inr (c, e) ↦ (c, e, (λ hk. hk), ground (arith, h, e))
]

set-same :
    (cid : ℕ) (f : Contest → Contest)
    → ((c : Contest) → times_ok (f c) ≡ times_ok c)
    → (cs : List Contest) → All (λ c. times_ok c ≡ true) cs
    → All (λ c. times_ok c ≡ true) (set_row cid f cs)
unfolding set_row
set-same cid f hf [] h = tt
set-same cid f hf (c ∷ cs) h = elim (Bool-cases (c.id == cid)) [
  | inl e ↦ rw e (ground (arith, hf c, h.0), h.1)
  | inr e ↦ rw e (h.0, set-same cid f hf cs h.1)
]

timed-ok :
    (c : Contest) (at : Option ℕ)
    → bad_freeze c.start_time c.end_time at ≡ false
    → times_ok c ≡ true
    → times_ok (record c { freeze_time = at }) ≡ true
timed-ok c at h k = rw h (ground (arith, k))

with_freeze : ContestDb → ℕ → Option ℕ → ContestDb
with_freeze db cid at = set_contest cid (λ x. record x { freeze_time = at }) db

freeze_now-TimesOk : (cid now : ℕ) (db : ContestDb) → TimesOk db → TimesOk (freeze_now cid now db)
unfolding freeze_now set_contest invalidate_board_cache
freeze_now-TimesOk cid now db h =
    set-same cid (λ c. record c { board_frozen = true; frozen_at = some now }) (λ c. refl)
      db.contests h

freeze-parts :
    (db after : ContestDb) (now u cid : ℕ) (at : Option ℕ) (c : Contest)
    → get_contest cid db ≡ some c
    → update_freeze_time db now u cid at ≡ ok after
    → (bad_freeze c.start_time c.end_time at ≡ false)
      × ((after ≡ with_freeze db cid at) ⊎ (after ≡ freeze_now cid now (with_freeze db cid at)))
unfolding update_freeze_time require_manage find_contest with_freeze
freeze-parts db after now u cid at c hc h = (ground (arith, h, hc), ground (arith, h, hc))

pub freeze-TimesOk :
    (db after : ContestDb) (now u cid : ℕ) (at : Option ℕ)
    → update_freeze_time db now u cid at ≡ ok after
    → TimesOk db
    → TimesOk after
freeze-TimesOk db after now u cid at h ht = elim (Option-cases (get_contest cid db)) [
  | inl e ↦ (unfold update_freeze_time require_manage find_contest in ground (arith, h, e))
  | inr (c, e) ↦
      let parts = freeze-parts db after now u cid at c e h in
      let timed = timed-TimesOk c e parts.0 in
      elim parts.1 [
        | inl same ↦ rw same timed
        | inr same ↦ rw same (freeze_now-TimesOk cid now (with_freeze db cid at) timed)
      ]
]
  where
    timed-TimesOk :
        (c : Contest)
        → get_contest cid db ≡ some c
        → bad_freeze c.start_time c.end_time at ≡ false
        → TimesOk (with_freeze db cid at)
    timed-TimesOk c e hb =
        unfold with_freeze get_contest set_contest in
        set-ok cid (λ x. record x { freeze_time = at }) c db.contests e (timed-ok c at hb) ht
