-- ===== src/Contest/Events/Ranges.antt =====
-- The order of the times of a contest, when contests are created and when they advance.
use pigeon_oj.Base.{
  ℕ, ◌≡◌, refl, Bool, true, not, ◌&&◌, Option, none, some, List, [], ◌∷◌, ◌++◌, map, arith, ltb,
  leb, ◌==◌, Bool-cases, inl, inr, All, All-append, find?, elem, ok,
}
use pigeon_oj.Model.{ContestType, Contest}
use pigeon_oj.Contest.{ContestDb}
use pigeon_oj.Contest.Edit.{
  ContestBody, bad_freeze, validate_times, check_times, new_contest, replace_problems, set_row,
  create, create_team_contest, is_scheduled,
}
use pigeon_oj.Contest.Lifecycle.{start_due, freeze_listed, finish_due, transition, freezing}
use pigeon_oj.Contest.Lifecycle.{is_running}
use pigeon_oj.Contest.Lifecycle.Transition.{contests-invalidate_all}

-- start < end, registration opens before it closes, which is not after the end, and the scoreboard freezes
-- after the start and not after the end, if at all
abbrev pub times_ok : Contest → Bool
times_ok c =
    ltb c.start_time c.end_time
    && (leb c.register_start_time c.register_end_time
        && (leb c.register_end_time c.end_time
            && not (bad_freeze c.start_time c.end_time c.freeze_time)))

abbrev pub TimesOk : ContestDb → Type 0
TimesOk db = All (λ c. times_ok c ≡ true) db.contests

pub set-ok :
    (cid : ℕ) (f : Contest → Contest) (c : Contest) (cs : List Contest)
    → find? (λ x. x.id == cid) cs ≡ some c
    → (times_ok c ≡ true → times_ok (f c) ≡ true)
    → All (λ x. times_ok x ≡ true) cs
    → All (λ x. times_ok x ≡ true) (set_row cid f cs)
unfolding set_row
set-ok cid f c [] hc hf h = tt
set-ok cid f c (d ∷ cs) hc hf h = elim (Bool-cases (d.id == cid)) [
  | inl e ↦ rw e (let same : some d ≡ some c = rw e at hc in (ground (arith, same, hf, h.0), h.1))
  | inr e ↦ rw e (
      let rest : find? (λ x. x.id == cid) cs ≡ some c = rw e at hc in
      (h.0, set-ok cid f c cs rest hf h.1))
]

map-ok :
    (f : Contest → Contest)
    → ((c : Contest) → times_ok (f c) ≡ times_ok c)
    → (cs : List Contest) → All (λ c. times_ok c ≡ true) cs
    → All (λ c. times_ok c ≡ true) (map f cs)
map-ok f hf [] h = tt
map-ok f hf (c ∷ cs) h = (ground (arith, hf c, h.0), map-ok f hf cs h.1)

start_due-times : (now : ℕ) (c : Contest) → times_ok (start_due now c) ≡ times_ok c
unfolding start_due
start_due-times now c = elim (Bool-cases (is_scheduled c.status && leb c.start_time now)) [
  | inl e ↦ rw e refl
  | inr e ↦ rw e refl
]

freeze_listed-times :
    (ids : List ℕ) (now : ℕ) (c : Contest) → times_ok (freeze_listed ids now c) ≡ times_ok c
unfolding freeze_listed
freeze_listed-times ids now c = elim (Bool-cases (elem c.id ids)) [
  | inl e ↦ rw e refl
  | inr e ↦ rw e refl
]

finish_due-times : (now : ℕ) (c : Contest) → times_ok (finish_due now c) ≡ times_ok c
unfolding finish_due
finish_due-times now c = elim (Bool-cases (is_running c.status && leb c.end_time now)) [
  | inl e ↦ rw e refl
  | inr e ↦ rw e refl
]

pub transition-TimesOk : (now : ℕ) (db : ContestDb) → TimesOk db → TimesOk (transition now db)
unfolding transition
transition-TimesOk now db h = rw (contests-invalidate_all (freezing now db.contests) _) (
    map-ok (finish_due now) (finish_due-times now) _ (
      map-ok (freeze_listed (freezing now db.contests) now)
        (freeze_listed-times (freezing now db.contests) now) _
        (map-ok (start_due now) (start_due-times now) db.contests h)))

new-times :
    (u cid : ℕ) (kind : ContestType) (team : Option ℕ) (b : ContestBody)
    → check_times b ≡ ok tt
    → times_ok (new_contest cid u kind team b) ≡ true
unfolding check_times validate_times new_contest
new-times u cid kind team b h = ground (arith, h)

create-contests :
    (db after : ContestDb) (u cid : ℕ) (b : ContestBody)
    → create db u cid b ≡ ok after
    → (check_times b ≡ ok tt)
      × (after.contests ≡ db.contests ++ new_contest cid u ContestType.public none b ∷ [])
unfolding create replace_problems
create-contests db after u cid b h = ground (arith, h)

pub create-TimesOk :
    (db after : ContestDb) (u cid : ℕ) (b : ContestBody)
    → create db u cid b ≡ ok after
    → TimesOk db
    → TimesOk after
create-TimesOk db after u cid b h ht =
    let made = create-contests db after u cid b h in
    rw made.1 (
      All-append (λ c. times_ok c ≡ true) db.contests _ ht
        (new-times u cid ContestType.public none b made.0, tt))

create_team_contest-contests :
    (db after : ContestDb) (u t cid : ℕ) (b : ContestBody)
    → create_team_contest db u t cid b ≡ ok after
    → (check_times b ≡ ok tt)
      × (after.contests ≡ db.contests ++ new_contest cid u ContestType.team (some t) b ∷ [])
unfolding create_team_contest replace_problems
create_team_contest-contests db after u t cid b h = ground (arith, h)

pub create_team_contest-TimesOk :
    (db after : ContestDb) (u t cid : ℕ) (b : ContestBody)
    → create_team_contest db u t cid b ≡ ok after
    → TimesOk db
    → TimesOk after
create_team_contest-TimesOk db after u t cid b h ht =
    let made = create_team_contest-contests db after u t cid b h in
    rw made.1 (
      All-append (λ c. times_ok c ≡ true) db.contests _ ht
        (new-times u cid ContestType.team (some t) b made.0, tt))
