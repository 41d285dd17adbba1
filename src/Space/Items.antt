-- ===== src/Space/Items.antt =====
-- The constraints of the tables of problem sets hold whatever is requested: the visibility of a set fits its
-- owner, and no problem stands twice in a set.
use pigeon_oj.Base.{
  ℕ, ◌≡◌, ap, ◌∙◌, subst, Bool, true, false, not, ◌&&◌, List, [], ◌∷◌, ◌++◌, map, filter, any, elem,
  All, All-append, Pairs, Pairs-filter, ==→eq, is_some, ◌==◌, ==-refl, if◌then◌else◌, arith,
  Bool-cases, inl, inr,
}
use pigeon_oj.Space.{ProblemSet, SetItem, SpaceDb}
use pigeon_oj.Space.Sets.{replace_items, is_site_visibility, ItemIn, has_duplicates, rows_of}
use pigeon_oj.Space.TeamSets.{is_team_set_visibility, copied_items}

-- the check constraint of problem_sets
abbrev pub fits_owner : ProblemSet → Bool
fits_owner s =
    if is_some s.team_id
    then is_team_set_visibility s.visibility
    else is_site_visibility s.visibility

-- the unique constraint of problem_set_items
abbrev pub apart : SetItem → SetItem → Bool
apart i j = not ((i.problem_set_id == j.problem_set_id) && (i.problem_id == j.problem_id))

abbrev Apart : SetItem → SetItem → Type 0
Apart i j = apart i j ≡ true

abbrev pub Constraints : SpaceDb → Type 0
Constraints db = All (λ s. fits_owner s ≡ true) db.sets × Pairs (λ i j. apart i j ≡ true) db.items

Apart-append :
    (is js : List SetItem)
    → Pairs Apart is
    → Pairs Apart js
    → All (λ i. All (Apart i) js) is
    → Pairs Apart (is ++ js)
Apart-append [] js h k c = k
Apart-append (i ∷ is) js h k c = (All-append (Apart i) is js h.0 c.0, Apart-append is js h.1 k c.1)

abbrev adder : ℕ → SetItem → SetItem
adder u i = record i { added_by = u }

All-adder :
    (u : ℕ) (i : SetItem) (is : List SetItem) → All (Apart i) is → All (Apart i) (map (adder u) is)
All-adder u i [] h = tt
All-adder u i (j ∷ is) h = (h.0, All-adder u i is h.1)

Apart-adder : (u : ℕ) (is : List SetItem) → Pairs Apart is → Pairs Apart (map (adder u) is)
Apart-adder u [] h = tt
Apart-adder u (i ∷ is) h = (All-adder u (adder u i) is h.0, Apart-adder u is h.1)

-- the rows of one set
abbrev OfSet : ℕ → SetItem → Type 0
OfSet sid i = (i.problem_set_id == sid) ≡ true

other_set :
    (sid u : ℕ) (i : SetItem) (js : List SetItem)
    → (i.problem_set_id == sid) ≡ false
    → All (OfSet sid) js
    → All (Apart i) (map (adder u) js)
other_set sid u i [] h k = tt
other_set sid u i (j ∷ js) h k = (ground (arith, h, k.0), other_set sid u i js h k.1)

other_sets :
    (sid u : ℕ) (is js : List SetItem)
    → All (OfSet sid) js
    → All (λ i. All (Apart i) (map (adder u) js)) (filter (λ i. not (i.problem_set_id == sid)) is)
other_sets sid u [] js k = tt
other_sets sid u (i ∷ is) js k = elim (Bool-cases (i.problem_set_id == sid)) [
  | inl e ↦ rw e (other_sets sid u is js k)
  | inr e ↦ rw e (other_set sid u i js e k, other_sets sid u is js k)
]

pub replace_items-Apart :
    (sid u : ℕ) (new : List SetItem) (db : SpaceDb)
    → Pairs Apart db.items
    → Pairs Apart new
    → All (OfSet sid) new
    → Pairs Apart (replace_items sid new u db).items
unfolding replace_items
replace_items-Apart sid u new db h k of =
    Apart-append (filter (λ i. not (i.problem_set_id == sid)) db.items) (map (adder u) new)
      (Pairs-filter Apart (λ i. not (i.problem_set_id == sid)) db.items h) (Apart-adder u new k)
      (other_sets sid u db.items new of)

-- a request without duplicates
differ : (a b : ℕ) (seen : List ℕ) → elem a seen ≡ true → elem b seen ≡ false → (a == b) ≡ false
differ a b seen h k = elim (Bool-cases (a == b)) [
  | inl e ↦ let same = subst (λ x. elem x seen ≡ true) (==→eq a b e) h in cc
  | inr e ↦ e
]

fresh_item :
    (seen : List ℕ) (j : ItemIn) (items : List ItemIn)
    → has_duplicates seen (j ∷ items) ≡ false
    → (elem j.problem_id seen ≡ false) × (has_duplicates (j.problem_id ∷ seen) items ≡ false)
unfolding has_duplicates
fresh_item seen j items h = elim (Bool-cases (elem j.problem_id seen)) [
  | inl e ↦
      let bad : true ≡ false =
        subst (λ b. (if b then true else has_duplicates (j.problem_id ∷ seen) items) ≡ false) e h in
      cc
  | inr e ↦
      (e, subst (λ b. (if b then true else has_duplicates (j.problem_id ∷ seen) items) ≡ false) e h)
]

unseen :
    (sid u : ℕ) (i : ItemIn) (seen : List ℕ) (items : List ItemIn)
    → elem i.problem_id seen ≡ true
    → has_duplicates seen items ≡ false
    → All
        (Apart (record {
          problem_set_id = sid;
          problem_id = i.problem_id;
          sort_order = i.sort_order;
          added_by = u;
        }))
        (rows_of sid u items)
unseen sid u i seen [] s h = tt
unseen sid u i seen (j ∷ items) s h =
    let f = fresh_item seen j items h in
    (
      ground (arith, differ i.problem_id j.problem_id seen s f.0),
      unseen sid u i (j.problem_id ∷ seen) items (ground (arith, s)) f.1,
    )

pub rows_of-Apart :
    (sid u : ℕ) (seen : List ℕ) (items : List ItemIn)
    → has_duplicates seen items ≡ false
    → Pairs Apart (rows_of sid u items)
rows_of-Apart sid u seen [] h = tt
rows_of-Apart sid u seen (i ∷ items) h =
    let f = fresh_item seen i items h in
    (
      unseen sid u i (i.problem_id ∷ seen) items (ground (arith, ==-refl i.problem_id)) f.1,
      rows_of-Apart sid u (i.problem_id ∷ seen) items f.1,
    )

pub rows_of-OfSet : (sid u : ℕ) (items : List ItemIn) → All (OfSet sid) (rows_of sid u items)
rows_of-OfSet sid u [] = tt
rows_of-OfSet sid u (i ∷ items) = (==-refl sid, rows_of-OfSet sid u items)

-- a copy of a set
pub copied_items-OfSet :
    (db : SpaceDb) (source new u : ℕ) (is : List SetItem)
    → All (OfSet new) (copied_items db source new u is)
unfolding copied_items
copied_items-OfSet db source new u [] = tt
copied_items-OfSet db source new u (i ∷ is) =
    elim (Bool-cases
      ((i.problem_set_id == source) && any (λ p. p.id == i.problem_id) db.problems.problems)) [
        | inl e ↦ rw e (==-refl new, copied_items-OfSet db source new u is)
        | inr e ↦ rw e (copied_items-OfSet db source new u is)
      ]

apart_copies :
    (source new u : ℕ) (i j : SetItem)
    → (i.problem_set_id == source) ≡ true
    → (j.problem_set_id == source) ≡ true
    → apart i j ≡ true
    → (i.problem_id == j.problem_id) ≡ false
apart_copies source new u i j h k a =
    let same : (i.problem_set_id == j.problem_set_id) ≡ true =
      ap (λ x. i.problem_set_id == x) (==→eq j.problem_set_id source k) ∙ h in
    ground (arith, a, same)

copied_item :
    (db : SpaceDb) (source new u : ℕ) (i : SetItem) (is : List SetItem)
    → (i.problem_set_id == source) ≡ true
    → All (Apart i) is
    → All
        (Apart (record {
          problem_set_id = new;
          problem_id = i.problem_id;
          sort_order = i.sort_order;
          added_by = u;
        }))
        (copied_items db source new u is)
unfolding copied_items
copied_item db source new u i [] h k = tt
copied_item db source new u i (j ∷ is) h k =
    elim (Bool-cases
      ((j.problem_set_id == source) && any (λ p. p.id == j.problem_id) db.problems.problems)) [
        | inl e ↦ rw e (
          ground (arith, apart_copies source new u i j h (ground (arith, e)) k.0),
          copied_item db source new u i is h k.1,
        )
        | inr e ↦ rw e (copied_item db source new u i is h k.1)
      ]

pub copied_items-Apart :
    (db : SpaceDb) (source new u : ℕ) (is : List SetItem)
    → Pairs Apart is
    → Pairs Apart (copied_items db source new u is)
unfolding copied_items
copied_items-Apart db source new u [] h = tt
copied_items-Apart db source new u (i ∷ is) h =
    elim (Bool-cases
      ((i.problem_set_id == source) && any (λ p. p.id == i.problem_id) db.problems.problems)) [
        | inl e ↦ rw e (
          copied_item db source new u i is (ground (arith, e)) h.0,
          copied_items-Apart db source new u is h.1,
        )
        | inr e ↦ rw e (copied_items-Apart db source new u is h.1)
      ]
