-- ===== src/Gateway/Server/Connects.antt =====
-- The capacity of the nodes, when one connects.
use pigeon_oj.Base.{
  ℕ, ◌≡◌, refl, sym, ap, ◌∙◌, subst, Bool, false, none, some, List, [], ◌∷◌, ◌++◌, All, All-append,
  arith, ◌==◌, if◌then◌else◌, ==→eq, ==-refl, Bool-cases, inl, inr,
}
use pigeon_oj.Gateway.{
  Connection, Registry, task_count, find_object, registered_as, unmap, take_over, register,
}
use pigeon_oj.Gateway.Server.Sending.{Within, Leads, InOrder}

-- a new connection, with nothing in flight
abbrev pub fresh : ℕ → ℕ → ℕ → Bool → Connection
fresh o n capacity supports_spj = record {
  object = o;
  node_id = n;
  capacity = capacity;
  supports_spj = supports_spj;
  inflight = [];
  pending_runs = 0;
  stale = false;
}

-- the beginning of Connect
abbrev pub connect : Registry → ℕ → ℕ → ℕ → Bool → Registry
connect r o n capacity spj =
    register n o (record r { objects = r.objects ++ fresh o n capacity spj ∷ [] })

registered_as-unmap :
    (m n : ℕ) (rs : List (ℕ × ℕ))
    → registered_as m (unmap n rs) ≡ (if n == m then none else registered_as m rs)
unfolding registered_as unmap
registered_as-unmap m n [] = ground arith
registered_as-unmap m n ((k, o) ∷ rs) =
    ground (arith, registered_as-unmap m n rs, ==→eq k n, ==→eq k m, ==→eq n m)

pub Leads-unmap :
    (r : Registry) (n : ℕ) (es : List (ℕ × ℕ))
    → All (Leads r) es
    → All (Leads (record r { registered = unmap n r.registered })) (unmap n es)
unfolding unmap
Leads-unmap r n [] h = tt
Leads-unmap r n ((m, o) ∷ es) h = elim (Bool-cases (m == n)) [
  | inl e ↦ rw e (Leads-unmap r n es h.1)
  | inr e ↦
      let other : (n == m) ≡ false = ground (arith, e) in
      let key : registered_as m (unmap n r.registered) ≡ some o =
        registered_as-unmap m n r.registered
        ∙ ap (λ b. if b then none else registered_as m r.registered) other
        ∙ h.0.0 in
      rw e ((key, h.0.1, h.0.2, h.0.3), Leads-unmap r n es h.1)
]

find_object-append :
    (o : ℕ) (cs : List Connection) (d c : Connection)
    → find_object o cs ≡ some c
    → find_object o (cs ++ d ∷ []) ≡ some c
unfolding find_object
find_object-append o [] d c h = cc
find_object-append o (x ∷ cs) d c h = ground (arith, h, find_object-append o cs d c)

find_object-last :
    (cs : List Connection) (d : Connection)
    → find_object d.object cs ≡ none
    → find_object d.object (cs ++ d ∷ []) ≡ some d
unfolding find_object
find_object-last [] d h = rw (==-refl d.object) refl
find_object-last (x ∷ cs) d h = ground (arith, h, find_object-last cs d)

Leads-connect :
    (r : Registry) (o n : ℕ) (d : Connection) (es : List (ℕ × ℕ))
    → registered_as n r.registered ≡ none
    → All (Leads r) es
    → All
        (Leads
          (record { objects = r.objects ++ d ∷ []; registered = (n, o) ∷ unmap n r.registered }))
        (unmap n es)
unfolding registered_as unmap
Leads-connect r o n d [] hn h = tt
Leads-connect r o n d ((m, p) ∷ es) hn h = elim (Bool-cases (m == n)) [
  | inl e ↦ rw e (Leads-connect r o n d es hn h.1)
  | inr e ↦
      let other : (n == m) ≡ false = ground (arith, e) in
      let key : registered_as m ((n, o) ∷ unmap n r.registered) ≡ some p = rw other (
        registered_as-unmap m n r.registered
        ∙ ap (λ b. if b then none else registered_as m r.registered) other
        ∙ h.0.0) in
      rw e (
        (key, h.0.1, find_object-append p r.objects d h.0.1 h.0.2, h.0.3),
        Leads-connect r o n d es hn h.1,
      )
]

pub connect-InOrder :
    (r : Registry) (o n capacity : ℕ) (spj : Bool)
    → InOrder r
    → registered_as n r.registered ≡ none
    → find_object o r.objects ≡ none
    → InOrder (connect r o n capacity spj)
unfolding register
connect-InOrder r o n capacity spj h hn ho =
    let d = fresh o n capacity spj in
    subst
      (λ x. InOrder (record {
        objects = take_over x o (r.objects ++ d ∷ []);
        registered = (n, o) ∷ unmap n r.registered;
      }))
      (sym hn)
      (unfold take_over registered_as task_count in
        (
          All-append Within r.objects (d ∷ []) h.0 (omega arith, tt),
          (
            (rw (==-refl n) refl, d, find_object-last r.objects d ho, refl),
            Leads-connect r o n d r.registered hn h.1,
          ),
        ))
