-- ===== src/Team/History.antt =====
-- A history of the teams as a sequence of the requests that `TeamService` accepts, in any order.
use pigeon_oj.Base.{ℕ, ◌≡◌, Bool, Option, none, ok}
use pigeon_oj.Team.{TeamDb, get_team}
use pigeon_oj.Team.Operations.{
  create, submit_application, review_application, set_admin, kick, exit, disband,
}
use pigeon_oj.Team.Roles.{RolesBacked}
use pigeon_oj.Team.Leaving.{kick-RolesBacked, exit-RolesBacked, disband-RolesBacked}
use pigeon_oj.Team.Joining.{
  create-RolesBacked, apply-RolesBacked, review-RolesBacked, set_admin-RolesBacked,
}

-- `now` is the moment of a request; the id of a new team is not the id of another one
pub data Step : TeamDb → TeamDb → Type 0 where
  created :
      (db after : TeamDb) (u t : ℕ) (private_ : Bool)
      → get_team t db ≡ none
      → create db u t private_ ≡ ok after
      → Step db after
  applied :
      (db after : TeamDb) (u t fresh : ℕ) (has_token : Bool) (invite : Option ℕ)
      → submit_application db u t fresh has_token invite ≡ ok after
      → Step db after
  reviewed_by :
      (db after : TeamDb) (now u t app : ℕ) (approve : Bool)
      → review_application db now u t app approve ≡ ok after
      → Step db after
  admin_set :
      (db after : TeamDb) (u t target : ℕ) (flag : Bool)
      → set_admin db u t target flag ≡ ok after
      → Step db after
  kicked_out :
      (db after : TeamDb) (now u t target : ℕ) → kick db now u t target ≡ ok after → Step db after
  exited_from : (db after : TeamDb) (now u t : ℕ) → exit db now u t ≡ ok after → Step db after
  disbanded_by : (db after : TeamDb) (now u t : ℕ) → disband db now u t ≡ ok after → Step db after

pub data Steps : TeamDb → TeamDb → Type 0 where
  done : (db : TeamDb) → Steps db db
  more : (a b c : TeamDb) → Steps a b → Step b c → Steps a c

step-RolesBacked : (db after : TeamDb) → Step db after → RolesBacked db → RolesBacked after
step-RolesBacked _ _ (Step.created db after u t p n h) b = create-RolesBacked db after u t p n h b
step-RolesBacked _ _ (Step.applied db after u t f k i h) b =
    apply-RolesBacked db after u t f k i h b
step-RolesBacked _ _ (Step.reviewed_by db after now u t a v h) b =
    review-RolesBacked db after now u t a v h b
step-RolesBacked _ _ (Step.admin_set db after u t target f h) b =
    set_admin-RolesBacked db after u t target f h b
step-RolesBacked _ _ (Step.kicked_out db after now u t target h) b =
    kick-RolesBacked db after now u t target h b
step-RolesBacked _ _ (Step.exited_from db after now u t h) b = exit-RolesBacked db after now u t h b
step-RolesBacked _ _ (Step.disbanded_by db after now u t h) b =
    disband-RolesBacked db after now u t h b

-- In every history of accepted requests that begins with tables where this holds: each role in a team
-- belongs to an active member of that team, the team is not disbanded, and the creator's role is held by
-- the creator of the team alone.
pub roles_stay_backed : (db after : TeamDb) → Steps db after → RolesBacked db → RolesBacked after
roles_stay_backed _ _ (Steps.done db) b = b
roles_stay_backed _ _ (Steps.more x y z past s) b =
    step-RolesBacked y z s (roles_stay_backed x y past b)
