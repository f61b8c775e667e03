-- ===== src/Lineage.antt =====
-- The lineage of sessions in mneme_service/storage.py: `lineage_session_ids` and
-- `put_session_lineage`. The table `session_lineage` is the list of its rows, which a query
-- returns in their order.
pub mod Walk
pub mod Paths
pub mod Members
pub mod Acyclic
mod Tests
use mneme_universal_context.Prelude.{
  ℕ, zero, suc, ◌+◌, ◌-◌, ◌*◌, ◌/◌, ◌≤◌, ◌<◌, max, min, ◌≡◌, ◌≢◌, ◌⊎◌, inl, inr, refl, sym, ap, ◌∙◌,
  Bool, true, false, not, ◌&&◌, ◌||◌, Option, none, some, List, [], ◌∷◌, ◌++◌, map, reverse, arith,
  ltb, leb, ◌==◌, if◌then◌else◌, Bool-cases, Option-cases, length, get_elem?, take, drop, filter,
  any, All, last_n, length-append, length-take, length-drop, contains, count, add_new, IsDistinct,
}
use mneme_universal_context.Lineage.Walk.{walk}

pub record Edge : Type 0 where
  pub old_session_id : ℕ
  pub new_session_id : ℕ

-- `SELECT old_session_id ... WHERE new_session_id = ?`
abbrev pub parents : List Edge → ℕ → List ℕ
parents [] c = []
parents (e ∷ es) c =
    let rest = parents es c in if e.new_session_id == c then e.old_session_id ∷ rest else rest

-- `SELECT new_session_id ... WHERE old_session_id = ?`
abbrev pub children : List Edge → ℕ → List ℕ
children [] c = []
children (e ∷ es) c =
    let rest = children es c in if e.old_session_id == c then e.new_session_id ∷ rest else rest

-- The loop over ancestors, and then that over descendants. The fuel is one more than the rows.
pub ancestor_ids : List Edge → ℕ → List ℕ
ancestor_ids es s = walk (parents es) (suc (length es)) (s ∷ []) (s ∷ [])

pub lineage_session_ids : List Edge → ℕ → List ℕ
unfolding ancestor_ids
lineage_session_ids es s =
    if s == 0 then [] else walk (children es) (suc (length es)) (s ∷ []) (ancestor_ids es s)

-- The sessions that there are, and the rows.
pub record LineageTables : Type 0 where
  pub sessions : List ℕ
  pub edges : List Edge

-- A row that is there is not reached: its new session is in the old one's lineage.
pub put_session_lineage : ℕ → ℕ → LineageTables → LineageTables × Bool
put_session_lineage old new t =
    if old == 0 || new == 0 || old == new
    then (t, false)
    else if not (contains old t.sessions) || not (contains new t.sessions)
    then (t, false)
    else if contains new (lineage_session_ids t.edges old)
    then (t, false)
    else (
      record t { edges = t.edges ++ record { old_session_id = old; new_session_id = new } ∷ [] },
      true,
    )
