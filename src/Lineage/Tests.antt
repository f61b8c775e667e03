-- ===== src/Lineage/Tests.antt =====
-- Tests of the lineage of sessions.
use mneme_universal_context.Prelude.{
  ℕ, ◌≡◌, ◌⊎◌, refl, true, List, [], ◌∷◌, arith, contains, IsDistinct,
}
use mneme_universal_context.Lineage.{
  Edge, parents, children, lineage_session_ids, put_session_lineage,
}
use mneme_universal_context.Lineage.Walk.{walk, visit}
use mneme_universal_context.Lineage.Paths.{Reaches, IsAcyclic}
use mneme_universal_context.Lineage.Members.{lineage_session_ids_sound}
use mneme_universal_context.Lineage.Acyclic.{
  put_all, put_all-IsAcyclic, put_session_lineage-IsAcyclic,
}

abbrev rows : List Edge
rows =
    record { old_session_id = 1; new_session_id = 2 }
    ∷ record { old_session_id = 1; new_session_id = 3 }
    ∷ []

abbrev sessions : List ℕ
sessions = 1 ∷ 2 ∷ 3 ∷ []

lineage_session_ids_sound_example :
    ((x : ℕ)
      → contains x (lineage_session_ids rows 2) ≡ true
      → Reaches (parents rows) 2 x ⊎ Reaches (children rows) 2 x)
    × ((x : ℕ) → Reaches (parents rows) 2 x → contains x (lineage_session_ids rows 2) ≡ true)
    × IsDistinct (lineage_session_ids rows 2)
lineage_session_ids_sound_example = lineage_session_ids_sound rows 2 (omega arith)

put_all-IsAcyclic_example :
    IsAcyclic (put_all ((1, 2) ∷ (1, 3) ∷ []) (record { sessions = sessions; edges = [] })).edges
put_all-IsAcyclic_example = put_all-IsAcyclic sessions ((1, 2) ∷ (1, 3) ∷ [])

rows_put :
    (put_all ((1, 2) ∷ (2, 1) ∷ (1, 3) ∷ []) (record { sessions = sessions; edges = [] })).edges
    ≡ rows
unfolding put_all put_session_lineage lineage_session_ids walk visit
rows_put = refl

rows-IsAcyclic : IsAcyclic rows
unfolding put_all put_session_lineage lineage_session_ids walk visit
rows-IsAcyclic = put_all-IsAcyclic sessions ((1, 2) ∷ (1, 3) ∷ [])

put_session_lineage-IsAcyclic_example :
    IsAcyclic (put_session_lineage 3 2 (record { sessions = sessions; edges = rows })).0.edges
put_session_lineage-IsAcyclic_example =
    put_session_lineage-IsAcyclic 3 2 (record { sessions = sessions; edges = rows }) rows-IsAcyclic
