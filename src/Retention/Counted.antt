-- ===== src/Retention/Counted.antt =====
-- The numbers that `cleanup_retention` reports, told from the tables before and after it.
use mneme_universal_context.Prelude.{
  ℕ, ◌+◌, ◌≡◌, inl, inr, refl, Bool, false, List, [], ◌∷◌, arith, ◌==◌, Bool-cases, length,
}
use mneme_universal_context.Prelude.Text.{Text}
use mneme_universal_context.Retention.{
  Store, Deleted, none_deleted, delete_where, count_where, is_embedded, is_edge, is_old, is_event,
  expired_ids, delete_expired, cleanup_retention,
}

length-split {ℓ} :
    {A : Type ℓ} (p : A → Bool) (xs : List A)
    → length xs ≡ length (delete_where p xs) + count_where p xs
length-split p [] = omega arith
length-split p (x ∷ xs) = elim (Bool-cases (p x)) [
  | inl e ↦ rw e (omega (arith, length-split p xs))
  | inr e ↦ rw e (omega (arith, length-split p xs))
]

-- Each number is of the rows that its table has lost; the derived records are those of four tables.
pub record IsCounted (s s' : Store) (d : Deleted) : Type 0 where
  pub events : length s.events ≡ length s'.events + d.events
  pub graph_edges : length s.event_graph_edges ≡ length s'.event_graph_edges + d.graph_edges
  pub traces : length s.traces ≡ length s'.traces + d.traces
  pub state_history : length s.state_history ≡ length s'.state_history + d.state_history
  pub derived_records :
      length s.embedding_index + (d.graph_edges + d.traces + d.state_history)
      ≡ length s'.embedding_index + d.derived_records
  pub blobs : d.blobs ≡ 0

nothing-IsCounted : (s : Store) → IsCounted s s none_deleted
nothing-IsCounted s = record {
  events = omega arith;
  graph_edges = omega arith;
  traces = omega arith;
  state_history = omega arith;
  derived_records = omega arith;
  blobs = refl;
}

sum_of_four :
    (embeddings edges traces history before left : ℕ)
    → before ≡ left + embeddings
    → before + (edges + traces + history) ≡ left + (embeddings + edges + traces + history)
sum_of_four embeddings edges traces history before left e = omega (arith, e)

delete_expired-IsCounted :
    (text_of : ℕ → Text) (session cutoff : ℕ) (ids : List ℕ) (s : Store)
    → let (s', deleted) = delete_expired text_of session cutoff ids s in IsCounted s s' deleted
unfolding delete_expired
delete_expired-IsCounted text_of session cutoff ids s = record {
  events = length-split (is_event session ids) s.events;
  graph_edges = length-split (is_edge session ids) s.event_graph_edges;
  traces = length-split _ s.traces;
  state_history = length-split (is_old session cutoff) s.state_history;
  derived_records = sum_of_four _ _ _ _ _ _ (length-split (is_embedded ids) s.embedding_index);
  blobs = refl;
}

pub cleanup_retention-IsCounted :
    (text_of : ℕ → Text) (session cutoff : ℕ) (s : Store)
    → let (s', c) = cleanup_retention text_of session cutoff false s in
      IsCounted s s' c.deleted_counts
unfolding cleanup_retention
cleanup_retention-IsCounted text_of session cutoff s =
    elim (Bool-cases (length (expired_ids session cutoff s) == 0)) [
      | inl nothing ↦ rw nothing (nothing-IsCounted s)
      | inr some_ids ↦
          rw some_ids
            (delete_expired-IsCounted text_of session cutoff (expired_ids session cutoff s) s)
    ]
