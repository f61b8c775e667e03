-- ===== src/Blobs/Collect.antt =====
-- What garbage collection deletes.
use mneme_universal_context.Prelude.{
  ℕ, ◌≡◌, inl, inr, refl, sym, ◌∙◌, Bool, true, false, not, Option, List, [], ◌∷◌, arith, ◌==◌,
  Bool-cases, length, filter, All, All-map_weaken, filter_cong, contains, IsDistinct,
}
use mneme_universal_context.Blobs.{
  Blob, Reference, Tables, ids_of, is_candidate, garbage_collect_blobs,
}
use mneme_universal_context.Blobs.Counts.{refs_to, Counts, IsOf, IsValid, All-filter, All-both}

-- No reference names a blob of the list.
abbrev Unnamed : List Reference → List ℕ → Type 0
Unnamed rs [] = Unit
Unnamed rs (k ∷ ks) = (refs_to k rs ≡ 0) × Unnamed rs ks

module _ (project session : Option ℕ) where
  candidates-Unnamed :
      (rs : List Reference) (bs : List Blob)
      → All (Counts rs) bs
      → Unnamed rs (ids_of (filter (is_candidate project session) bs))
  candidates-Unnamed rs [] h = tt
  candidates-Unnamed rs (b ∷ bs) (c, h) = elim (Bool-cases (is_candidate project session b)) [
    | inl e ↦ rw e (ground arith, candidates-Unnamed rs bs h)
    | inr e ↦ rw e (candidates-Unnamed rs bs h)
  ]

  abbrev found : Tables → List ℕ
  found t = ids_of (filter (is_candidate project session) t.blobs)

Unnamed-tail :
    (r : Reference) (rs : List Reference) (ks : List ℕ) → Unnamed (r ∷ rs) ks → Unnamed rs ks
Unnamed-tail r rs [] h = tt
Unnamed-tail r rs (k ∷ ks) h = (omega (arith, h.0), Unnamed-tail r rs ks h.1)

Unnamed-head :
    (r : Reference) (rs : List Reference) (ks : List ℕ)
    → Unnamed (r ∷ rs) ks
    → contains r.blob_id ks ≡ false
Unnamed-head r rs [] h = refl
Unnamed-head r rs (k ∷ ks) h = ground (arith, Unnamed-head r rs ks h.1)

kept_references :
    (ks : List ℕ) (rs : List Reference)
    → Unnamed rs ks
    → filter (λ (r : Reference). not (contains r.blob_id ks)) rs ≡ rs
kept_references ks [] h = refl
kept_references ks (r ∷ rs) h =
    rw (Unnamed-head r rs ks h, kept_references ks rs (Unnamed-tail r rs ks h)) refl

-- With distinct identifiers, the blobs whose identifier is a candidate's are the candidates.
pub not_among :
    (k : ℕ) (p : Blob → Bool) (bs : List Blob)
    → contains k (ids_of bs) ≡ false
    → contains k (ids_of (filter p bs)) ≡ false
not_among k p [] h = refl
not_among k p (b ∷ bs) h = elim (Bool-cases (p b)) [
  | inl e ↦ rw e (ground (arith, not_among k p bs))
  | inr e ↦ rw e (not_among k p bs (ground arith))
]

All-other :
    (k : ℕ) (bs : List Blob)
    → contains k (ids_of bs) ≡ false
    → All (λ b. (b.blob_id == k) ≡ false) bs
All-other k [] h = tt
All-other k (b ∷ bs) h = (ground arith, All-other k bs (ground arith))

among_candidates :
    (p : Blob → Bool) (bs : List Blob)
    → IsDistinct (ids_of bs)
    → All (λ b. not (contains b.blob_id (ids_of (filter p bs))) ≡ not (p b)) bs
among_candidates p [] d = tt
among_candidates p (b ∷ bs) (new, d) = elim (Bool-cases (p b)) [
  | inl e ↦ rw e (
    ground arith,
    All-map_weaken _ _ (λ x h. ground arith) bs
        (All-both (λ x. not (contains x.blob_id (ids_of (filter p bs))) ≡ not (p x))
          (λ x. (x.blob_id == b.blob_id) ≡ false) bs (among_candidates p bs d)
          (All-other b.blob_id bs new)),
  )
  | inr e ↦
      let same : filter p (b ∷ bs) ≡ filter p bs = ground arith in
      (
        rw e (ground (arith, not_among b.blob_id p bs new)),
        All-map_weaken (λ x. not (contains x.blob_id (ids_of (filter p bs))) ≡ not (p x)) _
            (λ x h. rw same h) bs (among_candidates p bs d),
      )
]

-- The run that deletes, whether or not there is a candidate.
module _ (project session : Option ℕ) (t : Tables) (v : IsValid t) where
  abbrev unnamed : Unnamed t.blob_references (found project session t)
  unnamed = candidates-Unnamed project session t.blob_references t.blobs v.counted

  none_deleted :
      (ks : List ℕ) (bs : List Blob)
      → length ks ≡ 0
      → filter (λ (b : Blob). not (contains b.blob_id ks)) bs ≡ bs
  none_deleted [] [] h = refl
  none_deleted [] (b ∷ bs) h = rw (none_deleted [] bs h) refl
  none_deleted (k ∷ ks) bs h = absurd (omega arith)

  collected :
      let t' = (garbage_collect_blobs project session false t).0 in
      (t'.blob_references ≡ t.blob_references)
      × (t'.blobs
          ≡ filter (λ (b : Blob). not (contains b.blob_id (found project session t))) t.blobs)
  unfolding garbage_collect_blobs
  collected = elim (Bool-cases (length (found project session t) == 0)) [
    | inl e ↦ rw e (refl, sym (none_deleted (found project session t) t.blobs (ground arith)))
    | inr e ↦ rw e (kept_references (found project session t) t.blob_references unnamed, refl)
  ]

-- In valid tables with distinct blob identifiers, garbage collection deletes no reference and
-- exactly the blobs that have none and pass both filters; the result counts these; and a dry run
-- counts them and changes nothing.
pub garbage_collect_blobs_exact :
    (project session : Option ℕ) (t : Tables)
    → IsValid t
    → IsDistinct (ids_of t.blobs)
    → let (t', c) = garbage_collect_blobs project session false t in
      let (t'', d) = garbage_collect_blobs project session true t in
      (t'.blob_references ≡ t.blob_references)
      × (t'.blobs ≡ filter (λ b. not (is_candidate project session b)) t.blobs)
      × All
          (λ b. is_candidate project session b ≡ true → refs_to b.blob_id t.blob_references ≡ 0)
          t.blobs
      × (c.candidate_count ≡ length (ids_of (filter (is_candidate project session) t.blobs)))
      × (d.candidate_count ≡ c.candidate_count)
      × (t'' ≡ t)
unfolding garbage_collect_blobs
garbage_collect_blobs_exact project session t v d =
    let (same_references, deleted) = collected project session t v in
    (
      same_references,
      deleted
          ∙ filter_cong (λ (b : Blob). not (contains b.blob_id (found project session t)))
              (λ b. not (is_candidate project session b)) t.blobs
              (among_candidates (is_candidate project session) t.blobs d),
      All-map_weaken (Counts t.blob_references) _ (λ b c e. ground arith) t.blobs v.counted,
      ground arith,
      ground arith,
      ground arith,
    )

pub garbage_collect_blobs-IsValid :
    (project session : Option ℕ) (dry_run : Bool) (t : Tables)
    → IsValid t
    → IsValid (garbage_collect_blobs project session dry_run t).0
garbage_collect_blobs-IsValid project session true t v =
    let e : (garbage_collect_blobs project session true t).0 ≡ t =
      (unfold garbage_collect_blobs in ground arith) in
    rw e v
garbage_collect_blobs-IsValid project session false t v =
    let (same_references, deleted) = collected project session t v in
    record {
      counted =
          rw (same_references, deleted)
            (All-filter (Counts t.blob_references)
              (λ (b : Blob). not (contains b.blob_id (found project session t))) t.blobs v.counted);
      scoped =
          rw (same_references, deleted)
            (All-filter (λ b. All (IsOf b) t.blob_references)
              (λ (b : Blob). not (contains b.blob_id (found project session t))) t.blobs v.scoped);
      unique = rw same_references v.unique;
    }
