-- ===== src/Access/Idempotency.antt =====
-- The replay of idempotent requests: `normalized_idempotency_key`, `replay_idempotent_response` and
-- `record_idempotent_response` of mneme_service/app.py, over the table `idempotency_records` of
-- mneme_service/storage.py. A request's hash is a number: that different requests have different
-- hashes is not assumed. Keys are texts; a method and path are one number, the endpoint.
use mneme_universal_context.Prelude.{
  ℕ, ◌≡◌, inl, inr, refl, Bool, true, false, ◌&&◌, Option, none, some, List, [], ◌∷◌, ◌++◌, arith,
  ◌==◌, if◌then◌else◌, Bool-cases, Option-cases,
}
use mneme_universal_context.Prelude.Text.{Text, is_space, strip, same_text}
use mneme_universal_context.Access.Principal.{Result, ok, err, conflict, validation, ◌>>=◌}

pub record Entry (R : Type 0) : Type 0 where
  pub principal_name : ℕ
  pub endpoint : ℕ
  pub idempotency_key : Text
  pub request_hash : ℕ
  pub response : R

abbrev pub is_empty_text : Text → Bool
is_empty_text [] = true
is_empty_text (c ∷ s) = false

unfoldable pub normalized_idempotency_key : Option Text → Result (Option Text)
normalized_idempotency_key none = ok none
normalized_idempotency_key (some value) =
    let key = strip is_space value in if is_empty_text key then err validation else ok (some key)

same_text_refl : (s : Text) → same_text s s ≡ true
same_text_refl [] = refl
same_text_refl (c ∷ s) = ground (arith, same_text_refl s)

module _ {R : Type 0} where
  abbrev pub is_record : ℕ → ℕ → Text → Entry R → Bool
  is_record principal endpoint key e =
      e.principal_name == principal && e.endpoint == endpoint && same_text e.idempotency_key key

  -- `get_idempotency_record`
  unfoldable pub get_idempotency_record : ℕ → ℕ → Text → List (Entry R) → Option (Entry R)
  get_idempotency_record principal endpoint key [] = none
  get_idempotency_record principal endpoint key (e ∷ es) =
      if is_record principal endpoint key e
      then some e
      else get_idempotency_record principal endpoint key es

  abbrev pub insert_or_ignore : Option (Entry R) → Entry R → List (Entry R) → List (Entry R)
  insert_or_ignore none e es = es ++ e ∷ []
  insert_or_ignore (some old) e es = es

  -- `put_idempotency_record`: `INSERT OR IGNORE` under the primary key.
  unfoldable pub put_idempotency_record : Entry R → List (Entry R) → List (Entry R)
  unfolding get_idempotency_record
  put_idempotency_record e es =
      insert_or_ignore (get_idempotency_record e.principal_name e.endpoint e.idempotency_key es) e
        es

  abbrev pub answer : ℕ → Option (Entry R) → Result (Option R)
  answer hash none = ok none
  answer hash (some e) = if e.request_hash == hash then ok (some e.response) else err conflict

  abbrev pub replay_with : ℕ → ℕ → ℕ → List (Entry R) → Option Text → Result (Option R)
  replay_with principal endpoint hash es none = ok none
  replay_with principal endpoint hash es (some key) =
      answer hash (get_idempotency_record principal endpoint key es)

  unfoldable pub replay_idempotent_response :
      ℕ → ℕ → Option Text → ℕ → List (Entry R) → Result (Option R)
  unfolding normalized_idempotency_key get_idempotency_record
  replay_idempotent_response principal endpoint header hash es =
      normalized_idempotency_key header >>= replay_with principal endpoint hash es

  abbrev pub record_with : ℕ → ℕ → ℕ → R → List (Entry R) → Option Text → List (Entry R)
  record_with principal endpoint hash response es none = es
  record_with principal endpoint hash response es (some key) =
      put_idempotency_record
        (record {
          principal_name = principal;
          endpoint = endpoint;
          idempotency_key = key;
          request_hash = hash;
          response = response;
        })
        es

  unfoldable pub record_idempotent_response :
      ℕ → ℕ → Option Text → ℕ → R → List (Entry R) → Result (List (Entry R))
  unfolding normalized_idempotency_key put_idempotency_record
  record_idempotent_response principal endpoint header hash response es =
      normalized_idempotency_key header >>= λ key.
      ok (record_with principal endpoint hash response es key)

  get-append_none :
      (p n : ℕ) (key : Text) (e : Entry R) (es : List (Entry R))
      → get_idempotency_record p n key es ≡ none
      → get_idempotency_record p n key (es ++ e ∷ [])
        ≡ (if is_record p n key e then some e else none)
  unfolding get_idempotency_record
  get-append_none p n key e [] h = refl
  get-append_none p n key e (x ∷ es) h = elim (Bool-cases (is_record p n key x)) [
    | inl same ↦ absurd (ground arith)
    | inr other ↦ rw other (get-append_none p n key e es (ground arith))
  ]

  get-append_some :
      (p n : ℕ) (key : Text) (e old : Entry R) (es : List (Entry R))
      → get_idempotency_record p n key es ≡ some old
      → get_idempotency_record p n key (es ++ e ∷ []) ≡ some old
  unfolding get_idempotency_record
  get-append_some p n key e old [] h = cc
  get-append_some p n key e old (x ∷ es) h = elim (Bool-cases (is_record p n key x)) [
    | inl same ↦ rw same (ground arith)
    | inr other ↦ rw other (get-append_some p n key e old es (ground arith))
  ]

  entry : ℕ → ℕ → Text → ℕ → R → Entry R
  entry p n key hash response = record {
    principal_name = p;
    endpoint = n;
    idempotency_key = key;
    request_hash = hash;
    response = response;
  }

  put-new :
      (p n : ℕ) (key : Text) (hash hash' : ℕ) (response : R) (es : List (Entry R))
      → answer hash (get_idempotency_record p n key es) ≡ ok none
      → answer hash'
          (get_idempotency_record p n key (put_idempotency_record (entry p n key hash response) es))
        ≡ (if hash == hash' then ok (some response) else err conflict)
  unfolding put_idempotency_record entry
  put-new p n key hash hash' response es miss =
      elim (Option-cases (get_idempotency_record p n key es)) [
        | inl new ↦
            rw
              (
                new,
                get-append_none p n key (entry p n key hash response) es new,
                same_text_refl key,
              )
              (ground arith)
        | inr (old, e) ↦ absurd (ground arith)
      ]

  -- After a first response is recorded under a key, the same principal, endpoint and key replay it
  -- for the same request hash, and are refused as a conflict for any other.
  pub replay-record :
      (p n : ℕ) (header : Option Text) (key : Text) (hash hash' : ℕ) (response : R)
      (es es' : List (Entry R))
      → normalized_idempotency_key header ≡ ok (some key)
      → replay_idempotent_response p n header hash es ≡ ok none
      → record_idempotent_response p n header hash response es ≡ ok es'
      → replay_idempotent_response p n header hash' es'
        ≡ (if hash == hash' then ok (some response) else err conflict)
  unfolding entry
  replay-record p n header key hash hash' response es es' k miss rec =
      let miss' : answer hash (get_idempotency_record p n key es) ≡ ok none =
        (unfold replay_idempotent_response in ground arith) in
      let rec' : put_idempotency_record (entry p n key hash response) es ≡ es' =
        (unfold record_idempotent_response entry in ground arith) in
      let goal = put-new p n key hash hash' response es miss' in
      (unfold replay_idempotent_response in rw k (rw rec' at goal))

  put-keeps :
      (q m : ℕ) (key : Text) (e old : Entry R) (es : List (Entry R))
      → get_idempotency_record q m key es ≡ some old
      → get_idempotency_record q m key (put_idempotency_record e es) ≡ some old
  unfolding put_idempotency_record
  put-keeps q m key e old es h =
      elim (Option-cases
        (get_idempotency_record e.principal_name e.endpoint e.idempotency_key es)) [
          | inl new ↦ rw new (get-append_some q m key e old es h)
          | inr (x, there) ↦ rw there h
        ]

  -- Recording under any header never changes what was recorded before under any key.
  pub record_idempotent_response-keeps :
      (p n q m : ℕ) (header : Option Text) (key : Text) (hash : ℕ) (response : R)
      (es es' : List (Entry R)) (old : Entry R)
      → record_idempotent_response p n header hash response es ≡ ok es'
      → get_idempotency_record q m key es ≡ some old
      → get_idempotency_record q m key es' ≡ some old
  record_idempotent_response-keeps p n q m header key hash response es es' old rec h =
      keeps (normalized_idempotency_key header) (unfold record_idempotent_response in rec)
    where
      keeps :
          (k : Result (Option Text))
          → (k >>= λ key'. ok (record_with p n hash response es key')) ≡ ok es'
          → get_idempotency_record q m key es' ≡ some old
      keeps (err f) e = cc
      keeps (ok none) e = let e' : es ≡ es' = ground arith in rw (← e') h
      keeps (ok (some key')) e =
          let e' : put_idempotency_record (entry p n key' hash response) es ≡ es' =
            (unfold entry in ground arith) in
          rw (← e') (put-keeps q m key (entry p n key' hash response) old es h)
